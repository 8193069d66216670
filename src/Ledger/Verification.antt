-- ===== src/Ledger/Verification.antt =====
-- Which databases `verify` accepts.
use mathlib.Core.Option.{some-injective}
use episcience.Base.{
  ◌≡◌, ◌↔◌, refl, sym, ◌∙◌, ap, subst, Bool, true, false, not, Option, none, some, List, [], ◌∷◌,
  if◌then◌else◌, All, arith,
}
use episcience.Base.Results.{Result, ok, err, ◌>>◌, >>-both}
use episcience.Base.Texts.{Text, text_eq, text_eq-same, text_eq-exact}
use package.episcience.Ledger.{
  Migration, LedgerRow, Database, LedgerError, Refusal, refused, foreign_versions_in_kernel_ledger,
  is_embedded, is_nonempty, refuse_foreign, find_row, check_row, verify_embedded, verify_recorded,
  verify,
}

-- The ledger's row of a migration, successful and with its checksum.
abbrev pub IsRecorded : List LedgerRow → Migration → Type 0
IsRecorded recorded m =
    (r : LedgerRow) × ((find_row m.version recorded ≡ some r)
      × (r.success ≡ true)
      × (r.checksum ≡ m.checksum))

check_row_iff :
    (m : Migration) (o : Option LedgerRow)
    → (check_row m o ≡ ok tt)
      ↔ ((r : LedgerRow) × ((o ≡ some r) × (r.success ≡ true) × (r.checksum ≡ m.checksum)))
check_row_iff m none = (λ h. absurd (grind (arith, h)), λ h. absurd (grind (arith, h.1.0)))
check_row_iff m (some r) = (
  λ h. let c = checked r.success (text_eq r.checksum m.checksum) refl h in (r, (refl, c.0, c.1)),
  λ h.
      let e = some-injective r h.0 h.1.0 in
      rw
        (
          ap (λ (r : LedgerRow). r.success) e ∙ h.1.1,
          ap (λ (r : LedgerRow). text_eq r.checksum m.checksum) e
              ∙ ap (λ c. text_eq c m.checksum) h.1.2
              ∙ text_eq-same m.checksum,
        )
        refl,
)
  where
    checked :
        (a b : Bool)
        → text_eq r.checksum m.checksum ≡ b
        → (if not a
            then err (refused (Refusal.recorded_failed m.version))
            else if not b
            then err (refused (Refusal.other_checksum m.version))
            else ok tt)
          ≡ ok tt
        → (a ≡ true) × (r.checksum ≡ m.checksum)
    checked true true e h = (refl, text_eq-exact r.checksum m.checksum e)
    checked true false e h = absurd (grind (arith, h))
    checked false b e h = absurd (grind (arith, h))

verify_embedded_iff :
    (recorded : List LedgerRow) (migrator : List Migration)
    → (verify_embedded recorded migrator ≡ ok tt) ↔ All (IsRecorded recorded) migrator
unfolding verify_embedded
verify_embedded_iff recorded [] = (λ h. tt, λ h. refl)
verify_embedded_iff recorded (m ∷ migrator) =
    >>-both (check_row m (find_row m.version recorded)) (verify_embedded recorded migrator)
      (check_row_iff m (find_row m.version recorded)) (verify_embedded_iff recorded migrator)

verify_recorded_iff :
    (migrator : List Migration) (recorded : List LedgerRow)
    → (verify_recorded migrator recorded ≡ ok tt)
      ↔ All (λ r. is_embedded migrator r.version ≡ true) recorded
unfolding verify_recorded
verify_recorded_iff migrator [] = (λ h. tt, λ h. refl)
verify_recorded_iff migrator (r ∷ recorded) =
    go (is_embedded migrator r.version) refl (verify_recorded_iff migrator recorded)
  where
    go :
        (b : Bool)
        → is_embedded migrator r.version ≡ b
        → (verify_recorded migrator recorded ≡ ok tt)
          ↔ All (λ r. is_embedded migrator r.version ≡ true) recorded
        → ((if not b
              then err (refused (Refusal.unknown_version r.version))
              else verify_recorded migrator recorded)
            ≡ ok tt)
          ↔ All (λ r. is_embedded migrator r.version ≡ true) (r ∷ recorded)
    go true k i = (λ h. (k, i.0 h), λ h. i.1 h.1)
    go false k i = (λ h. absurd (grind (arith, h)), λ h. absurd (grind (arith, k, h.0)))

no_findings_iff :
    {A : Type 0} (xs : List A) (e : LedgerError)
    → ((if is_nonempty xs then err e else ok tt) ≡ ok tt) ↔ (xs ≡ [])
no_findings_iff [] e = (λ h. refl, λ h. refl)
no_findings_iff (x ∷ xs) e = (λ h. absurd (grind (arith, h)), λ h. absurd (grind (arith, h)))

contract_iff : (b : Bool) (e : LedgerError) → ((if b then ok tt else err e) ≡ ok tt) ↔ (b ≡ true)
contract_iff true e = (λ h. refl, λ h. refl)
contract_iff false e = (λ h. absurd (grind (arith, h)), λ h. absurd (grind (arith, h)))

module _ (migrator : List Migration) (assert_kernel_contract : Database → Bool)
    (catalog links : Database → List Text) where
  -- What a deployed database is.
  abbrev pub IsDeployed : Database → Type 0
  IsDeployed s =
      (recorded : List LedgerRow) × ((s.ledger ≡ some recorded)
        × All (IsRecorded recorded) migrator
        × All (λ r. is_embedded migrator r.version ≡ true) recorded
        × (foreign_versions_in_kernel_ledger s ≡ [])
        × (assert_kernel_contract s ≡ true)
        × (catalog s ≡ [])
        × (links s ≡ []))

  -- For any contract and any findings: a database is verified exactly if its ledger exists, records each embedded
  -- migration as successful with the embedded checksum and no version that is not embedded, the kernel's ledger holds no
  -- version of EpiScience's, the kernel's contract holds, and neither the catalog nor the links have findings.
  pub verify_iff :
      (s : Database)
      → (verify migrator assert_kernel_contract catalog links s ≡ ok tt) ↔ IsDeployed s
  unfolding verify
  verify_iff s = go s.ledger refl
    where
      go :
          (o : Option (List LedgerRow))
          → s.ledger ≡ o
          → (elim o as (λ o. Result LedgerError Unit) [
            | none ↦ err (refused Refusal.no_ledger)
            | some recorded ↦
                verify_embedded recorded migrator
                >> verify_recorded migrator recorded
                >> refuse_foreign s
                >> (if assert_kernel_contract s then ok tt else err (refused Refusal.contract))
                >> (if is_nonempty (catalog s)
                    then err (refused (Refusal.catalog_findings (catalog s)))
                    else ok tt)
                >> (if is_nonempty (links s)
                    then err (refused (Refusal.link_findings (links s)))
                    else ok tt)
          ]
              ≡ ok tt)
            ↔ IsDeployed s
      go none e = (λ h. absurd (grind (arith, h)), λ h. absurd (grind (arith, e, h.1.0)))
      go (some recorded) e =
          let passes =
            >>-both _ _
              (>>-both _ _
                (>>-both _ _
                  (>>-both _ _
                    (>>-both _ _ (verify_embedded_iff recorded migrator)
                      (verify_recorded_iff migrator recorded))
                    (no_findings_iff (foreign_versions_in_kernel_ledger s) _))
                  (contract_iff (assert_kernel_contract s) (refused Refusal.contract)))
                (no_findings_iff (catalog s) (refused (Refusal.catalog_findings (catalog s)))))
              (no_findings_iff (links s) (refused (Refusal.link_findings (links s)))) in
          (
            λ h.
                let p = passes.0 h in
                (recorded, (e, p.0.0.0.0.0, p.0.0.0.0.1, p.0.0.0.1, p.0.0.1, p.0.1, p.1)),
            λ d.
                let same = some-injective d.0 recorded (sym d.1.0 ∙ e) in
                passes.1 (
                  (
                    (
                      (
                        (
                          subst (λ rows. All (IsRecorded rows) migrator) same d.1.1,
                          subst (All (λ r. is_embedded migrator r.version ≡ true)) same d.1.2,
                        ),
                        d.1.3,
                      ),
                      d.1.4,
                    ),
                    d.1.5,
                  ),
                  d.1.6,
                ),
          )
