-- ===== src/Ledger/Adoption.antt =====
-- What an adoption of a legacy database records, and when.
use episcience.Base.{
  ◌≡◌, refl, sym, ◌∙◌, ap, ℕ, true, Option, none, some, List, [], ◌∷◌, if◌then◌else◌, any, ◌↔◌,
  arith,
}
use episcience.Base.Results.{Result, ok, err}
use episcience.Base.Texts.{Text, text_eq-same, has_text}
use package.episcience.Ledger.{
  baseline_version, Migration, LedgerRow, Database, LedgerError, Refusal, refused, AdoptOutcome,
  adopted, already_recorded, foreign_versions_in_kernel_ledger, ledger_rows, baseline_row,
  find_version, is_nonempty, refuse_foreign, is_recorded, adopt_locked, adopt_baseline,
}
use package.episcience.Ledger.Fingerprints.{is_table}
use package.episcience.Ledger.Differences.{fingerprint_diff_iff}
use package.episcience.Ledger.Locked.{
  find_version-version, is_recorded_lem, LockedAdopts, adopt_locked-LockedAdopts,
}

module _ (migrator : List Migration) (expected : List Text)
    (ensure : Option (List LedgerRow) → List LedgerRow) (creates : ensure none ≡ [])
    (keeps : (rows : List LedgerRow) → ensure (some rows) ≡ rows) where
  -- What an adoption did.
  abbrev pub Adopts : Database → Result LedgerError AdoptOutcome × Database → Type 0
  Adopts s (ok adopted, s') =
      (baseline : Migration) × ((find_version baseline_version migrator ≡ some baseline)
        × (ledger_rows s ≡ [])
        × (foreign_versions_in_kernel_ledger s ≡ [])
        × (any is_table s.live ≡ true)
        × ((line : Text) → has_text expected line ≡ has_text s.live line)
        × (s' ≡ record s { ledger = some (baseline_row baseline ∷ []) })
        × (adopt_baseline migrator expected ensure s' ≡ (ok already_recorded, s')))
  Adopts s (ok already_recorded, s') =
      (baseline : Migration) × ((find_version baseline_version migrator ≡ some baseline)
        × (foreign_versions_in_kernel_ledger s ≡ [])
        × (ledger_rows s ≡ baseline_row baseline ∷ [])
        × (s' ≡ s))
  Adopts s (err e, s') =
      (s'.kernel_ledger ≡ s.kernel_ledger) × (ledger_rows s' ≡ ledger_rows s) × (s'.live ≡ s.live)

  abbrev recorded : Migration → Database → Database
  recorded baseline s = record s { ledger = some (baseline_row baseline ∷ []) }

  -- The adoption of an adopted database.
  again :
      (s : Database) (baseline : Migration)
      → find_version baseline_version migrator ≡ some baseline
      → refuse_foreign s ≡ ok tt
      → adopt_baseline migrator expected ensure (recorded baseline s)
        ≡ (ok already_recorded, recorded baseline s)
  unfolding adopt_baseline adopt_locked
  again s baseline e f =
      rw
        (
          adopt_baseline,
          e,
          f,
          adopt_locked,
          keeps (baseline_row baseline ∷ []),
          find_version-version baseline_version migrator baseline e,
          text_eq-same baseline.checksum,
        )
        refl

  -- With the ledger's table made, if it was not there.
  abbrev prepared : Database → Database
  prepared s = record s { ledger = some (ensure s.ledger) }

  ledger_rows-prepared :
      (o : Option (List LedgerRow)) → ensure o ≡ elim o [ none ↦ [] | some rows ↦ rows ]
  ledger_rows-prepared none = creates
  ledger_rows-prepared (some rows) = keeps rows

  -- A ledger with a row had a table.
  prepared-same :
      (baseline : Migration) (s : Database)
      → is_recorded baseline (ledger_rows s) ≡ true
      → prepared s ≡ s
  prepared-same baseline s h = go s.ledger h
    where
      go :
          (o : Option (List LedgerRow))
          → is_recorded baseline (elim o [ none ↦ [] | some rows ↦ rows ]) ≡ true
          → ◌≡◌ {A = Database} (record s { ledger = some (ensure o) }) (record s { ledger = o })
      go none h = absurd (grind (arith, h))
      go (some rows) h = ap {B = Database} (λ l. record s { ledger = some l }) (keeps rows)

  no_foreign : (s : Database) → refuse_foreign s ≡ ok tt → foreign_versions_in_kernel_ledger s ≡ []
  no_foreign s h = go (foreign_versions_in_kernel_ledger s) h
    where
      go :
          (vs : List ℕ)
          → (if is_nonempty vs then err (refused (Refusal.foreign_versions vs)) else ok tt) ≡ ok tt
          → vs ≡ []
      go [] h = refl
      go (v ∷ vs) h = absurd (grind (arith, h))

  lifted :
      (baseline : Migration) (s : Database)
      → find_version baseline_version migrator ≡ some baseline
      → refuse_foreign s ≡ ok tt
      → (r : Result LedgerError AdoptOutcome × Database)
      → LockedAdopts expected baseline (prepared s) r
      → Adopts s r
  lifted baseline s e f (ok adopted, s') (h0, h1, h2, h3) = (
    baseline,
    (
      e,
      sym (ledger_rows-prepared s.ledger) ∙ h0,
      no_foreign s f,
      h1,
      h2,
      h3,
      ap (adopt_baseline migrator expected ensure) h3
          ∙ again s baseline e f
          ∙ ap (λ d. (ok already_recorded, d)) (sym h3),
    ),
  )
  lifted baseline s e f (ok already_recorded, s') (h0, h1) =
      let r : is_recorded baseline (ledger_rows s) ≡ true =
        ap (is_recorded baseline) (sym (ledger_rows-prepared s.ledger)) ∙ h0 in
      let k = find_version-version baseline_version migrator baseline e in
      let rows = is_recorded_lem baseline (ledger_rows s) k r in
      (baseline, (e, no_foreign s f, rows, h1 ∙ prepared-same baseline s r))
  lifted baseline s e f (err x, s') h = (
    ap (λ (d : Database). d.kernel_ledger) h,
    ap ledger_rows h ∙ ledger_rows-prepared s.ledger,
    ap (λ (d : Database). d.live) h,
  )

  took-Adopts : (s : Database) → Adopts s (adopt_baseline migrator expected ensure s)
  unfolding adopt_baseline
  took-Adopts s = go (find_version baseline_version migrator) refl
    where
      guarded :
          (baseline : Migration)
          → find_version baseline_version migrator ≡ some baseline
          → (r : Result LedgerError Unit) → refuse_foreign s ≡ r
          → Adopts s (elim r as (λ r. Result LedgerError AdoptOutcome × Database) [
            | err e ↦ (err e, s)
            | ok u ↦ adopt_locked expected baseline (record s { ledger = some (ensure s.ledger) })
          ])
      guarded baseline e (err x) f = (refl, refl, refl)
      guarded baseline e (ok u) f =
          lifted baseline s e f _ (adopt_locked-LockedAdopts expected baseline (prepared s))

      go :
          (o : Option Migration)
          → find_version baseline_version migrator ≡ o
          → Adopts s (elim o as (λ o. Result LedgerError AdoptOutcome × Database) [
            | none ↦ (err (refused Refusal.baseline_not_embedded), s)
            | some baseline ↦ elim (refuse_foreign s) [
              | err e ↦ (err e, s)
              | ok u ↦ adopt_locked expected baseline (record s { ledger = some (ensure s.ledger) })
            ]
          ])
      go none e = (refl, refl, refl)
      go (some baseline) e = guarded baseline e (refuse_foreign s) refl

  -- The databases on which the baseline is recorded.
  abbrev pub IsAdoptable : Database → Type 0
  IsAdoptable s =
      (baseline : Migration) × ((find_version baseline_version migrator ≡ some baseline)
        × (foreign_versions_in_kernel_ledger s ≡ [])
        × (ledger_rows s ≡ [])
        × (any is_table s.live ≡ true)
        × ((line : Text) → has_text expected line ≡ has_text s.live line))

  -- The databases on which it is found recorded.
  abbrev pub IsAdopted : Database → Type 0
  IsAdopted s =
      (baseline : Migration) × ((find_version baseline_version migrator ≡ some baseline)
        × (foreign_versions_in_kernel_ledger s ≡ [])
        × (ledger_rows s ≡ baseline_row baseline ∷ []))

  refuse_foreign_none :
      (s : Database) → foreign_versions_in_kernel_ledger s ≡ [] → refuse_foreign s ≡ ok tt
  refuse_foreign_none s h =
      ap {B = Result LedgerError Unit}
        (λ vs. if is_nonempty vs then err (refused (Refusal.foreign_versions vs)) else ok tt) h

  adopts :
      (s : Database) → IsAdoptable s → (adopt_baseline migrator expected ensure s).0 ≡ ok adopted
  unfolding adopt_baseline adopt_locked
  adopts s (baseline, (e, f, l, t, d)) =
      rw
        (
          adopt_baseline,
          e,
          refuse_foreign_none s f,
          adopt_locked,
          ledger_rows-prepared s.ledger ∙ l,
          t,
          (fingerprint_diff_iff expected s.live).1 d,
        )
        refl

  finds :
      (s : Database)
      → IsAdopted s
      → (adopt_baseline migrator expected ensure s).0 ≡ ok already_recorded
  unfolding adopt_baseline adopt_locked
  finds s (baseline, (e, f, l)) =
      rw
        (
          adopt_baseline,
          e,
          refuse_foreign_none s f,
          adopt_locked,
          ledger_rows-prepared s.ledger ∙ l,
          find_version-version baseline_version migrator baseline e,
          text_eq-same baseline.checksum,
        )
        refl

  adopted_before :
      (s : Database) (r : Result LedgerError AdoptOutcome × Database)
      → Adopts s r
      → (r.0 ≡ ok adopted → IsAdoptable s) × (r.0 ≡ ok already_recorded → IsAdopted s)
  adopted_before s (ok adopted, s') (baseline, (e, l, f, t, d, _, _)) =
      ((λ h. (baseline, (e, f, l, t, d))), (λ h. absurd (grind (arith, h))))
  adopted_before s (ok already_recorded, s') (baseline, (e, f, l, _)) =
      ((λ h. absurd (grind (arith, h))), (λ h. (baseline, (e, f, l))))
  adopted_before s (err x, s') a =
      ((λ h. absurd (grind (arith, h))), (λ h. absurd (grind (arith, h))))

  -- If sqlx makes the ledger's table empty where there is none and leaves one that is there: an adoption records the
  -- baseline exactly if a baseline is embedded and the database has tables, a ledger that is empty or missing, no version
  -- of EpiScience's in the kernel ledger, and a fingerprint with the same lines as the committed one. It then adds the
  -- row of the embedded baseline and nothing else, and a second adoption finds it recorded and changes nothing. An
  -- adoption finds the baseline recorded exactly if one is embedded, the ledger holds its row and no other, and the kernel
  -- ledger holds no version of EpiScience's; it then changes nothing. One that fails changes no record.
  pub adopt_baseline-Adopts :
      (s : Database)
      → Adopts s (adopt_baseline migrator expected ensure s)
        × (IsAdoptable s ↔ ((adopt_baseline migrator expected ensure s).0 ≡ ok adopted))
        × (IsAdopted s ↔ ((adopt_baseline migrator expected ensure s).0 ≡ ok already_recorded))
  adopt_baseline-Adopts s =
      let before = adopted_before s (adopt_baseline migrator expected ensure s) (took-Adopts s) in
      (took-Adopts s, (adopts s, before.0), (finds s, before.1))
