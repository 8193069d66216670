-- ===== src/Ledger/Targets.antt =====
-- What a run of the migrations applies, and when it refuses.
use episcience.Base.{
  ◌≡◌, refl, sym, ◌∙◌, ap, ◌⊎◌, inl, inr, ℕ, ◌==◌, ==_iff, Bool, true, false, not, ◌&&◌, ◌||◌,
  Option, none, some, List, [], ◌∷◌, if◌then◌else◌, keep, any, leb, arith,
}
use episcience.Base.Results.{Result, ok, err, ◌>>=◌, Yields}
use package.episcience.Ledger.{
  Migration, LedgerRow, Database, LedgerError, Refusal, refused, foreign_versions_in_kernel_ledger,
  ledger_rows, is_embedded, is_nonempty, refuse_foreign, up_to, refuse_legacy, run_to,
}
use package.episcience.Ledger.Fingerprints.{is_table}

-- The migrations that a target stands for.
abbrev pub IsTarget : List Migration → Option ℕ → List Migration → Type 0
IsTarget migrator none chosen = chosen ≡ migrator
IsTarget migrator (some t) chosen =
    (is_embedded migrator t ≡ true)
    × ((v : ℕ) → is_embedded chosen v ≡ (is_embedded migrator v && leb v t))

and_false : (b : Bool) → (b && false) ≡ false
and_false true = refl
and_false false = refl

is_embedded-keep :
    (t v : ℕ) (ms : List Migration)
    → is_embedded (keep (λ m. leb m.version t) ms) v ≡ (is_embedded ms v && leb v t)
is_embedded-keep t v [] = refl
is_embedded-keep t v (m ∷ ms) =
    go (leb m.version t) (m.version == v) refl refl (is_embedded-keep t v ms)
  where
    within : (b : Bool) → leb m.version t ≡ b → (m.version == v) ≡ true → leb v t ≡ b
    within b h k = ap (λ n. leb n t) (sym ((==_iff m.version v).0 k)) ∙ h

    go :
        (a b : Bool)
        → leb m.version t ≡ a
        → (m.version == v) ≡ b
        → is_embedded (keep (λ m. leb m.version t) ms) v ≡ (is_embedded ms v && leb v t)
        → is_embedded
            (if a then m ∷ keep (λ m. leb m.version t) ms else keep (λ m. leb m.version t) ms)
            v
          ≡ ((b || is_embedded ms v) && leb v t)
    go true true h k i = rw k (sym (within true h k))
    go true false h k i = rw k i
    go false true h k i = i ∙ rw (within false h k) (and_false (is_embedded ms v))
    go false false h k i = i

module _ (migrator : List Migration)
    (run_direct : List Migration → Database → Result LedgerError Unit × Database) where
  -- No version of EpiScience's is in the kernel's ledger, and no legacy database is run.
  abbrev pub MayRun : Database → Type 0
  MayRun s =
      (foreign_versions_in_kernel_ledger s ≡ [])
      × (ledger_rows s ≡ [] → any is_table s.live ≡ false)

  -- What a run did.
  abbrev pub Runs : Option ℕ → Database → Result LedgerError Unit × Database → Type 0
  Runs target s (ok u, s') =
      MayRun s
      × ((chosen : List Migration) × (IsTarget migrator target chosen
            × (run_direct chosen s ≡ (ok tt, s'))))
      × (foreign_versions_in_kernel_ledger s' ≡ [])
  Runs target s (err e, s') =
      (s' ≡ s)
      ⊎ (MayRun s
          × ((chosen : List Migration) × (IsTarget migrator target chosen
                × ((run_direct chosen s ≡ (err e, s'))
                    ⊎ ((run_direct chosen s ≡ (ok tt, s'))
                        × (is_nonempty (foreign_versions_in_kernel_ledger s') ≡ true))))))

  up_to-IsTarget : (target : Option ℕ) → Yields (IsTarget migrator target) (up_to migrator target)
  unfolding up_to
  up_to-IsTarget none = refl
  up_to-IsTarget (some t) = go (is_embedded migrator t) refl
    where
      go :
          (b : Bool)
          → is_embedded migrator t ≡ b
          → Yields (IsTarget migrator (some t)) (
              if not b
              then err (refused (Refusal.not_embedded t))
              else ok (keep (λ m. leb m.version t) migrator))
      go true e = (e, λ v. is_embedded-keep t v migrator)
      go false e = tt

  none_foreign :
      (vs : List ℕ)
      → Yields
          (λ u. vs ≡ [])
          (if◌then◌else◌ {A = Result LedgerError (Unit {0})}
            (is_nonempty vs)
            (err (refused (Refusal.foreign_versions vs)))
            (ok tt))
  none_foreign [] = refl
  none_foreign (v ∷ vs) = tt

  none_legacy :
      (s : Database)
      → Yields (λ u. ledger_rows s ≡ [] → any is_table s.live ≡ false) (refuse_legacy s)
  none_legacy s = go (ledger_rows s) (any is_table s.live)
    where
      go :
          (rows : List LedgerRow) (b : Bool)
          → Yields
              (λ u. rows ≡ [] → b ≡ false)
              (if◌then◌else◌ {A = Result LedgerError (Unit {0})}
                (is_nonempty rows)
                (ok tt)
                (if b then err (refused Refusal.legacy_database) else ok tt))
      go [] true = tt
      go [] false = λ h. refl
      go (r ∷ rows) b = λ h. absurd (grind (arith, h))

  -- sqlx's run, and the check behind it.
  after_run :
      (target : Option ℕ) (s : Database) (chosen : List Migration)
      → MayRun s
      → IsTarget migrator target chosen
      → (r : Result LedgerError Unit × Database) → run_direct chosen s ≡ r
      → Runs target s (r.0 >>= (λ u. refuse_foreign r.1), r.1)
  after_run target s chosen m i (err e, s') q = inr (m, (chosen, (i, inl q)))
  after_run target s chosen m i (ok u, s') q = go (foreign_versions_in_kernel_ledger s') refl
    where
      go :
          (vs : List ℕ)
          → foreign_versions_in_kernel_ledger s' ≡ vs
          → Runs target s (
            if◌then◌else◌ {A = Result LedgerError (Unit {0})}
                (is_nonempty vs)
                (err (refused (Refusal.foreign_versions vs)))
                (ok tt),
            s',
          )
      go [] e = (m, (chosen, (i, q)), e)
      go (v ∷ vs) e = inr (m, (chosen, (i, inr (q, ap is_nonempty e))))

  -- For any behaviour of sqlx: a run that succeeds has given sqlx the embedded versions up to an embedded target and no
  -- other, all of them without a target, on a database that is no legacy database with an empty ledger, and sqlx succeeded; and before
  -- and after it the kernel's ledger holds no version of EpiScience's. A run that fails has changed nothing, or sqlx was
  -- given just these migrations on such a database, and failed with this error or left such a version in the kernel's
  -- ledger.
  pub run_to-Runs :
      (target : Option ℕ) (s : Database) → Runs target s (run_to migrator run_direct target s)
  unfolding run_to
  run_to-Runs target s = go (up_to migrator target) (up_to-IsTarget target)
    where
      Out : Type 0
      Out = Result LedgerError Unit × Database

      ran : List Migration → Out
      ran chosen = let r = run_direct chosen s in (r.0 >>= (λ u. refuse_foreign r.1), r.1)

      legacy :
          (chosen : List Migration)
          → IsTarget migrator target chosen
          → foreign_versions_in_kernel_ledger s ≡ []
          → (r : Result LedgerError Unit)
          → Yields (λ u. ledger_rows s ≡ [] → any is_table s.live ≡ false) r
          → Runs target s (elim r as (λ r. Out) [ err e ↦ (err e, s) | ok u ↦ ran chosen ])
      legacy chosen i f (err e) y = inl refl
      legacy chosen i f (ok u) y = after_run target s chosen (f, y) i (run_direct chosen s) refl

      foreign :
          (chosen : List Migration)
          → IsTarget migrator target chosen
          → (r : Result LedgerError Unit) → Yields (λ u. foreign_versions_in_kernel_ledger s ≡ []) r
          → Runs target s (elim r as (λ r. Out) [
            | err e ↦ (err e, s)
            | ok u ↦ elim (refuse_legacy s) [ err e ↦ (err e, s) | ok u ↦ ran chosen ]
          ])
      foreign chosen i (err e) y = inl refl
      foreign chosen i (ok u) y = legacy chosen i y (refuse_legacy s) (none_legacy s)

      go :
          (r : Result LedgerError (List Migration))
          → Yields (IsTarget migrator target) r
          → Runs target s (elim r as (λ r. Out) [
            | err e ↦ (err e, s)
            | ok chosen ↦ elim (refuse_foreign s) [
              | err e ↦ (err e, s)
              | ok u ↦ elim (refuse_legacy s) [ err e ↦ (err e, s) | ok u ↦ ran chosen ]
            ]
          ])
      go (err e) y = inl refl
      go (ok chosen) y =
          foreign chosen y (refuse_foreign s) (none_foreign (foreign_versions_in_kernel_ledger s))
