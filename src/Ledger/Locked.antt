-- ===== src/Ledger/Locked.antt =====
-- What the part of an adoption behind the lock records, and when.
use mathlib.Core.Option.{some-injective}
use episcience.Base.{
  ◌≡◌, refl, sym, ◌∙◌, ap, ℕ, Bool, true, false, not, some, List, [], ◌∷◌, map, ◌==◌, ==_iff, ◌&&◌,
  if◌then◌else◌, any, arith,
}
use episcience.Base.Results.{Result, ok, err}
use episcience.Base.Texts.{Text, text_eq, text_eq-exact, has_text}
use package.episcience.Ledger.{
  baseline_version, Migration, LedgerRow, Database, LedgerError, Refusal, refused, AdoptOutcome,
  adopted, already_recorded, ledger_rows, baseline_row, find_version, is_nonempty, is_recorded,
  adopt_locked,
}
use package.episcience.Ledger.Fingerprints.{fingerprint_diff, is_table}
use package.episcience.Ledger.Differences.{fingerprint_diff_iff}

-- A ledger that holds the baseline's row and nothing else.
pub is_recorded_lem :
    (baseline : Migration) (rows : List LedgerRow)
    → (baseline.version == baseline_version) ≡ true
    → is_recorded baseline rows ≡ true
    → rows ≡ baseline_row baseline ∷ []
is_recorded_lem baseline [] k h = absurd (grind (arith, h))
is_recorded_lem baseline (r ∷ q ∷ rows) k h = absurd (grind (arith, h))
is_recorded_lem baseline (r ∷ []) k h =
    go (r.version == baseline_version) r.success (text_eq r.checksum baseline.checksum) refl refl
      refl h
  where
    go :
        (v b t : Bool)
        → (r.version == baseline_version) ≡ v
        → r.success ≡ b
        → text_eq r.checksum baseline.checksum ≡ t
        → ((v && b) && t) ≡ true
        → ◌≡◌ {A = List LedgerRow} (r ∷ []) (baseline_row baseline ∷ [])
    go false b t hv hb ht h = absurd (grind (arith, h))
    go true false t hv hb ht h = absurd (grind (arith, h))
    go true true false hv hb ht h = absurd (grind (arith, h))
    go true true true hv hb ht h =
        ap {B = List LedgerRow}
          (λ v. record { version = v; success = r.success; checksum = r.checksum } ∷ [])
          ((==_iff r.version baseline_version).0 hv
            ∙ sym ((==_iff baseline.version baseline_version).0 k))
        ∙ ap {B = List LedgerRow}
            (λ b. record { version = baseline.version; success = b; checksum = r.checksum } ∷ []) hb
        ∙ ap {B = List LedgerRow}
            (λ t. record { version = baseline.version; success = true; checksum = t } ∷ [])
            (text_eq-exact r.checksum baseline.checksum ht)

pub empty_list : {A : Type 0} (xs : List A) → is_nonempty xs ≡ false → xs ≡ []
empty_list [] h = refl
empty_list (x ∷ xs) h = absurd (grind (arith, h))

pub find_version-version :
    (v : ℕ) (ms : List Migration) (m : Migration)
    → find_version v ms ≡ some m
    → (m.version == v) ≡ true
find_version-version v [] m h = absurd (grind (arith, h))
find_version-version v (n ∷ ms) m h = go (n.version == v) refl (find_version-version v ms m) h
  where
    go :
        (b : Bool)
        → (n.version == v) ≡ b
        → (find_version v ms ≡ some m → (m.version == v) ≡ true)
        → (if b then some n else find_version v ms) ≡ some m
        → (m.version == v) ≡ true
    go true k f h = ap (λ (m : Migration). m.version == v) (sym (some-injective n m h)) ∙ k
    go false k f h = f h

module _ (expected : List Text) (baseline : Migration) where
  -- The lock's part, on a database whose ledger's table exists.
  abbrev pub LockedAdopts : Database → Result LedgerError AdoptOutcome × Database → Type 0
  LockedAdopts s (ok adopted, s') =
      (ledger_rows s ≡ [])
      × (any is_table s.live ≡ true)
      × ((line : Text) → has_text expected line ≡ has_text s.live line)
      × (s' ≡ record s { ledger = some (baseline_row baseline ∷ []) })
  LockedAdopts s (ok already_recorded, s') =
      (is_recorded baseline (ledger_rows s) ≡ true) × (s' ≡ s)
  LockedAdopts s (err e, s') = s' ≡ s

  pub adopt_locked-LockedAdopts : (s : Database) → LockedAdopts s (adopt_locked expected baseline s)
  unfolding adopt_locked
  adopt_locked-LockedAdopts s =
      go (is_recorded baseline (ledger_rows s)) (is_nonempty (ledger_rows s)) (any is_table s.live)
        (is_nonempty diff) refl refl refl refl
    where
      diff : List Text
      diff = fingerprint_diff expected s.live

      go :
          (r n t d : Bool)
          → is_recorded baseline (ledger_rows s) ≡ r
          → is_nonempty (ledger_rows s) ≡ n
          → any is_table s.live ≡ t
          → is_nonempty diff ≡ d
          → LockedAdopts s (
              if r
              then (ok already_recorded, s)
              else if n
              then (
                err (refused (Refusal.ledger_not_empty (map (λ r. r.version) (ledger_rows s)))),
                s,
              )
              else if not t
              then (err (refused Refusal.nothing_to_adopt), s)
              else if d
              then (err (refused (Refusal.mismatch diff)), s)
              else (ok adopted, record s { ledger = some (baseline_row baseline ∷ []) }))
      go true n t d hr hn ht hd = (hr, refl)
      go false true t d hr hn ht hd = refl
      go false false false d hr hn ht hd = refl
      go false false true true hr hn ht hd = refl
      go false false true false hr hn ht hd = (
        empty_list (ledger_rows s) hn,
        ht,
        (fingerprint_diff_iff expected s.live).0 (empty_list diff hd),
        refl,
      )
