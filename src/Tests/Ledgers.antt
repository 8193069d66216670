-- ===== src/Tests/Ledgers.antt =====
-- Examples of ledgers: a legacy database that is adopted, an empty one that is migrated, and one that is verified.
use episcience.Base.{◌≡◌, ◌↔◌, refl, true, Option, none, some, List, [], ◌∷◌, map}
use episcience.Base.Results.{Result, ok}
use episcience.Base.Texts.{Text, has_text}
use episcience.Ledger.{
  Migration, LedgerRow, Database, LedgerError, baseline_row, adopted, already_recorded,
  adopt_baseline, run_to, verify,
}
use episcience.Ledger.Fingerprints.{fingerprint_diff}
use episcience.Ledger.Differences.{fingerprint_diff_iff}
use episcience.Ledger.Adoption.{Adopts, IsAdoptable, IsAdopted, adopt_baseline-Adopts}
use episcience.Ledger.Targets.{Runs, run_to-Runs}
use episcience.Ledger.Verification.{IsDeployed, verify_iff}

abbrev baseline : Migration
baseline = record { version = 5032; checksum = 1 ∷ [] }

abbrev migrator : List Migration
migrator = baseline ∷ record { version = 5033; checksum = 2 ∷ [] } ∷ []

abbrev table : Text
table = b't' ∷ b'a' ∷ b'b' ∷ b'l' ∷ b'e' ∷ b' ' ∷ b'x' ∷ []

abbrev legacy : Database
legacy = record { kernel_ledger = some (12 ∷ []); ledger = none; live = table ∷ [] }

abbrev ensure : Option (List LedgerRow) → List LedgerRow
ensure none = []
ensure (some rows) = rows

fingerprint_diff_example :
    (fingerprint_diff (table ∷ []) (table ∷ table ∷ []) ≡ [])
    ↔ ((x : Text) → has_text (table ∷ []) x ≡ has_text (table ∷ table ∷ []) x)
fingerprint_diff_example = fingerprint_diff_iff (table ∷ []) (table ∷ table ∷ [])

adopt_baseline_example :
    Adopts migrator
      (table ∷ [])
      ensure
      refl
      (λ rows. refl)
      legacy
      (adopt_baseline migrator (table ∷ []) ensure legacy)
    × (IsAdoptable migrator (table ∷ []) ensure refl (λ rows. refl) legacy
        ↔ ((adopt_baseline migrator (table ∷ []) ensure legacy).0 ≡ ok adopted))
    × (IsAdopted migrator (table ∷ []) ensure refl (λ rows. refl) legacy
        ↔ ((adopt_baseline migrator (table ∷ []) ensure legacy).0 ≡ ok already_recorded))
adopt_baseline_example =
    adopt_baseline-Adopts migrator (table ∷ []) ensure refl (λ rows. refl) legacy

adoption : (adopt_baseline migrator (table ∷ []) ensure legacy).0 ≡ ok adopted
unfolding adopt_baseline
adoption = refl

abbrev run_direct : List Migration → Database → Result LedgerError Unit × Database
run_direct ms s = (ok tt, record s { ledger = some (map baseline_row ms) })

abbrev empty : Database
empty = record { kernel_ledger = none; ledger = none; live = [] }

run_to_example :
    Runs migrator run_direct (some 5032) empty (run_to migrator run_direct (some 5032) empty)
run_to_example = run_to-Runs migrator run_direct (some 5032) empty

abbrev deployed : Database
deployed = record {
  kernel_ledger = none;
  ledger = some (map baseline_row migrator);
  live = table ∷ [];
}

verify_example :
    (verify migrator (λ s. true) (λ s. []) (λ s. []) deployed ≡ ok tt)
    ↔ IsDeployed migrator (λ s. true) (λ s. []) (λ s. []) deployed
verify_example = verify_iff migrator (λ s. true) (λ s. []) (λ s. []) deployed

verified : verify migrator (λ s. true) (λ s. []) (λ s. []) deployed ≡ ok tt
unfolding verify
verified = refl
