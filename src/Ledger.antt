-- ===== src/Ledger.antt =====
-- crates/episcience-db/src/ledger.rs: EpiScience's own ledger of migrations, beside the kernel's. What sqlx does when it
-- makes the table and when it runs migrations, the kernel's contract and the findings of the catalog and of the links are
-- arguments. Left out: the advisory lock, the ledger schema's grants, and statements that fail, which end the command.
pub mod Fingerprints
pub mod Differences
pub mod Locked
pub mod Adoption
pub mod Verification
pub mod Targets
use episcience.Base.{
  ℕ, Bool, true, false, not, ◌&&◌, Option, none, some, List, [], ◌∷◌, ◌++◌, map, ◌==◌,
  if◌then◌else◌, keep, any, leb,
}
use episcience.Base.Results.{Result, ok, err, ◌>>=◌, ◌>>◌}
use episcience.Base.Texts.{Text, text_eq}
use package.episcience.Ledger.Fingerprints.{fingerprint_diff, is_table}

abbrev pub baseline_version : ℕ
baseline_version = 5032

abbrev pub foreign_version_floor : ℕ
foreign_version_floor = 5000

pub record Migration : Type 0 where
  pub version : ℕ
  pub checksum : Text

pub record LedgerRow : Type 0 where
  pub version : ℕ
  pub success : Bool
  pub checksum : Text

-- The ledgers' tables, if they exist, and the lines of the live tables.
pub record Database : Type 0 where
  pub kernel_ledger : Option (List ℕ)
  pub ledger : Option (List LedgerRow)
  pub live : List Text

-- The causes of a refusal.
pub data Refusal : Type 0 where
  baseline_not_embedded legacy_database nothing_to_adopt no_ledger contract : Refusal
  foreign_versions ledger_not_empty : List ℕ → Refusal
  mismatch catalog_findings link_findings : List Text → Refusal
  not_embedded pending recorded_failed other_checksum unknown_version : ℕ → Refusal

pub data LedgerError : Type 0 where
  migrate : LedgerError
  refused : Refusal → LedgerError

pub data AdoptOutcome : Type 0 where
  adopted already_recorded : AdoptOutcome

-- `foreign_versions_in_kernel_ledger`
unfoldable pub foreign_versions_in_kernel_ledger : Database → List ℕ
foreign_versions_in_kernel_ledger s = elim s.kernel_ledger [
  | none ↦ []
  | some versions ↦ keep (λ v. leb foreign_version_floor v) versions
]

abbrev pub ledger_rows : Database → List LedgerRow
ledger_rows s = elim s.ledger [ none ↦ [] | some rows ↦ rows ]

abbrev pub baseline_row : Migration → LedgerRow
baseline_row m = record { version = m.version; success = true; checksum = m.checksum }

abbrev pub find_version : ℕ → List Migration → Option Migration
find_version v [] = none
find_version v (m ∷ ms) = if m.version == v then some m else find_version v ms

abbrev pub is_embedded : List Migration → ℕ → Bool
is_embedded migrator v = any (λ m. m.version == v) migrator

abbrev pub is_nonempty : {A : Type 0} → List A → Bool
is_nonempty [] = false
is_nonempty (x ∷ xs) = true

abbrev pub refuse_foreign : Database → Result LedgerError Unit
refuse_foreign s =
    let foreign = foreign_versions_in_kernel_ledger s in
    if is_nonempty foreign then err (refused (foreign_versions foreign)) else ok tt

-- The ledger holds the baseline's row and nothing else.
abbrev pub is_recorded : Migration → List LedgerRow → Bool
is_recorded baseline [] = false
is_recorded baseline (r ∷ []) =
    (r.version == baseline_version) && r.success && text_eq r.checksum baseline.checksum
is_recorded baseline (r ∷ q ∷ rows) = false

-- `expected` is the committed fingerprint. The database's lines are compared as sets, so their sorting is left out.
unfoldable pub adopt_locked :
    List Text → Migration → Database → Result LedgerError AdoptOutcome × Database
unfolding fingerprint_diff
adopt_locked expected baseline s =
    let diff = fingerprint_diff expected s.live in
    if is_recorded baseline (ledger_rows s)
    then (ok already_recorded, s)
    else if is_nonempty (ledger_rows s)
    then (err (refused (ledger_not_empty (map (λ r. r.version) (ledger_rows s)))), s)
    else if not (any is_table s.live)
    then (err (refused nothing_to_adopt), s)
    else if is_nonempty diff
    then (err (refused (mismatch diff)), s)
    else (ok adopted, record s { ledger = some (baseline_row baseline ∷ []) })

-- `ensure` is sqlx's `ensure_migrations_table`.
unfoldable pub adopt_baseline :
    List Migration
    → List Text
    → (Option (List LedgerRow) → List LedgerRow)
    → Database
    → Result LedgerError AdoptOutcome × Database
unfolding adopt_locked foreign_versions_in_kernel_ledger
adopt_baseline migrator expected ensure s = elim (find_version baseline_version migrator) [
  | none ↦ (err (refused baseline_not_embedded), s)
  | some baseline ↦ elim (refuse_foreign s) [
    | err e ↦ (err e, s)
    | ok u ↦ adopt_locked expected baseline (record s { ledger = some (ensure s.ledger) })
  ]
]

-- The migrations up to a target, if there is one.
unfoldable pub up_to : List Migration → Option ℕ → Result LedgerError (List Migration)
up_to migrator none = ok migrator
up_to migrator (some t) =
    if not (is_embedded migrator t)
    then err (refused (not_embedded t))
    else ok (keep (λ m. leb m.version t) migrator)

abbrev pub refuse_legacy : Database → Result LedgerError Unit
refuse_legacy s =
    if is_nonempty (ledger_rows s)
    then ok tt
    else if any is_table s.live
    then err (refused legacy_database)
    else ok tt

-- `run_direct` is sqlx's: with an error it may have applied a part.
unfoldable pub run_to :
    List Migration
    → (List Migration → Database → Result LedgerError Unit × Database)
    → Option ℕ
    → Database
    → Result LedgerError Unit × Database
unfolding up_to foreign_versions_in_kernel_ledger
run_to migrator run_direct target s = elim (up_to migrator target) [
  | err e ↦ (err e, s)
  | ok chosen ↦ elim (refuse_foreign s) [
    | err e ↦ (err e, s)
    | ok u ↦ elim (refuse_legacy s) [
      | err e ↦ (err e, s)
      | ok u ↦ (let r = run_direct chosen s in (r.0 >>= (λ u. refuse_foreign r.1), r.1))
    ]
  ]
]

abbrev pub find_row : ℕ → List LedgerRow → Option LedgerRow
find_row v [] = none
find_row v (r ∷ rows) = if r.version == v then some r else find_row v rows

-- The record of one embedded migration.
abbrev pub check_row : Migration → Option LedgerRow → Result LedgerError Unit
check_row m none = err (refused (pending m.version))
check_row m (some r) =
    if not r.success
    then err (refused (recorded_failed m.version))
    else if not (text_eq r.checksum m.checksum)
    then err (refused (other_checksum m.version))
    else ok tt

unfoldable pub verify_embedded : List LedgerRow → List Migration → Result LedgerError Unit
verify_embedded recorded [] = ok tt
verify_embedded recorded (m ∷ migrator) =
    check_row m (find_row m.version recorded) >> verify_embedded recorded migrator

unfoldable pub verify_recorded : List Migration → List LedgerRow → Result LedgerError Unit
verify_recorded migrator [] = ok tt
verify_recorded migrator (r ∷ recorded) =
    let rest = verify_recorded migrator recorded in
    if not (is_embedded migrator r.version) then err (refused (unknown_version r.version)) else rest

unfoldable pub verify :
    List Migration
    → (Database → Bool)
    → (Database → List Text)
    → (Database → List Text)
    → Database
    → Result LedgerError Unit
unfolding verify_embedded verify_recorded foreign_versions_in_kernel_ledger
verify migrator assert_kernel_contract catalog links s = elim s.ledger [
  | none ↦ err (refused no_ledger)
  | some recorded ↦
      verify_embedded recorded migrator
      >> verify_recorded migrator recorded
      >> refuse_foreign s
      >> (if assert_kernel_contract s then ok tt else err (refused contract))
      >> (if is_nonempty (catalog s) then err (refused (catalog_findings (catalog s))) else ok tt)
      >> (if is_nonempty (links s) then err (refused (link_findings (links s))) else ok tt)
]
