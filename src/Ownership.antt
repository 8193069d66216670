-- ===== src/Ownership.antt =====
-- crates/episcience-api/src/auth/tenancy.rs: which owner group and visibility a write gets.
-- Messages of the errors are left out. The kernel's answers (its default declaration for an
-- author) and the rows a repository reads are arguments.
pub mod Writable
pub mod Narrowing
use episcience.Base.{
  ◌≡◌, Bool, true, false, not, ◌&&◌, Option, none, some, List, [], ◌∷◌, Uuid, ◌==◌, if◌then◌else◌,
  contains,
}
use episcience.Base.Results.{Result, ok, err, ◌>>=◌, ◌>>◌, ok_or}
use episcience.Tenancy.{Visibility, Ownership, owned_by, is_public}

-- `ApiError`, by its HTTP status.
pub data ApiError : Type 0 where
  not_found validation internal unauthorized forbidden service_unavailable gone : ApiError

-- What the decisions read of the kernel's `Viewer`.
pub record Viewer : Type 0 where
  pub principal : Option Uuid
  pub writable_groups : List Uuid

-- The kernel's `default_decl_for_author`: the owner group it names, if any, or its error.
pub data DeclError : Type 0 where
  membership_revoked personal_group_not_owned other_failure : DeclError

abbrev pub DefaultDecl : Type 0
DefaultDecl = Uuid → Result DeclError (Option Uuid)

abbrev Api : Type 0 → Type 0
Api A = Result ApiError A

pub data RequestedVisibility : Type 0 where
  group private public shared : RequestedVisibility

unfoldable pub resolve : RequestedVisibility → Result ApiError Visibility
resolve RequestedVisibility.group = ok Visibility.group
resolve private = ok Visibility.group
resolve RequestedVisibility.public = ok Visibility.public
resolve shared = err gone

unfoldable pub bound_identity : Option Uuid → Uuid → Result ApiError Uuid
bound_identity none principal = ok principal
bound_identity (some id) principal = if not (id == principal) then err forbidden else ok principal

-- What `default_group` makes of the kernel's answer.
declared : Result DeclError (Option Uuid) → Result ApiError (Option Uuid)
declared (ok d) = ok d
declared (err membership_revoked) = err forbidden
declared (err personal_group_not_owned) = err forbidden
declared (err other_failure) = err internal

abbrev may_write : Viewer → Uuid → Bool
may_write viewer g = contains viewer.writable_groups g

unfoldable pub default_group : DefaultDecl → Viewer → Result ApiError Uuid
unfolding declared
default_group decl viewer = do
  principal ← ok_or viewer.principal forbidden
  found ← declared (decl principal)
  g ← ok_or found internal
  if may_write viewer g then ok g else err forbidden

chosen_group : DefaultDecl → Viewer → Option Uuid → Result ApiError Uuid
chosen_group decl viewer (some g) = if may_write viewer g then ok g else err forbidden
chosen_group decl viewer none = default_group decl viewer

unfoldable pub root_ownership :
    DefaultDecl → Viewer → Option Uuid → Visibility → Result ApiError Ownership
unfolding chosen_group
root_ownership decl viewer requested visibility = do
  g ← chosen_group decl viewer requested
  ok (owned_by g visibility)

-- What the decisions read of a parent synthesis, and of a sample.
pub record ParentRow : Type 0 where
  pub visibility : Visibility
  pub owner_group_id : Option Uuid

pub record SampleRow : Type 0 where
  pub visibility : Option Visibility
  pub owner_group_id : Option Uuid

-- `requested_group.is_some_and(|g| g != parent_group)`
abbrev names_another : Option Uuid → Uuid → Bool
names_another none g = false
names_another (some h) g = not (h == g)

unfoldable pub child_ownership :
    DefaultDecl → Viewer → ParentRow → Option Uuid → Visibility → Result ApiError Ownership
child_ownership decl viewer parent requested visibility =
    if is_public parent.visibility then root_ownership decl viewer requested visibility else do
      parent_group ← ok_or parent.owner_group_id not_found
      if names_another requested parent_group
          then err forbidden
          else if not (may_write viewer parent_group)
          then err forbidden
          else ok (owned_by parent_group Visibility.group)

-- `get_readable` is the repository's: the visibility of a prerequisite that the caller may read.
unfoldable pub narrow_for_prerequisites :
    (Uuid → Result ApiError Visibility) → Visibility → List Uuid → Result ApiError Visibility
narrow_for_prerequisites get_readable Visibility.group ids = ok Visibility.group
narrow_for_prerequisites get_readable Visibility.public [] = ok Visibility.public
narrow_for_prerequisites get_readable Visibility.public (id ∷ ids) = get_readable id >>= λ v.
    elim v [
      | Visibility.public ↦ narrow_for_prerequisites get_readable Visibility.public ids
      | Visibility.group ↦ ok Visibility.group
    ]

-- A `TenancyDecl` has the two fields of an ownership.
unfoldable pub observation_decl : DefaultDecl → Viewer → SampleRow → Result ApiError Ownership
observation_decl decl viewer sample = elim sample.visibility [
  | none ↦ (do g ← default_group decl viewer; ok (owned_by g Visibility.public))
  | some v ↦ elim v [
    | Visibility.public ↦ (do g ← default_group decl viewer; ok (owned_by g Visibility.public))
    | Visibility.group ↦ elim sample.owner_group_id [
      | none ↦ (do g ← default_group decl viewer; ok (owned_by g Visibility.public))
      | some g ↦ ok (owned_by g Visibility.group)
    ]
  ]
]

pair_of : Option Uuid → Option Visibility → Result ApiError Ownership
pair_of (some g) (some v) = ok (owned_by g v)
pair_of g v = err not_found

unfoldable pub blob_ownership : DefaultDecl → Viewer → Option SampleRow → Result ApiError Ownership
unfolding pair_of
blob_ownership decl viewer (some s) = pair_of s.owner_group_id s.visibility
blob_ownership decl viewer none = root_ownership decl viewer none Visibility.public

-- `readable` and `writable` are the repository's answers about the superseded protocol.
unfoldable pub protocol_ownership :
    DefaultDecl
    → (Uuid → Result ApiError Unit)
    → (Uuid → Result ApiError Bool)
    → Viewer
    → Option Uuid
    → Option Uuid
    → Result ApiError Ownership
protocol_ownership decl readable writable viewer none requested =
    root_ownership decl viewer requested Visibility.public
protocol_ownership decl readable writable viewer (some prev) requested = do
  readable prev
  w ← writable prev
  if not w then err forbidden else root_ownership decl viewer requested Visibility.public

-- The kernel's word for the claim's visibility is read as a `Visibility`; every word but `public` counts as `group`.
unfoldable pub countersign_ownership :
    DefaultDecl → Viewer → Visibility → Uuid → Result ApiError Ownership
countersign_ownership decl viewer claim_visibility claim_owner =
    if is_public claim_visibility
    then root_ownership decl viewer none Visibility.public
    else if not (may_write viewer claim_owner)
    then err forbidden
    else ok (owned_by claim_owner Visibility.group)
