-- ===== src/Ownership/Narrowing.antt =====
-- A derived row is never readable by more callers than the row it derives from.
use episcience.Base.{
  ◌≡◌, refl, Bool, true, false, not, Option, none, some, List, [], ◌∷◌, Uuid, if◌then◌else◌, All,
  arith, ◌↔◌,
}
use episcience.Base.Results.{Result, ok, err, ◌>>=◌, Yields, Yields-map}
use episcience.Tenancy.{Visibility, Ownership, owned_by, is_public, read_predicate}
use package.episcience.Ownership.{
  ApiError, Viewer, DefaultDecl, root_ownership, ParentRow, child_ownership, may_write,
  names_another, narrow_for_prerequisites, countersign_ownership,
}
use package.episcience.Ownership.Writable.{CanWrite, WritesAs, root_ownership_lem}

-- Whether a caller with these groups may read a row that may have no owner group.
abbrev pub may_read : Visibility → Option Uuid → List Uuid → Bool
may_read v none groups = is_public v
may_read v (some g) groups = read_predicate v g groups

-- Every caller who may read a row with the ownership may read the other row.
abbrev pub NoWider : Visibility → Option Uuid → Ownership → Type 0
NoWider v owner o =
    (groups : List Uuid)
    → read_predicate o.visibility o.owner_group_id groups ≡ true
    → may_read v owner groups ≡ true

owned-NoWider : (g : Uuid) → NoWider Visibility.group (some g) (owned_by g Visibility.group)
owned-NoWider g groups h = h

public-NoWider : (owner : Option Uuid) (o : Ownership) → NoWider Visibility.public owner o
unfolding read_predicate
public-NoWider none o groups h = refl
public-NoWider (some g) o groups h = refl

abbrev Guards : Viewer → Visibility → Option Uuid → Ownership → Type 0
Guards viewer v owner o = CanWrite viewer o.owner_group_id × NoWider v owner o

under_public :
    (decl : DefaultDecl) (viewer : Viewer) (owner requested : Option Uuid) (v : Visibility)
    → Yields (Guards viewer Visibility.public owner) (root_ownership decl viewer requested v)
under_public decl viewer owner requested v =
    Yields-map (WritesAs viewer v) (Guards viewer Visibility.public owner)
      (root_ownership decl viewer requested v) (root_ownership_lem decl viewer requested v)
      λ o h. (h.0, public-NoWider owner o)

under_group :
    (viewer : Viewer) (g : Uuid)
    → Yields (Guards viewer Visibility.group (some g)) (
        if◌then◌else◌ {A = Result ApiError Ownership}
          (not (may_write viewer g))
          (err ApiError.forbidden)
          (ok (owned_by g Visibility.group)))
under_group viewer g = go (may_write viewer g) refl
  where
    go :
        (b : Bool)
        → may_write viewer g ≡ b
        → Yields (Guards viewer Visibility.group (some g)) (
            if◌then◌else◌ {A = Result ApiError Ownership}
              (not b)
              (err ApiError.forbidden)
              (ok (owned_by g Visibility.group)))
    go true h = (h, owned-NoWider g)
    go false h = tt

-- A child synthesis that is accepted belongs to a group its author may write, and is read by nobody who may not read
-- its parent.
pub child_ownership_lem :
    (decl : DefaultDecl) (viewer : Viewer) (parent : ParentRow) (requested : Option Uuid)
    (v : Visibility)
    → Yields
        (λ o. CanWrite viewer o.owner_group_id × NoWider parent.visibility parent.owner_group_id o)
        (child_ownership decl viewer parent requested v)
unfolding child_ownership
child_ownership_lem decl viewer parent requested v = go parent.visibility parent.owner_group_id
  where
    named :
        (b : Bool) (g : Uuid)
        → Yields (Guards viewer Visibility.group (some g)) (
            if◌then◌else◌ {A = Result ApiError Ownership} b (err ApiError.forbidden) (
              if◌then◌else◌ {A = Result ApiError Ownership}
                (not (may_write viewer g))
                (err ApiError.forbidden)
                (ok (owned_by g Visibility.group))))
    named true g = tt
    named false g = under_group viewer g

    go :
        (w : Visibility) (owner : Option Uuid)
        → Yields (Guards viewer w owner) (
            child_ownership decl viewer
              (record { visibility = w; owner_group_id = owner })
              requested
              v)
    go Visibility.public owner = under_public decl viewer owner requested v
    go Visibility.group none = tt
    go Visibility.group (some g) = named (names_another requested g) g

-- A countersignature that is accepted belongs to a group its signer may write, and is read by nobody who may not read
-- the claim that is signed.
pub countersign_ownership_lem :
    (decl : DefaultDecl) (viewer : Viewer) (claim_visibility : Visibility) (claim_owner : Uuid)
    → Yields
        (λ o. CanWrite viewer o.owner_group_id × NoWider claim_visibility (some claim_owner) o)
        (countersign_ownership decl viewer claim_visibility claim_owner)
unfolding countersign_ownership
countersign_ownership_lem decl viewer Visibility.public claim_owner =
    under_public decl viewer (some claim_owner) none Visibility.public
countersign_ownership_lem decl viewer Visibility.group claim_owner = under_group viewer claim_owner

-- A synthesis stays public exactly if every prerequisite can be read and is public.
pub narrow_for_prerequisites-public :
    (get_readable : Uuid → Result ApiError Visibility) (ids : List Uuid)
    → (narrow_for_prerequisites get_readable Visibility.public ids ≡ ok Visibility.public)
      ↔ All (λ id. get_readable id ≡ ok Visibility.public) ids
unfolding narrow_for_prerequisites
narrow_for_prerequisites-public get_readable [] = (λ h. tt, λ h. refl)
narrow_for_prerequisites-public get_readable (id ∷ ids) =
    go (get_readable id) refl (narrow_for_prerequisites-public get_readable ids)
  where
    go :
        (r : Result ApiError Visibility)
        → get_readable id ≡ r
        → (narrow_for_prerequisites get_readable Visibility.public ids ≡ ok Visibility.public)
          ↔ All (λ i. get_readable i ≡ ok Visibility.public) ids
        → ((r >>= λ v. elim v [
          | Visibility.public ↦ narrow_for_prerequisites get_readable Visibility.public ids
          | Visibility.group ↦ ok Visibility.group
        ])
            ≡ ok Visibility.public)
          ↔ ((r ≡ ok Visibility.public) × All (λ i. get_readable i ≡ ok Visibility.public) ids)
    go (ok Visibility.public) e h = (λ x. (refl, h.0 x), λ x. h.1 x.1)
    go (ok Visibility.group) e h = (λ x. grind arith, λ x. grind (arith, x.0))
    go (err a) e h = (λ x. grind arith, λ x. grind (arith, x.0))
