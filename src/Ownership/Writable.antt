-- ===== src/Ownership/Writable.antt =====
-- Which group the ownership decisions of the API may choose.
use episcience.Base.{
  ◌≡◌, refl, Bool, true, false, not, Option, none, some, Uuid, if◌then◌else◌, contains,
}
use episcience.Base.Results.{Result, ok, err, ok_or, Yields, Yields-bind, Yields-after}
use episcience.Tenancy.{Visibility, Ownership}
use package.episcience.Ownership.{
  ApiError, Viewer, DefaultDecl, default_group, declared, chosen_group, root_ownership,
  protocol_ownership, may_write,
}

-- The viewer may write the group.
abbrev pub CanWrite : Viewer → Uuid → Type 0
CanWrite viewer g = contains viewer.writable_groups g ≡ true

-- The row belongs to a group the viewer may write, and has this visibility.
abbrev pub WritesAs : Viewer → Visibility → Ownership → Type 0
WritesAs viewer v o = CanWrite viewer o.owner_group_id × (o.visibility ≡ v)

-- `ok` behind the test that the viewer may write the group.
abbrev allow : {A : Type 0} → Viewer → Uuid → A → Result ApiError A
allow viewer g a = if may_write viewer g then ok a else err ApiError.forbidden

guarded :
    (viewer : Viewer) (g : Uuid) {A : Type 0} (P : A → Type 0) (a : A)
    → (CanWrite viewer g → P a)
    → Yields P (allow viewer g a)
guarded viewer g {A} P a k = go (may_write viewer g) refl
  where
    go :
        (b : Bool)
        → may_write viewer g ≡ b
        → Yields P (if◌then◌else◌ {A = Result ApiError A} b (ok a) (err ApiError.forbidden))
    go true h = k h
    go false h = tt

pub default_group_lem :
    (decl : DefaultDecl) (viewer : Viewer) → Yields (CanWrite viewer) (default_group decl viewer)
unfolding default_group
default_group_lem decl viewer =
    Yields-after (CanWrite viewer) (ok_or viewer.principal ApiError.forbidden) _ λ p.
      Yields-after (CanWrite viewer) (declared (decl p)) _ λ found.
        Yields-after (CanWrite viewer) (ok_or found ApiError.internal) _
          λ g. guarded viewer g (CanWrite viewer) g λ h. h

chosen_group_lem :
    (decl : DefaultDecl) (viewer : Viewer) (requested : Option Uuid)
    → Yields (CanWrite viewer) (chosen_group decl viewer requested)
unfolding chosen_group
chosen_group_lem decl viewer (some g) = guarded viewer g (CanWrite viewer) g λ h. h
chosen_group_lem decl viewer none = default_group_lem decl viewer

pub root_ownership_lem :
    (decl : DefaultDecl) (viewer : Viewer) (requested : Option Uuid) (v : Visibility)
    → Yields (WritesAs viewer v) (root_ownership decl viewer requested v)
unfolding root_ownership
root_ownership_lem decl viewer requested v =
    Yields-bind (CanWrite viewer) (WritesAs viewer v) (chosen_group decl viewer requested) _
      (chosen_group_lem decl viewer requested) λ g h. (h, refl)

-- A protocol that is accepted is public and belongs to a group its author may write.
pub protocol_ownership_lem :
    (decl : DefaultDecl) (readable : Uuid → Result ApiError Unit)
    (writable : Uuid → Result ApiError Bool) (viewer : Viewer) (previous requested : Option Uuid)
    → Yields
        (WritesAs viewer Visibility.public)
        (protocol_ownership decl readable writable viewer previous requested)
unfolding protocol_ownership
protocol_ownership_lem decl readable writable viewer none requested =
    root_ownership_lem decl viewer requested Visibility.public
protocol_ownership_lem decl readable writable viewer (some prev) requested =
    Yields-after _ (readable prev) _ λ t. Yields-after _ (writable prev) _ λ w. go w
  where
    go :
        (w : Bool)
        → Yields (WritesAs viewer Visibility.public) (
            if not w
            then err ApiError.forbidden
            else root_ownership decl viewer requested Visibility.public)
    go true = root_ownership_lem decl viewer requested Visibility.public
    go false = tt
