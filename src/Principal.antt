-- ===== src/Principal.antt =====
-- crates/episcience-db/src/tenancy.rs: the authority of a request, and crates/episcience-api/src/errors.rs: its refusal
-- as an HTTP error. The kernel's answers and the stamped pool are arguments; a transaction is named by its viewer.
use episcience.Base.{
  ◌≡◌, refl, Bool, true, false, Option, none, some, List, [], ◌∷◌, Uuid, if◌then◌else◌, ◌↔◌, ap,
  subst, arith,
}
use episcience.Base.Results.{Result, ok, err, ◌>>=◌, ok_or, map_err, Yields}
use episcience.Ownership.{Viewer, ApiError}
use episcience.Session.{DbError, is_empty}

pub data RequestRefusal : Type 0 where
  principal_required : RequestRefusal
  operated : Uuid → RequestRefusal
  unresolvable no_writable_group session : RequestRefusal

-- `From<RequestRefusal> for ApiError`
unfoldable pub api_error : RequestRefusal → ApiError
api_error principal_required = ApiError.unauthorized
api_error (operated p) = ApiError.forbidden
api_error unresolvable = ApiError.forbidden
api_error no_writable_group = ApiError.forbidden
api_error session = ApiError.internal

-- The `match link` of `resolve_principal`.
unfoldable pub check_link : Uuid → Result DbError (Option Uuid) → Result RequestRefusal Unit
check_link principal (ok none) = ok tt
check_link principal (ok (some o)) = err (operated principal)
check_link principal (err e) = err unresolvable

unfoldable pub resolve_principal :
    (Uuid → Result DbError Viewer)
    → (Uuid → Result DbError (Option Uuid))
    → Option Uuid
    → Result RequestRefusal Viewer
resolve_principal resolve operator_of caller = do
  principal ← ok_or caller principal_required
  t ← check_link principal (operator_of principal)
  map_err (λ e. unresolvable) (resolve principal)

unfoldable pub write_as : (Viewer → Result DbError Unit) → Viewer → Result RequestRefusal Viewer
write_as begin_as viewer = elim viewer.principal [
  | none ↦ err unresolvable
  | some p ↦
      if is_empty viewer.writable_groups
      then err no_writable_group
      else map_err (λ e. session) (begin_as viewer) >>= λ t. ok viewer
]

-- A write of a caller: its authority, then its transaction.
abbrev pub write_request :
    (Uuid → Result DbError Viewer)
    → (Uuid → Result DbError (Option Uuid))
    → (Viewer → Result DbError Unit)
    → Option Uuid
    → Result RequestRefusal Viewer
write_request resolve operator_of begin_as caller =
    resolve_principal resolve operator_of caller >>= write_as begin_as

module _ (resolve : Uuid → Result DbError Viewer)
    (operator_of : Uuid → Result DbError (Option Uuid))
    (begin_as : Viewer → Result DbError Unit) where
  -- What a write needs.
  abbrev pub Authority : Option Uuid → Viewer → Type 0
  Authority caller viewer =
      ((p : Uuid) × ((caller ≡ some p) × (operator_of p ≡ ok none) × (resolve p ≡ ok viewer)))
      × ((q : Uuid) × (viewer.principal ≡ some q))
      × (is_empty viewer.writable_groups ≡ false)
      × (begin_as viewer ≡ ok tt)

  written :
      (p : Uuid) (viewer : Viewer)
      → operator_of p ≡ ok none
      → resolve p ≡ ok viewer
      → Yields (Authority (some p)) (write_as begin_as viewer)
  unfolding write_as
  written p viewer link found = go viewer.principal refl
    where
      opened :
          (q : Uuid)
          → viewer.principal ≡ some q
          → is_empty viewer.writable_groups ≡ false
          → (r : Result DbError Unit) → begin_as viewer ≡ r
          → Yields (Authority (some p)) (map_err (λ e. session) r >>= λ t. ok viewer)
      opened q h k (ok tt) e = ((p, (refl, link, found)), (q, h), k, e)
      opened q h k (err x) e = tt

      groups :
          (q : Uuid)
          → viewer.principal ≡ some q
          → (b : Bool) → is_empty viewer.writable_groups ≡ b
          → Yields (Authority (some p)) (
              if b
              then err no_writable_group
              else map_err (λ e. session) (begin_as viewer) >>= λ t. ok viewer)
      groups q h true k = tt
      groups q h false k = opened q h k (begin_as viewer) refl

      go :
          (o : Option Uuid)
          → viewer.principal ≡ o
          → Yields (Authority (some p)) (elim o [
            | none ↦ err unresolvable
            | some q ↦
                if is_empty viewer.writable_groups
                then err no_writable_group
                else map_err (λ e. session) (begin_as viewer) >>= λ t. ok viewer
          ])
      go none h = tt
      go (some q) h = groups q h (is_empty viewer.writable_groups) refl

  write_request-Authority :
      (caller : Option Uuid)
      → Yields (Authority caller) (write_request resolve operator_of begin_as caller)
  unfolding resolve_principal check_link
  write_request-Authority none = tt
  write_request-Authority (some p) = link (operator_of p) refl
    where
      viewers :
          (r : Result DbError Viewer)
          → resolve p ≡ r
          → operator_of p ≡ ok none
          → Yields (Authority (some p)) (map_err (λ e. unresolvable) r >>= write_as begin_as)
      viewers (ok viewer) h k = written p viewer k h
      viewers (err e) h k = tt

      link :
          (o : Result DbError (Option Uuid))
          → operator_of p ≡ o
          → Yields (Authority (some p)) (
              check_link p o
              >>= (λ t. map_err (λ e. unresolvable) (resolve p))
              >>= write_as begin_as)
      link (ok none) h = viewers (resolve p) refl h
      link (ok (some o)) h = tt
      link (err e) h = tt

  Authority-write_as :
      (viewer : Viewer) (q : Uuid)
      → viewer.principal ≡ some q
      → is_empty viewer.writable_groups ≡ false
      → begin_as viewer ≡ ok tt
      → write_as begin_as viewer ≡ ok viewer
  unfolding write_as
  Authority-write_as viewer q h k e = go viewer.principal viewer.writable_groups h k e
    where
      with_parts : Option Uuid → List Uuid → Viewer
      with_parts o gs = record { principal = o; writable_groups = gs }

      go :
          (o : Option Uuid) (gs : List Uuid)
          → o ≡ some q
          → is_empty gs ≡ false
          → begin_as (with_parts o gs) ≡ ok tt
          → write_as begin_as (with_parts o gs) ≡ ok (with_parts o gs)
      go none gs h k e = absurd (grind (arith, h))
      go (some p) [] h k e = absurd (grind (arith, k))
      go (some p) (g ∷ gs) h k e =
          ap (λ r. map_err (λ x. session) r >>= λ t. ok (with_parts (some p) (g ∷ gs))) e

  -- A request may write exactly if it names a principal that has no operator link, that resolves to a viewer who has a
  -- principal and may write some group, and whose transaction opens; the transaction is stamped as that viewer.
  pub write_request_iff :
      (caller : Option Uuid) (viewer : Viewer)
      → (write_request resolve operator_of begin_as caller ≡ ok viewer) ↔ Authority caller viewer
  unfolding resolve_principal check_link
  write_request_iff caller viewer = (
    (λ h. subst (Yields (Authority caller)) h (write_request-Authority caller)),
    (λ a. rw (a.0.1.0, a.0.1.1, a.0.1.2) (Authority-write_as viewer a.1.0 a.1.1 a.2 a.3)),
  )
