-- ===== src/Worker/Authority.antt =====
-- As which principals the worker acts.
use episcience.Base.{
  ◌≡◌, refl, Bool, true, false, Option, none, some, Uuid, if◌then◌else◌, ◌⊎◌, inl, inr,
}
use episcience.Base.Results.{Result, ok, err, ◌>>=◌, map_err}
use episcience.Ownership.{Viewer}
use episcience.Session.{DbError, is_transient_db, is_empty}
use package.episcience.Worker.{Refusal, authorize, could_not}

module _ (resolve : Uuid → Result DbError Viewer)
    (operator_of : Uuid → Result DbError (Option Uuid)) where
  -- What a refusal or a viewer of a principal says of the kernel's answers.
  abbrev pub Answers : Uuid → Result Refusal Viewer → Type 0
  Answers p (ok viewer) =
      (resolve p ≡ ok viewer)
      × (operator_of p ≡ ok none)
      × (is_empty viewer.writable_groups ≡ false)
  Answers p (err Refusal.operated) = (o : Uuid) × (operator_of p ≡ ok (some o))
  Answers p (err Refusal.transient) =
      (e : DbError) × ((is_transient_db e ≡ true) × ((resolve p ≡ err e) ⊎ (operator_of p ≡ err e)))
  Answers p (err Refusal.authority) =
      ((viewer : Viewer) × ((resolve p ≡ ok viewer) × (is_empty viewer.writable_groups ≡ true)))
      ⊎ ((e : DbError) × ((is_transient_db e ≡ false)
            × ((resolve p ≡ err e) ⊎ (operator_of p ≡ err e))))

  failed_check :
      (p : Uuid) (e : DbError)
      → (resolve p ≡ err e) ⊎ (operator_of p ≡ err e)
      → Answers p (err (could_not e))
  failed_check p e h = go (is_transient_db e) refl
    where
      go :
          (b : Bool)
          → is_transient_db e ≡ b
          → Answers p (err (if b then Refusal.transient else Refusal.authority))
      go true k = (e, (k, h))
      go false k = inr (e, (k, h))

  -- The worker acts as a principal exactly if the kernel resolves it, knows no operator of it, and lets it write some
  -- group. Each refusal is for its cause: an operator; a transient failure; or another failure, or no group.
  pub authorize-Answers : (p : Uuid) → Answers p (authorize resolve operator_of p)
  unfolding authorize
  authorize-Answers p = first (resolve p) refl
    where
      groups :
          (viewer : Viewer)
          → resolve p ≡ ok viewer
          → operator_of p ≡ ok none
          → (b : Bool) → is_empty viewer.writable_groups ≡ b
          → Answers p (if b then err Refusal.authority else ok viewer)
      groups viewer h k true e = inl (viewer, (h, e))
      groups viewer h k false e = (h, k, e)

      second :
          (viewer : Viewer)
          → resolve p ≡ ok viewer
          → (r : Result DbError (Option Uuid)) → operator_of p ≡ r
          → Answers p (
              map_err could_not r >>= λ operator. elim operator [
                | some o ↦ err Refusal.operated
                | none ↦
                    if is_empty viewer.writable_groups then err Refusal.authority else ok viewer
              ])
      second viewer h (ok none) k = groups viewer h k (is_empty viewer.writable_groups) refl
      second viewer h (ok (some o)) k = (o, k)
      second viewer h (err e) k = failed_check p e (inr k)

      first :
          (r : Result DbError Viewer)
          → resolve p ≡ r
          → Answers p (
              map_err could_not r >>= λ viewer. map_err could_not (operator_of p) >>= λ operator.
              elim operator [
                | some o ↦ err Refusal.operated
                | none ↦
                    if is_empty viewer.writable_groups then err Refusal.authority else ok viewer
              ])
      first (ok viewer) h = second viewer h (operator_of p) refl
      first (err e) h = failed_check p e (inl h)
