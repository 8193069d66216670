-- ===== src/Session/Stages.antt =====
-- When the transaction of a stage opens.
use episcience.Base.{
  ◌≡◌, refl, Bool, true, false, not, Option, none, some, List, [], ◌∷◌, Uuid, if◌then◌else◌,
  contains, ◌↔◌, subst, sym, arith, ap,
}
use episcience.Base.Results.{Result, ok, err, ◌>>=◌, map_err, Yields}
use episcience.Ownership.{Viewer}
use package.episcience.Session.{SqlxError, DbError, SessionError, begin, check_owner, is_empty}

abbrev the_answer : Viewer → Result DbError Viewer
the_answer v = ok v

same_answer : (v u : Viewer) → the_answer v ≡ ok u → v ≡ u
same_answer v u h = ap (λ r. elim r [ ok x ↦ x | err e ↦ v ]) h

module _ (begin_as : Viewer → Result DbError Unit)
    (owner_group_id : Viewer → Result SqlxError (Option Uuid)) where
  -- What the transaction of a stage needs of its viewer.
  abbrev pub MayStage : Viewer → Type 0
  MayStage viewer =
      (begin_as viewer ≡ ok tt)
      × ((g : Uuid) × ((owner_group_id viewer ≡ ok (some g))
            × (contains viewer.writable_groups g ≡ true)))

  -- The steps of `begin` after the viewer was resolved.
  abbrev open_stage : Viewer → Result SessionError Viewer
  open_stage viewer =
      if is_empty viewer.writable_groups
      then err SessionError.authority
      else map_err (λ e. SessionError.db) (begin_as viewer) >>= λ t.
          map_err (λ e. SessionError.db) (owner_group_id viewer) >>= check_owner viewer

  owned-MayStage :
      (viewer : Viewer)
      → begin_as viewer ≡ ok tt
      → (o : Option Uuid) → owner_group_id viewer ≡ ok o
      → Yields (λ v. (v ≡ viewer) × MayStage v) (check_owner viewer o)
  owned-MayStage viewer h none k = tt
  owned-MayStage viewer h (some g) k = go (contains viewer.writable_groups g) refl
    where
      go :
          (b : Bool)
          → contains viewer.writable_groups g ≡ b
          → Yields
              (λ v. (v ≡ viewer) × MayStage v)
              (if◌then◌else◌ {A = Result SessionError Viewer}
                (not b)
                (err SessionError.authority)
                (ok viewer))
      go true e = (refl, (h, (g, (k, e))))
      go false e = tt

  open_stage-MayStage :
      (viewer : Viewer) → Yields (λ v. (v ≡ viewer) × MayStage v) (open_stage viewer)
  open_stage-MayStage viewer = groups (is_empty viewer.writable_groups)
    where
      Goal : Result SessionError Viewer → Type 0
      Goal = Yields (λ v. (v ≡ viewer) × MayStage v)

      read :
          (r : Result SqlxError (Option Uuid))
          → owner_group_id viewer ≡ r
          → begin_as viewer ≡ ok tt
          → Goal (map_err (λ e. SessionError.db) r >>= check_owner viewer)
      read (ok o) k h = owned-MayStage viewer h o k
      read (err e) k h = tt

      opened :
          (r : Result DbError Unit)
          → begin_as viewer ≡ r
          → Goal (
              map_err (λ e. SessionError.db) r >>= λ t.
              map_err (λ e. SessionError.db) (owner_group_id viewer) >>= check_owner viewer)
      opened (ok tt) h = read (owner_group_id viewer) refl h
      opened (err e) h = tt

      groups :
          (b : Bool)
          → Goal (
              if b
              then err SessionError.authority
              else map_err (λ e. SessionError.db) (begin_as viewer) >>= λ t.
                  map_err (λ e. SessionError.db) (owner_group_id viewer) >>= check_owner viewer)
      groups true = tt
      groups false = opened (begin_as viewer) refl

  some_group : (gs : List Uuid) (g : Uuid) → contains gs g ≡ true → is_empty gs ≡ false
  some_group [] g h = absurd (grind (arith, h))
  some_group (x ∷ gs) g h = refl

  MayStage-open_stage : (viewer : Viewer) → MayStage viewer → open_stage viewer ≡ ok viewer
  MayStage-open_stage viewer m =
      rw (some_group viewer.writable_groups m.1.0 m.1.1.1, m.0, m.1.1.0, m.1.1.1) refl

  -- The transaction of a stage opens exactly if the principal resolves, the transaction as its viewer begins, and the
  -- synthesis is seen in it with an owner group that the viewer may write; it is stamped as that viewer.
  pub begin_iff :
      (resolved : Result DbError Viewer) (viewer : Viewer)
      → (begin resolved begin_as owner_group_id ≡ ok viewer)
        ↔ ((resolved ≡ ok viewer) × MayStage viewer)
  unfolding begin
  begin_iff (ok found) viewer = (opens, stages)
    where
      opens : open_stage found ≡ ok viewer → (the_answer found ≡ ok viewer) × MayStage viewer
      opens h =
          let y = subst (Yields (λ v. (v ≡ found) × MayStage v)) h (open_stage-MayStage found) in
          (ap the_answer (sym y.0), y.1)

      stages : (the_answer found ≡ ok viewer) × MayStage viewer → open_stage found ≡ ok viewer
      stages m =
          subst (λ v. open_stage v ≡ ok viewer) (sym (same_answer found viewer m.0))
            (MayStage-open_stage viewer m.1)
  begin_iff (err e) viewer = ((λ h. grind (arith, h)), (λ h. grind (arith, h.0)))
