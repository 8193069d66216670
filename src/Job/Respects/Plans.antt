-- ===== src/Job/Respects/Plans.antt =====
-- The clusters of an attempt are those that its stages planned.
use episcience.Base.{◌≡◌, refl, List, [], Uuid}
use episcience.Base.Floats.{Float}
use episcience.Base.Results.{Result, ok, err, Yields}
use episcience.Pipeline.{Cluster}
use episcience.Refinement.{SynthesisJobPayload, StageError}
use package.episcience.Job.{Store, Session, Course, M, lift, continue, ◌>>>◌}
use package.episcience.Job.Stages.{Handler, resolve_traversal_config, stage2_compute, stage3_plan}
use package.episcience.Job.Run.{prepare}
use package.episcience.Job.Respects.{IsPlanned}

module _ {Db : Type 0} where
  -- What a step returns has the property.
  unfoldable pub Gives : {A : Type 0} → (A → Type 0) → M Db A → Type 0
  Gives P m = (j : Course Db) → Yields P (m j).0

  bind-Gives :
      {A B : Type 0} (P : B → Type 0) (m : M Db A) (f : A → M Db B)
      → ((a : A) → Gives P (f a))
      → Gives P (m >>> f)
  unfolding Gives ◌>>>◌ continue
  bind-Gives {A} {B} P m f k j = go (m j)
    where
      go : (r : Result StageError A × Course Db) → Yields P (continue r f).0
      go (ok a, j') = k a j'
      go (err e, j') = tt

  lift-Gives :
      {A B : Type 0} (P : B → Type 0) (r : Result StageError A) (f : A → M Db B)
      → ((a : A) → r ≡ ok a → Gives P (f a))
      → Gives P (lift r >>> f)
  unfolding Gives ◌>>>◌ continue
  lift-Gives P (ok a) f k j = k a refl j
  lift-Gives P (err e) f k j = tt

module _ {F Value V : Type 0} ⦃fl : Float F⦄ (h : Handler F Value V)
    (session : Session (Store F Value)) (payload : SynthesisJobPayload Value) (acting : Uuid) where
  abbrev Planned : List Cluster → Type 0
  Planned = IsPlanned h payload.synthesis_id

  planned :
      (seeds claims : List Uuid) (clusters : List Cluster)
      → stage2_compute h (resolve_traversal_config h payload.traversal_config) seeds ≡ ok claims
      → stage3_plan F 1 h.new_cluster_id payload.synthesis_id claims [] ≡ ok clusters
      → Gives {Db = Store F Value} Planned (lift (ok clusters))
  unfolding Gives
  planned seeds claims clusters e f j =
      (resolve_traversal_config h payload.traversal_config, seeds, claims, (e, f))

  pub prepare-IsPlanned : Gives Planned (prepare h session payload acting)
  unfolding prepare
  prepare-IsPlanned = bind-Gives Planned _ _ λ owner. bind-Gives Planned _ _ λ found.
      bind-Gives Planned _ _ λ kept. bind-Gives Planned _ _ λ seeds.
        lift-Gives Planned _ _ λ claims e. bind-Gives Planned _ _ λ u.
          lift-Gives Planned _ _ λ clusters f.
            bind-Gives Planned _ _
              λ u. bind-Gives Planned _ _ λ u. planned seeds claims clusters e f
