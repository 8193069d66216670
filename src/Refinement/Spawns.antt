-- ===== src/Refinement/Spawns.antt =====
-- Which child a rejected synthesis gets, and how often a chain of refinements can go on.
use episcience.Base.{
  ◌≡◌, refl, ◌+◌, ◌≤◌, ◌<◌, Bool, true, false, not, Option, none, some, List, ◌∷◌, Uuid, ◌==◌,
  ==_iff, if◌then◌else◌, arith, ap, ◌∙◌,
}
use episcience.Base.Floats.{Float}
use episcience.Base.Results.{
  Result, ok, err, ◌>>=◌, ok_or, map_err, Yields, Yields-after, Yields-map,
}
use episcience.Ownership.{Viewer}
use episcience.Tenancy.{Visibility}
use episcience.Synthesis.{SynthesisStatus}
use episcience.Session.{SessionError}
use package.episcience.Refinement.{
  RefinementTemperature, anneal, at_ceiling, SynthesisJobPayload, SynthesisRow, Rows, StageError,
  Rejected, stage_error, is_live, find_row, principal_of, publish_rule, reject_row, update_row,
  child_row, child_payload, current_temperature, refine_row, reject_and_refine,
}

module _ {F : Type 0} ⦃fl : Float F⦄ where
  ceiling-depth : (t : RefinementTemperature F) → at_ceiling t ≡ true → 3 ≤ t.depth_delta
  unfolding at_ceiling
  ceiling-depth t h = ground (arith, h)

  anneal-depth :
      (t : RefinementTemperature F)
      → at_ceiling t ≡ false
      → (t.depth_delta < 3) × ((anneal t).depth_delta ≡ t.depth_delta + 1)
  unfolding anneal at_ceiling
  anneal-depth t h = (ground (arith, h), ground (arith, h))

module _ {F Value : Type 0} ⦃fl : Float F⦄ where
  publish_rule-publishable :
      (publishable : Bool) (row : SynthesisRow F Value)
      → publishable ≡ true
      → publish_rule publishable row ≡ row.visibility
  unfolding publish_rule
  publish_rule-publishable false row h = absurd (grind (arith, h))
  publish_rule-publishable true row h = go row.visibility row.status
    where
      go :
          (v : Visibility) (x : SynthesisStatus)
          → elim v as (λ v. Visibility) [
            | Visibility.group ↦ Visibility.group
            | Visibility.public ↦ elim x as (λ x. Visibility) [
              | SynthesisStatus.rejected ↦ Visibility.public
              | _ ↦ Visibility.public
            ]
          ]
            ≡ v
      go Visibility.group x = refl
      go Visibility.public SynthesisStatus.pending = refl
      go Visibility.public SynthesisStatus.running = refl
      go Visibility.public SynthesisStatus.verifying = refl
      go Visibility.public SynthesisStatus.complete = refl
      go Visibility.public SynthesisStatus.failed = refl
      go Visibility.public SynthesisStatus.deleted = refl
      go Visibility.public SynthesisStatus.rejected = refl

  publish_rule-group :
      (publishable : Bool) (row : SynthesisRow F Value)
      → row.visibility ≡ Visibility.group
      → publish_rule publishable row ≡ Visibility.group
  unfolding publish_rule
  publish_rule-group publishable row h = rw h refl

  -- What one rejection did to the rows.
  abbrev pub Refines :
      Bool
      → Rows F Value
      → SynthesisJobPayload Value
      → Uuid
      → Value
      → SynthesisRow F Value
      → Rows F Value
      → Rejected
      → Type 0
  Refines publishable st payload acting outcome row after Rejected.ceiling_reached =
      (3 ≤ (current_temperature row).depth_delta)
      × (after.jobs ≡ st.jobs)
      × (after.refines ≡ st.refines)
      × (after.syntheses
          ≡ update_row payload.synthesis_id (reject_row publishable outcome) st.syntheses)
  Refines publishable st payload acting outcome row after Rejected.no_principal =
      (principal_of payload.synthesis_id st.jobs ≡ none)
      × (after.jobs ≡ st.jobs)
      × (after.refines ≡ st.refines)
      × (after.syntheses
          ≡ update_row payload.synthesis_id (reject_row publishable outcome) st.syntheses)
  Refines publishable st payload acting outcome row after (Rejected.refined child depth) =
      ((current_temperature row).depth_delta < 3)
      × (depth ≡ (current_temperature row).depth_delta + 1)
      × (principal_of payload.synthesis_id st.jobs ≡ some acting)
      × ((c : SynthesisRow F Value) × ((after.syntheses
              ≡ c ∷ update_row payload.synthesis_id (reject_row publishable outcome) st.syntheses)
            × (c.id ≡ child)
            × (c.agent_id ≡ acting)
            × (c.visibility ≡ publish_rule publishable row)
            × (publishable ≡ true → c.visibility ≡ row.visibility)
            × (row.visibility ≡ Visibility.group → c.visibility ≡ Visibility.group)
            × (c.owner_group_id ≡ row.owner_group_id)
            × ((current_temperature c).depth_delta ≡ depth)
            × (principal_of child after.jobs ≡ some acting)))

  refine_row-Refines :
      (publishable : Bool) (st : Rows F Value) (payload : SynthesisJobPayload Value) (acting : Uuid)
      (outcome : Value) (child_id : Uuid) (row : SynthesisRow F Value)
      → Yields
          (λ r. Refines publishable st payload acting outcome row r.0 r.1)
          (refine_row publishable st payload acting outcome child_id row)
  unfolding refine_row reject_row child_row
  refine_row-Refines publishable st payload acting outcome child_id row =
      go (at_ceiling t) (principal_of payload.synthesis_id st.jobs) refl refl
    where
      t : RefinementTemperature F
      t = current_temperature row

      ceiling : at_ceiling t ≡ true → 3 ≤ t.depth_delta
      ceiling h = ceiling-depth t h

      Goal : Result StageError (Rows F Value × Rejected) → Type 0
      Goal = Yields (λ r. Refines publishable st payload acting outcome row r.0 r.1)

      marked : List (SynthesisRow F Value)
      marked = update_row payload.synthesis_id (reject_row publishable outcome) st.syntheses

      kept : Rows F Value
      kept = record { syntheses = marked; refines = st.refines; jobs = st.jobs }

      spawned : Uuid → Result StageError (Rows F Value × Rejected)
      spawned chain = ok (
        record {
          syntheses =
              child_row child_id chain (anneal t) (reject_row publishable outcome row) ∷ marked;
          refines = (child_id, payload.synthesis_id) ∷ st.refines;
          jobs =
              record {
                id = child_id;
                principal_id = some chain;
                payload = child_payload child_id chain payload;
              }
              ∷ st.jobs;
        },
        Rejected.refined child_id (anneal t).depth_delta,
      )

      same : (chain : Uuid) → (chain == acting) ≡ true → chain ≡ acting
      same chain e = (==_iff chain acting).0 e

      first-principal :
          (chain : Uuid)
          → (chain == acting) ≡ true
          → (if child_id == child_id then some chain else principal_of child_id st.jobs)
            ≡ some acting
      first-principal chain e = ground (arith, same chain e)

      spawn :
          (chain : Uuid) (b : Bool)
          → (chain == acting) ≡ b
          → at_ceiling t ≡ false
          → principal_of payload.synthesis_id st.jobs ≡ some chain
          → Goal (if not b then err StageError.authority else spawned chain)
      spawn chain false e h k = tt
      spawn chain true e h k = (
        (anneal-depth t h).0,
        (anneal-depth t h).1,
        k ∙ ap some (same chain e),
        (
          child_row child_id chain (anneal t) (reject_row publishable outcome row),
          (
            refl,
            refl,
            same chain e,
            refl,
            publish_rule-publishable publishable row,
            publish_rule-group publishable row,
            refl,
            refl,
            first-principal chain e,
          ),
        ),
      )

      go :
          (b : Bool) (o : Option Uuid)
          → at_ceiling t ≡ b
          → principal_of payload.synthesis_id st.jobs ≡ o
          → Goal (
              if b then ok (kept, Rejected.ceiling_reached) else elim o [
                | none ↦ ok (kept, Rejected.no_principal)
                | some chain ↦
                    if not (chain == acting) then err StageError.authority else spawned chain
              ])
      go true o h k = (ceiling h, refl, refl, refl)
      go false none h k = (k, refl, refl, refl)
      go false (some chain) h k = spawn chain (chain == acting) refl h k

  -- A rejection that succeeds was of a live row. It marks that row rejected and stores the outcome. It adds no job if the
  -- row's refinement is at its ceiling, or if the row's job has no principal; otherwise it adds one child, less than three
  -- refinements deep before and one deeper now, that keeps the owner group, and the visibility as the publish rule leaves
  -- it: that of the row if the row is publishable, and the group's if the row was its group's. The child's author and its
  -- job's principal are the acting principal, which is that of the row's own job.
  pub reject_and_refine-Refines :
      (publishable : Bool) (begun : Result SessionError Viewer) (st : Rows F Value)
      (payload : SynthesisJobPayload Value) (acting : Uuid) (outcome : Value) (child_id : Uuid)
      → Yields
          (λ r.
            (row : SynthesisRow F Value) × ((find_row payload.synthesis_id st.syntheses ≡ some row)
              × (is_live row.status ≡ true)
              × Refines publishable st payload acting outcome row r.0 r.1))
          (reject_and_refine publishable begun st payload acting outcome child_id)
  unfolding reject_and_refine
  reject_and_refine-Refines publishable begun st payload acting outcome child_id =
      Yields-after Found (map_err stage_error begun) _
        λ v. found (find_row payload.synthesis_id st.syntheses) refl
    where
      Found : Rows F Value × Rejected → Type 0
      Found r =
          (row : SynthesisRow F Value) × ((find_row payload.synthesis_id st.syntheses ≡ some row)
            × (is_live row.status ≡ true)
            × Refines publishable st payload acting outcome row r.0 r.1)

      live :
          (row : SynthesisRow F Value) (b : Bool)
          → find_row payload.synthesis_id st.syntheses ≡ some row
          → is_live row.status ≡ b
          → Yields Found (
              if not b
              then err StageError.authority
              else refine_row publishable st payload acting outcome child_id row)
      live row false h k = tt
      live row true h k =
          Yields-map _ Found (refine_row publishable st payload acting outcome child_id row)
            (refine_row-Refines publishable st payload acting outcome child_id row)
            λ r x. (row, (h, k, x))

      found :
          (o : Option (SynthesisRow F Value))
          → find_row payload.synthesis_id st.syntheses ≡ o
          → Yields Found (
              ok_or o StageError.synth >>= λ row.
              if not (is_live row.status)
              then err StageError.authority
              else refine_row publishable st payload acting outcome child_id row)
      found none h = tt
      found (some row) h = live row (is_live row.status) h refl
