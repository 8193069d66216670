-- ===== src/Job/Respects.antt =====
-- When a transaction of a job respects a synthesis. The snapshot, the members, the clusters and the novelty are left out:
-- stages 2 to 4 and the score write them with no look at the status.
pub mod Plans
pub mod Bodies
pub mod Completion
pub mod Rejection
pub mod Attempts
use episcience.Base.{
  ◌≡◌, refl, sym, ◌∙◌, ap, subst, ◌≢◌, ℕ, suc, ◌+◌, Bool, true, false, not, Option, none, some,
  List, [], ◌∷◌, ◌++◌, All, map, Uuid, ◌==◌, ==_iff, if◌then◌else◌, arith,
}
use episcience.Base.Floats.{Float}
use episcience.Base.Results.{Result, ok, err, ◌>>=◌, map_err, Yields, Yields-after}
use episcience.Ownership.{Viewer}
use episcience.Synthesis.{SynthesisStatus}
use episcience.Publish.{
  OutboxRow, Tables, EdgeWriteOutcome, WriteFailure, stage6_write_edges, may_complete,
}
use episcience.Traversal.{TraversalConfig}
use episcience.Pipeline.{Text, Cluster}
use episcience.Pipeline.Narration.{narrate_all}
use episcience.Pipeline.Composition.{stage5_compose}
use episcience.Pipeline.Composition.Coverage.{member_ids}
use episcience.Verifier.{VerificationOutcome, accept}
use episcience.Refinement.{
  SynthesisJobPayload, SynthesisRow, Rows, Rejected, StageError, is_live, find_row, update_row,
  principal_of, at_ceiling, current_temperature, reject_row, child_row, refine_row,
  reject_and_refine,
}
use package.episcience.Job.{Store, Body, status_of, on_live, with_row, if_live}
use package.episcience.Job.Courses.{Writes, BodyKeeps}
use package.episcience.Job.Stages.{
  Handler, stage2_compute, stage3_plan, start_row, mark_running, record_llm_usage, mark_failed,
  filter_seeds, stage2_persist, stage3_persist, store_narration, stage4_persist,
  persist_verifier_outcome, plan_edges, upsert_embedding, save_narrative, write_and_complete,
  store_novelty, reject_body,
}

module _ {F Value : Type 0} where
  abbrev pub live : Uuid → Store F Value → Bool
  live id s = elim (status_of id s) [ none ↦ false | some status ↦ is_live status ]

  -- The rows, the outbox, the kernel's edges, and what the job writes of the text stay.
  abbrev pub Frozen : Store F Value → Store F Value → Type 0
  Frozen s s' =
      (s'.rows ≡ s.rows)
      × (s'.tables ≡ s.tables)
      × (s'.columns.narrative ≡ s.columns.narrative)
      × (s'.columns.llm_call_count ≡ s.columns.llm_call_count)
      × (s'.columns.embedded ≡ s.columns.embedded)

  pub live-not_complete :
      (id : Uuid) (s : Store F Value)
      → live id s ≡ true
      → status_of id s ≡ some SynthesisStatus.complete
      → ⊥
  live-not_complete id s h k = go (status_of id s) k h
    where
      go :
          (o : Option SynthesisStatus)
          → o ≡ some SynthesisStatus.complete
          → elim o as (λ o. Bool) [ none ↦ false | some status ↦ is_live status ] ≡ true
          → ⊥
      go none k h = grind (arith, k)
      go (some SynthesisStatus.complete) k h = grind (arith, h)
      go (some SynthesisStatus.pending) k h = grind (arith, k)
      go (some SynthesisStatus.running) k h = grind (arith, k)
      go (some SynthesisStatus.verifying) k h = grind (arith, k)
      go (some SynthesisStatus.failed) k h = grind (arith, k)
      go (some SynthesisStatus.deleted) k h = grind (arith, k)
      go (some SynthesisStatus.rejected) k h = grind (arith, k)

  abbrev pub status_in : Uuid → List (SynthesisRow F Value) → Option SynthesisStatus
  status_in id rows = elim (find_row id rows) [ none ↦ none | some r ↦ some r.status ]

  -- The statuses after an update of the row.
  pub status-update :
      (id : Uuid) (f : SynthesisRow F Value → SynthesisRow F Value)
      (g : SynthesisStatus → SynthesisStatus)
      → ((r : SynthesisRow F Value) → (f r).id ≡ r.id)
      → ((r : SynthesisRow F Value) → (f r).status ≡ g r.status)
      → (rows : List (SynthesisRow F Value))
      → status_in id (update_row id f rows)
        ≡ elim (status_in id rows) [ none ↦ none | some status ↦ some (g status) ]
  status-update id f g same sets [] = refl
  status-update id f g same sets (r ∷ rows) =
      go (r.id == id) refl (status-update id f g same sets rows)
    where
      go :
          (b : Bool)
          → (r.id == id) ≡ b
          → status_in id (update_row id f rows)
            ≡ elim (status_in id rows) [ none ↦ none | some status ↦ some (g status) ]
          → status_in id ((if b then f r else r) ∷ update_row id f rows)
            ≡ elim (elim (if b then some r else find_row id rows) as (λ o. Option SynthesisStatus) [
              | none ↦ none
              | some r ↦ some r.status
            ])
                as (λ o. Option SynthesisStatus) [ none ↦ none | some status ↦ some (g status) ]
      go true e h =
          rw (ap (λ (n : Uuid). n == id) (same r) ∙ e, status_in, find_row) (ap some (sets r))
      go false e h = rw (e, status_in, find_row) h

module _ {F Value V : Type 0} ⦃fl : Float F⦄ (h : Handler F Value V) (id : Uuid) where
  -- The clusters are stage 3's, of claims that the traversal of stage 2 reached from some seeds.
  abbrev pub IsPlanned : List Cluster → Type 0
  IsPlanned clusters =
      (cfg : TraversalConfig F) × (seeds : List Uuid) × (claims : List Uuid) × ((stage2_compute h
            cfg seeds
          ≡ ok claims)
        × (stage3_plan F 1 h.new_cluster_id id claims [] ≡ ok clusters))

  -- The text is stage 5's, of the clusters that stage 4 narrated, and these have the members.
  abbrev pub IsComposed : Text → List Uuid → Type 0
  IsComposed t members =
      (clusters : List Cluster) × (narrated : List Cluster) × (n : ℕ) × (n' : ℕ) × (IsPlanned
          clusters
        × (narrate_all h.texts h.complete h.cost_budget clusters 0 ≡ (ok narrated, n))
        × (stage5_compose h.texts h.captures_iter h.complete h.cost_budget narrated n ≡ (ok t, n'))
        × (members ≡ member_ids narrated))

  -- No edge is pending but in rows of the outbox that the sessions do not see.
  abbrev pub NonePending : Store F Value → Type 0
  NonePending s =
      (seen : List OutboxRow) × (hidden : List OutboxRow) × ((s.tables.outbox ≡ seen ++ hidden)
        × All (λ r. h.sees r.edge ≡ false) hidden
        × (may_complete id seen ≡ ok tt))

  -- No edge is pending that can be seen, and the stored narrative is one that was composed and that the skill's verifier accepted for the
  -- members of its clusters.
  abbrev pub Earned : Store F Value → Type 0
  Earned s =
      NonePending s
      × ((t : Text) × (members : List Uuid) × (n : ℕ) × ((s.columns.narrative ≡ some t)
            × (h.verify t members ≡ accept n)
            × IsComposed t members))

  abbrev pub EarnedIfComplete : Store F Value → Type 0
  EarnedIfComplete s = status_of id s ≡ some SynthesisStatus.complete → Earned s

  -- A change of the database that leaves a synthesis that is over, and completes one only if that is earned.
  abbrev pub Respects : Store F Value × Store F Value → Type 0
  Respects (s, s') = (live id s ≡ false → Frozen s s') × (live id s ≡ true → EarnedIfComplete s')

  abbrev pub LiveBody : {A : Type 0} → Body (Store F Value) A → Type 0
  LiveBody body =
      (viewer : Viewer) (s : Store F Value)
      → live id s ≡ true
      → Yields (λ r. elim r.1 as (λ o. Type 0) [ none ↦ Unit | some s' ↦ EarnedIfComplete s' ])
          (body viewer s)

  pub same_status :
      (s s' : Store F Value)
      → live id s ≡ true
      → status_of id s' ≡ status_of id s
      → EarnedIfComplete s'
  same_status s s' l e k = absurd (live-not_complete id s l (sym e ∙ k))

  pub Frozen-Respects : (s s' : Store F Value) → Frozen s s' → Respects (s, s')
  Frozen-Respects s s' f = (
    λ d. f,
    λ l. same_status s s' l (ap (λ (rows : Rows F Value). status_in id rows.syntheses) f.0),
  )

  -- An update of the row to a status that is not `complete`.
  pub other_status :
      (f : SynthesisRow F Value → SynthesisRow F Value) (g : SynthesisStatus)
      → ((r : SynthesisRow F Value) → (f r).id ≡ r.id)
      → ((r : SynthesisRow F Value) → (f r).status ≡ g)
      → (some g ≢ some SynthesisStatus.complete)
      → (s : Store F Value) → EarnedIfComplete (with_row id f s)
  other_status f g same sets differs s k = absurd (
      go (status_in id s.rows.syntheses)
        (sym (status-update id f (λ x. g) same sets s.rows.syntheses) ∙ k))
    where
      go :
          (o : Option SynthesisStatus)
          → elim o as (λ o. Option SynthesisStatus) [ none ↦ none | some x ↦ some g ]
            ≡ some SynthesisStatus.complete
          → ⊥
      go none e = grind (arith, e)
      go (some x) e = differs e

  pub on_live-BodyKeeps :
      {A : Type 0} (body : Body (Store F Value) A)
      → LiveBody body
      → BodyKeeps Respects (on_live id body)
  unfolding on_live
  on_live-BodyKeeps {A} body hb viewer s = go (status_of id s) refl
    where
      Goal : Result StageError (A × Option (Store F Value)) → Type 0
      Goal = Yields (λ r. Writes Respects s r.1)

      wrote :
          (r : Result StageError (A × Option (Store F Value)))
          → live id s ≡ true
          → Yields
              (λ r. elim r.1 as (λ o. Type 0) [ none ↦ Unit | some s' ↦ EarnedIfComplete s' ])
              r
          → Goal r
      wrote (err e) l y = tt
      wrote (ok (a, none)) l y = tt
      wrote (ok (a, some s')) l y = (λ d. absurd (grind (arith, l, d)), λ k. y)

      living :
          (status : SynthesisStatus)
          → status_of id s ≡ some status
          → (b : Bool) → is_live status ≡ b
          → Goal (elim b [ true ↦ body viewer s | false ↦ err StageError.authority ])
      living status e true b =
          wrote (body viewer s)
            (ap (λ o. elim o as (λ o. Bool) [ none ↦ false | some x ↦ is_live x ]) e ∙ b)
            (hb viewer s
              (ap (λ o. elim o as (λ o. Bool) [ none ↦ false | some x ↦ is_live x ]) e ∙ b))
      living status e false b = tt

      go :
          (o : Option SynthesisStatus)
          → status_of id s ≡ o
          → Goal (elim o [
            | none ↦ err StageError.synth
            | some status ↦ elim (is_live status) [
              | true ↦ body viewer s
              | false ↦ err StageError.authority
            ]
          ])
      go none e = tt
      go (some status) e = living status e (is_live status) refl
