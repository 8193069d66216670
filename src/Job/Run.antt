-- ===== src/Job/Run.antt =====
-- The handler of synthesis_job.rs: `run`, `run_stages` and `run_on_pipeline`, transaction after transaction.
use episcience.Base.{ℕ, not, some, List, [], Uuid, if◌then◌else◌}
use episcience.Base.Floats.{Float}
use episcience.Base.Results.{Result, ok, err, map_err}
use episcience.Pipeline.{Text, Cluster, Metered}
use episcience.Pipeline.Narration.{narrate_all}
use episcience.Pipeline.Composition.{stage5_compose}
use episcience.Pipeline.Composition.Coverage.{member_ids}
use episcience.Verifier.{VerificationOutcome, accept, reject}
use episcience.Refinement.{SynthesisJobPayload, StageError, synth, Rejected}
use package.episcience.Job.{Store, Session, Course, M, Body, lift, ◌>>>◌, transaction, on_live}
use package.episcience.Job.Stages.{
  Handler, resolve_traversal_config, stage1, stage2_compute, stage3_plan, nonempty, mark_running,
  record_llm_usage, mark_failed, filter_seeds, stage2_persist, stage3_persist, store_narration,
  persist_verifier_outcome, plan_edges, upsert_embedding, write_and_complete, store_novelty,
  reject_body,
}

pub data RunError : Type 0 where
  authority failed : RunError

pub data JobResult : Type 0 where
  already_complete completed : JobResult
  refinement : Rejected → JobResult

module _ {F Value V : Type 0} ⦃fl : Float F⦄ (h : Handler F Value V)
    (session : Session (Store F Value)) (payload : SynthesisJobPayload Value) (acting : Uuid) where
  abbrev id : Uuid
  id = payload.synthesis_id

  abbrev pub tx : {A : Type 0} → Body (Store F Value) A → M (Store F Value) A
  tx = transaction session

  -- Steps 3b to 6: the clusters of what is reached from the seeds. Stage 3 has no edges yet.
  unfoldable pub prepare : M (Store F Value) (List Cluster)
  prepare = lift (map_err (λ e. synth) h.viewer) >>> λ owner.
      lift (stage1 h payload.seed_theme_id) >>> λ found. tx (filter_seeds h id found) >>> λ kept.
      lift (nonempty kept) >>> λ seeds.
      lift (stage2_compute h (resolve_traversal_config h payload.traversal_config) seeds)
      >>> λ claims. tx (stage2_persist h id claims) >>> λ u.
          lift (stage3_plan F 1 h.new_cluster_id id claims []) >>> λ clusters.
          tx (stage3_persist h id clusters) >>> λ u.
          -- The read of the members' texts.
          tx (λ viewer s. ok (tt, some s)) >>> λ u. lift (ok clusters)

  -- The novelty: what fails here changes no answer.
  unfoldable pub novelty : M (Store F Value) Unit
  novelty j =
      let r = (lift (map_err (λ e. synth) h.novelty_inputs) >>> λ u. tx (store_novelty h id)) j in
      (ok tt, r.1)

  -- Step 10, of an accepted narrative.
  unfoldable pub publish : List Cluster → Text → VerificationOutcome → M (Store F Value) JobResult
  publish narrated narrative outcome =
      tx (on_live id (persist_verifier_outcome h id outcome)) >>> λ u.
      tx (on_live id (plan_edges h id (member_ids narrated) acting payload.workflow_run_id))
      >>> λ u. lift (map_err (λ e. synth) h.embed) >>> λ u.
          tx (on_live id (upsert_embedding h id)) >>> λ u.
          tx (on_live id (write_and_complete h id narrative)) >>> λ written.
          (if written then (novelty >>> λ u. lift (ok completed)) else lift (err synth))

  -- Step 9: `n` calls of the model were made.
  unfoldable pub conclude_row : List Cluster → Text → ℕ → M (Store F Value) JobResult
  conclude_row narrated narrative n = tx (record_llm_usage h id n) >>> λ recorded.
      (if not recorded
        then lift (err StageError.authority)
        else elim (h.verify narrative (member_ids narrated)) [
          | reject reason ↦
              tx (reject_body h id payload acting (reject reason)) >>> λ r. lift (ok (refinement r))
          | accept k ↦ publish narrated narrative (accept k)
        ])

  -- A result, the course, and the calls of the model made so far.
  abbrev pub Counted : Type 0
  Counted = (Result StageError JobResult × Course (Store F Value)) × ℕ

  abbrev pub after_calls :
      {A : Type 0}
      → Metered A
      → Course (Store F Value)
      → (A → ℕ → Course (Store F Value) → Counted)
      → Counted
  after_calls (ok a, n) j f = f a n j
  after_calls (err e, n) j f = ((err synth, j), n)

  abbrev pub after_step :
      {A : Type 0}
      → Result StageError A × Course (Store F Value)
      → ℕ
      → (A → Course (Store F Value) → Counted)
      → Counted
  after_step (ok a, j) n f = f a j
  after_step (err e, j) n f = ((err e, j), n)

  -- Steps 8 and 9: no transaction is open while the model writes.
  unfoldable pub compose : List Cluster → ℕ → Course (Store F Value) → Counted
  compose narrated n j =
      after_calls (stage5_compose h.texts h.captures_iter h.complete h.cost_budget narrated n) j
        λ narrative n' j'. (conclude_row narrated narrative n' j', n')

  unfoldable pub run_on_pipeline : Course (Store F Value) → Counted
  run_on_pipeline j = after_step (prepare j) 0 λ clusters j'.
      after_calls (narrate_all h.texts h.complete h.cost_budget clusters 0) j' λ narrated n j''.
        after_step (tx (store_narration h id narrated) j'') n λ u j'''. compose narrated n j'''

  -- A failed attempt records its calls, if the row is still live.
  unfoldable pub record_failed : Counted → Result StageError JobResult × Course (Store F Value)
  record_failed ((ok r, j), n) = (ok r, j)
  record_failed ((err StageError.authority, j), n) = (err StageError.authority, j)
  record_failed ((err StageError.synth, j), n) =
      let p = tx (record_llm_usage h id n) j in
      (
        elim p.0 [
          | err e ↦ err synth
          | ok recorded ↦ if recorded then err synth else err StageError.authority
        ],
        p.1,
      )

  unfoldable pub run_stages : M (Store F Value) JobResult
  run_stages = tx (mark_running h id) >>> λ live.
      (if live then (λ j. record_failed (run_on_pipeline j)) else lift (ok already_complete))

  -- `fail`
  unfoldable pub fail :
      Result StageError JobResult × Course (Store F Value)
      → Result RunError JobResult × Course (Store F Value)
  fail (ok r, j) = (ok r, j)
  fail (err StageError.authority, j) = (err authority, j)
  fail (err StageError.synth, j) = (err failed, (tx (mark_failed h id) j).1)

  unfoldable pub run : Course (Store F Value) → Result RunError JobResult × Course (Store F Value)
  run j = fail (run_stages j)
