-- ===== src/Job/Respects/Attempts.antt =====
-- A whole attempt of the handler respects the synthesis, from its first transaction to its last.
use episcience.Base.{◌≡◌, refl, subst, ℕ, not, List, Uuid}
use episcience.Base.Floats.{Float}
use episcience.Base.Results.{Result, ok, err, map_err, Yields}
use episcience.Pipeline.{Text, Cluster, Metered}
use episcience.Pipeline.Narration.{narrate_all}
use episcience.Pipeline.Composition.{stage5_compose}
use episcience.Pipeline.Composition.Coverage.{member_ids}
use episcience.Verifier.{VerificationOutcome, accept, reject}
use episcience.Refinement.{SynthesisJobPayload, StageError, synth}
use package.episcience.Job.{Store, Session, Course, M, Body, lift, ◌>>>◌}
use package.episcience.Job.Courses.{
  Respectful, Keeps, BodyKeeps, lift-Keeps, if-Keeps, bind-Keeps, transaction-Keeps,
}
use package.episcience.Job.Stages.{
  Handler, record_llm_usage, filter_seeds, stage2_persist, stage3_persist, store_narration,
  store_novelty, reject_body,
}
use package.episcience.Job.Run.{
  JobResult, refinement, Counted, tx, prepare, novelty, publish, conclude_row, after_calls,
  after_step, compose, run_on_pipeline, record_failed, run_stages, fail, run,
}
use package.episcience.Job.Respects.{IsPlanned, IsComposed, Respects, on_live-BodyKeeps}
use package.episcience.Job.Respects.Plans.{Gives, prepare-IsPlanned}
use package.episcience.Job.Respects.Bodies.{
  filter_seeds-Keeping, stage2_persist-Keeping, store_novelty-Keeping, stage3_persist-Keeping,
  store_narration-Keeping, mark_running-Keeping, record_llm_usage-Keeping, mark_failed-Keeping,
  persist_verifier_outcome-LiveBody, plan_edges-LiveBody, upsert_embedding-LiveBody, untouched,
}
use package.episcience.Job.Respects.Completion.{write_and_complete-LiveBody}
use package.episcience.Job.Respects.Rejection.{reject_body-Keeping}

module _ {F Value V : Type 0} ⦃fl : Float F⦄ (h : Handler F Value V)
    (session : Session (Store F Value)) (payload : SynthesisJobPayload Value) (acting : Uuid) where
  abbrev id : Uuid
  id = payload.synthesis_id

  abbrev Db : Type 0
  Db = Store F Value

  abbrev Steady : {A : Type 0} → M Db A → Type 0
  Steady m = Keeps (Respects h id) m

  then_Steady :
      {A B : Type 0} (m : M Db A) (f : A → M Db B)
      → Steady m
      → ((a : A) → Steady (f a))
      → Steady (m >>> f)
  then_Steady m f = bind-Keeps (Respects h id) m f

  tx-Steady :
      {A : Type 0} (body : Body Db A)
      → BodyKeeps (Respects h id) body
      → Steady (tx h session payload acting body)
  tx-Steady body = transaction-Keeps (Respects h id) session body

  prepare-Steady : Steady (prepare h session payload acting)
  unfolding prepare
  prepare-Steady = then_Steady _ _ (lift-Keeps (Respects h id) _) λ owner.
      then_Steady _ _ (lift-Keeps (Respects h id) _) λ found.
        then_Steady _ _ (tx-Steady (filter_seeds h id found) (filter_seeds-Keeping h id found))
          λ kept. then_Steady _ _ (lift-Keeps (Respects h id) _) λ seeds.
            then_Steady _ _ (lift-Keeps (Respects h id) _) λ claims.
              then_Steady _ _
                (tx-Steady (stage2_persist h id claims) (stage2_persist-Keeping h id claims))
                λ u. then_Steady _ _ (lift-Keeps (Respects h id) _) λ clusters.
                  then_Steady _ _
                    (tx-Steady (stage3_persist h id clusters)
                      (stage3_persist-Keeping h id clusters))
                    λ u.
                      then_Steady _ _
                        (tx-Steady _
                          (λ viewer s. untouched h id s s (refl, refl, refl, refl, refl)))
                        λ u. lift-Keeps (Respects h id) _

  scored-Steady : Steady (
      lift (map_err (λ e. synth) h.novelty_inputs) >>> λ u.
      tx h session payload acting (store_novelty h id))
  scored-Steady =
      then_Steady _ _ (lift-Keeps (Respects h id) (map_err (λ e. synth) h.novelty_inputs))
        λ u. tx-Steady (store_novelty h id) (store_novelty-Keeping h id)

  novelty-Steady : Steady (novelty h session payload acting)
  unfolding novelty Keeps
  novelty-Steady j k = scored-Steady j k

  publish-Steady :
      (narrated : List Cluster) (narrative : Text) (outcome : VerificationOutcome) (n : ℕ)
      → h.verify narrative (member_ids narrated) ≡ accept n
      → IsComposed h id narrative (member_ids narrated)
      → Steady (publish h session payload acting narrated narrative outcome)
  unfolding publish
  publish-Steady narrated narrative outcome n accepted composed =
      then_Steady _ _
        (tx-Steady _ (on_live-BodyKeeps h id _ (persist_verifier_outcome-LiveBody h id outcome)))
        λ u.
          then_Steady _ _
            (tx-Steady _ (
              on_live-BodyKeeps h id _
                (plan_edges-LiveBody h id (member_ids narrated) acting payload.workflow_run_id)))
            λ u. then_Steady _ _ (lift-Keeps (Respects h id) _) λ u.
              then_Steady _ _
                (tx-Steady _ (on_live-BodyKeeps h id _ (upsert_embedding-LiveBody h id)))
                λ u.
                  then_Steady _ _
                    (tx-Steady _ (
                      on_live-BodyKeeps h id _ (
                        write_and_complete-LiveBody h id narrative (member_ids narrated) n accepted
                          composed)))
                    λ written.
                      if-Keeps (Respects h id) written _ _
                        (then_Steady _ _ novelty-Steady λ u. lift-Keeps (Respects h id) _)
                        (lift-Keeps (Respects h id) _)

  conclude_row-Steady :
      (narrated : List Cluster) (narrative : Text) (n : ℕ)
      → IsComposed h id narrative (member_ids narrated)
      → Steady (conclude_row h session payload acting narrated narrative n)
  unfolding conclude_row
  conclude_row-Steady narrated narrative n composed =
      then_Steady _ _ (tx-Steady (record_llm_usage h id n) (record_llm_usage-Keeping h id n))
        λ recorded.
          if-Keeps (Respects h id) (not recorded) _ _ (lift-Keeps (Respects h id) _)
            (judged (h.verify narrative (member_ids narrated)) refl)
    where
      judged :
          (o : VerificationOutcome)
          → h.verify narrative (member_ids narrated) ≡ o
          → Steady (elim o as (λ o. M Db JobResult) [
            | reject reason ↦
                tx h session payload acting (reject_body h id payload acting (reject reason))
                >>> λ r. lift (ok (refinement r))
            | accept k ↦ publish h session payload acting narrated narrative (accept k)
          ])
      judged (reject reason) e =
          then_Steady _ _ (tx-Steady _ (reject_body-Keeping h payload acting (reject reason)))
            λ r. lift-Keeps (Respects h id) _
      judged (accept k) e = publish-Steady narrated narrative (accept k) k e composed

  -- The course after a counted step.
  abbrev Steadied : Counted h session payload acting → Type 0
  Steadied c = Respectful (Respects h id) c.0.1

  after_calls-Steadied :
      {A : Type 0} (m : Metered A) (j : Course Db)
      (f : A → ℕ → Course Db → Counted h session payload acting)
      → Respectful (Respects h id) j
      → ((a : A) (n : ℕ) → m ≡ (ok a, n) → Steadied (f a n j))
      → Steadied (after_calls h session payload acting m j f)
  after_calls-Steadied (ok a, n) j f k g = g a n refl
  after_calls-Steadied (err e, n) j f k g = k

  after_step-Steadied :
      {A : Type 0} (r : Result StageError A × Course Db) (n : ℕ)
      (f : A → Course Db → Counted h session payload acting)
      → Respectful (Respects h id) r.1
      → ((a : A) (j : Course Db) → r ≡ (ok a, j) → Respectful (Respects h id) j → Steadied (f a j))
      → Steadied (after_step h session payload acting r n f)
  after_step-Steadied (ok a, j) n f k g = g a j refl k
  after_step-Steadied (err e, j) n f k g = k

  run_on_pipeline-Steadied :
      (j : Course Db)
      → Respectful (Respects h id) j
      → Steadied (run_on_pipeline h session payload acting j)
  unfolding run_on_pipeline compose Keeps Gives
  run_on_pipeline-Steadied j k =
      after_step-Steadied (prepare h session payload acting j) 0 _ (prepare-Steady j k)
        λ clusters j1 p k1.
          after_calls-Steadied (narrate_all h.texts h.complete h.cost_budget clusters 0) j1 _ k1
            λ narrated n e.
              after_step-Steadied (tx h session payload acting (store_narration h id narrated) j1) n
                _ (tx-Steady _ (store_narration-Keeping h id narrated) j1 k1)
                λ u j2 q k2.
                  after_calls-Steadied
                    (stage5_compose h.texts h.captures_iter h.complete h.cost_budget narrated n) j2
                    _ k2
                    λ narrative n' f.
                      conclude_row-Steady narrated narrative n'
                        (clusters, narrated, n, n', (planned clusters j1 p, e, f, refl)) j2 k2
    where
      planned :
          (clusters : List Cluster) (j1 : Course Db)
          → prepare h session payload acting j ≡ (ok clusters, j1)
          → IsPlanned h id clusters
      planned clusters j1 p =
          subst (λ r. Yields (IsPlanned h id) r.0) p (prepare-IsPlanned h session payload acting j)

  record_failed-Respectful :
      (c : Counted h session payload acting)
      → Steadied c
      → Respectful (Respects h id) (record_failed h session payload acting c).1
  unfolding record_failed Keeps
  record_failed-Respectful ((ok r, j), n) k = k
  record_failed-Respectful ((err StageError.authority, j), n) k = k
  record_failed-Respectful ((err StageError.synth, j), n) k =
      tx-Steady (record_llm_usage h id n) (record_llm_usage-Keeping h id n) j k

  attempt-Steady :
      Steady
        (λ j. record_failed h session payload acting (run_on_pipeline h session payload acting j))
  unfolding Keeps
  attempt-Steady j k =
      record_failed-Respectful (run_on_pipeline h session payload acting j)
        (run_on_pipeline-Steadied j k)

  run_stages-Steady : Steady (run_stages h session payload acting)
  unfolding run_stages
  run_stages-Steady =
      then_Steady _ _ (tx-Steady _ (mark_running-Keeping h id))
        λ live. if-Keeps (Respects h id) live _ _ attempt-Steady (lift-Keeps (Respects h id) _)

  fail-Respectful :
      (r : Result StageError JobResult × Course Db)
      → Respectful (Respects h id) r.1
      → Respectful (Respects h id) (fail h session payload acting r).1
  unfolding fail Keeps
  fail-Respectful (ok r, j) k = k
  fail-Respectful (err StageError.authority, j) k = k
  fail-Respectful (err StageError.synth, j) k = tx-Steady _ (mark_failed-Keeping h id) j k

  -- Whatever the kernel, the model, the database and other sessions answer: if the transactions that took effect before
  -- an attempt respect the synthesis of the job, so does every transaction of the attempt that takes effect. That is:
  -- if the row is absent, complete or deleted when the transaction begins, the rows, the outbox, the kernel's edges,
  -- the narrative, the count of calls and the embedding stay as they are; the snapshot, the members, the clusters and
  -- the novelty may change. If the row is live, it becomes complete only if no edge that the principal's sessions see
  -- is pending, and with a narrative that stage 5 composed from clusters that stage 4 narrated, stage 3 planned, and
  -- whose claims the traversal of stage 2 found from some seeds, and that the skill's verifier accepted for the members
  -- of these clusters.
  pub run-Respectful :
      (start : Course Db)
      → Respectful (Respects h id) start
      → Respectful (Respects h id) (run h session payload acting start).1
  unfolding run Keeps
  run-Respectful start k =
      fail-Respectful (run_stages h session payload acting start) (run_stages-Steady start k)
