-- ===== src/Job/Answers.antt =====
-- What an attempt answers to the worker is what it did.
use episcience.Base.{
  ◌≡◌, refl, sym, ◌∙◌, ap, subst, inl, inr, ℕ, Bool, true, false, not, Option, none, some, List, [],
  Uuid, ◌==◌, if◌then◌else◌, arith,
}
use episcience.Base.Floats.{Float}
use episcience.Base.Results.{Result, ok, err, map_err, Yields}
use episcience.Ownership.{Viewer}
use episcience.Synthesis.{SynthesisStatus}
use episcience.Pipeline.{Text, Cluster, Metered}
use episcience.Pipeline.Narration.{narrate_all}
use episcience.Pipeline.Composition.{stage5_compose}
use episcience.Pipeline.Composition.Coverage.{member_ids}
use episcience.Verifier.{VerificationOutcome, accept, reject}
use episcience.Refinement.{SynthesisJobPayload, StageError, synth, Rejected, is_live}
use package.episcience.Job.{
  Store, Session, Course, M, Body, lift, continue, ◌>>>◌, transaction, on_live, status_of,
}
use package.episcience.Job.Stages.{
  Handler, start_row, mark_running, record_llm_usage, store_narration, write_and_complete,
  store_novelty, reject_body,
}
use package.episcience.Job.Run.{
  RunError, JobResult, already_complete, completed, refinement, Counted, tx, prepare, novelty,
  publish, conclude_row, after_calls, after_step, compose, run_on_pipeline, record_failed,
  run_stages, fail, run,
}
use package.episcience.Job.Respects.{IsPlanned, IsComposed, live, Earned}
use package.episcience.Job.Respects.Plans.{Gives, prepare-IsPlanned}
use package.episcience.Job.Respects.Completion.{Ended, write_and_complete-Ended}
use package.episcience.Job.Respects.Rejection.{Marks, reject_body-Marks}
use package.episcience.Job.Endings.{Some, TxEnds, transaction-TxEnds, transaction-Some}

module _ {F Value V : Type 0} ⦃fl : Float F⦄ (h : Handler F Value V)
    (session : Session (Store F Value)) (payload : SynthesisJobPayload Value) (acting : Uuid) where
  abbrev id : Uuid
  id = payload.synthesis_id

  abbrev Db : Type 0
  Db = Store F Value

  -- The transaction completed the live row, and that was earned.
  abbrev pub Completes : Db × Db → Type 0
  Completes (s, s') =
      (live id s ≡ true) × (Earned h id s' × (status_of id s' ≡ some SynthesisStatus.complete))

  -- The transaction rejected the live row.
  abbrev pub Rejects : Db × Db → Type 0
  Rejects (s, s') = (live id s ≡ true) × (status_of id s' ≡ some SynthesisStatus.rejected)

  abbrev pub Answers : JobResult → Course Db → Type 0
  Answers already_complete j = status_of id j.now ≡ some SynthesisStatus.complete
  Answers completed j = Some Completes j.done
  Answers (refinement r) j = Some Rejects j.done

  abbrev Truthful : Result StageError JobResult × Course Db → Type 0
  Truthful (ok r, j) = Answers r j
  Truthful (err e, j) = Unit

  Honest : M Db JobResult → Type 0
  Honest m = (j : Course Db) → Truthful (m j)

  bind-Honest :
      {A : Type 0} (m : M Db A) (f : A → M Db JobResult)
      → ((a : A) → Honest (f a))
      → Honest (m >>> f)
  unfolding Honest ◌>>>◌ continue
  bind-Honest {A} m f k j = go (m j)
    where
      go : (r : Result StageError A × Course Db) → Truthful (continue r f)
      go (ok a, j') = k a j'
      go (err e, j') = tt

  -- A transaction, and what follows by how it ended.
  tx-Honest :
      {A : Type 0} (Post : A → Db → Option Db → Type 0) (body : Body Db A) (f : A → M Db JobResult)
      → ((viewer : Viewer) (s : Db) → Yields (λ r. Post r.0 s r.1) (body viewer s))
      → ((a : A) (j : Course Db) → TxEnds Post (ok a, j) → Truthful (f a j))
      → Honest (tx h session payload acting body >>> f)
  unfolding Honest ◌>>>◌ continue
  tx-Honest {A} Post body f hb k j =
      go (transaction session body j) (transaction-TxEnds Post session body hb j)
    where
      go : (r : Result StageError A × Course Db) → TxEnds Post r → Truthful (continue r f)
      go (ok a, j') e = k a j' e
      go (err e, j') u = tt

  lift_err-Honest : (e : StageError) → Honest (lift (err e))
  unfolding Honest
  lift_err-Honest e j = tt

  on_live-Yields :
      {A : Type 0} (body : Body Db A) (Post : A × Option Db → Type 0) (viewer : Viewer) (s : Db)
      → (live id s ≡ true → Yields Post (body viewer s))
      → Yields (λ r. (live id s ≡ true) × Post r) (on_live id body viewer s)
  unfolding on_live
  on_live-Yields {A} body Post viewer s hb = go (status_of id s) refl
    where
      Goal : Result StageError (A × Option Db) → Type 0
      Goal = Yields (λ r. (live id s ≡ true) × Post r)

      wrote : (r : Result StageError (A × Option Db)) → live id s ≡ true → Yields Post r → Goal r
      wrote (err e) l y = tt
      wrote (ok r) l y = (l, y)

      living :
          (x : SynthesisStatus)
          → status_of id s ≡ some x
          → (b : Bool) → is_live x ≡ b
          → Goal (elim b [ true ↦ body viewer s | false ↦ err StageError.authority ])
      living x e true b =
          let l = ap (λ o. elim o as (λ o. Bool) [ none ↦ false | some x ↦ is_live x ]) e ∙ b in
          wrote (body viewer s) l (hb l)
      living x e false b = tt

      go :
          (o : Option SynthesisStatus)
          → status_of id s ≡ o
          → Goal (elim o [
            | none ↦ err StageError.synth
            | some x ↦ elim (is_live x) [ true ↦ body viewer s | false ↦ err StageError.authority ]
          ])
      go none e = tt
      go (some x) e = living x e (is_live x) refl

  -- Step 10: what is left after the last transaction changes no answer.
  after_complete :
      (written : Bool) (j : Course Db)
      → TxEnds (λ b s o. (live id s ≡ true) × Ended h id (b, o)) (ok written, j)
      → Truthful (
          (if written
              then (novelty h session payload acting >>> λ u. lift (ok completed))
              else lift (err synth))
            j)
  unfolding novelty ◌>>>◌ continue
  after_complete false j e = tt
  after_complete true j (inl e) = absurd (grind (arith, e.1))
  after_complete true j (inr (before, after, rest, (p, d))) =
      scored (map_err (λ e. synth) h.novelty_inputs) now
    where
      now : Some Completes j.done
      now = subst (Some Completes) (sym d) (inl p)

      scored :
          (r : Result StageError Unit)
          → Some Completes j.done
          → Some Completes
              (continue (r, j) (λ u. tx h session payload acting (store_novelty h id))).1.done
      scored (ok u) k = transaction-Some Completes session (store_novelty h id) j k
      scored (err e) k = k

  publish-Honest :
      (narrated : List Cluster) (narrative : Text) (outcome : VerificationOutcome) (n : ℕ)
      → h.verify narrative (member_ids narrated) ≡ accept n
      → IsComposed h id narrative (member_ids narrated)
      → Honest (publish h session payload acting narrated narrative outcome)
  unfolding publish
  publish-Honest narrated narrative outcome n accepted composed = bind-Honest _ _ λ u.
      bind-Honest _ _ λ u. bind-Honest _ _ λ u. bind-Honest _ _ λ u.
        tx-Honest (λ b s o. (live id s ≡ true) × Ended h id (b, o))
          (on_live id (write_and_complete h id narrative)) _
          (λ viewer s. on_live-Yields (write_and_complete h id narrative) (Ended h id) viewer s (
            write_and_complete-Ended h id narrative (member_ids narrated) n accepted composed viewer
              s))
          after_complete

  module _ (fresh : (h.child_id == id) ≡ false) where
    rejected_row :
        (reason : VerificationOutcome)
        → Honest (
            tx h session payload acting (reject_body h id payload acting reason) >>> λ r.
            lift (ok (refinement r)))
    rejected_row reason =
        tx-Honest (λ r s o. Marks h payload r s o) (reject_body h id payload acting reason)
          (λ r. lift (ok (refinement r))) (reject_body-Marks h payload acting reason) ended
      where
        ended :
            (r : Rejected) (j : Course Db)
            → TxEnds (λ r s o. Marks h payload r s o) (ok r, j)
            → Some Rejects j.done
        ended r j (inl m) = absurd m
        ended r j (inr (before, after, rest, (m, d))) =
            subst (Some Rejects) (sym d) (inl (m.0, m.2 fresh))

    conclude_row-Honest :
        (narrated : List Cluster) (narrative : Text) (n : ℕ)
        → IsComposed h id narrative (member_ids narrated)
        → Honest (conclude_row h session payload acting narrated narrative n)
    unfolding conclude_row
    conclude_row-Honest narrated narrative n composed =
        bind-Honest _ _ λ recorded. by_record (not recorded)
      where
        judged :
            (o : VerificationOutcome)
            → h.verify narrative (member_ids narrated) ≡ o
            → Honest (elim o as (λ o. M Db JobResult) [
              | reject reason ↦
                  tx h session payload acting (reject_body h id payload acting (reject reason))
                  >>> λ r. lift (ok (refinement r))
              | accept k ↦ publish h session payload acting narrated narrative (accept k)
            ])
        judged (reject reason) e = rejected_row (reject reason)
        judged (accept k) e = publish-Honest narrated narrative (accept k) k e composed

        by_record :
            (b : Bool)
            → Honest (
                if b
                then lift (err StageError.authority)
                else elim (h.verify narrative (member_ids narrated)) as (λ o. M Db JobResult) [
                  | reject reason ↦
                      tx h session payload acting (reject_body h id payload acting (reject reason))
                      >>> λ r. lift (ok (refinement r))
                  | accept k ↦ publish h session payload acting narrated narrative (accept k)
                ])
        by_record true = lift_err-Honest StageError.authority
        by_record false = judged (h.verify narrative (member_ids narrated)) refl

    after_calls-Truthful :
        {A : Type 0} (m : Metered A) (j : Course Db)
        (f : A → ℕ → Course Db → Counted h session payload acting)
        → ((a : A) (n : ℕ) → m ≡ (ok a, n) → Truthful (f a n j).0)
        → Truthful (after_calls h session payload acting m j f).0
    after_calls-Truthful (ok a, n) j f g = g a n refl
    after_calls-Truthful (err e, n) j f g = tt

    after_step-Truthful :
        {A : Type 0} (r : Result StageError A × Course Db) (n : ℕ)
        (f : A → Course Db → Counted h session payload acting)
        → ((a : A) (j : Course Db) → r ≡ (ok a, j) → Truthful (f a j).0)
        → Truthful (after_step h session payload acting r n f).0
    after_step-Truthful (ok a, j) n f g = g a j refl
    after_step-Truthful (err e, j) n f g = tt

    run_on_pipeline-Truthful :
        (j : Course Db) → Truthful (run_on_pipeline h session payload acting j).0
    unfolding run_on_pipeline compose Honest Gives
    run_on_pipeline-Truthful j =
        after_step-Truthful (prepare h session payload acting j) 0 _ λ clusters j1 p.
          after_calls-Truthful (narrate_all h.texts h.complete h.cost_budget clusters 0) j1 _
            λ narrated n e.
              after_step-Truthful (tx h session payload acting (store_narration h id narrated) j1) n
                _
                λ u j2 q.
                  after_calls-Truthful
                    (stage5_compose h.texts h.captures_iter h.complete h.cost_budget narrated n) j2
                    _
                    λ narrative n' f.
                      conclude_row-Honest narrated narrative n'
                        (clusters, narrated, n, n', (planned clusters j1 p, e, f, refl)) j2
      where
        planned :
            (clusters : List Cluster) (j1 : Course Db)
            → prepare h session payload acting j ≡ (ok clusters, j1)
            → IsPlanned h id clusters
        planned clusters j1 p =
            subst (λ r. Yields (IsPlanned h id) r.0) p
              (prepare-IsPlanned h session payload acting j)

    attempt-Honest :
        Honest
          (λ j. record_failed h session payload acting (run_on_pipeline h session payload acting j))
    unfolding Honest record_failed
    attempt-Honest j = go (run_on_pipeline h session payload acting j) (run_on_pipeline-Truthful j)
      where
        recorded :
            (r : Result StageError Bool) (j : Course Db)
            → Truthful (
              elim r as (λ r. Result StageError JobResult) [
                | err e ↦ err synth
                | ok b ↦ if b then err synth else err StageError.authority
              ],
              j,
            )
        recorded (err e) j = tt
        recorded (ok true) j = tt
        recorded (ok false) j = tt

        go :
            (c : Counted h session payload acting)
            → Truthful c.0
            → Truthful (record_failed h session payload acting c)
        go ((ok r, j), n) t = t
        go ((err StageError.authority, j), n) t = tt
        go ((err StageError.synth, j), n) t =
            recorded (tx h session payload acting (record_llm_usage h id n) j).0
              (tx h session payload acting (record_llm_usage h id n) j).1

    -- Whether the row is live, as `mark_running` answers it.
    abbrev Started : Bool → Db → Option Db → Type 0
    Started true s o = Unit
    Started false s none = status_of id s ≡ some SynthesisStatus.complete
    Started false s (some s') = ⊥

    mark_running-Started :
        (viewer : Viewer) (s : Db) → Yields (λ r. Started r.0 s r.1) (mark_running h id viewer s)
    unfolding mark_running
    mark_running-Started viewer s = go (status_of id s) refl
      where
        go :
            (o : Option SynthesisStatus)
            → status_of id s ≡ o
            → Yields
                (λ r. Started r.0 s r.1)
                (elim o as (λ o. Result StageError (Bool × Option Db)) [
                  | none ↦ err StageError.synth
                  | some x ↦ start_row h id x s
                ])
        go none e = tt
        go (some SynthesisStatus.complete) e = e
        go (some SynthesisStatus.deleted) e = tt
        go (some SynthesisStatus.pending) e = tt
        go (some SynthesisStatus.running) e = tt
        go (some SynthesisStatus.verifying) e = tt
        go (some SynthesisStatus.failed) e = tt
        go (some SynthesisStatus.rejected) e = tt

    run_stages-Honest : Honest (run_stages h session payload acting)
    unfolding run_stages Honest
    run_stages-Honest = tx-Honest Started (mark_running h id) _ mark_running-Started begun
      where
        begun :
            (b : Bool) (j : Course Db)
            → TxEnds Started (ok b, j)
            → Truthful (
                (if b
                    then (λ j.
                        record_failed h session payload acting
                          (run_on_pipeline h session payload acting j))
                    else lift (ok already_complete))
                  j)
        begun true j e = attempt-Honest j
        begun false j (inl e) = e
        begun false j (inr (before, after, rest, (p, d))) = absurd p

    abbrev pub IsAnswer : Result RunError JobResult × Course Db → Type 0
    IsAnswer (ok r, j) = Answers r j
    IsAnswer (err e, j) = Unit

    -- If the child's identifier is not the job's synthesis, whatever the kernel, the model, the database and other
    -- sessions answer: an attempt that began with no transaction and that answers that the synthesis is completed has
    -- completed it, in a transaction that took effect on the live row, with no edge pending that the principal's sessions
    -- see, and with a narrative that the stages composed and that the verifier accepted for the members of its clusters;
    -- one that answers that it is rejected has so rejected the live row; and one that answers that it was complete
    -- already saw that.
    pub run-IsAnswer :
        (now : Db) (opened : ℕ)
        → IsAnswer (run h session payload acting (record { now = now; opened = opened; done = [] }))
    unfolding run fail Honest
    run-IsAnswer now opened =
        go (run_stages h session payload acting start) (run_stages-Honest start)
      where
        start : Course Db
        start = record { now = now; opened = opened; done = [] }

        go :
            (r : Result StageError JobResult × Course Db)
            → Truthful r
            → IsAnswer (fail h session payload acting r)
        go (ok r, j) t = t
        go (err StageError.authority, j) t = tt
        go (err StageError.synth, j) t = tt
