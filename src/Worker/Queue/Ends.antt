-- ===== src/Worker/Queue/Ends.antt =====
-- What `run_once` reports agrees with what it did, and what it needs before it runs a job.
use text.Mathlib.Text.{◌==◌ as str_eq}
use episcience.Base.{
  ◌≡◌, refl, ℕ, ◌+◌, Bool, true, false, not, Option, none, some, List, [], ◌∷◌, Uuid, ltb, ◌==◌,
  if◌then◌else◌, arith, ◌*◌, max, subst, sym,
}
use episcience.Base.Results.{Result, ok, err}
use episcience.Ownership.{Viewer}
use episcience.Session.{SqlxError, is_transient_sqlx}
use episcience.Refinement.{SynthesisJobPayload}
use package.episcience.Worker.{Refusal, authorize}
use package.episcience.Worker.Queue.{
  Reason, JobOutcome, idle, completed, retried, JobState, QueueArgs, finish, retry, Event, called,
  ran, World, ClaimedJob, RunError, Step, failed_step, retry_or_fail, after_run, run_payload,
  run_authorized, run_claimed, run_once, job_max_age,
}

abbrev pub last : List Event → Option Event
last [] = none
last (x ∷ []) = some x
last (x ∷ (y ∷ l)) = last (y ∷ l)

-- The report of a claimed job agrees with its log: the last thing done is a queue call for the job whose accepted state
-- is the one reported, or whose error is returned.
abbrev pub Accounts : Uuid → Step JobOutcome → Type 0
Accounts job (ok idle, log) = ⊥
Accounts job (ok (completed id), log) =
    (id ≡ job) × (last log ≡ some (called job (finish JobState.complete none) (ok tt)))
Accounts job (ok (JobOutcome.failed id r), log) =
    (id ≡ job) × (last log ≡ some (called job (finish JobState.failed (some r)) (ok tt)))
Accounts job (ok (retried id r), log) =
    (id ≡ job) × ((delay : ℕ) × (last log ≡ some (called job (retry delay r) (ok tt))))
Accounts job (err e, log) = (args : QueueArgs) × (last log ≡ some (called job args (err e)))

module _ {Value : Type 0} (w : World Value) where
  failed_step-Accounts : (job : Uuid) (r : Reason) → Accounts job (failed_step w job r)
  unfolding failed_step
  failed_step-Accounts job r = go (w.call job (finish JobState.failed (some r)))
    where
      go :
          (a : Result SqlxError Unit)
          → Accounts job (
            elim a [ ok t ↦ ok (JobOutcome.failed job r) | err e ↦ err e ],
            called job (finish JobState.failed (some r)) a ∷ [],
          )
      go (ok t) = (refl, refl)
      go (err e) = (finish JobState.failed (some r), refl)

  -- More events before those of a step that accounts.
  cons-Accounts :
      (job : Uuid) (x : Event) (s : Step JobOutcome) → Accounts job s → Accounts job (s.0, x ∷ s.1)
  cons-Accounts job x (ok idle, log) h = h
  cons-Accounts job x (ok (completed id), y ∷ log) h = h
  cons-Accounts job x (ok (completed id), []) h = absurd (grind (arith, h.1))
  cons-Accounts job x (ok (JobOutcome.failed id r), y ∷ log) h = h
  cons-Accounts job x (ok (JobOutcome.failed id r), []) h = absurd (grind (arith, h.1))
  cons-Accounts job x (ok (retried id r), y ∷ log) h = h
  cons-Accounts job x (ok (retried id r), []) h = absurd (grind (arith, h.1.1))
  cons-Accounts job x (err e, y ∷ log) h = h
  cons-Accounts job x (err e, []) h = absurd (grind (arith, h.1))

  retry_or_fail-Accounts :
      (job : ClaimedJob Value) (r : Reason) → Accounts job.job_id (retry_or_fail w job r)
  unfolding retry_or_fail
  retry_or_fail-Accounts job r = go (w.call job.job_id (retry delay r))
    where
      delay : ℕ
      delay = w.retry_delay * max job.attempts 1

      final :
          (e : SqlxError) (b : Bool)
          → Accounts job.job_id (
              if◌then◌else◌ {A = Step JobOutcome} b
                (err e, called job.job_id (retry delay r) (err e) ∷ [])
                (
                  (failed_step w job.job_id r).0,
                  called job.job_id (retry delay r) (err e) ∷ (failed_step w job.job_id r).1,
                ))
      final e true = (retry delay r, refl)
      final e false =
          cons-Accounts job.job_id (called job.job_id (retry delay r) (err e))
            (failed_step w job.job_id r) (failed_step-Accounts job.job_id r)

      go :
          (a : Result SqlxError Unit)
          → Accounts job.job_id (elim a [
            | ok t ↦ (ok (retried job.job_id r), called job.job_id (retry delay r) (ok t) ∷ [])
            | err e ↦
                if is_transient_sqlx e
                then (err e, called job.job_id (retry delay r) (err e) ∷ [])
                else (
                  (failed_step w job.job_id r).0,
                  called job.job_id (retry delay r) (err e) ∷ (failed_step w job.job_id r).1,
                )
          ])
      go (ok t) = (refl, (delay, refl))
      go (err e) = final e (is_transient_sqlx e)

  after_run-Accounts :
      (job : ClaimedJob Value) (r : Result RunError Unit) → Accounts job.job_id (after_run w job r)
  unfolding after_run
  after_run-Accounts job (ok t) = go (w.call job.job_id (finish JobState.complete none))
    where
      go :
          (a : Result SqlxError Unit)
          → Accounts job.job_id (
            elim a [ ok t ↦ ok (completed job.job_id) | err e ↦ err e ],
            called job.job_id (finish JobState.complete none) a ∷ [],
          )
      go (ok t) = (refl, refl)
      go (err e) = (finish JobState.complete none, refl)
  after_run-Accounts job (err RunError.authority) =
      failed_step-Accounts job.job_id Reason.run_authority
  after_run-Accounts job (err (RunError.failed true)) =
      failed_step-Accounts job.job_id (Reason.run_failed true)
  after_run-Accounts job (err (RunError.failed false)) =
      retry_or_fail-Accounts job (Reason.run_failed false)

  run_payload-Accounts :
      (job : ClaimedJob Value) (p : SynthesisJobPayload Value)
      → Accounts job.job_id (run_payload w job p)
  unfolding run_payload
  run_payload-Accounts job p = go (p.synthesis_id == job.synthesis_id)
    where
      after : Step JobOutcome
      after = after_run w job (w.run p job.principal_id)

      go :
          (b : Bool)
          → Accounts job.job_id (
              if◌then◌else◌ {A = Step JobOutcome}
                (not b)
                (failed_step w job.job_id Reason.names_another_synthesis)
                (after.0, ran job.job_id job.principal_id ∷ after.1))
      go false = failed_step-Accounts job.job_id Reason.names_another_synthesis
      go true =
          cons-Accounts job.job_id (ran job.job_id job.principal_id) after
            (after_run-Accounts job (w.run p job.principal_id))

  run_authorized-Accounts :
      (job : ClaimedJob Value) (v : Result Refusal Viewer)
      → Accounts job.job_id (run_authorized w job v)
  unfolding run_authorized
  run_authorized-Accounts job (err Refusal.transient) =
      retry_or_fail-Accounts job (Reason.refused Refusal.transient)
  run_authorized-Accounts job (err Refusal.operated) =
      failed_step-Accounts job.job_id (Reason.refused Refusal.operated)
  run_authorized-Accounts job (err Refusal.authority) =
      failed_step-Accounts job.job_id (Reason.refused Refusal.authority)
  run_authorized-Accounts job (ok viewer) = go (w.from_value job.payload)
    where
      go :
          (o : Option (SynthesisJobPayload Value))
          → Accounts job.job_id (elim o [
            | none ↦ failed_step w job.job_id Reason.invalid_payload
            | some p ↦ run_payload w job p
          ])
      go none = failed_step-Accounts job.job_id Reason.invalid_payload
      go (some p) = run_payload-Accounts job p

  run_claimed-Accounts : (job : ClaimedJob Value) → Accounts job.job_id (run_claimed w job)
  unfolding run_claimed
  run_claimed-Accounts job =
      go (ltb (job.created_at + job_max_age) w.now) (str_eq job.job_type "synthesis")
    where
      go :
          (a b : Bool)
          → Accounts job.job_id (
              if◌then◌else◌ {A = Step JobOutcome} a (failed_step w job.job_id Reason.expired) (
                if not b
                then failed_step w job.job_id Reason.unknown_job_type
                else run_authorized w job (authorize w.resolve w.operator_of job.principal_id)))
      go true b = failed_step-Accounts job.job_id Reason.expired
      go false false = failed_step-Accounts job.job_id Reason.unknown_job_type
      go false true =
          run_authorized-Accounts job (authorize w.resolve w.operator_of job.principal_id)

  -- `run_once` never reports of a claimed job that the queue was idle. If it reports the job complete, failed or retried,
  -- the last thing it did was a call of the queue for that job, to that state and with that reason, which was accepted;
  -- and if it returns an error, the last thing it did was a call for the job that ended in this error.
  pub run_once-Accounts :
      (job : ClaimedJob Value) → w.claim ≡ ok (some job) → Accounts job.job_id (run_once w)
  unfolding run_once
  run_once-Accounts job h =
      subst
        (λ c. Accounts job.job_id (elim c [
          | err e ↦ (err e, [])
          | ok o ↦ elim o [ none ↦ (ok idle, []) | some j ↦ run_claimed w j ]
        ]))
        (sym h) (run_claimed-Accounts job)
