-- ===== src/Worker/Queue/Gate.antt =====
-- What a job has to be before `run_once` hands it to the handler.
use text.Mathlib.Text.{◌==◌ as str_eq}
use episcience.Base.{
  ◌≡◌, refl, ℕ, ◌+◌, ◌*◌, max, ◌≤◌, Bool, true, false, not, Option, none, some, [], ◌∷◌, Uuid, ltb,
  ◌==◌, ==_iff, if◌then◌else◌, arith, any, subst,
}
use episcience.Base.Results.{Result, ok, err}
use episcience.Ownership.{Viewer}
use episcience.Session.{SqlxError, is_transient_sqlx}
use episcience.Refinement.{SynthesisJobPayload}
use package.episcience.Worker.{Refusal, authorize}
use package.episcience.Worker.Queue.{
  Reason, JobOutcome, idle, retried, retry, Event, called, ran, World, ClaimedJob, Step,
  failed_step, retry_or_fail, after_run, run_payload, run_authorized, run_claimed, run_once,
  job_max_age,
}

-- Whether the handler ran.
abbrev pub is_run : Event → Bool
is_run (ran job principal) = true
is_run (called job args a) = false

abbrev pub has_run : Step JobOutcome → Bool
has_run s = any is_run s.1

module _ {Value : Type 0} (w : World Value) where
  -- What must hold of a job before the handler runs it.
  abbrev pub MayRun : ClaimedJob Value → Type 0
  MayRun job =
      (w.now ≤ job.created_at + job_max_age)
      × (str_eq job.job_type "synthesis" ≡ true)
      × ((viewer : Viewer) × (authorize w.resolve w.operator_of job.principal_id ≡ ok viewer))
      × ((p : SynthesisJobPayload Value) × ((w.from_value job.payload ≡ some p)
            × (p.synthesis_id ≡ job.synthesis_id)))

  failed_step-quiet : (job : Uuid) (r : Reason) → has_run (failed_step w job r) ≡ false
  unfolding failed_step
  failed_step-quiet job r = refl

  retry_or_fail-quiet :
      (job : ClaimedJob Value) (r : Reason) → has_run (retry_or_fail w job r) ≡ false
  unfolding retry_or_fail failed_step
  retry_or_fail-quiet job r = go (w.call job.job_id (retry delay r))
    where
      delay : ℕ
      delay = w.retry_delay * max job.attempts 1

      final :
          (e : SqlxError) (b : Bool)
          → has_run (
              if◌then◌else◌ {A = Step JobOutcome} b
                (err e, called job.job_id (retry delay r) (err e) ∷ [])
                (
                  (failed_step w job.job_id r).0,
                  called job.job_id (retry delay r) (err e) ∷ (failed_step w job.job_id r).1,
                ))
            ≡ false
      final e true = refl
      final e false = refl

      go :
          (a : Result SqlxError Unit)
          → has_run (elim a [
            | ok t ↦ (ok (retried job.job_id r), called job.job_id (retry delay r) (ok t) ∷ [])
            | err e ↦
                if is_transient_sqlx e
                then (err e, called job.job_id (retry delay r) (err e) ∷ [])
                else (
                  (failed_step w job.job_id r).0,
                  called job.job_id (retry delay r) (err e) ∷ (failed_step w job.job_id r).1,
                )
          ])
            ≡ false
      go (ok t) = refl
      go (err e) = final e (is_transient_sqlx e)

  clash : {A : Type 0} (s : Step JobOutcome) → has_run s ≡ false → has_run s ≡ true → A
  clash s h k = absurd (grind (arith, h, k))

  -- The payload names the job's synthesis.
  run_payload-Named :
      (job : ClaimedJob Value) (p : SynthesisJobPayload Value)
      → has_run (run_payload w job p) ≡ true
      → p.synthesis_id ≡ job.synthesis_id
  unfolding run_payload
  run_payload-Named job p = go (p.synthesis_id == job.synthesis_id) refl
    where
      after : Step JobOutcome
      after = after_run w job (w.run p job.principal_id)

      go :
          (b : Bool)
          → (p.synthesis_id == job.synthesis_id) ≡ b
          → has_run (
              if◌then◌else◌ {A = Step JobOutcome}
                (not b)
                (failed_step w job.job_id Reason.names_another_synthesis)
                (after.0, ran job.job_id job.principal_id ∷ after.1))
            ≡ true
          → p.synthesis_id ≡ job.synthesis_id
      go false h k =
          clash (failed_step w job.job_id Reason.names_another_synthesis)
            (failed_step-quiet job.job_id Reason.names_another_synthesis) k
      go true h k = (==_iff p.synthesis_id job.synthesis_id).0 h

  abbrev Authorized : ClaimedJob Value → Result Refusal Viewer → Type 0
  Authorized job v =
      ((viewer : Viewer) × (v ≡ ok viewer))
      × ((p : SynthesisJobPayload Value) × ((w.from_value job.payload ≡ some p)
            × (p.synthesis_id ≡ job.synthesis_id)))

  run_authorized-Authorized :
      (job : ClaimedJob Value) (v : Result Refusal Viewer)
      → has_run (run_authorized w job v) ≡ true
      → Authorized job v
  unfolding run_authorized
  run_authorized-Authorized job (err Refusal.transient) h =
      clash (retry_or_fail w job (Reason.refused Refusal.transient))
        (retry_or_fail-quiet job (Reason.refused Refusal.transient)) h
  run_authorized-Authorized job (err Refusal.operated) h =
      clash (failed_step w job.job_id (Reason.refused Refusal.operated))
        (failed_step-quiet job.job_id (Reason.refused Refusal.operated)) h
  run_authorized-Authorized job (err Refusal.authority) h =
      clash (failed_step w job.job_id (Reason.refused Refusal.authority))
        (failed_step-quiet job.job_id (Reason.refused Refusal.authority)) h
  run_authorized-Authorized job (ok viewer) h =
      ((viewer, refl), go (w.from_value job.payload) refl h)
    where
      go :
          (o : Option (SynthesisJobPayload Value))
          → w.from_value job.payload ≡ o
          → has_run (elim o [
            | none ↦ failed_step w job.job_id Reason.invalid_payload
            | some p ↦ run_payload w job p
          ])
            ≡ true
          → (p : SynthesisJobPayload Value) × ((w.from_value job.payload ≡ some p)
              × (p.synthesis_id ≡ job.synthesis_id))
      go none e k =
          clash (failed_step w job.job_id Reason.invalid_payload)
            (failed_step-quiet job.job_id Reason.invalid_payload) k
      go (some p) e k = (p, (e, run_payload-Named job p k))

  run_claimed-MayRun : (job : ClaimedJob Value) → has_run (run_claimed w job) ≡ true → MayRun job
  unfolding run_claimed
  run_claimed-MayRun job =
      go (ltb (job.created_at + job_max_age) w.now) (str_eq job.job_type "synthesis") refl refl
    where
      v : Result Refusal Viewer
      v = authorize w.resolve w.operator_of job.principal_id

      go :
          (a b : Bool)
          → ltb (job.created_at + job_max_age) w.now ≡ a
          → str_eq job.job_type "synthesis" ≡ b
          → has_run (
              if◌then◌else◌ {A = Step JobOutcome} a (failed_step w job.job_id Reason.expired) (
                if not b
                then failed_step w job.job_id Reason.unknown_job_type
                else run_authorized w job v))
            ≡ true
          → MayRun job
      go true b h k r =
          clash (failed_step w job.job_id Reason.expired)
            (failed_step-quiet job.job_id Reason.expired) r
      go false false h k r =
          clash (failed_step w job.job_id Reason.unknown_job_type)
            (failed_step-quiet job.job_id Reason.unknown_job_type) r
      go false true h k r =
          let a = run_authorized-Authorized job v r in (ground (arith, h), k, a.0, a.1)

  -- The handler runs a claimed job only if the job is at most a day old, is a synthesis, has a principal the worker may
  -- act as, and carries a payload that can be read and that names the job's synthesis.
  pub run_once-MayRun :
      (job : ClaimedJob Value) → w.claim ≡ ok (some job) → has_run (run_once w) ≡ true → MayRun job
  unfolding run_once
  run_once-MayRun job h r = run_claimed-MayRun job (
      subst
        (λ c.
          has_run (elim c [
            | err e ↦ (err e, [])
            | ok o ↦ elim o [ none ↦ (ok idle, []) | some j ↦ run_claimed w j ]
          ])
          ≡ true)
        h r)
