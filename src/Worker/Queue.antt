-- ===== src/Worker/Queue.antt =====
-- crates/episcience-api/src/jobs/worker.rs: the queue definers' calls, and one claimed job from its claim to its end.
-- The definers, the kernel, the clock and the handler are answers in a `World`; texts of failures are constructors.
pub mod Ends
pub mod Calls
pub mod Gate
use Prim.Native.String.{String}
use text.Mathlib.Text.{◌==◌ as str_eq}
use episcience.Base.{
  ◌≡◌, ℕ, zero, suc, ◌+◌, ◌-◌, ◌*◌, min, max, Bool, true, false, ◌&&◌, not, Option, none, some,
  List, [], ◌∷◌, ◌++◌, Uuid, ltb, ◌==◌, if◌then◌else◌,
}
use episcience.Base.Results.{Result, ok, err}
use episcience.Base.Runs.{Run, returns, unfinished}
use episcience.Ownership.{Viewer}
use episcience.Session.{SqlxError, DbError, is_transient_sqlx}
use episcience.Refinement.{SynthesisJobPayload}
use package.episcience.Worker.{Refusal, authorize}

-- A queue call's end: the last answer, how many tries it took, and the pauses in milliseconds.
pub record CallEnd : Type 0 where
  pub answer : Result SqlxError Unit
  pub tries : ℕ
  pub paused : ℕ

abbrev pub queue_call_tries : ℕ
queue_call_tries = 4

abbrev pub queue_call_first_pause : ℕ
queue_call_first_pause = 500

-- The loop of `queue_call`, on fuel: `execute n` answers the try with number `n`.
unfoldable pub queue_call_loop : ℕ → (ℕ → Result SqlxError Unit) → ℕ → ℕ → ℕ → Run CallEnd
queue_call_loop zero execute tries pause paused = unfinished
queue_call_loop (suc fuel) execute tries pause paused =
    let n = tries + 1 in
    let again = queue_call_loop fuel execute n (pause * 2) (paused + pause) in
    elim (execute n) [
      | ok t ↦ returns (record { answer = ok t; tries = n; paused = paused })
      | err e ↦
          if is_transient_sqlx e && ltb n queue_call_tries
          then again
          else returns (record { answer = err e; tries = n; paused = paused })
    ]

unfoldable pub queue_call : (ℕ → Result SqlxError Unit) → Run CallEnd
queue_call execute = queue_call_loop queue_call_tries execute 0 queue_call_first_pause 0

-- `synthesis_jobs.last_error`
pub data Reason : Type 0 where
  expired unknown_job_type invalid_payload names_another_synthesis : Reason
  refused : Refusal → Reason
  run_authority : Reason
  run_failed : Bool → Reason

-- The handler's `RunError`: an authority refusal, or a job error that is a `PayloadError` or another.
pub data RunError : Type 0 where
  authority : RunError
  failed : Bool → RunError

pub record ClaimedJob (Value : Type 0) : Type 0 where
  pub job_id : Uuid
  pub synthesis_id : Uuid
  pub principal_id : Uuid
  pub job_type : String
  pub payload : Value
  pub attempts : ℕ
  pub created_at : ℕ

pub data JobOutcome : Type 0 where
  idle : JobOutcome
  completed : Uuid → JobOutcome
  failed retried : Uuid → Reason → JobOutcome

-- The calls of the queue definers: `finish` with its state and error, `retry` with its delay in seconds and error.
pub data JobState : Type 0 where
  complete failed : JobState

pub data QueueArgs : Type 0 where
  finish : JobState → Option Reason → QueueArgs
  retry : ℕ → Reason → QueueArgs

-- What was done for a job, in order: a definer's call with its last answer, and a run of the handler.
pub data Event : Type 0 where
  called : Uuid → QueueArgs → Result SqlxError Unit → Event
  ran : Uuid → Uuid → Event

pub record World (Value : Type 0) : Type 0 where
  pub claim : Result SqlxError (Option (ClaimedJob Value))
  pub now : ℕ
  pub resolve : Uuid → Result DbError Viewer
  pub operator_of : Uuid → Result DbError (Option Uuid)
  pub from_value : Value → Option (SynthesisJobPayload Value)
  pub run : SynthesisJobPayload Value → Uuid → Result RunError Unit
  -- `queue_call` of these arguments for a job
  pub call : Uuid → QueueArgs → Result SqlxError Unit
  pub retry_delay : ℕ

abbrev pub Step : Type 0 → Type 0
Step A = Result SqlxError A × List Event

-- 24 hours, in seconds.
abbrev pub job_max_age : ℕ
job_max_age = 24 * 3600

module _ {Value : Type 0} (w : World Value) where
  unfoldable pub failed_step : Uuid → Reason → Step JobOutcome
  failed_step job reason =
      let a = w.call job (finish JobState.failed (some reason)) in
      (
        elim a [ ok t ↦ ok (JobOutcome.failed job reason) | err e ↦ err e ],
        called job (finish JobState.failed (some reason)) a ∷ [],
      )

  unfoldable pub retry_or_fail : ClaimedJob Value → Reason → Step JobOutcome
  retry_or_fail job reason =
      let args = retry (w.retry_delay * max job.attempts 1) reason in
      let a = w.call job.job_id args in
      elim a [
        | ok t ↦ (ok (retried job.job_id reason), called job.job_id args (ok t) ∷ [])
        | err e ↦
            if is_transient_sqlx e
            then (err e, called job.job_id args (err e) ∷ [])
            else let f = failed_step job.job_id reason in
              (f.0, called job.job_id args (err e) ∷ f.1)
      ]

  -- The part of `run_once` after the handler ran.
  unfoldable pub after_run : ClaimedJob Value → Result RunError Unit → Step JobOutcome
  after_run job (ok t) =
      let a = w.call job.job_id (finish complete none) in
      (
        elim a [ ok t ↦ ok (completed job.job_id) | err e ↦ err e ],
        called job.job_id (finish complete none) a ∷ [],
      )
  after_run job (err RunError.authority) = failed_step job.job_id run_authority
  after_run job (err (RunError.failed is_payload_error)) =
      if is_payload_error
      then failed_step job.job_id (run_failed is_payload_error)
      else retry_or_fail job (run_failed is_payload_error)

  -- The handler's run of a payload that was read, and its end.
  unfoldable pub run_payload : ClaimedJob Value → SynthesisJobPayload Value → Step JobOutcome
  run_payload job payload =
      if not (payload.synthesis_id == job.synthesis_id)
      then failed_step job.job_id names_another_synthesis
      else let r = after_run job (w.run payload job.principal_id) in
        (r.0, ran job.job_id job.principal_id ∷ r.1)

  unfoldable pub run_authorized : ClaimedJob Value → Result Refusal Viewer → Step JobOutcome
  run_authorized job (err Refusal.transient) = retry_or_fail job (refused Refusal.transient)
  run_authorized job (err Refusal.operated) = failed_step job.job_id (refused Refusal.operated)
  run_authorized job (err Refusal.authority) = failed_step job.job_id (refused Refusal.authority)
  run_authorized job (ok viewer) = elim (w.from_value job.payload) [
    | none ↦ failed_step job.job_id invalid_payload
    | some p ↦ run_payload job p
  ]

  unfoldable pub run_claimed : ClaimedJob Value → Step JobOutcome
  run_claimed job =
      if ltb (job.created_at + job_max_age) w.now
      then failed_step job.job_id expired
      else if not (str_eq job.job_type "synthesis")
      then failed_step job.job_id unknown_job_type
      else run_authorized job (authorize w.resolve w.operator_of job.principal_id)

  unfoldable pub run_once : Step JobOutcome
  run_once = elim w.claim [
    | err e ↦ (err e, [])
    | ok o ↦ elim o [ none ↦ (ok idle, []) | some job ↦ run_claimed job ]
  ]
