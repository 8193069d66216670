-- ===== src/Tests/Jobs.antt =====
-- Examples of the worker's jobs and of its worklist.
use episcience.Base.{
  ℕ, ◌+◌, ◌≤◌, ◌≡◌, refl, true, false, ◌&&◌, none, some, List, [], ◌∷◌, Uuid, ltb, ◌==◌, keep,
}
use episcience.Base.Results.{Result, ok, err}
use episcience.Base.Runs.{Returns}
use episcience.Session.{SqlxError}
use episcience.Refinement.{SynthesisJobPayload}
use episcience.Worker.Backoff.{
  WorklistKind, stage6_pending, same_kind, BackoffState, skipped, hold_periods,
  worklist_max_hold_periods,
}
use episcience.Worker.Backoff.Laws.{is_held, skipped_lem}
use episcience.Worker.Queue.{
  World, ClaimedJob, queue_call, run_once, run_claimed, run_authorized, run_payload, after_run,
}
use episcience.Worker.{authorize}
use episcience.Worker.Queue.Calls.{IsEnd, queue_call-IsEnd}
use episcience.Worker.Queue.Ends.{Accounts, run_once-Accounts}
use episcience.Worker.Queue.Gate.{MayRun, has_run, run_once-MayRun}
use episcience.Worker.Worklist.{Attempt, Progress, ItemError, empty_report, work_items}
use episcience.Worker.Worklist.Slots.{uncounted, attempt_all, first_items, free, work_items_lem}

abbrev blip_first : ℕ → Result SqlxError Unit
blip_first n = elim (n == 1) [ true ↦ err SqlxError.io | false ↦ ok tt ]

queue_call_example : Returns (IsEnd blip_first) (queue_call blip_first)
queue_call_example = queue_call-IsEnd blip_first

abbrev payload : SynthesisJobPayload ℕ
payload = record {
  synthesis_id = 5;
  query = "aging";
  traversal_config = none;
  agent_id = 7;
  parent_synthesis_id = none;
  prereq_synthesis_ids = [];
  workflow_run_id = none;
  seed_theme_id = none;
}

abbrev job : ClaimedJob ℕ
job = record {
  job_id = 6;
  synthesis_id = 5;
  principal_id = 7;
  job_type = "synthesis";
  payload = 0;
  attempts = 1;
  created_at = 100;
}

abbrev world : World ℕ
world = record {
  claim = ok (some job);
  now = 200;
  resolve = λ p. ok (record { principal = some p; writable_groups = 10 ∷ [] });
  operator_of = λ p. ok none;
  from_value = λ v. some payload;
  run = λ p principal. ok tt;
  call = λ id args. ok tt;
  retry_delay = 30;
}

run_once-Accounts_example : Accounts 6 (run_once world)
run_once-Accounts_example = run_once-Accounts world job refl

world_runs : has_run (run_once world) ≡ true
unfolding run_once run_claimed run_authorized run_payload after_run authorize
world_runs = refl

run_once-MayRun_example : MayRun world job
run_once-MayRun_example = run_once-MayRun world job refl world_runs

abbrev state : BackoffState
state = record {
  period = 4;
  holds = record { kind = stage6_pending; id = 8; skips = 2; eligible_at = 9 } ∷ [];
}

skipped_example :
    let after = skipped stage6_pending 8 4 state in
    ((q : ℕ) → is_held stage6_pending 8 q after.1 ≡ ltb q (5 + hold_periods after.0))
    × (1 ≤ hold_periods after.0)
    × (hold_periods after.0 ≤ worklist_max_hold_periods)
    × ((k : WorklistKind) (i : Uuid) (q : ℕ)
        → (same_kind stage6_pending k && (8 == i)) ≡ false
        → is_held k i q after.1 ≡ is_held k i q state)
skipped_example = skipped_lem stage6_pending 8 4 state

abbrev attempt : WorklistKind → Uuid → Uuid → Attempt
attempt kind id principal = elim (id == 2) [
  | true ↦ err ItemError.no_progress
  | false ↦ ok (false, 1)
]

abbrev offered : List (Uuid × Uuid)
offered = (8, 7) ∷ (2, 7) ∷ (3, 7) ∷ (4, 7) ∷ []

abbrev begun : Progress
begun = record { report = empty_report; backoff = state }

work_items_example :
    uncounted (work_items attempt stage6_pending 4 (8 ∷ []) 2 offered begun)
    ≡ uncounted
        (attempt_all attempt 4 stage6_pending (first_items 2 (keep (free (8 ∷ [])) offered)) begun)
work_items_example = work_items_lem attempt 4 stage6_pending (8 ∷ []) 2 offered begun
