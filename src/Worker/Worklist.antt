-- ===== src/Worker/Worklist.antt =====
-- crates/episcience-api/src/jobs/worker.rs: one period of the owner worklist. What is done for an item ends in an
-- `Attempt`; the definer's answers and those of the kernel, the engine and the database are arguments.
pub mod Slots
use episcience.Base.{
  ◌≡◌, ℕ, zero, suc, ◌+◌, ◌-◌, min, max, Bool, true, false, ◌&&◌, not, Option, none, some, List, [],
  ◌∷◌, Uuid, ltb, ◌==◌, if◌then◌else◌, contains, length,
}
use episcience.Base.Results.{Result, ok, err, ◌>>=◌, ◌>>◌, map_err}
use episcience.Ownership.{Viewer}
use episcience.Session.{SqlxError, SessionError}
use package.episcience.Worker.{Refusal}
use package.episcience.Worker.Backoff.{
  WorklistKind, stage6_pending, staleness_check, BackoffState, begin_period, held, skipped,
  succeeded,
}

pub record WorklistReport : Type 0 where
  pub edges_written : ℕ
  pub edges_deferred : ℕ
  pub rechecked : ℕ
  pub marked_stale : ℕ
  pub skipped : ℕ
  pub held_back : ℕ

-- Why an item failed.
pub data ItemError : Type 0 where
  refused : Refusal → ItemError
  session : SessionError → ItemError
  database edge_write_failed no_progress engine rows_affected : ItemError

-- What `stage6_write_edges_conn` reports.
pub record EdgesOutcome : Type 0 where
  pub failure : Bool
  pub written : List Uuid
  pub deferred : ℕ
  pub discarded : ℕ

abbrev is_empty : List Uuid → Bool
is_empty [] = true
is_empty (x ∷ xs) = false

unfoldable pub write_pending_edges :
    Result Refusal Viewer
    → Result SessionError Viewer
    → Result SqlxError EdgesOutcome
    → Result SqlxError Unit
    → Result ItemError ℕ
write_pending_edges authorized begun stage6_write_edges committed = do
  map_err ItemError.refused authorized
  map_err session begun
  outcome ← map_err (λ e. database) stage6_write_edges
  map_err (λ e. database) committed
  if outcome.failure
      then err edge_write_failed
      else if is_empty outcome.written && (outcome.deferred == 0) && (outcome.discarded == 0)
      then err no_progress
      else ok outcome.deferred

-- `is_stale` is the answer of `recheck_beliefs`; `rows` those of the update of `staleness_checked_at`.
unfoldable pub recheck_staleness :
    Result Refusal Viewer
    → Result SessionError Viewer
    → Result SqlxError Unit
    → Result ItemError Bool
    → Result SessionError Viewer
    → Result SqlxError Unit
    → Result SqlxError ℕ
    → Result SqlxError Unit
    → Result ItemError Bool
recheck_staleness authorized begun snapshot is_stale begun_again mark_stale rows committed = do
  map_err ItemError.refused authorized
  map_err session begun
  map_err (λ e. database) snapshot
  stale ← is_stale
  map_err session begun_again
  if stale then map_err (λ e. database) mark_stale else ok tt
  affected ← map_err (λ e. database) rows
  if not (affected == 1) then err rows_affected else ok tt
  map_err (λ e. database) committed
  ok stale

-- What an item did: whether it was marked stale, and how many rows it deferred.
abbrev pub Attempt : Type 0
Attempt = Result ItemError (Bool × ℕ)

-- The report so far, and the backoff that the worker's clones share.
pub record Progress : Type 0 where
  pub report : WorklistReport
  pub backoff : BackoffState

abbrev pub worklist_definer_max : ℕ
worklist_definer_max = 1000

abbrev pub empty_report : WorklistReport
empty_report = record {
  edges_written = 0;
  edges_deferred = 0;
  rechecked = 0;
  marked_stale = 0;
  skipped = 0;
  held_back = 0;
}

unfoldable pub count_success : WorklistKind → Bool → ℕ → WorklistReport → WorklistReport
count_success stage6_pending stale deferred r = record {
  edges_written = r.edges_written + 1;
  edges_deferred = r.edges_deferred + deferred;
  rechecked = r.rechecked;
  marked_stale = r.marked_stale;
  skipped = r.skipped;
  held_back = r.held_back;
}
count_success staleness_check stale deferred r = record {
  edges_written = r.edges_written;
  edges_deferred = r.edges_deferred;
  rechecked = r.rechecked + 1;
  marked_stale = (if stale then r.marked_stale + 1 else r.marked_stale);
  skipped = r.skipped;
  held_back = r.held_back;
}

abbrev pub count_skip : WorklistReport → WorklistReport
count_skip r = record {
  edges_written = r.edges_written;
  edges_deferred = r.edges_deferred;
  rechecked = r.rechecked;
  marked_stale = r.marked_stale;
  skipped = r.skipped + 1;
  held_back = r.held_back;
}

abbrev pub count_held : WorklistReport → WorklistReport
count_held r = record {
  edges_written = r.edges_written;
  edges_deferred = r.edges_deferred;
  rechecked = r.rechecked;
  marked_stale = r.marked_stale;
  skipped = r.skipped;
  held_back = r.held_back + 1;
}

module _ (attempt : WorklistKind → Uuid → Uuid → Attempt) where
  -- The `match outcome` of the loop.
  unfoldable pub settle : WorklistKind → ℕ → Uuid → Attempt → Progress → Progress
  settle kind period id (ok o) p = record {
    report = count_success kind o.0 o.1 p.report;
    backoff = succeeded kind id p.backoff;
  }
  settle kind period id (err e) p = record {
    report = count_skip p.report;
    backoff = (skipped kind id period p.backoff).1;
  }

  -- The loop over the items the definer offered; `slots` is `want - attempted`.
  unfoldable pub work_items :
      WorklistKind → ℕ → List Uuid → ℕ → List (Uuid × Uuid) → Progress → Progress
  work_items kind period held_items slots [] p = p
  work_items kind period held_items slots (item ∷ items) p =
      let waiting =
        work_items kind period held_items slots items
          (record { report = count_held p.report; backoff = p.backoff }) in
      let next =
        work_items kind period held_items (slots - 1) items
          (settle kind period item.0 (attempt kind item.0 item.1) p) in
      if contains held_items item.0 then waiting else if slots == 0 then p else next

  -- `definer kind n` is the definer's answer for that many items at most.
  unfoldable pub work_kind :
      (WorklistKind → ℕ → Result SqlxError (List (Uuid × Uuid)))
      → ℕ
      → ℕ
      → WorklistKind
      → Progress
      → Result SqlxError Unit × Progress
  work_kind definer limit period kind p =
      let held_items = held kind period p.backoff in
      let want = max limit 1 in
      let fetch = min (want + length held_items) worklist_definer_max in
      elim (definer kind fetch) [
        | err e ↦ (err e, p)
        | ok offered ↦ (ok tt, work_items kind period held_items want offered p)
      ]

  unfoldable pub run_worklist :
      (WorklistKind → ℕ → Result SqlxError (List (Uuid × Uuid)))
      → ℕ
      → BackoffState
      → Result SqlxError WorklistReport × BackoffState
  run_worklist definer limit st =
      let b = begin_period st in
      let first =
        work_kind definer limit b.0 stage6_pending
          (record { report = empty_report; backoff = b.1 }) in
      let second = work_kind definer limit b.0 staleness_check first.1 in
      elim first.0 [
        | err e ↦ (err e, first.1.backoff)
        | ok t ↦ elim second.0 [
          | err e ↦ (err e, second.1.backoff)
          | ok u ↦ (ok second.1.report, second.1.backoff)
        ]
      ]
