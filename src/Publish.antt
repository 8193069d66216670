-- ===== src/Publish.antt =====
-- crates/episcience-db/src/synthesis/publish.rs and repos/synthesis_provo_edges.rs: the outbox of a synthesis' PROV
-- edges, planned with the synthesis, written to the kernel once it is public, and empty of pending rows before it is
-- complete. The table is a list of rows; the kernel's insert, the database's publish rule and its order of rows are
-- arguments. Row security hides from a session the rows whose claim it may not read: planning takes the test of what is
-- seen, and the functions of the write stage take the rows that the session sees, as Job gives them. Left out: texts of
-- errors, best-effort events, and failures of the outbox's own statements.
pub mod Plan
pub mod Writes
use Prim.Native.String.{String}
use text.Mathlib.Text.{◌==◌ as str_eq}
use episcience.Base.{
  ◌≡◌, ℕ, zero, suc, ◌+◌, Bool, true, false, not, ◌&&◌, ◌||◌, Option, none, some, List, [], ◌∷◌,
  ◌++◌, map, Uuid, ◌==◌, if◌then◌else◌, keep, any, length, contains, ltb,
}
use episcience.Base.Results.{Result, ok, err, ◌>>=◌}

pub record ProvenanceEdge : Type 0 where
  pub predicate : String
  pub target_kind : String
  pub target_id : Uuid

-- A row of `synthesis_provo_edges`: `written` is the kernel's edge, `deferred` is a reason.
pub record OutboxRow : Type 0 where
  pub synthesis_id : Uuid
  pub edge : ProvenanceEdge
  pub written : Option Uuid
  pub deferred : Bool
  pub attempt_count : ℕ

abbrev pub same_edge : ProvenanceEdge → ProvenanceEdge → Bool
same_edge a b =
    str_eq a.predicate b.predicate
    && str_eq a.target_kind b.target_kind
    && (a.target_id == b.target_id)

-- The row stands under the primary key.
abbrev pub has_key : Uuid → ProvenanceEdge → OutboxRow → Bool
has_key id e r = (r.synthesis_id == id) && same_edge r.edge e

abbrev pub is_unwritten : Uuid → OutboxRow → Bool
is_unwritten id r = (r.synthesis_id == id) && elim r.written [ none ↦ true | some e ↦ false ]

abbrev pub is_pending : Uuid → OutboxRow → Bool
is_pending id r = is_unwritten id r && not r.deferred

abbrev pub new_row : Uuid → ProvenanceEdge → OutboxRow
new_row id e = record {
  synthesis_id = id;
  edge = e;
  written = none;
  deferred = false;
  attempt_count = 0;
}

-- `INSERT .. ON CONFLICT DO NOTHING`, edge after edge
unfoldable pub plan : Uuid → List ProvenanceEdge → List OutboxRow → List OutboxRow
plan id [] rows = rows
plan id (e ∷ edges) rows =
    plan id edges (if any (has_key id e) rows then rows else rows ++ new_row id e ∷ [])

-- `sees` answers the row-security policies: the DELETE reaches the rows that the session sees. The primary key counts all.
unfoldable pub replace_unwritten :
    (ProvenanceEdge → Bool) → Uuid → List ProvenanceEdge → List OutboxRow → List OutboxRow
unfolding plan
replace_unwritten sees id edges rows =
    plan id edges (keep (λ r. not (is_unwritten id r && sees r.edge)) rows)

-- An unwritten claim-target row whose claim is in no cluster.
abbrev pub is_uncited : Uuid → List (List Uuid) → OutboxRow → Bool
is_uncited id clusters r =
    is_unwritten id r
    && str_eq r.edge.target_kind "claim"
    && not (any (λ members. contains members r.edge.target_id) clusters)

-- `discard_uncited_unwritten`: the rows that stay; the others are counted.
unfoldable pub discard_uncited : Uuid → List (List Uuid) → List OutboxRow → ℕ × List OutboxRow
discard_uncited id clusters rows =
    (length (keep (is_uncited id clusters) rows), keep (λ r. not (is_uncited id clusters r)) rows)

unfoldable pub defer_row : Uuid → OutboxRow → OutboxRow
defer_row id r = if is_pending id r then record r { deferred = true } else r

unfoldable pub defer_unwritten : Uuid → List OutboxRow → ℕ × List OutboxRow
unfolding defer_row
defer_unwritten id rows = (length (keep (is_pending id) rows), map (defer_row id) rows)

unfoldable pub list_pending :
    (List ProvenanceEdge → List ProvenanceEdge) → Uuid → List OutboxRow → List ProvenanceEdge
list_pending order_by id rows = order_by (map (λ r. r.edge) (keep (is_pending id) rows))

abbrev pub count_pending : Uuid → List OutboxRow → ℕ
count_pending id rows = length (keep (is_pending id) rows)

-- `expect_rows(res, 1, ..)`: exactly one row has the key.
abbrev one_row : Uuid → ProvenanceEdge → List OutboxRow → Bool
one_row id e rows = length (keep (has_key id e) rows) == 1

unfoldable pub write_row : Uuid → ProvenanceEdge → Uuid → OutboxRow → OutboxRow
write_row id e edge_id r = if has_key id e r then record r { written = some edge_id } else r

unfoldable pub mark_written :
    Uuid → ProvenanceEdge → Uuid → List OutboxRow → Result Unit (List OutboxRow)
unfolding write_row
mark_written id e edge_id rows =
    if one_row id e rows then ok (map (write_row id e edge_id) rows) else err tt

unfoldable pub fail_row : Uuid → ProvenanceEdge → OutboxRow → OutboxRow
fail_row id e r = if has_key id e r then record r { attempt_count = r.attempt_count + 1 } else r

unfoldable pub record_failure :
    Uuid → ProvenanceEdge → List OutboxRow → Result Unit (List OutboxRow)
unfolding fail_row
record_failure id e rows = if one_row id e rows then ok (map (fail_row id e) rows) else err tt

abbrev pub edge : String → String → Uuid → ProvenanceEdge
edge predicate kind id = record { predicate = predicate; target_kind = kind; target_id = id }

-- An edge to an optional target.
abbrev maybe_edge : String → String → Option Uuid → List ProvenanceEdge
maybe_edge predicate kind none = []
maybe_edge predicate kind (some id) = edge predicate kind id ∷ []

-- What `stage6_plan_edges_conn` plans, in its order.
unfoldable pub planned_edges :
    List Uuid → Option Uuid → List Uuid → Uuid → Option Uuid → List ProvenanceEdge
planned_edges cited parent prereqs owner workflow_run =
    map (edge "WAS_DERIVED_FROM" "claim") cited
    ++ maybe_edge "REFINES" "synthesis" parent
    ++ map (edge "COMPOSED_OF" "synthesis") prereqs
    ++ edge "ATTRIBUTED_TO" "agent" owner ∷ []
    ++ maybe_edge "REFINES" "workflow" workflow_run

unfoldable pub stage6_plan_edges :
    (ProvenanceEdge → Bool)
    → Uuid
    → List Uuid
    → Option Uuid
    → List Uuid
    → Uuid
    → Option Uuid
    → List OutboxRow
    → List OutboxRow
unfolding planned_edges replace_unwritten
stage6_plan_edges sees id cited parent prereqs owner workflow_run rows =
    replace_unwritten sees id (planned_edges cited parent prereqs owner workflow_run) rows

unfoldable pub is_provo_edge_shape : ProvenanceEdge → Bool
is_provo_edge_shape e =
    (str_eq "WAS_DERIVED_FROM" e.predicate && str_eq "claim" e.target_kind)
    || (str_eq "REFINES" e.predicate && str_eq "synthesis" e.target_kind)
    || (str_eq "REFINES" e.predicate && str_eq "workflow" e.target_kind)
    || (str_eq "COMPOSED_OF" e.predicate && str_eq "synthesis" e.target_kind)
    || (str_eq "ATTRIBUTED_TO" e.predicate && str_eq "agent" e.target_kind)

pub data WriteFailure : Type 0 where
  not_a_shape kernel_refused : ProvenanceEdge → WriteFailure
  still_pending : ℕ → WriteFailure

pub record EdgeWriteOutcome : Type 0 where
  pub written : List Uuid
  pub deferred : ℕ
  pub discarded : ℕ
  pub failure : Option WriteFailure

-- The outbox, and the kernel's PROV edges of the synthesis with the events that announce them.
pub record Tables : Type 0 where
  pub outbox : List OutboxRow
  pub edges : List (ProvenanceEdge × Uuid)

module _ (create : ProvenanceEdge → Result Unit Uuid) (id : Uuid) where
  -- The insert of an edge of a known shape, under a savepoint.
  unfoldable pub try_edge : ProvenanceEdge → Result WriteFailure Uuid
  try_edge e =
      if not (is_provo_edge_shape e)
      then err (not_a_shape e)
      else elim (create e) [ ok edge_id ↦ ok edge_id | err x ↦ err (kernel_refused e) ]

  -- The loop over the pending edges.
  unfoldable pub write_loop :
      List ProvenanceEdge → Tables → EdgeWriteOutcome → Result Unit (Tables × EdgeWriteOutcome)
  write_loop [] t out =
      let remaining = count_pending id t.outbox in
      ok (
        t,
        if ltb 0 remaining then record out { failure = some (still_pending remaining) } else out,
      )
  write_loop (e ∷ pending) t out = elim (try_edge e) [
    | ok edge_id ↦ (do
      rows ← mark_written id e edge_id t.outbox
      write_loop pending (record { outbox = rows; edges = (e, edge_id) ∷ t.edges })
          (record out { written = out.written ++ edge_id ∷ [] }))
    | err f ↦ (do
      rows ← record_failure id e t.outbox
      ok (record t { outbox = rows }, record out { failure = some f }))
  ]

  -- `clusters` are the member claims of the synthesis' clusters; `publishable` answers `is_publishable`.
  unfoldable pub stage6_write_edges :
      (List ProvenanceEdge → List ProvenanceEdge)
      → List (List Uuid)
      → Bool
      → Tables
      → Result Unit (Tables × EdgeWriteOutcome)
  stage6_write_edges order_by clusters publishable t =
      let d = discard_uncited id clusters t.outbox in
      let out : EdgeWriteOutcome = record {
        written = [];
        deferred = 0;
        discarded = d.0;
        failure = none;
      } in
      if not publishable
      then (let later = defer_unwritten id d.1 in
          ok (record t { outbox = later.1 }, record out { deferred = later.0 }))
      else write_loop (list_pending order_by id d.1) (record t { outbox = d.1 }) out

-- `stage6_mark_complete_conn`, up to the update of the row, which is `save_narrative`'s.
unfoldable pub may_complete : Uuid → List OutboxRow → Result {0} Unit Unit
may_complete id rows = if ltb 0 (count_pending id rows) then err tt else ok tt
