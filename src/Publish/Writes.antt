-- ===== src/Publish/Writes.antt =====
-- What the writing of the outbox does to the kernel, and when the synthesis may complete.
use text.Mathlib.Text.{◌==◌ as str_eq}
use mathlib.Core.List.{append_assoc}
use episcience.Base.{
  ◌≡◌, refl, sym, ◌∙◌, ℕ, Bool, true, false, not, ◌&&◌, ◌||◌, none, some, List, [], ◌∷◌, ◌++◌, map,
  Uuid, if◌then◌else◌, keep, any, All, All-append, length, contains, ltb, arith,
}
use episcience.Base.Results.{Result, ok, err, ◌>>=◌, Yields, Yields-after, Yields-map}
use package.episcience.Publish.{
  ProvenanceEdge, OutboxRow, is_unwritten, is_pending, is_uncited, discard_uncited, defer_row,
  defer_unwritten, list_pending, count_pending, mark_written, record_failure, is_provo_edge_shape,
  WriteFailure, EdgeWriteOutcome, Tables, try_edge, write_loop, stage6_write_edges, may_complete,
}

-- An edge to a claim names one that some cluster cites.
abbrev pub is_cited : List (List Uuid) → ProvenanceEdge → Bool
is_cited clusters e =
    not (str_eq e.target_kind "claim") || any (λ members. contains members e.target_id) clusters

-- An edge that may stand in the kernel under the name of the synthesis.
abbrev pub IsNameable : List (List Uuid) → ProvenanceEdge × Uuid → Type 0
IsNameable clusters c = (is_provo_edge_shape c.0 ≡ true) × (is_cited clusters c.0 ≡ true)

-- What a call of the stage did: the kernel's new edges are nameable, and if it reports no failure the synthesis may
-- complete.
abbrev pub Settles : Uuid → List (List Uuid) → Tables → Tables × EdgeWriteOutcome → Type 0
Settles id clusters before r =
    ((new : List (ProvenanceEdge × Uuid)) × ((r.0.edges ≡ new ++ before.edges)
        × All (IsNameable clusters) new))
    × (r.1.failure ≡ none → may_complete id r.0.outbox ≡ ok tt)

none_pending :
    (id : Uuid) (rows : List OutboxRow)
    → ltb 0 (count_pending id rows) ≡ false
    → may_complete id rows ≡ ok tt
unfolding may_complete
none_pending id rows h = rw h refl

module _ (create : ProvenanceEdge → Result Unit Uuid) (id : Uuid)
    (clusters : List (List Uuid)) where
  try_edge-shape :
      (e : ProvenanceEdge) (edge_id : Uuid)
      → try_edge create id e ≡ ok edge_id
      → is_provo_edge_shape e ≡ true
  unfolding try_edge
  try_edge-shape e edge_id = go (is_provo_edge_shape e)
    where
      go :
          (b : Bool)
          → (if◌then◌else◌ {A = Result WriteFailure Uuid}
              (not b)
              (err (WriteFailure.not_a_shape e))
              (elim (create e) [
                | ok edge_id ↦ ok edge_id
                | err x ↦ err (WriteFailure.kernel_refused e)
              ]))
            ≡ ok edge_id
          → b ≡ true
      go true h = refl
      go false h = absurd (grind (arith, h))

  write_loop-Settles :
      (pending : List ProvenanceEdge) (t : Tables) (out : EdgeWriteOutcome)
      → All (λ e. is_cited clusters e ≡ true) pending
      → out.failure ≡ none
      → Yields (Settles id clusters t) (write_loop create id pending t out)
  unfolding write_loop
  write_loop-Settles [] t out h f = (([], (refl, tt)), last (ltb 0 remaining) refl)
    where
      remaining : ℕ
      remaining = count_pending id t.outbox

      last :
          (b : Bool)
          → ltb 0 remaining ≡ b
          → (if b
              then record out { failure = some (WriteFailure.still_pending remaining) }
              else out).failure
            ≡ none
          → may_complete id t.outbox ≡ ok tt
      last true k n = absurd (grind (arith, n))
      last false k n = none_pending id t.outbox k
  write_loop-Settles (e ∷ pending) t out h f =
      tried (try_edge create id e) refl λ t' out' f'. write_loop-Settles pending t' out' h.1 f'
    where
      Goal : Result Unit (Tables × EdgeWriteOutcome) → Type 0
      Goal = Yields (Settles id clusters t)

      further :
          (edge_id : Uuid) (rows : List OutboxRow) (r : Tables × EdgeWriteOutcome)
          → is_provo_edge_shape e ≡ true
          → Settles id clusters (record { outbox = rows; edges = (e, edge_id) ∷ t.edges }) r
          → Settles id clusters t r
      further edge_id rows r shape s = (
        (
          s.0.0 ++ (e, edge_id) ∷ [],
          (
            s.0.1.0 ∙ sym (append_assoc s.0.0 ((e, edge_id) ∷ []) t.edges),
            All-append (IsNameable clusters) s.0.0 ((e, edge_id) ∷ []) s.0.1.1 ((shape, h.0), tt),
          ),
        ),
        s.1,
      )

      tried :
          (r : Result WriteFailure Uuid)
          → try_edge create id e ≡ r
          → ((t' : Tables) (out' : EdgeWriteOutcome)
              → out'.failure ≡ none
              → Yields (Settles id clusters t') (write_loop create id pending t' out'))
          → Goal (elim r [
            | ok edge_id ↦ mark_written id e edge_id t.outbox >>= λ rows.
                write_loop create id pending
                  (record { outbox = rows; edges = (e, edge_id) ∷ t.edges })
                  (record out { written = out.written ++ edge_id ∷ [] })
            | err f ↦ record_failure id e t.outbox >>= λ rows.
                ok (record t { outbox = rows }, record out { failure = some f })
          ])
      tried (ok edge_id) k next =
          Yields-after (Settles id clusters t) (mark_written id e edge_id t.outbox) _ λ rows.
            Yields-map _ (Settles id clusters t) _
              (next (record { outbox = rows; edges = (e, edge_id) ∷ t.edges })
                (record out { written = out.written ++ edge_id ∷ [] }) f)
              λ r. further edge_id rows r (try_edge-shape e edge_id k)
      tried (err x) k next =
          Yields-after (Settles id clusters t) (record_failure id e t.outbox) _
            λ rows. (([], (refl, tt)), λ n. absurd (grind (arith, n)))

  -- What stays after the discard cites only what a cluster cites.
  kept_is_cited :
      (r : OutboxRow)
      → not (is_uncited id clusters r) ≡ true
      → is_pending id r ≡ true
      → is_cited clusters r.edge ≡ true
  kept_is_cited r h k =
      go (is_unwritten id r) (str_eq r.edge.target_kind "claim")
        (any (λ members. contains members r.edge.target_id) clusters) r.deferred h k
    where
      go :
          (u c a d : Bool)
          → not (u && c && not a) ≡ true
          → (u && not d) ≡ true
          → (not c || a) ≡ true
      go true true true d h k = refl
      go true true false d h k = absurd (grind (arith, h))
      go true false a d h k = refl
      go false c a d h k = absurd (grind (arith, k))

  pending-cited :
      (rows : List OutboxRow)
      → All
          (λ e. is_cited clusters e ≡ true)
          (map
            (λ r. r.edge)
            (keep (is_pending id) (keep (λ r. not (is_uncited id clusters r)) rows)))
  pending-cited [] = tt
  pending-cited (r ∷ rows) =
      go (not (is_uncited id clusters r)) refl (is_pending id r) refl (pending-cited rows)
    where
      rest : List OutboxRow
      rest = keep (λ r. not (is_uncited id clusters r)) rows

      Cited : List OutboxRow → Type 0
      Cited l = All (λ e. is_cited clusters e ≡ true) (map (λ r. r.edge) l)

      inner :
          (c : Bool)
          → (c ≡ true → is_cited clusters r.edge ≡ true)
          → Cited (keep (is_pending id) rest)
          → Cited (if c then r ∷ keep (is_pending id) rest else keep (is_pending id) rest)
      inner true f h = (f refl, h)
      inner false f h = h

      go :
          (b : Bool)
          → not (is_uncited id clusters r) ≡ b
          → (c : Bool) → is_pending id r ≡ c
          → Cited (keep (is_pending id) rest)
          → Cited (keep (is_pending id) (if b then r ∷ rest else rest))
      go true k c l h = inner (is_pending id r) (λ m. kept_is_cited r k m) h
      go false k c l h = h

defer_row-done : (id : Uuid) (r : OutboxRow) → is_pending id (defer_row id r) ≡ false
unfolding defer_row
defer_row-done id r = go (is_pending id r) refl
  where
    deferred_done : (b : Bool) → (b && not true) ≡ false
    deferred_done true = refl
    deferred_done false = refl

    go :
        (b : Bool)
        → is_pending id r ≡ b
        → is_pending id (if b then record r { deferred = true } else r) ≡ false
    go true h = deferred_done (is_unwritten id r)
    go false h = h

deferred-count_pending :
    (id : Uuid) (rows : List OutboxRow) → count_pending id (map (defer_row id) rows) ≡ 0
deferred-count_pending id [] = refl
deferred-count_pending id (r ∷ rows) = rw (defer_row-done id r) (deferred-count_pending id rows)

-- For any order in which the database lists the pending rows: each edge that the stage adds to the kernel has one of the
-- five shapes and, if it is to a claim, a cluster of the synthesis cites the claim; if the synthesis is not publishable
-- no edge is added; and if no failure is reported the synthesis may complete.
pub stage6_write_edges-Settles :
    (create : ProvenanceEdge → Result Unit Uuid)
    (order_by : List ProvenanceEdge → List ProvenanceEdge)
    (only_orders : (p : ProvenanceEdge → Bool) (l : List ProvenanceEdge)
      → All (λ e. p e ≡ true) l
      → All (λ e. p e ≡ true) (order_by l))
    (id : Uuid) (clusters : List (List Uuid)) (publishable : Bool) (t : Tables)
    → Yields
        (λ r. Settles id clusters t r × (publishable ≡ false → r.0.edges ≡ t.edges))
        (stage6_write_edges create id order_by clusters publishable t)
unfolding stage6_write_edges discard_uncited defer_unwritten list_pending
stage6_write_edges-Settles create order_by only_orders id clusters false t = (
  (([], (refl, tt)), λ n. none_pending id later (rw (deferred-count_pending id kept) refl)),
  λ h. refl,
)
  where
    kept : List OutboxRow
    kept = keep (λ r. not (is_uncited id clusters r)) t.outbox

    later : List OutboxRow
    later = map (defer_row id) kept
stage6_write_edges-Settles create order_by only_orders id clusters true t =
    Yields-map (Settles id clusters (record t { outbox = kept }))
      (λ r. Settles id clusters t r × (true ≡ false → r.0.edges ≡ t.edges))
      (write_loop create id (order_by (map (λ r. r.edge) (keep (is_pending id) kept)))
        (record t { outbox = kept }) out)
      (write_loop-Settles create id clusters
        (order_by (map (λ r. r.edge) (keep (is_pending id) kept))) (record t { outbox = kept }) out
        (only_orders (is_cited clusters) _ (pending-cited create id clusters t.outbox)) refl)
      λ r s. (s, λ h. absurd (grind (arith, h)))
  where
    kept : List OutboxRow
    kept = keep (λ r. not (is_uncited id clusters r)) t.outbox

    out : EdgeWriteOutcome
    out = record {
      written = [];
      deferred = 0;
      discarded = length (keep (is_uncited id clusters) t.outbox);
      failure = none;
    }
