-- ===== src/Publish/Plan.antt =====
-- What planning a synthesis' edges does to the outbox, in the cases of a first attempt and of a retry.
use mathlib.Core.List.{append_assoc, append-nil}
use text.Mathlib.TextEquality.{eq_iff}
use episcience.Base.{
  ◌≡◌, refl, sym, ◌∙◌, ap, subst, ◌+◌, ◌≤◌, Bool, true, false, not, ◌&&◌, ◌||◌, Option, List, [],
  ◌∷◌, ◌++◌, map, Uuid, ◌==◌, ==_iff, if◌then◌else◌, keep, any, length, length-append, arith,
}
use package.episcience.Publish.{
  ProvenanceEdge, OutboxRow, same_edge, has_key, is_unwritten, new_row, plan, replace_unwritten,
  planned_edges, stage6_plan_edges,
}

-- The written rows of the synthesis, its rows that the session does not see, and the rows of the others.
abbrev pub settled : (ProvenanceEdge → Bool) → Uuid → List OutboxRow → List OutboxRow
settled sees id rows = keep (λ r. not (is_unwritten id r && sees r.edge)) rows

-- The table has the edge under the name of the synthesis.
abbrev pub has_edge : Uuid → ProvenanceEdge → List OutboxRow → Bool
has_edge id e rows = any (has_key id e) rows

-- The primary key: an edge of a synthesis has at most one row.
abbrev pub HasKey : List OutboxRow → Type 0
HasKey rows = (id : Uuid) (e : ProvenanceEdge) → length (keep (has_key id e) rows) ≤ 1

same_edge_eq : (a b : ProvenanceEdge) → same_edge a b ≡ true → a ≡ b
same_edge_eq a b h =
    ground (arith, eq_iff a.predicate b.predicate, eq_iff a.target_kind b.target_kind, h)

same_edge_self : (e : ProvenanceEdge) → same_edge e e ≡ true
same_edge_self e =
    ground (arith, eq_iff e.predicate e.predicate, eq_iff e.target_kind e.target_kind)

module _ {A : Type 0} (p : A → Bool) where
  any-append : (xs ys : List A) → any p (xs ++ ys) ≡ (any p xs || any p ys)
  any-append [] ys = refl
  any-append (x ∷ xs) ys = ground (arith, any-append xs ys)

  keep-append : (xs ys : List A) → keep p (xs ++ ys) ≡ keep p xs ++ keep p ys
  keep-append [] ys = refl
  keep-append (x ∷ xs) ys = go (p x) (keep-append xs ys)
    where
      go :
          (b : Bool)
          → keep p (xs ++ ys) ≡ keep p xs ++ keep p ys
          → (if b then x ∷ keep p (xs ++ ys) else keep p (xs ++ ys))
            ≡ (if b then x ∷ keep p xs else keep p xs) ++ keep p ys
      go true h = rw h refl
      go false h = h

  keep-none : (xs : List A) → any p xs ≡ false → length (keep p xs) ≡ 0
  keep-none [] h = refl
  keep-none (x ∷ xs) h = ground (arith, h, keep-none xs)

  length-keep-keep : (q : A → Bool) (xs : List A) → length (keep p (keep q xs)) ≤ length (keep p xs)
  length-keep-keep q [] = omega arith
  length-keep-keep q (x ∷ xs) = go (q x) (length-keep-keep q xs)
    where
      go :
          (b : Bool)
          → length (keep p (keep q xs)) ≤ length (keep p xs)
          → length (keep p (if b then x ∷ keep q xs else keep q xs))
            ≤ length (if p x then x ∷ keep p xs else keep p xs)
      go true h = ground (arith, h)
      go false h = ground (arith, h)

module _ (id : Uuid) where
  -- One row more, unless its key is taken.
  abbrev insert_row : ProvenanceEdge → List OutboxRow → List OutboxRow
  insert_row p rows = if has_edge id p rows then rows else rows ++ new_row id p ∷ []

  insert_row-has_edge :
      (e p : ProvenanceEdge) (rows : List OutboxRow)
      → has_edge id e (insert_row p rows) ≡ (has_edge id e rows || same_edge p e)
  insert_row-has_edge e p rows = go (has_edge id p rows) refl
    where
      taken :
          (b : Bool)
          → same_edge p e ≡ b
          → has_edge id p rows ≡ true
          → has_edge id e rows ≡ (has_edge id e rows || b)
      taken true k h = rw (subst (λ q. has_edge id q rows ≡ true) (same_edge_eq p e k) h) refl
      taken false k h = ground arith

      go :
          (b : Bool)
          → has_edge id p rows ≡ b
          → has_edge id e (if b then rows else rows ++ new_row id p ∷ [])
            ≡ (has_edge id e rows || same_edge p e)
      go true h = taken (same_edge p e) refl h
      go false h = ground (arith, any-append (has_key id e) rows (new_row id p ∷ []), ==_iff id id)

  insert_row-HasKey :
      (p : ProvenanceEdge) (rows : List OutboxRow) → HasKey rows → HasKey (insert_row p rows)
  insert_row-HasKey p rows h j e = go (has_edge id p rows) refl
    where
      added :
          (b : Bool)
          → has_key j e (new_row id p) ≡ b
          → has_edge id p rows ≡ false
          → length (keep (has_key j e) rows) + length (if b then new_row id p ∷ [] else []) ≤ 1
      added false k f = omega (arith, h j e)
      added true k f = omega (
        arith,
        keep-none (has_key j e) rows (
            subst (λ i. any (has_key i e) rows ≡ false) (sym same_id)
              (subst (λ q. has_edge id q rows ≡ false) (same_edge_eq p e same) f)),
      )
        where
          same_id : j ≡ id
          same_id = ground (arith, k, ==_iff id j)

          same : same_edge p e ≡ true
          same = both (id == j) (same_edge p e) k
            where
              both : (a b : Bool) → (a && b) ≡ true → b ≡ true
              both true b g = g
              both false b g = absurd (grind (arith, g))

      go :
          (b : Bool)
          → has_edge id p rows ≡ b
          → length (keep (has_key j e) (if b then rows else rows ++ new_row id p ∷ [])) ≤ 1
      go true f = h j e
      go false f = omega (
        arith,
        ap length (keep-append (has_key j e) rows (new_row id p ∷ [])),
        length-append {0} (keep (has_key j e) rows) (keep (has_key j e) (new_row id p ∷ [])),
        added (has_key j e (new_row id p)) refl f,
      )

  plan-append :
      (edges : List ProvenanceEdge) (rows : List OutboxRow)
      → (fresh : List ProvenanceEdge) × (plan id edges rows ≡ rows ++ map (new_row id) fresh)
  unfolding plan
  plan-append [] rows = ([], sym (append-nil rows))
  plan-append (p ∷ edges) rows = go (has_edge id p rows) λ rows. plan-append edges rows
    where
      go :
          (b : Bool)
          → ((rows : List OutboxRow)
              → (fresh : List ProvenanceEdge) × (plan id edges rows
                  ≡ rows ++ map (new_row id) fresh))
          → (fresh : List ProvenanceEdge) × (plan id edges
                (if b then rows else rows ++ new_row id p ∷ [])
              ≡ rows ++ map (new_row id) fresh)
      go true f = f rows
      go false f =
          let r = f (rows ++ new_row id p ∷ []) in
          (p ∷ r.0, r.1 ∙ append_assoc rows (new_row id p ∷ []) (map (new_row id) r.0))

  plan_lem :
      (edges : List ProvenanceEdge) (rows : List OutboxRow)
      → HasKey rows
      → HasKey (plan id edges rows)
        × ((e : ProvenanceEdge)
            → has_edge id e (plan id edges rows)
              ≡ (has_edge id e rows || any (λ p. same_edge p e) edges))
  unfolding plan
  plan_lem [] rows h = (h, λ e. or_false (has_edge id e rows))
    where
      or_false : (b : Bool) → b ≡ (b || false)
      or_false true = refl
      or_false false = refl
  plan_lem (p ∷ edges) rows h =
      let r = plan_lem edges (insert_row p rows) (insert_row-HasKey p rows h) in
      (
        r.0,
        λ e.
            r.1 e
            ∙ ap (λ b. b || any (λ q. same_edge q e) edges) (insert_row-has_edge e p rows)
            ∙ or_assoc (has_edge id e rows) (same_edge p e) (any (λ q. same_edge q e) edges),
      )
    where
      or_assoc : (a b c : Bool) → ((a || b) || c) ≡ (a || (b || c))
      or_assoc true b c = refl
      or_assoc false b c = refl

-- In a table where an edge of a synthesis has at most one row, planning keeps that so, whatever rows the session sees.
-- It leaves the written rows of the synthesis, its rows that the session does not see, and all rows of other syntheses as
-- they are, in their order, and puts only new, unwritten rows of the synthesis behind them. Afterwards the synthesis has
-- an edge exactly if one of those rows that stay has it or it is planned: to a cited claim, to the parent, to a
-- prerequisite, to the owner, or to the run.
pub stage6_plan_edges_lem :
    (sees : ProvenanceEdge → Bool) (id : Uuid) (cited : List Uuid) (parent : Option Uuid)
    (prereqs : List Uuid) (owner : Uuid) (run : Option Uuid) (rows : List OutboxRow)
    (key : HasKey rows)
    → let after = stage6_plan_edges sees id cited parent prereqs owner run rows in
      HasKey after
      × ((fresh : List ProvenanceEdge) × (after ≡ settled sees id rows ++ map (new_row id) fresh))
      × ((e : ProvenanceEdge)
          → has_edge id e after ≡ (
              has_edge id e (settled sees id rows)
              || any (λ p. same_edge p e) (planned_edges cited parent prereqs owner run)))
unfolding stage6_plan_edges replace_unwritten
stage6_plan_edges_lem sees id cited parent prereqs owner run rows key =
    let edges = planned_edges cited parent prereqs owner run in
    let p = plan_lem id edges (settled sees id rows) (λ j e. omega (
      arith,
      length-keep-keep (has_key j e) (λ r. not (is_unwritten id r && sees r.edge)) rows,
      key j e,
    )) in
    (p.0, plan-append id edges (settled sees id rows), p.1)
