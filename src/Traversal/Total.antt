-- ===== src/Traversal/Total.antt =====
-- The traversal ends, and what it returns.
use episcience.Base.{
  ℕ, zero, suc, ◌+◌, ◌-◌, ◌≤◌, ◌<◌, ◌≡◌, refl, Bool, true, false, List, [], ◌∷◌, map, arith, Uuid,
  leb, length, length-append, contains, distinct, count, All, max,
}
use episcience.Base.Floats.{Float}
use episcience.Base.Runs.{returns, Returns, Returns-bind}
use episcience.Traversal.Reach.{IsEdge, Reach, Reach-le, Inv, start-Inv, expand-Inv}
use episcience.Traversal.{
  EdgeType, TraversalConfig, Search, expand, search_loop, start, is_full, visit, traverse,
}

-- The turns that are left at most: the queue, and the claims that may still be visited.
abbrev turns : ℕ → Search → ℕ
turns cap s = length s.frontier + (cap - length s.visited)

module _ {F : Type 0} ⦃fl : Float F⦄ (neighbors : Uuid → List EdgeType → List (Uuid × EdgeType))
    (relevance : Uuid → F) (cfg : TraversalConfig F) where
  turns-expand :
      (hop : ℕ) (ns : List (Uuid × EdgeType)) (s : Search)
      → length s.visited < cfg.max_subgraph_size
      → turns cfg.max_subgraph_size (expand neighbors relevance cfg hop ns s)
        ≤ turns cfg.max_subgraph_size s
  unfolding expand
  turns-expand hop [] s room = omega arith
  turns-expand hop ((n, t) ∷ ns) s room = ground (
    arith,
    length-append s.visited (n ∷ []),
    length-append s.frontier ((n, hop + 1) ∷ []),
    turns-expand hop ns s,
    turns-expand hop ns (visit hop n s),
  )

  -- The claims of a traversal from `seeds`: no claim twice, all seeds, within the cap (or the
  -- seeds alone, if they exceed it), and each on a kept path of at most `max_hops` from a seed.
  pub record IsTraversal (seeds : List Uuid) (visited : List Uuid) : Type 0 where
    pub once : (a : Uuid) → count a visited ≤ 1
    pub size : length visited ≤ max (length (distinct seeds)) cfg.max_subgraph_size
    pub seeded : (a : Uuid) → contains seeds a ≡ true → contains visited a ≡ true
    pub reached :
        (a : Uuid)
        → contains visited a ≡ true
        → (h : ℕ) × (h ≤ cfg.max_hops) × Reach neighbors relevance cfg seeds h a

  Inv-IsTraversal :
      (seeds : List Uuid) (s : Search)
      → Inv neighbors relevance cfg seeds s
      → IsTraversal seeds s.visited
  Inv-IsTraversal seeds s i = record {
    once = i.once;
    size = i.size;
    seeded = i.seeded;
    reached = λ a h.
        let r = i.reached a h in (r.0, Reach-le neighbors relevance cfg seeds r.0 a r.1, r.1);
  }

  offered :
      (claim : Uuid) (ns : List (Uuid × EdgeType))
      → ((n : Uuid)
          → contains (map (λ p. p.0) ns) n ≡ true
          → IsEdge neighbors relevance cfg claim n)
      → All (λ p. IsEdge neighbors relevance cfg claim p.0) ns
  offered claim [] h = tt
  offered claim ((n, t) ∷ ns) h = (h n (ground arith), offered claim ns (λ m k. h m (ground arith)))

  search_loop-IsTraversal :
      (fuel : ℕ) (seeds visited : List Uuid) (frontier : List (Uuid × ℕ))
      → Inv neighbors relevance cfg seeds (record { visited = visited; frontier = frontier })
      → length frontier + (cfg.max_subgraph_size - length visited) < fuel
      → Returns (IsTraversal seeds) (
          search_loop neighbors relevance cfg fuel
            (record { visited = visited; frontier = frontier }))
  unfolding search_loop
  search_loop-IsTraversal zero seeds visited frontier i f = absurd (omega arith)
  search_loop-IsTraversal (suc fuel) seeds visited [] i f = Inv-IsTraversal seeds _ i
  search_loop-IsTraversal (suc fuel) seeds visited ((claim, hop) ∷ rest) i f =
      full (is_full neighbors relevance cfg visited) refl (leb cfg.max_hops hop) refl
        (λ v q i' f'. search_loop-IsTraversal fuel seeds v q i' f')
    where
      here : Search
      here = record { visited = visited; frontier = rest }

      popped : Inv neighbors relevance cfg seeds here
      popped = record {
        once = i.once;
        size = i.size;
        seeded = i.seeded;
        reached = i.reached;
        queued = i.queued.1;
      }

      near : List (Uuid × EdgeType)
      near = neighbors claim cfg.edge_types

      next : Search
      next = expand neighbors relevance cfg hop near here

      full :
          (b : Bool)
          → is_full neighbors relevance cfg visited ≡ b
          → (c : Bool) → leb cfg.max_hops hop ≡ c
          → ((v : List Uuid) (q : List (Uuid × ℕ))
              → Inv neighbors relevance cfg seeds (record { visited = v; frontier = q })
              → length q + (cfg.max_subgraph_size - length v) < fuel
              → Returns
                  (IsTraversal seeds)
                  (search_loop neighbors relevance cfg fuel (record { visited = v; frontier = q })))
          → Returns (IsTraversal seeds) (elim b [
            | true ↦ returns visited
            | false ↦ elim c [
              | true ↦ search_loop neighbors relevance cfg fuel here
              | false ↦ search_loop neighbors relevance cfg fuel next
            ]
          ])
      full true e c ec rec = Inv-IsTraversal seeds _ i
      full false e true ec rec = rec visited rest popped (omega arith)
      full false e false ec rec =
          rec next.visited next.frontier
            (expand-Inv neighbors relevance cfg seeds hop claim near here i.queued.0 (ground arith)
              (offered claim near (λ n h. h)) (ground arith) popped)
            (omega (arith, turns-expand hop near here (ground arith)))

  length-start : (seeds : List Uuid) → length (start seeds).frontier ≡ length seeds
  length-start [] = refl
  length-start (x ∷ xs) = omega (arith, length-start xs)

  -- One unit of fuel more than seeds and cap together is enough for any provider and relevance:
  -- the traversal returns. Its claims contain every seed, none twice; they are at most as many as
  -- the cap or, if that is more, the distinct seeds; and each is reached from a seed over at most
  -- `max_hops` edges of the provider, through claims that are not below the relevance threshold.
  pub traverse-IsTraversal :
      (fuel : ℕ) (seeds : List Uuid)
      → length seeds + cfg.max_subgraph_size < fuel
      → Returns (λ r. IsTraversal seeds r.claim_ids) (traverse neighbors relevance cfg fuel seeds)
  unfolding traverse
  traverse-IsTraversal fuel seeds f =
      Returns-bind (IsTraversal seeds) (λ r. IsTraversal seeds r.claim_ids)
        (search_loop neighbors relevance cfg fuel (start seeds)) _
        (search_loop-IsTraversal fuel seeds (start seeds).visited (start seeds).frontier
          (start-Inv neighbors relevance cfg seeds) (omega (arith, length-start seeds)))
        (λ v h. h)
