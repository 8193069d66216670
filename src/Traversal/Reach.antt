-- ===== src/Traversal/Reach.antt =====
-- Which claims a traversal may return: those on a path of kept edges from a seed.
use episcience.Base.{
  ℕ, ◌+◌, ◌≤◌, ◌<◌, ◌≡◌, refl, Bool, true, false, ◌||◌, List, [], ◌∷◌, map, arith, Uuid, length,
  length-append, contains, distinct, count, count-append, count-zero, count-distinct,
  contains-append, contains-distinct, All, All-append, max, ◌==◌,
}
use mathlib.Core.Path.{subst}
use episcience.Base.Floats.{Float}
use episcience.Traversal.{
  EdgeType, TraversalConfig, Search, expand, start, is_full, is_pruned, visit,
}

module _ {F : Type 0} ⦃fl : Float F⦄ (neighbors : Uuid → List EdgeType → List (Uuid × EdgeType))
    (relevance : Uuid → F) (cfg : TraversalConfig F) where
  -- `n` is offered as a neighbour of `u`.
  abbrev pub IsEdge : Uuid → Uuid → Type 0
  IsEdge u n = contains (map (λ p. p.0) (neighbors u cfg.edge_types)) n ≡ true

  -- A path of so many hops from a seed, over edges to claims that are not pruned.
  pub data Reach (seeds : List Uuid) : ℕ → Uuid → Type 0 where
    seed : {a : Uuid} {h : ℕ} → h ≡ 0 → contains seeds a ≡ true → Reach seeds h a
    step :
        {u n : Uuid} {h k : ℕ}
        → Reach seeds h u
        → h < cfg.max_hops
        → IsEdge u n
        → fl.lt (relevance n) cfg.relevance_prune ≡ false
        → k ≡ h + 1
        → Reach seeds k n

  pub Reach-le : (seeds : List Uuid) (h : ℕ) (a : Uuid) → Reach seeds h a → h ≤ cfg.max_hops
  Reach-le seeds h a (seed z e) = omega arith
  Reach-le seeds h a (step r lt e p k) = omega arith

  -- What the loop keeps true.
  pub record Inv (seeds : List Uuid) (s : Search) : Type 0 where
    pub once : (a : Uuid) → count a s.visited ≤ 1
    pub size : length s.visited ≤ max (length (distinct seeds)) cfg.max_subgraph_size
    pub seeded : (a : Uuid) → contains seeds a ≡ true → contains s.visited a ≡ true
    pub reached : (a : Uuid) → contains s.visited a ≡ true → (h : ℕ) × Reach seeds h a
    pub queued : All (λ p. Reach seeds p.1 p.0) s.frontier

  pub start-Inv : (seeds : List Uuid) → Inv seeds (start seeds)
  start-Inv seeds = record {
    once = λ a. ground (arith, count-distinct a seeds);
    size = omega arith;
    seeded = λ a h. ground (arith, contains-distinct a seeds);
    reached = λ a h. (0, seed refl (ground (arith, contains-distinct a seeds)));
    queued = queue seeds (λ a h. h);
  }
    where
      queue :
          (ids : List Uuid)
          → ((a : Uuid) → contains ids a ≡ true → contains seeds a ≡ true)
          → All {A = Uuid × ℕ} (λ p. Reach seeds p.1 p.0) (map (λ id. (id, 0)) ids)
      queue [] h = tt
      queue (x ∷ xs) h = (seed refl (h x (ground arith)), queue xs (λ a k. h a (ground arith)))

  visit-Inv :
      (seeds : List Uuid) (hop : ℕ) (n : Uuid) (s : Search)
      → Reach seeds (hop + 1) n
      → contains s.visited n ≡ false
      → length s.visited < cfg.max_subgraph_size
      → Inv seeds s
      → Inv seeds (visit hop n s)
  visit-Inv seeds hop n s r fresh room i = record {
    once = λ a.
        ground (arith, count-append a s.visited (n ∷ []), i.once a, count-zero n s.visited fresh);
    size = omega (arith, length-append s.visited (n ∷ []));
    seeded = λ a h. ground (arith, contains-append a s.visited (n ∷ []), i.seeded a h);
    reached = λ a h.
        known a (contains s.visited a) refl
          (ground (arith, contains-append a s.visited (n ∷ []), h));
    queued = All-append (λ p. Reach seeds p.1 p.0) s.frontier ((n, hop + 1) ∷ []) i.queued (r, tt);
  }
    where
      known :
          (a : Uuid) (b : Bool)
          → contains s.visited a ≡ b
          → (b || (n == a)) ≡ true
          → (h : ℕ) × Reach seeds h a
      known a true e h = i.reached a e
      known a false e h = (hop + 1, subst (Reach seeds (hop + 1)) (ground arith) r)

  pub expand-Inv :
      (seeds : List Uuid) (hop : ℕ) (claim : Uuid) (ns : List (Uuid × EdgeType)) (s : Search)
      → Reach seeds hop claim
      → hop < cfg.max_hops
      → All (λ p. IsEdge claim p.0) ns
      → length s.visited < cfg.max_subgraph_size
      → Inv seeds s
      → Inv seeds (expand neighbors relevance cfg hop ns s)
  unfolding expand
  expand-Inv seeds hop claim [] s r lt edges room i = i
  expand-Inv seeds hop claim ((n, t) ∷ ns) s r lt edges room i =
      go (contains s.visited n) refl (is_pruned neighbors relevance cfg n) refl
        (expand-Inv seeds hop claim ns s r lt edges.1 room i)
        (λ room' i'. expand-Inv seeds hop claim ns (visit hop n s) r lt edges.1 room' i')
    where
      go :
          (b : Bool)
          → contains s.visited n ≡ b
          → (c : Bool) → is_pruned neighbors relevance cfg n ≡ c
          → Inv seeds (expand neighbors relevance cfg hop ns s)
          → (length (visit hop n s).visited < cfg.max_subgraph_size
              → Inv seeds (visit hop n s)
              → Inv seeds (expand neighbors relevance cfg hop ns (visit hop n s)))
          → Inv seeds (elim b [
            | true ↦ expand neighbors relevance cfg hop ns s
            | false ↦ elim c [
              | true ↦ expand neighbors relevance cfg hop ns s
              | false ↦ elim (is_full neighbors relevance cfg (visit hop n s).visited) [
                | true ↦ visit hop n s
                | false ↦ expand neighbors relevance cfg hop ns (visit hop n s)
              ]
            ]
          ])
      go true e c ec skip more = skip
      go false e true ec skip more = skip
      go false e false ec skip more =
          full (is_full neighbors relevance cfg (visit hop n s).visited) refl
            (visit-Inv seeds hop n s (step r lt edges.0 ec refl) e room i)
        where
          full :
              (b : Bool)
              → is_full neighbors relevance cfg (visit hop n s).visited ≡ b
              → Inv seeds (visit hop n s)
              → Inv seeds (elim b [
                | true ↦ visit hop n s
                | false ↦ expand neighbors relevance cfg hop ns (visit hop n s)
              ])
          full true f v = v
          full false f v = more (ground arith) v
