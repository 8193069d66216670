-- ===== src/Clustering/Louvain/Partition.antt =====
-- `louvain_positive` does not panic, and what it returns is a partition of the claims.
use episcience.Base.{
  ℕ, zero, suc, ◌≡◌, refl, ap, Bool, true, false, ◌&&◌, Option, none, some, List, [], ◌∷◌, ◌++◌,
  map, arith, Uuid, leb, ◌==◌, if◌then◌else◌, count, contains, concat, All, All-append,
}
use mathlib.Core.Option.{some-injective}
use mathlib.Core.Path.{subst}
use episcience.Base.Floats.{Float}
use episcience.Base.Sort.{dedup, sort, count-concat-sort_by, sort_by-All}
use episcience.Base.Runs.{Run, returns, panics, unfinished, ◌>>=◌, Returns}
use episcience.Clustering.Sorting.{
  is_empty, AllNonempty, by_first, sort_by_first, sort_by_first_lem,
}
use episcience.Clustering.Graph.{
  SignedEdge, Neighbors, Adj, get, push, no_neighbors, add_edges, positive_adj, total_weight,
}
use episcience.Clustering.Louvain.Communities.{CommunityOf, singletons, group, members, nodes_of}
use episcience.Clustering.Louvain.Grouping.{
  index-total, nodes_of-assign, contains-singletons, count-singletons, count-group, group-nonempty,
  map-sort-nonempty, count-concat-map-sort, Covers, group_all-total,
}
use episcience.Clustering.Louvain.{
  communities_of, neighbor_ids, neighbor_comm_ids, best_comm, Turn, next, leave, visit, sweep,
  rounds, louvain_positive,
}

-- Every cluster has an element, and together they hold each claim once and nothing else.
pub record IsPartition (claims : List Uuid) (clusters : List (List Uuid)) : Type 0 where
  pub nonempty : AllNonempty clusters
  pub holds : (a : Uuid) → count a (concat clusters) ≡ (if contains claims a then 1 else 0)

-- `Q` holds of the value, or the fuel ran out: the code did not panic.
abbrev pub Safe {ℓ} : {A : Type ℓ} → (A → Type 0) → Run A → Type 0
Safe Q (returns a) = Q a
Safe Q panics = ⊥
Safe Q unfinished = Unit

pub Returns-Safe : {A : Type 0} (Q : A → Type 0) (r : Run A) → Returns Q r → Safe Q r
Returns-Safe Q (returns a) h = h
Returns-Safe Q panics h = h
Returns-Safe Q unfinished h = tt

-- The ends of the stored edges are claims.
abbrev Closed : {F : Type 0} → List Uuid → Adj F → Type 0
Closed claims = All (λ e. All (λ n. contains claims n.0 ≡ true) e.1)

state : Turn → CommunityOf × Bool
state (next st) = st
state (leave st) = st

communities_of-total :
    (of : CommunityOf) (ns : List Uuid)
    → Covers of ns
    → (cs : List Uuid) × (communities_of of ns ≡ returns cs)
unfolding communities_of
communities_of-total of [] h = ([], refl)
communities_of-total of (n ∷ ns) h =
    let c = index-total n of h.0 in
    let r = communities_of-total of ns h.1 in (c.0 ∷ r.0, rw (c.1, r.1))

no_neighbors-Closed :
    (F : Type 0) (claims ids : List Uuid) → Closed {F = F} claims (no_neighbors {F = F} ids)
unfolding no_neighbors
no_neighbors-Closed F claims [] = tt
no_neighbors-Closed F claims (id ∷ ids) = go (contains ids id) (no_neighbors-Closed F claims ids)
  where
    go :
        (b : Bool)
        → Closed {F = F} claims (no_neighbors {F = F} ids)
        → Closed {F = F} claims
            (if b then no_neighbors {F = F} ids else (id, []) ∷ no_neighbors ids)
    go true r = r
    go false r = (tt, r)

module _ {F : Type 0} where
  push-Closed :
      (claims : List Uuid) (u v : Uuid) (w : F) (adj : Adj F)
      → contains claims v ≡ true
      → Closed claims adj
      → Closed claims (push u (v, w) adj)
  unfolding push
  push-Closed claims u v w [] hv h = ((hv, tt), tt)
  push-Closed claims u v w ((k, ns) ∷ adj) hv h = go (k == u) (push-Closed claims u v w adj hv h.1)
    where
      go :
          (b : Bool)
          → Closed claims (push u (v, w) adj)
          → Closed claims (if b then (k, ns ++ (v, w) ∷ []) ∷ adj else (k, ns) ∷ push u (v, w) adj)
      go true r = (All-append (λ n. contains claims n.0 ≡ true) ns ((v, w) ∷ []) h.0 (hv, tt), h.1)
      go false r = (h.0, r)

  get-Closed :
      (claims : List Uuid) (u : Uuid) (adj : Adj F) {ns : Neighbors F}
      → Closed claims adj
      → get u adj ≡ some ns
      → All (λ n. contains claims n.0 ≡ true) ns
  unfolding get
  get-Closed claims u [] h e = cc
  get-Closed claims u ((k, ms) ∷ adj) {ns} h e = go (k == u) e (get-Closed claims u adj h.1)
    where
      go :
          (b : Bool)
          → (if b then some ms else get u adj) ≡ some ns
          → (get u adj ≡ some ns → All (λ n. contains claims n.0 ≡ true) ns)
          → All (λ n. contains claims n.0 ≡ true) ns
      go true e r = subst (All (λ n. contains claims n.0 ≡ true)) (some-injective ms ns e) h.0
      go false e r = r e

module _ {F : Type 0} ⦃fl : Float F⦄ where
  add_edges-Closed :
      (claims : List Uuid) (edges : List (SignedEdge F)) (adj : Adj F)
      → Closed claims adj
      → Closed claims (add_edges claims edges adj)
  unfolding add_edges
  add_edges-Closed claims [] adj h = h
  add_edges-Closed claims ((u, v, w) ∷ edges) adj h =
      add_edges-Closed claims edges _
        (go (fl.le w (fl.literal 0 0)) (contains claims u) refl (contains claims v) refl)
    where
      go :
          (b c : Bool)
          → contains claims u ≡ c
          → (d : Bool) → contains claims v ≡ d
          → Closed claims
              (if b then adj else if c && d then push v (u, w) (push u (v, w) adj) else adj)
      go true c hc d hd = h
      go false true hc true hd = push-Closed claims v u w _ hc (push-Closed claims u v w adj hd h)
      go false true hc false hd = h
      go false false hc d hd = h

  positive_adj-Closed :
      (claims : List Uuid) (edges : List (SignedEdge F)) → Closed claims (positive_adj claims edges)
  unfolding positive_adj
  positive_adj-Closed claims edges =
      add_edges-Closed claims edges _ (no_neighbors-Closed F claims claims)

  -- The neighbours of a claim have communities, as every claim has.
  neighbor_comm_ids-total :
      (claims : List Uuid) (node current : Uuid) (adj : Adj F) (of : CommunityOf)
      → Closed claims adj
      → ((n : Uuid) → contains claims n ≡ true → contains (nodes_of of) n ≡ true)
      → (cids : List Uuid) × (neighbor_comm_ids node current adj of ≡ returns cids)
  unfolding neighbor_comm_ids
  neighbor_comm_ids-total claims node current adj of closed known =
      let r = communities_of-total of (neighbor_ids node adj) (ends (get node adj) refl) in
      (dedup (sort (r.0 ++ current ∷ [])), rw (r.1))
    where
      covers :
          (ns : Neighbors F)
          → All (λ n. contains claims n.0 ≡ true) ns
          → Covers of (map (λ n. n.0) ns)
      covers [] h = tt
      covers (n ∷ ns) h = (known n.0 h.0, covers ns h.1)

      ends :
          (found : Option (Neighbors F))
          → get node adj ≡ found
          → Covers of (elim found [ none ↦ [] | some ns ↦ map (λ n. n.0) ns ])
      ends none e = tt
      ends (some ns) e = covers ns (get-Closed claims node adj closed e)

  visit-Safe :
      (adj : Adj F) (m : F) (claims nodes : List Uuid) (node : Uuid) (of : CommunityOf)
      (improved : Bool)
      → Closed claims adj
      → ((n : Uuid) → contains claims n ≡ true → contains (nodes_of of) n ≡ true)
      → Covers of nodes
      → contains (nodes_of of) node ≡ true
      → Safe (λ turn. nodes_of (state turn).0 ≡ nodes_of of) (visit adj m nodes node (of, improved))
  unfolding visit state
  visit-Safe adj m claims nodes node of improved closed known covers h =
      let c = index-total node of h in
      let cids = neighbor_comm_ids-total claims node c.0 adj of closed known in
      let gs = group_all-total of nodes covers in
      ground
        (arith, c.1, cids.1, gs.1, nodes_of-assign node (best_comm adj m gs.0 node c.0 cids.0) of h)

  -- What a run from the nodes `ks` needs: every claim is one of them, and so is every visited node.
  module _ (adj : Adj F) (m : F) (claims nodes ks : List Uuid) (closed : Closed claims adj)
      (known : (n : Uuid) → contains claims n ≡ true → contains ks n ≡ true)
      (covers : All (λ n. contains ks n ≡ true) nodes) where
    Keeps : CommunityOf × Bool → Type 0
    Keeps st = nodes_of st.0 ≡ ks

    after_turn :
        (rest : List Uuid) (v : Run Turn)
        → Safe (λ t. Keeps (state t)) v
        → ((st : CommunityOf × Bool) → Keeps st → Safe Keeps (sweep adj m nodes rest st))
        → Safe Keeps
            (v >>= λ t. elim t [ next st ↦ sweep adj m nodes rest st | leave st ↦ returns st ])
    unfolding state
    after_turn rest (returns (next st)) e r = r st e
    after_turn rest (returns (leave st)) e r = e
    after_turn rest panics e r = e
    after_turn rest unfinished e r = tt

    -- A sweep does not panic, and keeps the nodes of the map.
    sweep-Safe :
        (rest : List Uuid) (st : CommunityOf × Bool)
        → All (λ n. contains ks n ≡ true) rest
        → Keeps st
        → Safe Keeps (sweep adj m nodes rest st)
    unfolding sweep Keeps
    sweep-Safe [] st h e = e
    sweep-Safe (node ∷ rest) (of, improved) h e =
        after_turn rest (visit adj m nodes node (of, improved))
          (subst (λ l. Safe (λ t. nodes_of (state t).0 ≡ l) (visit adj m nodes node (of, improved)))
            e
            (visit-Safe adj m claims nodes node of improved closed (rw e known) (rw e covers)
              (rw e (h.0))))
          (λ st' e'. sweep-Safe rest st' h.1 e')

    after_sweep :
        (fuel : ℕ) (v : Run (CommunityOf × Bool))
        → Safe Keeps v
        → ((of : CommunityOf)
            → nodes_of of ≡ ks
            → Safe (λ o. nodes_of o ≡ ks) (rounds fuel adj m nodes of))
        → Safe
            (λ o. nodes_of o ≡ ks)
            (v >>= λ t. elim t.1 [ true ↦ rounds fuel adj m nodes t.0 | false ↦ returns t.0 ])
    unfolding Keeps
    after_sweep fuel (returns (of, true)) e r = r of e
    after_sweep fuel (returns (of, false)) e r = e
    after_sweep fuel panics e r = e
    after_sweep fuel unfinished e r = tt

    rounds-Safe :
        (fuel : ℕ) (of : CommunityOf)
        → nodes_of of ≡ ks
        → Safe (λ o. nodes_of o ≡ ks) (rounds fuel adj m nodes of)
    unfolding rounds
    rounds-Safe zero of e = tt
    rounds-Safe (suc fuel) of e =
        after_sweep fuel (sweep adj m nodes nodes (of, false))
          (sweep-Safe nodes (of, false) covers (unfold Keeps in e)) (rounds-Safe fuel)

-- Each claim, in sorted order, has a community of its own to start with.
pub sorted_covers :
    (claims : List Uuid) → All (λ n. contains (nodes_of (singletons claims)) n ≡ true) (sort claims)
sorted_covers claims =
    sort_by-All leb _ claims (itself claims (λ n h. rw (contains-singletons n claims) h))
  where
    itself :
        (xs : List Uuid)
        → ((n : Uuid) → contains xs n ≡ true → contains (nodes_of (singletons claims)) n ≡ true)
        → All (λ n. contains (nodes_of (singletons claims)) n ≡ true) xs
    itself [] h = tt
    itself (x ∷ xs) h = (h x (ground arith), itself xs (λ n k. h n (ground arith)))

-- The groups of a map whose nodes are the claims are a partition of the claims.
pub regrouped :
    (claims : List Uuid) (of : CommunityOf)
    → nodes_of of ≡ nodes_of (singletons claims)
    → Returns (IsPartition claims) (sort_by_first (map sort (members (group of []))))
regrouped claims of e = rw (sort_by_first_lem _ filled) (record {
  nonempty = sort_by-All by_first (λ c. is_empty c ≡ false) _ filled;
  holds = λ a. omega (
    arith,
    count-concat-sort_by a by_first (map sort (members (group of []))),
    count-concat-map-sort a (members (group of [])),
    count-group a of [],
    ap (count a) e,
    count-singletons a claims,
  );
})
  where
    filled : AllNonempty (map sort (members (group of [])))
    filled = map-sort-nonempty (members (group of [])) (group-nonempty of [] tt)

module _ {F : Type 0} ⦃fl : Float F⦄ where
  -- However many rounds are allowed, the code does not panic, and a result is a partition.
  pub louvain_positive-Safe :
      (fuel : ℕ) (claims : List Uuid) (edges : List (SignedEdge F))
      → Safe (IsPartition claims) (louvain_positive fuel claims edges)
  unfolding louvain_positive
  louvain_positive-Safe fuel [] edges = record { nonempty = tt; holds = λ a. refl }
  louvain_positive-Safe fuel (x ∷ xs) edges = finish (rounds fuel adj m nodes of₀) (
      rounds-Safe adj m claims nodes (nodes_of of₀) (positive_adj-Closed claims edges)
        (λ n h. rw (contains-singletons n claims) h) covered fuel of₀ refl)
    where
      claims : List Uuid
      claims = x ∷ xs

      adj : Adj F
      adj = positive_adj claims edges

      m : F
      m = total_weight adj

      nodes : List Uuid
      nodes = sort claims

      of₀ : CommunityOf
      of₀ = singletons claims

      covered : All (λ n. contains (nodes_of of₀) n ≡ true) nodes
      covered = sorted_covers claims

      finish :
          (v : Run CommunityOf)
          → Safe (λ o. nodes_of o ≡ nodes_of of₀) v
          → Safe (IsPartition claims) (v >>= λ of. sort_by_first (map sort (members (group of []))))
      finish (returns of) e = Returns-Safe (IsPartition claims) _ (regrouped claims of e)
      finish panics e = e
      finish unfinished e = tt
