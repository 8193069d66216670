-- ===== src/Clustering/Louvain/Quiet.antt =====
-- A graph with no edge of positive weight: every claim stays alone, and one round is enough.
use episcience.Base.{
  ℕ, suc, ◌≡◌, refl, Bool, true, false, Option, none, some, List, [], ◌∷◌, map, arith, Uuid,
  contains, All,
}
use episcience.Base.Floats.{Float}
use episcience.Base.Sort.{sort}
use episcience.Base.Runs.{returns, Returns}
use episcience.Clustering.Graph.{
  SignedEdge, Neighbors, Adj, get, no_neighbors, add_edges, positive_adj, total_weight,
}
use episcience.Clustering.Louvain.Communities.{CommunityOf, singletons, nodes_of}
use episcience.Clustering.Louvain.Grouping.{index-total, Covers}
use episcience.Clustering.Louvain.Partition.{regrouped, sorted_covers, IsPartition}
use episcience.Clustering.Louvain.{
  communities_of, neighbor_ids, neighbor_comm_ids, visit, sweep, louvain_positive, next,
}

abbrev neighbor_list : {F : Type 0} → Option (Neighbors F) → Neighbors F
neighbor_list none = []
neighbor_list (some ns) = ns

no_neighbors-get :
    (F : Type 0) (u : Uuid) (ids : List Uuid)
    → neighbor_list (get u (no_neighbors {F = F} ids)) ≡ []
unfolding no_neighbors get
no_neighbors-get F u [] = refl
no_neighbors-get F u (id ∷ ids) = ground (arith, no_neighbors-get F u ids)

none_near :
    {F : Type 0} (found : Option (Neighbors F))
    → neighbor_list found ≡ []
    → ◌≡◌ {A = List Uuid} (elim found [ none ↦ [] | some ns ↦ map (λ n. n.0) ns ]) []
none_near none h = refl
none_near (some []) h = refl
none_near (some (n ∷ ns)) h = cc

module _ {F : Type 0} ⦃fl : Float F⦄ where
  -- No edge passes the test `w > 0`.
  abbrev pub IsQuiet : List (SignedEdge F) → Type 0
  IsQuiet = All (λ e. fl.le e.2 (fl.literal 0 0) ≡ true)

  add_edges-quiet :
      (claims : List Uuid) (edges : List (SignedEdge F)) (adj : Adj F)
      → IsQuiet edges
      → add_edges claims edges adj ≡ adj
  unfolding add_edges
  add_edges-quiet claims [] adj h = refl
  add_edges-quiet claims ((u, v, w) ∷ edges) adj h = rw (h.0) (add_edges-quiet claims edges adj h.1)

  module _ (adj : Adj F) (m : F) (nodes : List Uuid)
      (alone : (u : Uuid) → neighbor_list (get u adj) ≡ []) where
    visit-quiet :
        (node : Uuid) (of : CommunityOf) (improved : Bool)
        → contains (nodes_of of) node ≡ true
        → visit adj m nodes node (of, improved) ≡ returns (next (of, improved))
    unfolding visit neighbor_comm_ids communities_of
    visit-quiet node of improved h =
        let c = index-total node of h in
        let e : neighbor_ids node adj ≡ [] = none_near (get node adj) (alone node) in rw (c.1, e)

    sweep-quiet :
        (rest : List Uuid) (of : CommunityOf) (improved : Bool)
        → Covers of rest
        → sweep adj m nodes rest (of, improved) ≡ returns (of, improved)
    unfolding sweep
    sweep-quiet [] of improved h = refl
    sweep-quiet (node ∷ rest) of improved h =
        rw (visit-quiet node of improved h.0) (sweep-quiet rest of improved h.1)

  -- Where no edge has positive weight one round is enough.
  pub louvain_positive-quiet :
      (fuel : ℕ) (claims : List Uuid) (edges : List (SignedEdge F))
      → IsQuiet edges
      → Returns (IsPartition claims) (louvain_positive (suc fuel) claims edges)
  unfolding louvain_positive positive_adj
  louvain_positive-quiet fuel [] edges h = record { nonempty = tt; holds = λ a. refl }
  louvain_positive-quiet fuel (x ∷ xs) edges h =
      rw
        (
          add_edges-quiet (x ∷ xs) edges (no_neighbors (x ∷ xs)) h,
          sweep-quiet (no_neighbors (x ∷ xs)) (total_weight (no_neighbors (x ∷ xs))) (sort (x ∷ xs))
              (λ u. no_neighbors-get F u (x ∷ xs)) (sort (x ∷ xs)) (singletons (x ∷ xs)) false
              (sorted_covers (x ∷ xs)),
        )
        (regrouped (x ∷ xs) (singletons (x ∷ xs)) refl)
