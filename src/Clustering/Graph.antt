-- ===== src/Clustering/Graph.antt =====
-- The weighted graph of signed_louvain.rs: `positive_adj` and the sums over it.
-- A `HashMap` is an association list in the order of first insertion; the order in which Rust
-- iterates over it is unspecified, and decides only how floating-point sums are rounded.
use episcience.Base.{
  Bool, ◌&&◌, Option, none, some, List, [], ◌∷◌, ◌++◌, map, Uuid, ◌==◌, if◌then◌else◌, contains,
  keep,
}
use episcience.Base.Floats.{Float, sum}

-- (from, to, weight)
abbrev pub SignedEdge : Type 0 → Type 0
SignedEdge F = Uuid × Uuid × F

abbrev pub Neighbors : Type 0 → Type 0
Neighbors F = List (Uuid × F)

abbrev pub Adj : Type 0 → Type 0
Adj F = List (Uuid × Neighbors F)

module _ {F : Type 0} where
  -- `adj.get(&node)`
  unfoldable pub get : Uuid → Adj F → Option (Neighbors F)
  get u [] = none
  get u ((v, ns) ∷ adj) = if v == u then some ns else get u adj

  -- `adj.entry(u).or_default().push(n)`
  unfoldable pub push : Uuid → Uuid × F → Adj F → Adj F
  push u n [] = (u, n ∷ []) ∷ []
  push u n ((v, ns) ∷ adj) = if v == u then (v, ns ++ n ∷ []) ∷ adj else (v, ns) ∷ push u n adj

  -- The map that collects `(id, Vec::new())` for each claim.
  unfoldable pub no_neighbors : List Uuid → Adj F
  no_neighbors [] = []
  no_neighbors (id ∷ ids) =
      let rest = no_neighbors ids in if contains ids id then rest else (id, []) ∷ rest

module _ {F : Type 0} ⦃fl : Float F⦄ where
  unfoldable pub add_edges : List Uuid → List (SignedEdge F) → Adj F → Adj F
  add_edges claims [] adj = adj
  add_edges claims ((u, v, w) ∷ edges) adj = add_edges claims edges (
      if fl.le w (fl.literal 0 0)
      then adj
      else if contains claims u && contains claims v
      then push v (u, w) (push u (v, w) adj)
      else adj)

  unfoldable pub positive_adj : List Uuid → List (SignedEdge F) → Adj F
  unfolding add_edges
  positive_adj claims edges = add_edges claims edges (no_neighbors claims)

  abbrev weights : Neighbors F → List F
  weights = map (λ n. n.1)

  unfoldable pub node_strength : Uuid → Adj F → F
  node_strength node adj = elim (get node adj) [
    | none ↦ fl.literal 0 0
    | some ns ↦ sum (weights ns)
  ]

  abbrev all_weights : Adj F → List F
  all_weights [] = []
  all_weights ((u, ns) ∷ adj) = weights ns ++ all_weights adj

  unfoldable pub total_weight : Adj F → F
  total_weight adj = fl.div (sum (all_weights adj)) (fl.literal 2 0)

  -- The neighbours that pass a test, as `filter` keeps them.
  abbrev neighbors_in : (Uuid → Bool) → Neighbors F → Neighbors F
  neighbors_in p ns = keep (λ n. p n.0) ns

  abbrev weight_where : (Uuid → Bool) → Uuid → Adj F → F
  weight_where p node adj = elim (get node adj) [
    | none ↦ fl.literal 0 0
    | some ns ↦ sum (weights (neighbors_in p ns))
  ]

  unfoldable pub weight_to_community : Uuid → List Uuid → Adj F → F
  weight_to_community node community adj = weight_where (contains community) node adj

  -- The weight of the node's edges to itself.
  unfoldable pub self_weight : Uuid → Adj F → F
  self_weight node adj = weight_where (λ n. n == node) node adj

  unfoldable pub community_strength : List Uuid → Adj F → F
  community_strength community adj = sum (map (λ n. node_strength n adj) community)
