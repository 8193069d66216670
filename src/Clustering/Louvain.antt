-- ===== src/Clustering/Louvain.antt =====
-- `louvain_positive` of signed_louvain.rs. Indexing `community_of[n]` panics on a missing key.
pub mod Communities
pub mod Grouping
pub mod Partition
pub mod Quiet
use episcience.Base.{
  ℕ, zero, suc, ◌≡◌, refl, Bool, true, false, not, ◌&&◌, ◌||◌, Option, none, some, List, [], ◌∷◌,
  ◌++◌, map, Uuid, ◌==◌, ltb, if◌then◌else◌, length,
}
use episcience.Base.Floats.{Float}
use episcience.Base.Sort.{sort, dedup}
use episcience.Base.Runs.{Run, returns, panics, unfinished, ◌>>=◌, or_panic}
use episcience.Clustering.Graph.{
  SignedEdge, Neighbors, Adj, get, positive_adj, total_weight, node_strength, weight_to_community,
  self_weight, community_strength,
}
use episcience.Clustering.Sorting.{sort_by_first}
use Communities.{
  CommunityOf, Members, community, assign, singletons, members, members_of, index, group, group_all,
}

-- `neighbor_comm_ids` before `sort` and `dedup`.
communities_of : CommunityOf → List Uuid → Run (List Uuid)
communities_of of [] = returns []
communities_of of (n ∷ ns) = do c ← index of n; cs ← communities_of of ns; returns (c ∷ cs)

-- What one turn of the `for` loop does: goes on with the state, or leaves the loop.
pub data Turn : Type 0 where
  next : CommunityOf × Bool → Turn
  leave : CommunityOf × Bool → Turn

module _ {F : Type 0} ⦃fl : Float F⦄ where
  abbrev neighbor_ids : Uuid → Adj F → List Uuid
  neighbor_ids node adj = elim (get node adj) [ none ↦ [] | some ns ↦ map (λ n. n.0) ns ]

  neighbor_comm_ids : Uuid → Uuid → Adj F → CommunityOf → Run (List Uuid)
  unfolding communities_of
  neighbor_comm_ids node current adj of = do
    ids ← communities_of of (neighbor_ids node adj)
    returns (dedup (sort (ids ++ current ∷ [])))

  -- What `node` gains by moving from its community to `cid`.
  net_gain : Adj F → F → Members → Uuid → Uuid → Uuid → F
  net_gain adj m groups node current cid =
      let k_i = node_strength node adj in
      let comm = members_of cid groups in
      let k_in = weight_to_community node comm adj in
      let sigma_tot = community_strength comm adj in
      let curr_comm = members_of current groups in
      let k_in_curr = fl.sub (weight_to_community node curr_comm adj) (self_weight node adj) in
      let sigma_tot_curr = fl.sub (community_strength curr_comm adj) k_i in
      let two_m = fl.mul (fl.literal 2 0) m in
      let delta_add = fl.div (fl.sub k_in (fl.div (fl.mul sigma_tot k_i) two_m)) m in
      let delta_remove = fl.div (fl.sub k_in_curr (fl.div (fl.mul sigma_tot_curr k_i) two_m)) m in
      fl.sub delta_add delta_remove

  -- The loop over the candidate communities, with `(best_delta, best_id)`.
  best_of : (Uuid → F) → Uuid → List Uuid → F × Uuid → F × Uuid
  best_of gain current [] best = best
  best_of gain current (cid ∷ cids) (best_delta, best_id) =
      let net = gain cid in
      best_of gain current cids (
        if cid == current
        then (best_delta, best_id)
        else if fl.lt best_delta net || (fl.eq net best_delta && ltb cid best_id)
        then (net, cid)
        else (best_delta, best_id))

  best_comm : Adj F → F → Members → Uuid → Uuid → List Uuid → Uuid
  unfolding best_of net_gain
  best_comm adj m groups node current cids =
      (best_of (net_gain adj m groups node current) current cids (fl.literal 0 0, current)).1

  visit : Adj F → F → List Uuid → Uuid → CommunityOf × Bool → Run Turn
  unfolding neighbor_comm_ids best_comm
  visit adj m nodes node (of, improved) = do
    current ← index of node
    cids ← neighbor_comm_ids node current adj of
    if length cids == 1
        then returns (next (of, improved))
        else if fl.eq m (fl.literal 0 0)
        then returns (leave (of, improved))
        else do
          groups ← group_all of nodes
          let best = best_comm adj m groups node current cids
          returns (next (if best == current then (of, improved) else (assign node best of, true)))

  sweep : Adj F → F → List Uuid → List Uuid → CommunityOf × Bool → Run (CommunityOf × Bool)
  unfolding visit
  sweep adj m nodes [] st = returns st
  sweep adj m nodes (node ∷ rest) st = do
    turn ← visit adj m nodes node st
    elim turn [ next st' ↦ sweep adj m nodes rest st' | leave st' ↦ returns st' ]

  -- `while improved`, for at most so many rounds.
  rounds : ℕ → Adj F → F → List Uuid → CommunityOf → Run CommunityOf
  unfolding sweep
  rounds zero adj m nodes of = unfinished
  rounds (suc fuel) adj m nodes of = do
    after ← sweep adj m nodes nodes (of, false)
    elim after.1 [ true ↦ rounds fuel adj m nodes after.0 | false ↦ returns after.0 ]

  unfoldable pub louvain_positive : ℕ → List Uuid → List (SignedEdge F) → Run (List (List Uuid))
  unfolding rounds
  louvain_positive fuel [] edges = returns []
  louvain_positive fuel claims edges = do
    let adj = positive_adj claims edges
    of ← rounds fuel adj (total_weight adj) (sort claims) (singletons claims)
    sort_by_first (map sort (members (group of [])))
