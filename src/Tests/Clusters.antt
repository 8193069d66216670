-- ===== src/Tests/Clusters.antt =====
-- Examples of clustering and of the traversal.
use episcience.Base.{count, ℕ, ◌*◌, ◌≤◌, ◌≡◌, refl, true, false, List, [], ◌∷◌, Uuid, arith, ◌==◌}
use episcience.Base.Runs.{Run, Returns}
use episcience.Clustering.{IsClustering, cluster_signed, cluster_signed-Safe, cluster_signed-quiet}
use episcience.Clustering.Graph.{SignedEdge}
use episcience.Clustering.Louvain.Partition.{Safe}
use episcience.Clustering.Separate.{bipartition, separate_on_contradicts}
use episcience.Clustering.Separate.Cut.{conflicts_left, conflicts_in, bipartition_cut}
use episcience.Clustering.Separate.Partition.{SameClaims, separate_on_contradicts-SameClaims}
use episcience.Clustering.Merge.{merge_until_cap, merge_until_cap-zero}
use episcience.Traversal.{EdgeType, supports, TraversalConfig, traverse}
use episcience.Traversal.Total.{IsTraversal, traverse-IsTraversal}
use episcience.Seeds.{SeedCandidate, select_candidates}
use episcience.Seeds.Selection.{IsSelection, ids, select_candidates-IsSelection}
use package.episcience.Tests.{whole_numbers}

abbrev claims : List Uuid
claims = 3 ∷ 1 ∷ 2 ∷ 4 ∷ []

abbrev edges : List (SignedEdge ℕ)
edges = (1, 2, 5) ∷ (3, 4, 1) ∷ []

abbrev conflict : List (SignedEdge ℕ)
conflict = (1, 2, 0) ∷ (2, 3, 0) ∷ []

abbrev pairs : List (List Uuid)
pairs = (1 ∷ 2 ∷ []) ∷ (3 ∷ []) ∷ (4 ∷ []) ∷ []

cluster_signed-Safe_example : Safe (IsClustering claims 2) (cluster_signed 5 claims edges 2)
cluster_signed-Safe_example = cluster_signed-Safe 5 claims edges 2 (omega arith)

cluster_signed-quiet_example : Returns (IsClustering claims 2) (cluster_signed 1 claims conflict 2)
cluster_signed-quiet_example =
    cluster_signed-quiet 0 claims conflict 2 (omega arith) (refl, (refl, tt))

bipartition_cut_example :
    2 * conflicts_left (bipartition claims conflict) conflict ≤ conflicts_in claims conflict
bipartition_cut_example = bipartition_cut claims conflict (refl, (refl, (refl, (refl, tt))))

separate_on_contradicts_example :
    Returns (SameClaims pairs) (separate_on_contradicts pairs conflict 2)
separate_on_contradicts_example =
    separate_on_contradicts-SameClaims pairs conflict 2 (refl, (refl, (refl, tt)))

merge_until_cap-zero_example : merge_until_cap pairs 0 ≡ Run.panics
merge_until_cap-zero_example = merge_until_cap-zero pairs (refl, (refl, (refl, tt))) (omega arith)

abbrev neighbors : Uuid → List EdgeType → List (Uuid × EdgeType)
neighbors claim types = elim (claim == 1) [ true ↦ (2, supports) ∷ (5, supports) ∷ [] | false ↦ [] ]

abbrev config : TraversalConfig ℕ
config = record {
  max_hops = 2;
  edge_types = supports ∷ [];
  follow_via_paper = false;
  relevance_prune = 3;
  max_subgraph_size = 4;
}

traverse-IsTraversal_example :
    Returns
      (λ r. IsTraversal neighbors (λ id. id) config (1 ∷ 3 ∷ []) r.claim_ids)
      (traverse neighbors (λ id. id) config 7 (1 ∷ 3 ∷ []))
traverse-IsTraversal_example =
    traverse-IsTraversal neighbors (λ id. id) config 7 (1 ∷ 3 ∷ []) (omega arith)

abbrev candidates : List (SeedCandidate ℕ)
candidates =
    record { id = 1; relevance = 9; embedding = 1 ∷ 0 ∷ [] }
    ∷ record { id = 2; relevance = 8; embedding = 1 ∷ 0 ∷ [] }
    ∷ record { id = 3; relevance = 5; embedding = 0 ∷ 1 ∷ [] }
    ∷ []

select_candidates-IsSelection_example :
    Returns (IsSelection 1 2 (λ a. count a (ids candidates))) (select_candidates candidates 2 1 1)
select_candidates-IsSelection_example = select_candidates-IsSelection 1 candidates 2 1
