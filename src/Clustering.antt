-- ===== src/Clustering.antt =====
-- crates/episcience-core/src/synthesis/clustering: `cluster_signed` and its three steps.
pub mod Graph
pub mod Sorting
pub mod Louvain
pub mod Separate
pub mod Merge
use episcience.Base.{
  ℕ, suc, ◌≤◌, ◌≡◌, ◌∙◌, List, Uuid, if◌then◌else◌, length, count, contains, concat, arith,
}
use episcience.Base.Floats.{Float}
use episcience.Base.Runs.{
  Run, returns, panics, unfinished, ◌>>=◌, Returns, Returns-bind, Returns-map,
}
use Graph.{SignedEdge}
use Sorting.{AllNonempty}
use Louvain.{louvain_positive}
use Louvain.Partition.{IsPartition, Safe, louvain_positive-Safe, Returns-Safe}
use Louvain.Quiet.{IsQuiet, louvain_positive-quiet}
use Separate.{separate_on_contradicts}
use Separate.Partition.{SameClaims, separate_on_contradicts-SameClaims}
use Merge.{merge_until_cap, IsMerge, merge_until_cap-IsMerge}

-- A partition of the claims in at most `most` clusters.
pub record IsClustering (claims : List Uuid) (most : ℕ) (clusters : List (List Uuid)) : Type 0 where
  pub nonempty : AllNonempty clusters
  pub holds : (a : Uuid) → count a (concat clusters) ≡ (if contains claims a then 1 else 0)
  pub capped : length clusters ≤ most

module _ {F : Type 0} ⦃fl : Float F⦄ where
  -- `fuel` bounds the rounds of the Louvain step.
  unfoldable pub cluster_signed : ℕ → List Uuid → List (SignedEdge F) → ℕ → Run (List (List Uuid))
  cluster_signed fuel claims edges max_clusters = do
    initial ← louvain_positive fuel claims edges
    separated ← separate_on_contradicts initial edges (fl.literal 2 1)
    merge_until_cap separated max_clusters

  -- A partition, separated and merged, is a clustering.
  pub finish :
      (claims : List Uuid) (edges : List (SignedEdge F)) (threshold : F) (most : ℕ)
      (initial : List (List Uuid))
      → 1 ≤ most
      → IsPartition claims initial
      → Returns (IsClustering claims most) (
          separate_on_contradicts initial edges threshold >>= λ separated.
          merge_until_cap separated most)
  finish claims edges threshold most initial one p =
      Returns-bind (SameClaims initial) (IsClustering claims most)
        (separate_on_contradicts initial edges threshold)
        (λ separated. merge_until_cap separated most)
        (separate_on_contradicts-SameClaims initial edges threshold p.nonempty)
        (λ separated d.
          Returns-map (IsMerge separated most) (IsClustering claims most)
            (merge_until_cap separated most) (merge_until_cap-IsMerge separated most d.nonempty one)
            (λ r i. record {
              nonempty = i.nonempty;
              holds = λ a. i.same a ∙ d.same a ∙ p.holds a;
              capped = omega (arith, i.size);
            }))

  -- For any cap of at least one: however many Louvain rounds are allowed, `cluster_signed` does
  -- not panic, and if those rounds were enough its result has no empty cluster, holds every
  -- claim exactly once and nothing else, and has at most `most` clusters.
  pub cluster_signed-Safe :
      (fuel : ℕ) (claims : List Uuid) (edges : List (SignedEdge F)) (most : ℕ)
      → 1 ≤ most
      → Safe (IsClustering claims most) (cluster_signed fuel claims edges most)
  unfolding cluster_signed
  cluster_signed-Safe fuel claims edges most one =
      after (louvain_positive fuel claims edges) (louvain_positive-Safe fuel claims edges)
    where
      after :
          (r : Run (List (List Uuid)))
          → Safe (IsPartition claims) r
          → Safe (IsClustering claims most) (do
            initial ← r
            separated ← separate_on_contradicts initial edges (fl.literal 2 1)
            merge_until_cap separated most)
      after (returns initial) p =
          Returns-Safe (IsClustering claims most) _
            (finish claims edges (fl.literal 2 1) most initial one p)
      after panics p = p
      after unfinished p = tt

  -- Where no edge passes the test `w > 0` and the cap is at least one, `cluster_signed` returns
  -- after a single Louvain round: no empty cluster, every claim exactly once, at most `most`
  -- clusters.
  pub cluster_signed-quiet :
      (fuel : ℕ) (claims : List Uuid) (edges : List (SignedEdge F)) (most : ℕ)
      → 1 ≤ most
      → IsQuiet edges
      → Returns (IsClustering claims most) (cluster_signed (suc fuel) claims edges most)
  unfolding cluster_signed
  cluster_signed-quiet fuel claims edges most one quiet =
      Returns-bind (IsPartition claims) (IsClustering claims most)
        (louvain_positive (suc fuel) claims edges) _
        (louvain_positive-quiet fuel claims edges quiet)
        (λ initial p. finish claims edges (fl.literal 2 1) most initial one p)
