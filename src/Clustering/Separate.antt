-- ===== src/Clustering/Separate.antt =====
-- `separate_on_contradicts` of signed_louvain.rs.
pub mod Partition
pub mod Cut
use episcience.Base.{
  ℕ, suc, ◌+◌, ◌≤◌, ◌≡◌, refl, Bool, true, false, not, ◌&&◌, Option, none, some, List, [], ◌∷◌,
  ◌++◌, arith, Uuid, ◌==◌, leb, if◌then◌else◌, length, keep, contains,
}
use episcience.Base.Floats.{Float}
use episcience.Base.Sort.{sort}
use episcience.Base.Runs.{Run}
use episcience.Clustering.Graph.{SignedEdge}
use episcience.Clustering.Sorting.{sort_by_first}

-- The `u8` that says on which side a node is: 0 or 1.
pub data Side : Type 0 where
  zeroth first_side : Side

abbrev pub Sides : Type 0
Sides = List (Uuid × Side)

-- `side.get(&n)`
unfoldable pub side_of : Uuid → Sides → Option Side
side_of n [] = none
side_of n ((k, s) ∷ sides) = if k == n then some s else side_of n sides

-- `side.insert(n, s)`; the newest entry of a node is the one that is read.
abbrev put_side : Uuid → Side → Sides → Sides
put_side n s sides = (n, s) ∷ sides

abbrev pub on : Side → Option Side → Bool
on zeroth (some zeroth) = true
on first_side (some first_side) = true
on s t = false

abbrev other_side : Sides → Option Uuid → Option Side
other_side sides none = none
other_side sides (some n) = side_of n sides

abbrev nonempty_groups : List Uuid → List (List Uuid)
nonempty_groups [] = []
nonempty_groups (x ∷ xs) = (x ∷ xs) ∷ []

abbrev pub group_on : Side → List Uuid → Sides → List Uuid
group_on s cluster sides = sort (keep (λ n. on s (side_of n sides)) cluster)

module _ {F : Type 0} ⦃fl : Float F⦄ where
  -- `w < 0.0 && cluster.contains(&u) && cluster.contains(&v)`
  abbrev is_intra : List Uuid → SignedEdge F → Bool
  is_intra cluster (u, v, w) =
      fl.lt w (fl.literal 0 0) && (contains cluster u && contains cluster v)

  neg_count : List Uuid → List (SignedEdge F) → ℕ
  neg_count cluster edges = length (keep (is_intra cluster) edges)

  -- The edge has no weight of zero or more, which is what the bipartition skips.
  abbrev pub is_conflict : SignedEdge F → Bool
  is_conflict (u, v, w) = not (fl.le (fl.literal 0 0) w)

  -- The node at the other end, if the edge is one of `node`.
  abbrev other_end : Uuid → SignedEdge F → Option Uuid
  other_end node (u, v, w) = if u == node then some v else if v == node then some u else none

  -- `neg_to[s]`: the conflicts of `node` with the nodes already on that side.
  neg_to : Side → Uuid → Sides → List (SignedEdge F) → ℕ
  neg_to s node sides edges =
      length (keep (λ e. is_conflict e && on s (other_side sides (other_end node e))) edges)

  choose : Uuid → Sides → List (SignedEdge F) → Side
  unfolding neg_to
  choose node sides edges =
      if leb (neg_to zeroth node sides edges) (neg_to first_side node sides edges)
      then zeroth
      else first_side

  pub place : List Uuid → Sides → List (SignedEdge F) → Sides
  unfolding choose
  place [] sides edges = sides
  place (n ∷ ns) sides edges = place ns (put_side n (choose n sides edges) sides) edges

  pub sides_of : List Uuid → List (SignedEdge F) → Sides
  unfolding place
  sides_of [] edges = []
  sides_of (n ∷ ns) edges = place ns (put_side n zeroth []) edges

  pub bipartition : List Uuid → List (SignedEdge F) → List (List Uuid)
  unfolding sides_of
  bipartition cluster edges =
      let sorted = sort cluster in
      let sides = sides_of sorted edges in
      nonempty_groups (group_on zeroth sorted sides)
      ++ nonempty_groups (group_on first_side sorted sides)

  separate_cluster : F → List (SignedEdge F) → List Uuid → List (List Uuid)
  unfolding neg_count bipartition
  separate_cluster threshold edges cluster =
      let n = length cluster in
      if leb n 1
      then cluster ∷ []
      else if fl.le (fl.div (fl.literal (neg_count cluster edges) 0) (fl.literal n 0)) threshold
      then cluster ∷ []
      else bipartition cluster edges

  separate_all : F → List (SignedEdge F) → List (List Uuid) → List (List Uuid)
  unfolding separate_cluster
  separate_all threshold edges [] = []
  separate_all threshold edges (c ∷ cs) =
      separate_cluster threshold edges c ++ separate_all threshold edges cs

  unfoldable pub separate_on_contradicts :
      List (List Uuid) → List (SignedEdge F) → F → Run (List (List Uuid))
  unfolding separate_all
  separate_on_contradicts clusters edges threshold =
      sort_by_first (separate_all threshold edges clusters)
