-- ===== src/Clustering/Separate/Partition.antt =====
-- Separation moves no claim out of the clustering and leaves no cluster empty.
use episcience.Base.{
  ◌+◌, ◌≡◌, refl, Bool, true, false, ◌||◌, Option, none, some, List, [], ◌∷◌, ◌++◌, arith, Uuid,
  leb, if◌then◌else◌, length, keep, contains, count, concat, count-append, count-keep, count-zero,
  ◌∙◌,
}
use episcience.Base.Floats.{Float}
use episcience.Base.Sort.{sort, count-sort, count-concat-sort_by}
use episcience.Base.Runs.{Returns}
use episcience.Clustering.Graph.{SignedEdge}
use episcience.Clustering.Sorting.{
  is_empty, AllNonempty, by_first, sort_by_first_lem, AllNonempty-append, AllNonempty-sort_by,
}
use episcience.Clustering.Separate.{
  Side, zeroth, first_side, Sides, side_of, put_side, on, nonempty_groups, group_on, choose, place,
  sides_of, bipartition, separate_cluster, separate_all, separate_on_contradicts,
}

-- The same claims as often, in clusters that are not empty.
pub record SameClaims (clusters result : List (List Uuid)) : Type 0 where
  pub nonempty : AllNonempty result
  pub same : (a : Uuid) → count a (concat result) ≡ count a (concat clusters)

concat-append :
    (a : Uuid) (xs ys : List (List Uuid))
    → count a (concat (xs ++ ys)) ≡ count a (concat xs) + count a (concat ys)
concat-append a [] ys = omega arith
concat-append a (x ∷ xs) ys = omega (
  arith,
  count-append a x (concat (xs ++ ys)),
  count-append a x (concat xs),
  concat-append a xs ys,
)

count-nonempty_groups :
    (a : Uuid) (g : List Uuid) → count a (concat (nonempty_groups g)) ≡ count a g
count-nonempty_groups a [] = refl
count-nonempty_groups a (x ∷ xs) = omega (arith, count-append a (x ∷ xs) [])

nonempty_groups-nonempty : (g : List Uuid) → AllNonempty (nonempty_groups g)
nonempty_groups-nonempty [] = tt
nonempty_groups-nonempty (x ∷ xs) = (refl, tt)

abbrev pub placed : Option Side → Bool
placed none = false
placed (some s) = true

-- A node that is placed is on one side and not on the other.
count-group_on :
    (a : Uuid) (xs : List Uuid) (sides : Sides)
    → (contains xs a ≡ true → placed (side_of a sides) ≡ true)
    → count a (group_on zeroth xs sides) + count a (group_on first_side xs sides) ≡ count a xs
count-group_on a xs sides h =
    rw
      (
        count-sort a (keep (λ n. on zeroth (side_of n sides)) xs),
        count-sort a (keep (λ n. on first_side (side_of n sides)) xs),
        count-keep a (λ n. on zeroth (side_of n sides)) xs,
        count-keep a (λ n. on first_side (side_of n sides)) xs,
      )
      (either (contains xs a) refl (side_of a sides) h)
  where
    either :
        (b : Bool)
        → contains xs a ≡ b
        → (s : Option Side) → (contains xs a ≡ true → placed s ≡ true)
        → (if on zeroth s then count a xs else 0) + (if on first_side s then count a xs else 0)
          ≡ count a xs
    either b e (some zeroth) h = omega arith
    either b e (some first_side) h = omega arith
    either true e none h = absurd (ground (arith, h e))
    either false e none h = omega (arith, count-zero a xs e)

module _ {F : Type 0} ⦃fl : Float F⦄ where
  pub placed-place :
      (a : Uuid) (ns : List Uuid) (sides : Sides) (edges : List (SignedEdge F))
      → placed (side_of a (place ns sides edges)) ≡ (contains ns a || placed (side_of a sides))
  unfolding place side_of
  placed-place a [] sides edges = refl
  placed-place a (n ∷ ns) sides edges =
      ground (arith, placed-place a ns (put_side n (choose n sides edges) sides) edges)

  pub placed-sides_of :
      (a : Uuid) (ns : List Uuid) (edges : List (SignedEdge F))
      → contains ns a ≡ true
      → placed (side_of a (sides_of ns edges)) ≡ true
  unfolding sides_of side_of
  placed-sides_of a [] edges h = h
  placed-sides_of a (n ∷ ns) edges h =
      ground (arith, placed-place a ns (put_side n zeroth []) edges)

  count-bipartition :
      (a : Uuid) (cluster : List Uuid) (edges : List (SignedEdge F))
      → count a (concat (bipartition cluster edges)) ≡ count a cluster
  unfolding bipartition
  count-bipartition a cluster edges =
      let sides = sides_of (sort cluster) edges in
      omega (
        arith,
        concat-append a (nonempty_groups (group_on zeroth (sort cluster) sides))
            (nonempty_groups (group_on first_side (sort cluster) sides)),
        count-nonempty_groups a (group_on zeroth (sort cluster) sides),
        count-nonempty_groups a (group_on first_side (sort cluster) sides),
        count-group_on a (sort cluster) sides (placed-sides_of a (sort cluster) edges),
        count-sort a cluster,
      )

  bipartition-nonempty :
      (cluster : List Uuid) (edges : List (SignedEdge F)) → AllNonempty (bipartition cluster edges)
  unfolding bipartition
  bipartition-nonempty cluster edges =
      let sides = sides_of (sort cluster) edges in
      AllNonempty-append (nonempty_groups (group_on zeroth (sort cluster) sides))
        (nonempty_groups (group_on first_side (sort cluster) sides)) (nonempty_groups-nonempty _)
        (nonempty_groups-nonempty _)

  separate_cluster-same :
      (threshold : F) (edges : List (SignedEdge F)) (c : List Uuid)
      → is_empty c ≡ false
      → SameClaims (c ∷ []) (separate_cluster threshold edges c)
  unfolding separate_cluster
  separate_cluster-same threshold edges c h = either (leb (length c) 1) _
    where
      whole : SameClaims (c ∷ []) (c ∷ [])
      whole = record { nonempty = (h, tt); same = λ a. refl }

      split : SameClaims (c ∷ []) (bipartition c edges)
      split = record {
        nonempty = bipartition-nonempty c edges;
        same = λ a. omega (arith, count-bipartition a c edges, count-append a c []);
      }

      either :
          (b d : Bool)
          → SameClaims (c ∷ []) (if b then c ∷ [] else if d then c ∷ [] else bipartition c edges)
      either true d = whole
      either false true = whole
      either false false = split

  separate_all-same :
      (threshold : F) (edges : List (SignedEdge F)) (cs : List (List Uuid))
      → AllNonempty cs
      → SameClaims cs (separate_all threshold edges cs)
  unfolding separate_all
  separate_all-same threshold edges [] h = record { nonempty = tt; same = λ a. refl }
  separate_all-same threshold edges (c ∷ cs) h =
      let here = separate_cluster-same threshold edges c h.0 in
      let rest = separate_all-same threshold edges cs h.1 in
      record {
        nonempty =
            AllNonempty-append (separate_cluster threshold edges c)
              (separate_all threshold edges cs) here.nonempty rest.nonempty;
        same = λ a. omega (
          arith,
          concat-append a (separate_cluster threshold edges c) (separate_all threshold edges cs),
          here.same a,
          rest.same a,
          count-append a c [],
          count-append a c (concat cs),
        );
      }

  -- Clusters that are not empty are separated with no panic, and no claim is lost or doubled.
  pub separate_on_contradicts-SameClaims :
      (clusters : List (List Uuid)) (edges : List (SignedEdge F)) (threshold : F)
      → AllNonempty clusters
      → Returns (SameClaims clusters) (separate_on_contradicts clusters edges threshold)
  unfolding separate_on_contradicts
  separate_on_contradicts-SameClaims clusters edges threshold h =
      let r = separate_all-same threshold edges clusters h in
      rw (sort_by_first_lem _ r.nonempty) (record {
        nonempty = AllNonempty-sort_by by_first (separate_all threshold edges clusters) r.nonempty;
        same =
            λ a. count-concat-sort_by a by_first (separate_all threshold edges clusters) ∙ r.same a;
      })
