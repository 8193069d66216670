-- ===== src/Clustering/Separate/Cut.antt =====
-- The greedy bipartition cuts at least half of the conflicts of the cluster that it splits.
use episcience.Base.{
  ℕ, ◌+◌, ◌*◌, ◌≤◌, ◌≡◌, refl, ◌∙◌, Bool, true, false, not, ◌&&◌, ◌||◌, Option, none, some, List,
  [], ◌∷◌, ◌++◌, arith, Uuid, ◌==◌, leb, if◌then◌else◌, length, keep, contains, contains-keep, sym,
  All,
}
use episcience.Base.Floats.{Float}
use episcience.Base.Sort.{sort, insert_by, contains-sort}
use episcience.Clustering.Graph.{SignedEdge}
use episcience.Clustering.Separate.{
  Side, zeroth, first_side, Sides, side_of, put_side, on, is_conflict, neg_to, choose, place,
  sides_of, group_on, nonempty_groups, bipartition,
}
use episcience.Clustering.Separate.Partition.{placed, placed-place}

-- No element stands twice.
abbrev pub NoRepeats : List Uuid → Type 0
NoRepeats [] = Unit
NoRepeats (x ∷ xs) = (contains xs x ≡ false) × NoRepeats xs

contains-insert_by :
    (a x : Uuid) (ys : List Uuid) → contains (insert_by leb x ys) a ≡ ((x == a) || contains ys a)
contains-insert_by a x [] = refl
contains-insert_by a x (y ∷ ys) = ground (arith, contains-insert_by a x ys)

insert_by-NoRepeats :
    (x : Uuid) (ys : List Uuid)
    → contains ys x ≡ false
    → NoRepeats ys
    → NoRepeats (insert_by leb x ys)
insert_by-NoRepeats x [] h d = (refl, tt)
insert_by-NoRepeats x (y ∷ ys) h d = go (leb x y) (insert_by-NoRepeats x ys (ground arith) d.1)
  where
    go :
        (b : Bool)
        → NoRepeats (insert_by leb x ys)
        → NoRepeats (if b then x ∷ y ∷ ys else y ∷ insert_by leb x ys)
    go true r = (h, d)
    go false r = (ground (arith, contains-insert_by y x ys), r)

sort-NoRepeats : (xs : List Uuid) → NoRepeats xs → NoRepeats (sort xs)
sort-NoRepeats [] d = tt
sort-NoRepeats (x ∷ xs) d =
    insert_by-NoRepeats x (sort xs) (contains-sort x xs ∙ d.0) (sort-NoRepeats xs d.1)

abbrev other : Side → Side
other zeroth = first_side
other first_side = zeroth

module _ {F : Type 0} ⦃fl : Float F⦄ where
  -- A conflict between two different nodes of `group`.
  abbrev conflict_in : List Uuid → SignedEdge F → Bool
  conflict_in group (u, v, w) =
      is_conflict (u, v, w) && (not (u == v) && (contains group u && contains group v))

  abbrev pub conflicts_in : List Uuid → List (SignedEdge F) → ℕ
  conflicts_in group edges = length (keep (conflict_in group) edges)

  abbrev pub conflicts_left : List (List Uuid) → List (SignedEdge F) → ℕ
  conflicts_left [] edges = 0
  conflicts_left (g ∷ gs) edges = conflicts_in g edges + conflicts_left gs edges

  abbrev both_on : Side → Sides → SignedEdge F → Bool
  both_on s sides (u, v, w) =
      is_conflict (u, v, w) && (not (u == v) && (on s (side_of u sides) && on s (side_of v sides)))

  abbrev opposite : Sides → SignedEdge F → Bool
  opposite sides (u, v, w) =
      is_conflict (u, v, w)
      && (not (u == v)
          && ((on zeroth (side_of u sides) && on first_side (side_of v sides))
              || (on first_side (side_of u sides) && on zeroth (side_of v sides))))

  inside : Sides → List (SignedEdge F) → ℕ
  inside sides edges =
      length (keep (both_on zeroth sides) edges) + length (keep (both_on first_side sides) edges)

  across : Sides → List (SignedEdge F) → ℕ
  across sides edges = length (keep (opposite sides) edges)

  inside-put :
      (n : Uuid) (s : Side) (sides : Sides) (edges : List (SignedEdge F))
      → side_of n sides ≡ none
      → inside (put_side n s sides) edges ≡ inside sides edges + neg_to s n sides edges
  unfolding inside neg_to side_of
  inside-put n s sides [] h = omega arith
  inside-put n zeroth sides ((u, v, w) ∷ edges) h =
      ground (arith, inside-put n zeroth sides edges h)
  inside-put n first_side sides ((u, v, w) ∷ edges) h =
      ground (arith, inside-put n first_side sides edges h)

  across-put :
      (n : Uuid) (s : Side) (sides : Sides) (edges : List (SignedEdge F))
      → side_of n sides ≡ none
      → across (put_side n s sides) edges ≡ across sides edges + neg_to (other s) n sides edges
  unfolding across neg_to side_of
  across-put n s sides [] h = omega arith
  across-put n zeroth sides ((u, v, w) ∷ edges) h =
      ground (arith, across-put n zeroth sides edges h)
  across-put n first_side sides ((u, v, w) ∷ edges) h =
      ground (arith, across-put n first_side sides edges h)

  place_balance :
      (ns : List Uuid) (sides : Sides) (edges : List (SignedEdge F))
      → NoRepeats ns
      → All (λ n. side_of n sides ≡ none) ns
      → inside sides edges ≤ across sides edges
      → inside (place ns sides edges) edges ≤ across (place ns sides edges) edges
  unfolding place
  place_balance [] sides edges d fresh h = h
  place_balance (n ∷ ns) sides edges d fresh h =
      place_balance ns (put_side n (choose n sides edges) sides) edges d.1
        (unplaced ns n (choose n sides edges) sides d.0 fresh.1) (step (choose n sides edges) refl)
    where
      unplaced :
          (ns : List Uuid) (n : Uuid) (s : Side) (sides : Sides)
          → contains ns n ≡ false
          → All (λ m. side_of m sides ≡ none) ns
          → All (λ m. side_of m (put_side n s sides) ≡ none) ns
      unplaced [] n s sides d h = tt
      unplaced (m ∷ ms) n s sides d h =
          (unfold side_of in ground arith, unplaced ms n s sides (ground arith) h.1)

      step :
          (s : Side)
          → choose n sides edges ≡ s
          → inside (put_side n (choose n sides edges) sides) edges
            ≤ across (put_side n (choose n sides edges) sides) edges
      step zeroth e =
          rw
            (
              inside-put n (choose n sides edges) sides edges fresh.0,
              across-put n (choose n sides edges) sides edges fresh.0,
              e,
            )
            (unfold choose in ground arith)
      step first_side e =
          rw
            (
              inside-put n (choose n sides edges) sides edges fresh.0,
              across-put n (choose n sides edges) sides edges fresh.0,
              e,
            )
            (unfold choose in ground arith)

  nothing_inside : (edges : List (SignedEdge F)) → inside [] edges ≡ 0
  unfolding inside side_of
  nothing_inside [] = omega arith
  nothing_inside ((u, v, w) ∷ edges) = ground (arith, nothing_inside edges)

  neg_to-nil : (s : Side) (n : Uuid) (edges : List (SignedEdge F)) → neg_to s n [] edges ≡ 0
  unfolding neg_to side_of
  neg_to-nil s n [] = refl
  neg_to-nil zeroth n ((u, v, w) ∷ edges) = ground (arith, neg_to-nil zeroth n edges)
  neg_to-nil first_side n ((u, v, w) ∷ edges) = ground (arith, neg_to-nil first_side n edges)

  sides_of_balance :
      (ns : List Uuid) (edges : List (SignedEdge F))
      → NoRepeats ns
      → inside (sides_of ns edges) edges ≤ across (sides_of ns edges) edges
  unfolding sides_of
  sides_of_balance [] edges d = omega (arith, nothing_inside edges)
  sides_of_balance (n ∷ ns) edges d =
      place_balance ns (put_side n zeroth []) edges d.1 (fresh ns d.0) (
        omega (
          arith,
          inside-put n zeroth [] edges (unfold side_of in refl),
          nothing_inside edges,
          neg_to-nil zeroth n edges,
        ))
    where
      fresh :
          (ms : List Uuid)
          → contains ms n ≡ false
          → All (λ m. side_of m (put_side n zeroth []) ≡ none) ms
      fresh [] h = tt
      fresh (m ∷ ms) h = (unfold side_of in ground arith, fresh ms (ground arith))

  placed-sides_of_iff :
      (a : Uuid) (ns : List Uuid) (edges : List (SignedEdge F))
      → placed (side_of a (sides_of ns edges)) ≡ contains ns a
  unfolding sides_of side_of
  placed-sides_of_iff a [] edges = refl
  placed-sides_of_iff a (n ∷ ns) edges =
      ground (arith, placed-place a ns (put_side n zeroth []) edges)

  -- The conflicts that stay in the groups, and all of them, told by the sides.
  module _ (c g₀ g₁ : List Uuid) (sides : Sides)
      (all : (a : Uuid) → contains c a ≡ placed (side_of a sides))
      (left : (a : Uuid) → contains g₀ a ≡ on zeroth (side_of a sides))
      (right : (a : Uuid) → contains g₁ a ≡ on first_side (side_of a sides)) where
    conflicts_split :
        (edges : List (SignedEdge F))
        → (conflicts_in g₀ edges + conflicts_in g₁ edges ≡ inside sides edges)
          × (conflicts_in c edges ≡ inside sides edges + across sides edges)
    unfolding inside across
    conflicts_split [] = (omega arith, omega arith)
    conflicts_split ((u, v, w) ∷ edges) =
        let ih = conflicts_split edges in
        (ground (arith, ih.0, left u, left v, right u, right v), ground (arith, ih.1, all u, all v))

  group_on-on :
      (a : Uuid) (s : Side) (ns : List Uuid) (edges : List (SignedEdge F))
      → contains (group_on s ns (sides_of ns edges)) a ≡ on s (side_of a (sides_of ns edges))
  group_on-on a s ns edges =
      contains-sort a (keep (λ n. on s (side_of n (sides_of ns edges))) ns)
      ∙ contains-keep a (λ n. on s (side_of n (sides_of ns edges))) ns
      ∙ known s (side_of a (sides_of ns edges)) (placed-sides_of_iff a ns edges)
    where
      known :
          (s : Side) (o : Option Side)
          → placed o ≡ contains ns a
          → (contains ns a && on s o) ≡ on s o
      known zeroth none e = ground arith
      known first_side none e = ground arith
      known s (some t) e = rw (← e)

  no_conflicts : (edges : List (SignedEdge F)) → conflicts_in [] edges ≡ 0
  no_conflicts [] = refl
  no_conflicts ((u, v, w) ∷ edges) = ground (arith, no_conflicts edges)

  left_of_groups :
      (g₀ g₁ : List Uuid) (edges : List (SignedEdge F))
      → conflicts_left (nonempty_groups g₀ ++ nonempty_groups g₁) edges
        ≡ conflicts_in g₀ edges + conflicts_in g₁ edges
  left_of_groups [] [] edges = omega (arith, no_conflicts edges)
  left_of_groups [] (y ∷ ys) edges = omega (arith, no_conflicts edges)
  left_of_groups (x ∷ xs) [] edges = omega (arith, no_conflicts edges)
  left_of_groups (x ∷ xs) (y ∷ ys) edges = omega arith

  -- For a cluster that holds no claim twice: of the conflicts between different claims of the
  -- cluster, at most half are still inside one group after the bipartition.
  pub bipartition_cut :
      (cluster : List Uuid) (edges : List (SignedEdge F))
      → NoRepeats cluster
      → 2 * conflicts_left (bipartition cluster edges) edges ≤ conflicts_in cluster edges
  unfolding bipartition
  bipartition_cut cluster edges d =
      let ns = sort cluster in
      let sides = sides_of ns edges in
      let split =
        conflicts_split cluster (group_on zeroth ns sides) (group_on first_side ns sides) sides
          (λ a. sym (placed-sides_of_iff a ns edges ∙ contains-sort a cluster))
          (λ a. group_on-on a zeroth ns edges) (λ a. group_on-on a first_side ns edges) edges in
      omega (
        arith,
        left_of_groups (group_on zeroth ns sides) (group_on first_side ns sides) edges,
        split.0,
        split.1,
        sides_of_balance ns edges (sort-NoRepeats cluster d),
      )
