-- ===== src/Clustering/Merge.antt =====
-- `merge_until_cap` of signed_louvain.rs.
use episcience.Base.{
  ℕ, zero, suc, ◌≤◌, ◌<◌, ◌≡◌, refl, ◌∙◌, Bool, true, false, List, [], ◌∷◌, ◌++◌, arith, Uuid, ltb,
  leb, if◌then◌else◌, length, concat, count, count-append, min,
}
use episcience.Base.Sort.{
  sort, sort_by, count-sort, count-concat-sort_by, length-sort_by, insert_by,
}
use episcience.Base.Runs.{
  Run, returns, panics, unfinished, ◌>>=◌, Returns, Returns-bind, Returns-map,
}
use episcience.Clustering.Sorting.{
  is_empty, AllNonempty, by_first, by_size, sort_by_first, sort_by_size, sort_by_first_lem,
  sort_by_size_lem, AllNonempty-sort_by,
}

-- `clusters.remove(1)`, then `clusters[0].extend(second)` and `clusters[0].sort()`; `remove`
-- panics where there is no second cluster.
merge_two : List (List Uuid) → Run (List (List Uuid))
merge_two [] = panics
merge_two (c ∷ []) = panics
merge_two (c ∷ second ∷ rest) = returns (sort (c ++ second) ∷ rest)

-- The `while` loop; each turn leaves one cluster less, so as many turns as clusters are enough.
merge_loop : ℕ → List (List Uuid) → ℕ → Run (List (List Uuid))
unfolding merge_two
merge_loop zero cs most = if ltb most (length cs) then unfinished else returns cs
merge_loop (suc fuel) cs most = elim (ltb most (length cs)) [
  | true ↦ do sorted ← sort_by_size cs; merged ← merge_two sorted; merge_loop fuel merged most
  | false ↦ returns cs
]

unfoldable pub merge_until_cap : List (List Uuid) → ℕ → Run (List (List Uuid))
unfolding merge_loop
merge_until_cap cs most = do merged ← merge_loop (length cs) cs most; sort_by_first merged

-- What merging leaves: clusters with elements, at most `most`, that hold the same claims.
pub record IsMerge (clusters : List (List Uuid)) (most : ℕ) (result : List (List Uuid))
    : Type 0 where
  pub nonempty : AllNonempty result
  pub same : (a : Uuid) → count a (concat result) ≡ count a (concat clusters)
  pub size : length result ≡ min (length clusters) most

sort-append-nonempty : (c d : List Uuid) → is_empty c ≡ false → is_empty (sort (c ++ d)) ≡ false
sort-append-nonempty [] d h = absurd (ground arith)
sort-append-nonempty (x ∷ c) d h = inserted x (sort (c ++ d))
  where
    inserted : (x : Uuid) (ys : List Uuid) → is_empty (insert_by leb x ys) ≡ false
    inserted x [] = refl
    inserted x (y ∷ ys) = ground arith

-- The turn that a cap of zero asks for once too often.
merge_loop_zero :
    (fuel : ℕ) (cs : List (List Uuid))
    → AllNonempty cs
    → 1 ≤ length cs
    → length cs ≤ fuel
    → merge_loop fuel cs 0 ≡ panics
unfolding merge_loop merge_two
merge_loop_zero zero cs h one enough = absurd (omega arith)
merge_loop_zero (suc fuel) cs h one enough =
    go (ltb 0 (length cs)) refl (λ ds hd o n. merge_loop_zero fuel ds hd o n)
  where
    Rest : Type 0
    Rest =
        (ds : List (List Uuid))
        → AllNonempty ds
        → 1 ≤ length ds
        → length ds ≤ fuel
        → merge_loop fuel ds 0 ≡ panics

    last :
        (s : List (List Uuid))
        → AllNonempty s
        → 1 ≤ length s
        → length s ≤ suc fuel
        → Rest
        → (merge_two s >>= λ m. merge_loop fuel m 0) ≡ panics
    last [] hs o n rec = refl
    last (c ∷ []) hs o n rec = refl
    last (c ∷ d ∷ rest) hs o n rec =
        rec (sort (c ++ d) ∷ rest) (sort-append-nonempty c d hs.0, hs.1.1) (omega arith)
          (omega arith)

    go :
        (b : Bool)
        → ltb 0 (length cs) ≡ b
        → Rest
        → ◌≡◌ {A = Run (List (List Uuid))}
            (elim b [
              | true ↦ do s ← sort_by_size cs; m ← merge_two s; merge_loop fuel m 0
              | false ↦ returns cs
            ])
            panics
    go false e rec = absurd (ground arith)
    go true e rec = rw (sort_by_size_lem cs h) (
        last (sort_by by_size cs) (AllNonempty-sort_by by_size cs h)
          (omega (arith, length-sort_by by_size cs)) (omega (arith, length-sort_by by_size cs)) rec)

merge_two-IsMerge :
    (cs : List (List Uuid)) (most : ℕ)
    → AllNonempty cs
    → 1 ≤ most
    → most < length cs
    → Returns
        (λ r.
          AllNonempty r
          × ((a : Uuid) → count a (concat r) ≡ count a (concat cs))
          × (suc (length r) ≡ length cs))
        (merge_two cs)
unfolding merge_two
merge_two-IsMerge [] most h one lt = absurd (omega arith)
merge_two-IsMerge (c ∷ []) most h one lt = absurd (omega arith)
merge_two-IsMerge (c ∷ d ∷ rest) most h one lt = (
  (sort-append-nonempty c d h.0, h.1.1),
  λ a. omega (
    arith,
    count-append a (sort (c ++ d)) (concat rest),
    count-sort a (c ++ d),
    count-append a c d,
    count-append a c (d ++ concat rest),
    count-append a d (concat rest),
  ),
  refl,
)

merge_loop-IsMerge :
    (fuel : ℕ) (cs : List (List Uuid)) (most : ℕ)
    → AllNonempty cs
    → 1 ≤ most
    → length cs ≤ fuel
    → Returns (IsMerge cs most) (merge_loop fuel cs most)
unfolding merge_loop
merge_loop-IsMerge zero cs most h one enough =
    rw fits (record { nonempty = h; same = λ a. refl; size = omega arith })
  where
    fits : ltb most (length cs) ≡ false
    fits = ground arith
merge_loop-IsMerge (suc fuel) cs most h one enough =
    go (ltb most (length cs)) refl (λ ds hd ld. merge_loop-IsMerge fuel ds most hd one ld)
  where
    sorted : List (List Uuid)
    sorted = sort_by by_size cs

    go :
        (b : Bool)
        → ltb most (length cs) ≡ b
        → ((ds : List (List Uuid))
            → AllNonempty ds
            → length ds ≤ fuel
            → Returns (IsMerge ds most) (merge_loop fuel ds most))
        → Returns (IsMerge cs most) (elim b [
          | true ↦ do s ← sort_by_size cs; m ← merge_two s; merge_loop fuel m most
          | false ↦ returns cs
        ])
    go false few rec = record { nonempty = h; same = λ a. refl; size = ground arith }
    go true more rec = rw (sort_by_size_lem cs h) (
        Returns-bind _ (IsMerge cs most) (merge_two sorted) (λ m. merge_loop fuel m most)
          (merge_two-IsMerge sorted most (AllNonempty-sort_by by_size cs h) one
            (rw (length-sort_by by_size cs) (ground arith)))
          (λ ds d.
            Returns-map (IsMerge ds most) (IsMerge cs most) (merge_loop fuel ds most)
              (rec ds d.0 (omega (arith, d.2, length-sort_by by_size cs)))
              (λ r i. record {
                nonempty = i.nonempty;
                same = λ a. i.same a ∙ d.1 a ∙ count-concat-sort_by a by_size cs;
                size = ground (arith, i.size, d.2, length-sort_by by_size cs, more, one);
              })))

-- With room for one cluster, merging returns, at the cap or below it, and keeps every claim.
pub merge_until_cap-IsMerge :
    (cs : List (List Uuid)) (most : ℕ)
    → AllNonempty cs
    → 1 ≤ most
    → Returns (IsMerge cs most) (merge_until_cap cs most)
unfolding merge_until_cap
merge_until_cap-IsMerge cs most h one =
    Returns-bind (IsMerge cs most) (IsMerge cs most) (merge_loop (length cs) cs most) sort_by_first
      (merge_loop-IsMerge (length cs) cs most h one (omega arith))
      (λ ds d. rw (sort_by_first_lem ds d.nonempty) (record {
        nonempty = AllNonempty-sort_by by_first ds d.nonempty;
        same = λ a. count-concat-sort_by a by_first ds ∙ d.same a;
        size = length-sort_by by_first ds ∙ d.size;
      }))

-- With a cap of zero, on a list of at least one cluster, none of them empty, the last cluster is asked for a second
-- one: the code panics.
pub merge_until_cap-zero :
    (cs : List (List Uuid)) → AllNonempty cs → 1 ≤ length cs → merge_until_cap cs 0 ≡ panics
unfolding merge_until_cap
merge_until_cap-zero cs h some_cluster =
    rw (merge_loop_zero (length cs) cs h some_cluster (omega arith))
