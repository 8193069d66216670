-- ===== src/Clustering/Sorting.antt =====
-- The sorts of clusters by their first element; `c[0]` panics on an empty cluster.
use episcience.Base.{
  ◌≡◌, refl, Bool, true, false, ◌&&◌, ◌||◌, List, [], ◌∷◌, arith, Uuid, ltb, leb, ◌==◌,
  if◌then◌else◌, length, keep, any, All, All-append, ◌++◌,
}
use episcience.Base.Sort.{sort_by, sort_by-All}
use episcience.Base.Runs.{Run, returns, panics}

abbrev pub is_empty : List Uuid → Bool
is_empty [] = true
is_empty (x ∷ xs) = false

-- `c[0]` where the cluster has an element.
abbrev pub first : List Uuid → Uuid
first [] = 0
first (x ∷ xs) = x

abbrev pub by_first : List Uuid → List Uuid → Bool
by_first a b = leb (first a) (first b)

-- `sort_by_key(|c| c[0])`: the key is read as soon as there are two clusters to compare.
unfoldable pub sort_by_first : List (List Uuid) → Run (List (List Uuid))
sort_by_first cs =
    if ltb 1 (length cs) && any is_empty cs then panics else returns (sort_by by_first cs)

abbrev pub by_size : List Uuid → List Uuid → Bool
by_size a b = ltb (length a) (length b) || ((length a == length b) && leb (first a) (first b))

-- `sort_by(|a, b| a.len().cmp(&b.len()).then_with(|| a[0].cmp(&b[0])))`: two empty clusters are
-- compared by their first element.
unfoldable pub sort_by_size : List (List Uuid) → Run (List (List Uuid))
sort_by_size cs = if ltb 1 (length (keep is_empty cs)) then panics else returns (sort_by by_size cs)

-- No cluster is empty.
abbrev pub AllNonempty : List (List Uuid) → Type 0
AllNonempty = All (λ c. is_empty c ≡ false)

any-empty : (cs : List (List Uuid)) → AllNonempty cs → any is_empty cs ≡ false
any-empty [] h = refl
any-empty (c ∷ cs) h = ground (arith, any-empty cs h.1)

keep-empty : (cs : List (List Uuid)) → AllNonempty cs → keep is_empty cs ≡ []
keep-empty [] h = refl
keep-empty (c ∷ cs) h = ground (arith, keep-empty cs h.1)

pub sort_by_first_lem :
    (cs : List (List Uuid)) → AllNonempty cs → sort_by_first cs ≡ returns (sort_by by_first cs)
unfolding sort_by_first
sort_by_first_lem cs h = ground (arith, any-empty cs h)

pub sort_by_size_lem :
    (cs : List (List Uuid)) → AllNonempty cs → sort_by_size cs ≡ returns (sort_by by_size cs)
unfolding sort_by_size
sort_by_size_lem cs h = rw (keep-empty cs h)

pub AllNonempty-append :
    (xs ys : List (List Uuid)) → AllNonempty xs → AllNonempty ys → AllNonempty (xs ++ ys)
AllNonempty-append xs ys = All-append (λ c. is_empty c ≡ false) xs ys

pub AllNonempty-sort_by :
    (le : List Uuid → List Uuid → Bool) (cs : List (List Uuid))
    → AllNonempty cs
    → AllNonempty (sort_by le cs)
AllNonempty-sort_by le cs = sort_by-All le (λ c. is_empty c ≡ false) cs
