-- ===== src/Base/Sort.antt =====
-- `Vec::sort`, `sort_by` and `dedup`: a stable sort, as insertion from the right.
use episcience.Base.Tests.{Uuid, leb, ◌==◌, if◌then◌else◌}
use episcience.Base.Lists.{length, concat, All}
use episcience.Base.Counts.{count, contains, count-append, count-contains, contains-count}
use Prim.Native.Nat.{suc, ◌+◌, ◌≤◌}
use mathlib.Core.Path.{◌≡◌, refl, sym}
use mathlib.Core.Bool.{Bool, true, false}
use mathlib.Core.List.{List, [], ◌∷◌}
use native.Mathlib.Omega.{arith}

module _ {ℓ} {A : Type ℓ} (le : A → A → Bool) where
  abbrev pub insert_by : A → List A → List A
  insert_by x [] = x ∷ []
  insert_by x (y ∷ ys) = if le x y then x ∷ y ∷ ys else y ∷ insert_by x ys

  abbrev pub sort_by : List A → List A
  sort_by [] = []
  sort_by (x ∷ xs) = insert_by x (sort_by xs)

  length-insert_by : (x : A) (ys : List A) → length (insert_by x ys) ≡ suc (length ys)
  length-insert_by x [] = refl
  length-insert_by x (y ∷ ys) = ground (arith, length-insert_by x ys)

  pub length-sort_by : (xs : List A) → length (sort_by xs) ≡ length xs
  length-sort_by [] = refl
  length-sort_by (x ∷ xs) = omega (arith, length-insert_by x (sort_by xs), length-sort_by xs)

  insert_by-All {κ} :
      (P : A → Type κ) (x : A) (ys : List A) → P x → All P ys → All P (insert_by x ys)
  insert_by-All P x [] p h = (p, tt)
  insert_by-All P x (y ∷ ys) p h = go (le x y) (insert_by-All P x ys p h.1)
    where
      go :
          (b : Bool) → All P (insert_by x ys) → All P (if b then x ∷ y ∷ ys else y ∷ insert_by x ys)
      go true r = (p, h)
      go false r = (h.0, r)

  pub sort_by-All {κ} : (P : A → Type κ) (xs : List A) → All P xs → All P (sort_by xs)
  sort_by-All P [] h = tt
  sort_by-All P (x ∷ xs) h = insert_by-All P x (sort_by xs) h.0 (sort_by-All P xs h.1)

-- `Vec::sort` on identifiers.
abbrev pub sort : List Uuid → List Uuid
sort = sort_by leb

-- Each element is at most all later ones.
abbrev pub IsSorted : List Uuid → Type 0
IsSorted [] = Unit
IsSorted (x ∷ xs) = All (λ y. x ≤ y) xs × IsSorted xs

count-insert_by :
    (a : Uuid) (le : Uuid → Uuid → Bool) (x : Uuid) (ys : List Uuid)
    → count a (insert_by le x ys) ≡ count a (x ∷ ys)
count-insert_by a le x [] = refl
count-insert_by a le x (y ∷ ys) = ground (arith, count-insert_by a le x ys)

pub count-sort : (a : Uuid) (xs : List Uuid) → count a (sort xs) ≡ count a xs
count-sort a [] = refl
count-sort a (x ∷ xs) = omega (arith, count-insert_by a leb x (sort xs), count-sort a xs)

All-le_trans : (x y : Uuid) (zs : List Uuid) → x ≤ y → All (λ z. y ≤ z) zs → All (λ z. x ≤ z) zs
All-le_trans x y [] h a = tt
All-le_trans x y (z ∷ zs) h a = (omega arith, All-le_trans x y zs h a.1)

insert_by-IsSorted : (x : Uuid) (ys : List Uuid) → IsSorted ys → IsSorted (insert_by leb x ys)
insert_by-IsSorted x [] h = (tt, tt)
insert_by-IsSorted x (y ∷ ys) h = go (leb x y) refl (insert_by-IsSorted x ys h.1)
  where
    go :
        (b : Bool)
        → leb x y ≡ b
        → IsSorted (insert_by leb x ys)
        → IsSorted (if b then x ∷ y ∷ ys else y ∷ insert_by leb x ys)
    go true e r = ((ground arith, All-le_trans x y ys (ground arith) h.0), h)
    go false e r = (insert_by-All leb (λ z. y ≤ z) x ys (ground arith) h.0, r)

pub sort-IsSorted : (xs : List Uuid) → IsSorted (sort xs)
sort-IsSorted [] = tt
sort-IsSorted (x ∷ xs) = insert_by-IsSorted x (sort xs) (sort-IsSorted xs)

-- `Vec::dedup`: drop each element equal to the one before it.
abbrev drop_repeats : Uuid → List Uuid → List Uuid
drop_repeats x [] = []
drop_repeats x (y ∷ ys) = let rest = drop_repeats y ys in if x == y then rest else y ∷ rest

abbrev pub dedup : List Uuid → List Uuid
dedup [] = []
dedup (x ∷ xs) = x ∷ drop_repeats x xs

-- Sorting the clusters moves no element between clusters.
count-concat-insert_by :
    (a : Uuid) (le : List Uuid → List Uuid → Bool) (c : List Uuid) (cs : List (List Uuid))
    → count a (concat (insert_by le c cs)) ≡ count a c + count a (concat cs)
count-concat-insert_by a le c [] = count-append a c []
count-concat-insert_by a le c (d ∷ ds) = ground (
  arith,
  count-append a c (concat (d ∷ ds)),
  count-append a d (concat ds),
  count-append a d (concat (insert_by le c ds)),
  count-concat-insert_by a le c ds,
)

pub count-concat-sort_by :
    (a : Uuid) (le : List Uuid → List Uuid → Bool) (cs : List (List Uuid))
    → count a (concat (sort_by le cs)) ≡ count a (concat cs)
count-concat-sort_by a le [] = refl
count-concat-sort_by a le (c ∷ cs) = omega (
  arith,
  count-concat-insert_by a le c (sort_by le cs),
  count-append a c (concat cs),
  count-concat-sort_by a le cs,
)

pub contains-sort : (a : Uuid) (xs : List Uuid) → contains (sort xs) a ≡ contains xs a
contains-sort a xs =
    same_test (contains (sort xs) a) (contains xs a)
      (λ h. count-contains a xs (omega (arith, count-sort a xs, contains-count a (sort xs) h)))
      (λ h. count-contains a (sort xs) (omega (arith, count-sort a xs, contains-count a xs h)))
  where
    same_test : (b c : Bool) → (b ≡ true → c ≡ true) → (c ≡ true → b ≡ true) → b ≡ c
    same_test true c f g = sym (f refl)
    same_test false true f g = g refl
    same_test false false f g = refl
