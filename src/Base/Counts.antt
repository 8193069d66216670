-- ===== src/Base/Counts.antt =====
-- How often an identifier occurs in a list; `contains` is membership in a set or a vector.
use Prim.Native.Nat.{ℕ, ◌+◌, ◌≤◌}
use mathlib.Core.Path.{◌≡◌, refl}
use mathlib.Core.Bool.{Bool, true, false, ◌||◌, ◌&&◌}
use mathlib.Core.List.{List, [], ◌∷◌, ◌++◌}
use native.Mathlib.Omega.{arith}
use package.episcience.Base.Tests.{Uuid, ◌==◌, if◌then◌else◌}
use package.episcience.Base.Lists.{keep}

abbrev pub contains : List Uuid → Uuid → Bool
contains [] a = false
contains (x ∷ xs) a = (x == a) || contains xs a

abbrev pub count : Uuid → List Uuid → ℕ
count a [] = 0
count a (x ∷ xs) = (if x == a then 1 else 0) + count a xs

-- The distinct elements, each at its last place.
abbrev pub distinct : List Uuid → List Uuid
distinct [] = []
distinct (x ∷ xs) = let rest = distinct xs in if contains xs x then rest else x ∷ rest

pub count-append : (a : Uuid) (xs ys : List Uuid) → count a (xs ++ ys) ≡ count a xs + count a ys
count-append a [] ys = omega arith
count-append a (x ∷ xs) ys = omega (arith, count-append a xs ys)

-- Membership is a positive count.
pub contains-count : (a : Uuid) (xs : List Uuid) → contains xs a ≡ true → 1 ≤ count a xs
contains-count a [] h = ground arith
contains-count a (x ∷ xs) h = ground (arith, contains-count a xs)

pub count-contains : (a : Uuid) (xs : List Uuid) → 1 ≤ count a xs → contains xs a ≡ true
count-contains a [] h = absurd (omega arith)
count-contains a (x ∷ xs) h = ground (arith, count-contains a xs)

pub count-zero : (a : Uuid) (xs : List Uuid) → contains xs a ≡ false → count a xs ≡ 0
count-zero a [] h = refl
count-zero a (x ∷ xs) h = ground (arith, count-zero a xs)

pub contains-append :
    (a : Uuid) (xs ys : List Uuid) → contains (xs ++ ys) a ≡ (contains xs a || contains ys a)
contains-append a [] ys = refl
contains-append a (x ∷ xs) ys = ground (arith, contains-append a xs ys)

pub count-keep :
    (a : Uuid) (p : Uuid → Bool) (xs : List Uuid)
    → count a (keep p xs) ≡ (if p a then count a xs else 0)
count-keep a p [] = ground arith
count-keep a p (x ∷ xs) = ground (arith, count-keep a p xs)

pub contains-distinct : (a : Uuid) (xs : List Uuid) → contains (distinct xs) a ≡ contains xs a
contains-distinct a [] = refl
contains-distinct a (x ∷ xs) = ground (arith, contains-distinct a xs)

pub count-distinct :
    (a : Uuid) (xs : List Uuid) → count a (distinct xs) ≡ (if contains xs a then 1 else 0)
count-distinct a [] = refl
count-distinct a (x ∷ xs) = ground (arith, count-distinct a xs)

pub contains-keep :
    (a : Uuid) (p : Uuid → Bool) (xs : List Uuid) → contains (keep p xs) a ≡ (contains xs a && p a)
contains-keep a p [] = refl
contains-keep a p (x ∷ xs) = ground (arith, contains-keep a p xs)
