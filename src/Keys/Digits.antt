-- ===== src/Keys/Digits.antt =====
-- A number's decimal digits are read back.
use episcience.Base.{
  ◌≡◌, refl, subst, ℕ, zero, suc, ◌+◌, ◌-◌, ◌*◌, ◌/◌, ◌%◌, ◌≤◌, ◌<◌, Bool, true, false, not, ◌&&◌,
  ◌||◌, none, some, [], ◌∷◌, ◌++◌, ◌==◌, if◌then◌else◌, ltb, leb, arith,
}
use mathlib.Core.Option.{some-injective}
use episcience.Base.Texts.{Text, IsPlain}
use package.episcience.Keys.{
  ℤ, pos, negsuc, decimal, print_ℕ, print_ℤ, is_digit, is_hex, every, value, is_empty, max_i64,
  digits,
}

value-append : (n : ℕ) (t : Text) (c : ℕ) → value n (t ++ c ∷ []) ≡ value n t * 10 + (c - b'0')
unfolding value
value-append n [] c = refl
value-append n (d ∷ t) c = value-append (n * 10 + (d - b'0')) t c

smaller : (fuel n : ℕ) → n ≤ suc fuel → ltb n 10 ≡ false → n / 10 ≤ fuel
smaller fuel n h k = ground arith

pub value-decimal : (fuel n : ℕ) → n ≤ fuel → value 0 (decimal fuel n) ≡ n
unfolding value decimal
value-decimal zero n h = omega arith
value-decimal (suc fuel) n h =
    go (ltb n 10) refl λ k. value-decimal fuel (n / 10) (smaller fuel n h k)
  where
    go :
        (b : Bool)
        → ltb n 10 ≡ b
        → (ltb n 10 ≡ false → value 0 (decimal fuel (n / 10)) ≡ n / 10)
        → value 0 (if b then (b'0' + n) ∷ [] else decimal fuel (n / 10) ++ (b'0' + n % 10) ∷ []) ≡ n
    go true k f = omega arith
    go false k f = omega (arith, value-append 0 (decimal fuel (n / 10)) (b'0' + n % 10), f k)

every-append :
    (p : ℕ → Bool) (s t : Text) → every p s ≡ true → every p t ≡ true → every p (s ++ t) ≡ true
every-append p [] t h k = k
every-append p (c ∷ s) t h k = go (p c) h λ h. every-append p s t h k
  where
    go :
        (b : Bool)
        → (b && every p s) ≡ true
        → (every p s ≡ true → every p (s ++ t) ≡ true)
        → (b && every p (s ++ t)) ≡ true
    go true h f = f h
    go false h f = h

digit : (n : ℕ) → n < 10 → every is_digit ((b'0' + n) ∷ []) ≡ true
digit n h = ground arith

pub decimal-digits : (fuel n : ℕ) → n ≤ fuel → every is_digit (decimal fuel n) ≡ true
unfolding decimal
decimal-digits zero n h = digit n (omega arith)
decimal-digits (suc fuel) n h =
    go (ltb n 10) refl λ k. decimal-digits fuel (n / 10) (smaller fuel n h k)
  where
    go :
        (b : Bool)
        → ltb n 10 ≡ b
        → (ltb n 10 ≡ false → every is_digit (decimal fuel (n / 10)) ≡ true)
        → every is_digit
            (if b then (b'0' + n) ∷ [] else decimal fuel (n / 10) ++ (b'0' + n % 10) ∷ [])
          ≡ true
    go true k f = digit n (ground (arith, k))
    go false k f =
        every-append is_digit (decimal fuel (n / 10)) ((b'0' + n % 10) ∷ []) (f k)
          (digit (n % 10) (omega arith))

decimal-is_empty : (fuel n : ℕ) → is_empty (decimal fuel n) ≡ false
unfolding decimal
decimal-is_empty zero n = refl
decimal-is_empty (suc fuel) n = go (ltb n 10)
  where
    append-is_empty : (t : Text) (c : ℕ) → is_empty (t ++ c ∷ []) ≡ false
    append-is_empty [] c = refl
    append-is_empty (d ∷ t) c = refl

    go :
        (b : Bool)
        → is_empty (if b then (b'0' + n) ∷ [] else decimal fuel (n / 10) ++ (b'0' + n % 10) ∷ [])
          ≡ false
    go true = refl
    go false = append-is_empty (decimal fuel (n / 10)) (b'0' + n % 10)

-- What `digits` reads back.
abbrev pub InRange : ℤ → Type 0
InRange (pos n) = n ≤ max_i64
InRange (negsuc n) = ⊥

in_range : (n : ℕ) → n ≤ max_i64 → leb n max_i64 ≡ true
in_range n h = ground arith

pub digits-print : (n : ℤ) → InRange n → digits (print_ℤ n) ≡ some n
unfolding digits
digits-print (negsuc n) h = absurd h
digits-print (pos n) h =
    rw
      (
        decimal-is_empty n n,
        decimal-digits n n (omega arith),
        value-decimal n n (omega arith),
        in_range n h,
      )
      refl

pub digits-InRange : (t : Text) (n : ℤ) → digits t ≡ some n → InRange n
unfolding digits
digits-InRange t n h = go (is_empty t || not (every is_digit t)) (leb (value 0 t) max_i64) refl h
  where
    go :
        (b c : Bool)
        → leb (value 0 t) max_i64 ≡ c
        → (if b then none else if c then some (pos (value 0 t)) else none) ≡ some n
        → InRange n
    go true c e h = absurd (grind (arith, h))
    go false false e h = absurd (grind (arith, h))
    go false true e h = subst InRange (some-injective (pos (value 0 t)) n h) (ground (arith, e))

-- Where the test refuses the dash, texts that pass it have none.
pub every-IsPlain :
    (p : ℕ → Bool)
    → ((c : ℕ) → p c ≡ true → (c == b'-') ≡ false)
    → (t : Text) → every p t ≡ true
    → IsPlain b'-' t
every-IsPlain p no_dash [] h = tt
every-IsPlain p no_dash (c ∷ t) h = go (p c) refl h λ h. every-IsPlain p no_dash t h
  where
    go :
        (b : Bool)
        → p c ≡ b
        → (b && every p t) ≡ true
        → (every p t ≡ true → IsPlain b'-' t)
        → IsPlain b'-' (c ∷ t)
    go true k h f = (no_dash c k, f h)
    go false k h f = absurd (grind (arith, h))

digit-no_dash : (c : ℕ) → is_digit c ≡ true → (c == b'-') ≡ false
digit-no_dash c h = ground arith

pub hex-no_dash : (c : ℕ) → is_hex c ≡ true → (c == b'-') ≡ false
hex-no_dash c h = ground arith

pub print-IsPlain : (n : ℤ) → InRange n → IsPlain b'-' (print_ℤ n)
print-IsPlain (pos n) h =
    every-IsPlain is_digit digit-no_dash (print_ℕ n) (decimal-digits n n (omega arith))
print-IsPlain (negsuc n) h = absurd h
