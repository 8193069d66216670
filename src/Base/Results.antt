-- ===== src/Base/Results.antt =====
-- `Result<T, E>` with `?` as bind.
use mathlib.Core.Option.{Option, none, some}
use mathlib.Core.Path.{◌≡◌, refl, ap, ◌∙◌}
use mathlib.Core.Logic.{◌↔◌}
use native.Mathlib.Omega.{arith}

pub data Result {ℓ} (E A : Type ℓ) : Type ℓ where
  ok : A → Result E A
  err : E → Result E A

infixl 5 ◌>>=◌ ◌>>◌
abbrev pub ◌>>=◌ {ℓ} : {E A B : Type ℓ} → Result E A → (A → Result E B) → Result E B
ok a >>= f = f a
err e >>= f = err e

abbrev pub ◌>>◌ {ℓ} : {E A B : Type ℓ} → Result E A → Result E B → Result E B
m >> k = m >>= λ _. k

-- `ok_or`
abbrev pub ok_or {ℓ} : {E A : Type ℓ} → Option A → E → Result E A
ok_or none e = err e
ok_or (some a) e = ok a

-- `map_err`
abbrev pub map_err {ℓ} : {D E A : Type ℓ} → (D → E) → Result D A → Result E A
map_err f (ok a) = ok a
map_err f (err d) = err (f d)

-- A result that, if it is a value, has the property.
abbrev pub Yields {ℓ κ} : {E A : Type ℓ} → (A → Type κ) → Result E A → Type κ
Yields P (ok a) = P a
Yields P (err e) = Unit

pub Yields-bind {ℓ κ μ} :
    {E A B : Type ℓ} (P : A → Type κ) (Q : B → Type μ) (m : Result E A) (f : A → Result E B)
    → Yields P m
    → ((a : A) → P a → Yields Q (f a))
    → Yields Q (m >>= f)
Yields-bind P Q (ok a) f h k = k a h
Yields-bind P Q (err e) f h k = tt

-- A check whose value the rest does not depend on.
pub Yields-after {ℓ μ} :
    {E A B : Type ℓ} (Q : B → Type μ) (m : Result E A) (f : A → Result E B)
    → ((a : A) → Yields Q (f a))
    → Yields Q (m >>= f)
Yields-after Q (ok a) f k = k a
Yields-after Q (err e) f k = tt

pub Yields-map {ℓ κ μ} :
    {E A : Type ℓ} (P : A → Type κ) (Q : A → Type μ) (m : Result E A)
    → Yields P m
    → ((a : A) → P a → Q a)
    → Yields Q m
Yields-map P Q (ok a) h k = k a h
Yields-map P Q (err e) h k = tt

-- A check, and what follows it.
pub >>-iff : {E : Type 0} (m k : Result E Unit) → ((m >> k) ≡ ok tt) ↔ ((m ≡ ok tt) × (k ≡ ok tt))
>>-iff (ok u) k = (λ h. (refl, h), λ h. h.1)
>>-iff (err e) k = (λ h. absurd (grind (arith, h)), λ h. absurd (grind (arith, h.0)))

-- Two checks, each by what it checks.
pub >>-both {κ} :
    {E : Type 0} {P Q : Type κ} (m k : Result E Unit)
    → ((m ≡ ok tt) ↔ P)
    → ((k ≡ ok tt) ↔ Q)
    → ((m >> k) ≡ ok tt) ↔ (P × Q)
>>-both m k p q =
    (λ h. let r = (>>-iff m k).0 h in (p.0 r.0, q.0 r.1), λ h. (>>-iff m k).1 (p.1 h.0, q.1 h.1))

-- `?` on an `Option`.
abbrev pub bind_some : {A B : Type 0} → Option A → (A → Option B) → Option B
bind_some none f = none
bind_some (some a) f = f a

pub bind_some_iff :
    {A B : Type 0} (m : Option A) (f : A → Option B) (b : B)
    → (bind_some m f ≡ some b) ↔ ((a : A) × ((m ≡ some a) × (f a ≡ some b)))
bind_some_iff none f b = (λ h. absurd (grind (arith, h)), λ h. absurd (grind (arith, h.1.0)))
bind_some_iff (some a) f b = (λ h. (a, (refl, h)), λ h. ap (λ o. bind_some o f) h.1.0 ∙ h.1.1)
