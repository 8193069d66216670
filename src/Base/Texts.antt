-- ===== src/Base/Texts.antt =====
-- Texts as lists of characters: what the program uses of Rust's `str`.
use Prim.Native.Nat.{ℕ}
use mathlib.Core.Path.{◌≡◌, refl, ap, ◌∙◌}
use mathlib.Core.Bool.{Bool, true, false, ◌&&◌, ◌||◌}
use mathlib.Core.Option.{Option, none, some}
use mathlib.Core.List.{List, [], ◌∷◌, ◌++◌}
use native.Mathlib.Omega.{arith}
use package.episcience.Base.Tests.{ltb, ◌==◌, ==_iff, if◌then◌else◌}
use package.episcience.Base.Lists.{All}

abbrev pub Text : Type 0
Text = List ℕ

-- `strip_prefix` and `strip_suffix` by one character.
unfoldable pub strip_prefix : ℕ → Text → Option Text
strip_prefix c [] = none
strip_prefix c (d ∷ t) = if d == c then some t else none

abbrev pub cons_text : ℕ → Option Text → Option Text
cons_text d none = none
cons_text d (some t) = some (d ∷ t)

unfoldable pub strip_suffix : ℕ → Text → Option Text
strip_suffix c [] = none
strip_suffix c (d ∷ []) = if d == c then some [] else none
strip_suffix c (d ∷ e ∷ t) = cons_text d (strip_suffix c (e ∷ t))

abbrev pub cons_head : ℕ → List Text → List Text
cons_head d [] = (d ∷ []) ∷ []
cons_head d (t ∷ ts) = (d ∷ t) ∷ ts

-- `str::split`: the pieces between the separators, of an empty text the empty piece.
unfoldable pub split : ℕ → Text → List Text
split c [] = [] ∷ []
split c (d ∷ t) = let rest = split c t in if d == c then [] ∷ rest else cons_head d rest

-- No character of the text is the separator.
abbrev pub IsPlain : ℕ → Text → Type 0
IsPlain c t = All (λ d. (d == c) ≡ false) t

-- `a,b,c`
abbrev pub joined : ℕ → List Text → Text
joined c [] = []
joined c (t ∷ []) = t
joined c (t ∷ u ∷ ts) = t ++ (c ∷ joined c (u ∷ ts))

same : (c : ℕ) → (c == c) ≡ true
same c = (==_iff c c).1 refl

pub strip_suffix-append : (c : ℕ) (t : Text) → strip_suffix c (t ++ c ∷ []) ≡ some t
unfolding strip_suffix
strip_suffix-append c [] = rw (same c) refl
strip_suffix-append c (d ∷ []) = rw (same c) refl
strip_suffix-append c (d ∷ e ∷ t) = ap (cons_text d) (strip_suffix-append c (e ∷ t))

pub split-piece :
    (c : ℕ) (t rest : Text) → IsPlain c t → split c (t ++ (c ∷ rest)) ≡ t ∷ split c rest
unfolding split
split-piece c [] rest h = rw (same c) refl
split-piece c (d ∷ t) rest h = rw h.0 (ap (cons_head d) (split-piece c t rest h.1))

pub split-last : (c : ℕ) (t : Text) → IsPlain c t → split c t ≡ t ∷ []
unfolding split
split-last c [] h = refl
split-last c (d ∷ t) h = rw h.0 (ap (cons_head d) (split-last c t h.1))

pub split-joined :
    (c : ℕ) (t : Text) (ts : List Text)
    → All (IsPlain c) (t ∷ ts)
    → split c (joined c (t ∷ ts)) ≡ t ∷ ts
split-joined c t [] h = split-last c t h.0
split-joined c t (u ∷ ts) h =
    split-piece c t (joined c (u ∷ ts)) h.0 ∙ ap (λ l. t ∷ l) (split-joined c u ts h.1)

abbrev pub text_eq : Text → Text → Bool
text_eq [] [] = true
text_eq (c ∷ s) (d ∷ t) = (c == d) && text_eq s t
text_eq s t = false

pub text_eq-same : (s : Text) → text_eq s s ≡ true
text_eq-same [] = refl
text_eq-same (c ∷ s) = rw ((==_iff c c).1 refl) (text_eq-same s)

pub text_eq-exact : (s t : Text) → text_eq s t ≡ true → s ≡ t
text_eq-exact [] [] h = refl
text_eq-exact [] (d ∷ t) h = absurd (grind (arith, h))
text_eq-exact (c ∷ s) [] h = absurd (grind (arith, h))
text_eq-exact (c ∷ s) (d ∷ t) h = go (c == d) refl h λ h. text_eq-exact s t h
  where
    go :
        (b : Bool)
        → (c == d) ≡ b
        → (b && text_eq s t) ≡ true
        → (text_eq s t ≡ true → s ≡ t)
        → ◌≡◌ {A = Text} (c ∷ s) (d ∷ t)
    go true k h f = ap (λ e. e ∷ s) ((==_iff c d).0 k) ∙ ap (λ l. d ∷ l) (f h)
    go false k h f = absurd (grind (arith, h))

-- `str`'s order, character by character.
abbrev pub text_le : Text → Text → Bool
text_le [] t = true
text_le (c ∷ s) [] = false
text_le (c ∷ s) (d ∷ t) = ltb c d || ((c == d) && text_le s t)

abbrev pub has_text : List Text → Text → Bool
has_text [] t = false
has_text (s ∷ ts) t = text_eq s t || has_text ts t

-- `str::starts_with`
abbrev pub starts_with : Text → Text → Bool
starts_with text [] = true
starts_with [] (c ∷ token) = false
starts_with (d ∷ text) (c ∷ token) = (d == c) && starts_with text token
