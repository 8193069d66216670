-- ===== src/Base/Words.antt =====
-- Reading a value from its word, one word after another.
use Prim.Native.String.{String}
use text.Mathlib.Text.{◌==◌ as str_eq}
use text.Mathlib.TextEquality.{eq_iff}
use mathlib.Core.Path.{◌≡◌, refl, ◌∙◌, subst}
use mathlib.Core.Bool.{Bool, true, false}
use package.episcience.Base.Tests.{if◌then◌else◌}
use package.episcience.Base.Results.{Result, ok, Yields}

module _ {A : Type 0} (as_str : A → String) (s : String) where
  -- The value that is read, if any, is written as the word.
  abbrev pub ReadAs : Result Unit A → Type 0
  ReadAs r = Yields (λ v. s ≡ as_str v) r

  pub next_word :
      (w : String) (c : A) (rest : Result Unit A)
      → w ≡ as_str c
      → ReadAs rest
      → ReadAs (if str_eq s w then ok c else rest)
  next_word w c rest e h = go (str_eq s w) refl
    where
      go : (b : Bool) → str_eq s w ≡ b → ReadAs (if b then ok c else rest)
      go true k = (eq_iff s w).0 k ∙ e
      go false k = h

  pub read-word : (r : Result Unit A) (v : A) → ReadAs r → r ≡ ok v → s ≡ as_str v
  read-word r v h e = subst ReadAs e h
