-- ===== src/Sample/Lifecycle.antt =====
-- The lifecycle of a sample, crates/episcience-core/src/sample.rs.
use Prim.Native.String.{String}
use episcience.Base.{◌≡◌, refl, ap, ◌∙◌, true, ℕ, suc, ◌+◌, ◌≤◌, arith, ◌↔◌}
use episcience.Base.Words.{ReadAs, next_word, read-word}
use episcience.Base.Results.{ok}
use package.episcience.Sample.{
  SampleStatus, prepared, in_use, consumed, disposed, archived, as_str, from_str, can_transition_to,
}

-- A word is read as a status exactly if it is the one the status is written as.
pub sample_status-from_str_iff :
    (s : String) (v : SampleStatus) → (from_str s ≡ ok v) ↔ (s ≡ as_str v)
unfolding from_str as_str
sample_status-from_str_iff s v =
    (read-word as_str s (from_str s) v read, λ h. ap from_str h ∙ back v)
  where
    read : ReadAs as_str s (from_str s)
    read = next_word as_str s "prepared" prepared _ refl (
        next_word as_str s "in_use" in_use _ refl (
          next_word as_str s "consumed" consumed _ refl (
            next_word as_str s "disposed" disposed _ refl
              (next_word as_str s "archived" archived _ refl (tt)))))

    back : (v : SampleStatus) → from_str (as_str v) ≡ ok v
    back prepared = refl
    back in_use = refl
    back consumed = refl
    back disposed = refl
    back archived = refl

-- A chain of changes of status, each of which the transition table allows.
pub data History : SampleStatus → SampleStatus → ℕ → Type 0 where
  stays : {s : SampleStatus} → History s s 0
  moves :
      {s t u : SampleStatus} {n : ℕ}
      → can_transition_to s t ≡ true
      → History t u n
      → History s u (suc n)

abbrev stage : SampleStatus → ℕ
stage prepared = 0
stage in_use = 1
stage consumed = 2
stage disposed = 2
stage archived = 3

forward : (s t : SampleStatus) → can_transition_to s t ≡ true → stage s + 1 ≤ stage t
unfolding can_transition_to
forward prepared prepared h = absurd (grind (arith, h))
forward prepared in_use h = omega arith
forward prepared consumed h = absurd (grind (arith, h))
forward prepared disposed h = omega arith
forward prepared archived h = omega arith
forward in_use prepared h = absurd (grind (arith, h))
forward in_use in_use h = absurd (grind (arith, h))
forward in_use consumed h = omega arith
forward in_use disposed h = omega arith
forward in_use archived h = omega arith
forward consumed prepared h = absurd (grind (arith, h))
forward consumed in_use h = absurd (grind (arith, h))
forward consumed consumed h = absurd (grind (arith, h))
forward consumed disposed h = absurd (grind (arith, h))
forward consumed archived h = omega arith
forward disposed prepared h = absurd (grind (arith, h))
forward disposed in_use h = absurd (grind (arith, h))
forward disposed consumed h = absurd (grind (arith, h))
forward disposed disposed h = absurd (grind (arith, h))
forward disposed archived h = omega arith
forward archived t h = absurd (grind (arith, h))

stage-bound : (s : SampleStatus) → stage s ≤ 3
stage-bound prepared = omega arith
stage-bound in_use = omega arith
stage-bound consumed = omega arith
stage-bound disposed = omega arith
stage-bound archived = omega arith

climbs : {s t : SampleStatus} {n : ℕ} → History s t n → n + stage s ≤ stage t
climbs stays = omega arith
climbs (moves {s} {t} c h) = omega (arith, forward s t c, climbs h)

-- A chain of changes of status, each of which the transition table allows, has at most three changes; it never comes
-- back to a status it had left; and from archived no change is allowed.
pub History-ends :
    (s t : SampleStatus) (n : ℕ)
    → History s t n
    → (n ≤ 3) × (s ≡ t → n ≡ 0) × (s ≡ archived → n ≡ 0)
History-ends s t n h = (
  omega (arith, climbs h, stage-bound t),
  (λ e. omega (arith, climbs h, ap stage e)),
  (λ e. omega (arith, climbs h, ap stage e, stage-bound t)),
)
