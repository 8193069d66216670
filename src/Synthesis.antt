-- ===== src/Synthesis.antt =====
-- crates/episcience-core/src/synthesis/mod.rs, `SynthesisStatus`.
use Prim.Native.String.{String}
use text.Mathlib.Text.{◌==◌ as str_eq}
use episcience.Base.{◌≡◌, refl, ◌∙◌, ap, if◌then◌else◌, ◌↔◌}
use episcience.Base.Words.{ReadAs, next_word, read-word}
use episcience.Base.Results.{Result, ok, err}

pub data SynthesisStatus : Type 0 where
  pending running verifying complete failed deleted rejected : SynthesisStatus

unfoldable pub as_str : SynthesisStatus → String
as_str pending = "pending"
as_str running = "running"
as_str verifying = "verifying"
as_str complete = "complete"
as_str failed = "failed"
as_str deleted = "deleted"
as_str rejected = "rejected"

-- The error's text is left out.
unfoldable pub from_str : String → Result Unit SynthesisStatus
from_str s =
    if str_eq s "pending"
    then ok pending
    else if str_eq s "running"
    then ok running
    else if str_eq s "verifying"
    then ok verifying
    else if str_eq s "complete"
    then ok complete
    else if str_eq s "failed"
    then ok failed
    else if str_eq s "deleted"
    then ok deleted
    else if str_eq s "rejected"
    then ok rejected
    else err tt

-- A word is read as a value exactly if it is the one the value is written as.
pub status-from_str_iff : (s : String) (v : SynthesisStatus) → (from_str s ≡ ok v) ↔ (s ≡ as_str v)
unfolding from_str as_str
status-from_str_iff s v = (read-word as_str s (from_str s) v read, λ h. ap from_str h ∙ back v)
  where
    read : ReadAs as_str s (from_str s)
    read = next_word as_str s "pending" pending _ refl (
        next_word as_str s "running" running _ refl (
          next_word as_str s "verifying" verifying _ refl (
            next_word as_str s "complete" complete _ refl (
              next_word as_str s "failed" failed _ refl (
                next_word as_str s "deleted" deleted _ refl
                  (next_word as_str s "rejected" rejected _ refl (tt)))))))

    back : (v : SynthesisStatus) → from_str (as_str v) ≡ ok v
    back pending = refl
    back running = refl
    back verifying = refl
    back complete = refl
    back failed = refl
    back deleted = refl
    back rejected = refl
