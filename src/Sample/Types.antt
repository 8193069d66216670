-- ===== src/Sample/Types.antt =====
-- crates/episcience-core/src/sample.rs, `SampleType`.
use Prim.Native.String.{String}
use text.Mathlib.Text.{◌==◌ as str_eq}
use episcience.Base.{◌≡◌, refl, ◌∙◌, ap, if◌then◌else◌, ◌↔◌}
use episcience.Base.Words.{ReadAs, next_word, read-word}
use episcience.Base.Results.{Result, ok, err}

pub data SampleType : Type 0 where
  biological chemical material composite workflow_run : SampleType

unfoldable pub as_str : SampleType → String
as_str biological = "biological"
as_str chemical = "chemical"
as_str material = "material"
as_str composite = "composite"
as_str workflow_run = "workflow_run"

-- The error's text is left out.
unfoldable pub from_str : String → Result Unit SampleType
from_str s =
    if str_eq s "biological"
    then ok biological
    else if str_eq s "chemical"
    then ok chemical
    else if str_eq s "material"
    then ok material
    else if str_eq s "composite"
    then ok composite
    else if str_eq s "workflow_run"
    then ok workflow_run
    else err tt

-- A word is read as a value exactly if it is the one the value is written as.
pub sample_type-from_str_iff : (s : String) (v : SampleType) → (from_str s ≡ ok v) ↔ (s ≡ as_str v)
unfolding from_str as_str
sample_type-from_str_iff s v = (read-word as_str s (from_str s) v read, λ h. ap from_str h ∙ back v)
  where
    read : ReadAs as_str s (from_str s)
    read = next_word as_str s "biological" biological _ refl (
        next_word as_str s "chemical" chemical _ refl (
          next_word as_str s "material" material _ refl (
            next_word as_str s "composite" composite _ refl
              (next_word as_str s "workflow_run" workflow_run _ refl (tt)))))

    back : (v : SampleType) → from_str (as_str v) ≡ ok v
    back biological = refl
    back chemical = refl
    back material = refl
    back composite = refl
    back workflow_run = refl
