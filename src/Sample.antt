-- ===== src/Sample.antt =====
-- crates/episcience-core/src/sample.rs: the kinds and states of a sample.
pub mod Types
pub mod Lifecycle
use Prim.Native.String.{String}
use text.Mathlib.Text.{◌==◌ as str_eq}
use episcience.Base.{
  ◌≡◌, refl, sym, ◌∙◌, ap, Bool, true, false, not, ◌&&◌, ◌||◌, Option, none, some, List, [], ◌∷◌, ℕ,
  zero, suc, ◌+◌, ◌≤◌, ◌<◌, if◌then◌else◌, arith, ◌↔◌, ◌⊎◌, inl, inr,
}
use episcience.Base.Results.{Result, ok, err, Yields}

pub data SampleStatus : Type 0 where
  prepared in_use consumed disposed archived : SampleStatus

unfoldable pub as_str : SampleStatus → String
as_str prepared = "prepared"
as_str in_use = "in_use"
as_str consumed = "consumed"
as_str disposed = "disposed"
as_str archived = "archived"

-- The error's text is left out.
unfoldable pub from_str : String → Result Unit SampleStatus
from_str s =
    if str_eq s "prepared"
    then ok prepared
    else if str_eq s "in_use"
    then ok in_use
    else if str_eq s "consumed"
    then ok consumed
    else if str_eq s "disposed"
    then ok disposed
    else if str_eq s "archived"
    then ok archived
    else err tt

unfoldable pub can_transition_to : SampleStatus → SampleStatus → Bool
can_transition_to prepared in_use = true
can_transition_to prepared disposed = true
can_transition_to prepared archived = true
can_transition_to in_use consumed = true
can_transition_to in_use disposed = true
can_transition_to in_use archived = true
can_transition_to consumed archived = true
can_transition_to disposed archived = true
can_transition_to prepared prepared = false
can_transition_to prepared consumed = false
can_transition_to in_use prepared = false
can_transition_to in_use in_use = false
can_transition_to consumed prepared = false
can_transition_to consumed in_use = false
can_transition_to consumed consumed = false
can_transition_to consumed disposed = false
can_transition_to disposed prepared = false
can_transition_to disposed in_use = false
can_transition_to disposed consumed = false
can_transition_to disposed disposed = false
can_transition_to archived s = false
