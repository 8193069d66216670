-- ===== src/Pipeline.antt =====
-- crates/episcience-db/src/synthesis/pipeline.rs: the stages that call the model. The model's answers are a parameter,
-- by the number of the call; prompts are left out, and so are the texts of errors. What a prompt or a log line needs
-- besides (embeddings, metadata) is not state here. A text is its characters.
pub mod Calls
pub mod Narration
pub mod Composition
pub mod Seeding
use episcience.Base.{ℕ, zero, suc, ◌+◌, Bool, true, false, List, [], ◌∷◌, Uuid, if◌then◌else◌, leb}
use episcience.Base.Results.{Result, ok, err}
pub use episcience.Base.Texts.{Text}
use Prim.Native.String.{String}
use episcience.Base.{Option, none, some}

-- crates/episcience-core/src/synthesis/errors.rs
pub data SynthesisError : Type 0 where
  empty_result : SynthesisError
  subgraph_too_large : SynthesisError
  hallucinated_claim_id : Uuid → SynthesisError
  uncited_member : Uuid → SynthesisError
  abbreviated_citation : Text → Uuid → SynthesisError
  compose_anchor_violation : Uuid → SynthesisError
  cost_budget_exceeded : ℕ → SynthesisError
  llm : SynthesisError
  edge_write : SynthesisError
  db : SynthesisError
  validation : SynthesisError

-- The client's error: an answer that is no JSON, or any other.
pub data LlmError : Type 0 where
  malformed_response other_failure : LlmError

-- What one answer means to the loop.
pub data Verdict (V : Type 0) : Type 0 where
  accepted : V → Verdict V
  rejected : SynthesisError → Verdict V
  stopped : SynthesisError → Verdict V

abbrev pub verdict_of : {V : Type 0} → V → Result SynthesisError Unit → Verdict V
verdict_of response (ok u) = accepted response
verdict_of response (err e) = rejected e

unfoldable pub judge :
    {V : Type 0} → (V → Result SynthesisError Unit) → Result LlmError V → Verdict V
judge validator (ok response) = verdict_of response (validator response)
judge validator (err malformed_response) = rejected llm
judge validator (err other_failure) = stopped llm

-- The result of the last attempt.
unfoldable pub last_result : {V : Type 0} → Verdict V → Result SynthesisError V
last_result (accepted v) = ok v
last_result (rejected e) = err e
last_result (stopped e) = err e

module _ {V : Type 0} (complete : ℕ → Result LlmError V) (cost_budget : ℕ) where
  -- With the attempts left after this one and the calls made before it; the result and the calls made. The error
  -- `exited loop without result` behind the loop is never reached.
  unfoldable pub call_llm_with_schema_retry :
      (V → Result SynthesisError Unit) → ℕ → ℕ → Result SynthesisError V × ℕ
  unfolding judge last_result
  call_llm_with_schema_retry validator zero llm_call_count =
      if leb cost_budget llm_call_count
      then (err (cost_budget_exceeded cost_budget), llm_call_count)
      else (last_result (judge validator (complete llm_call_count)), suc llm_call_count)
  call_llm_with_schema_retry validator (suc left) llm_call_count =
      let next = call_llm_with_schema_retry validator left (suc llm_call_count) in
      if leb cost_budget llm_call_count
      then (err (cost_budget_exceeded cost_budget), llm_call_count)
      else elim (judge validator (complete llm_call_count)) [
        | rejected e ↦ next
        | v ↦ (last_result v, suc llm_call_count)
      ]

-- A step that may call the model: its result and the calls made.
abbrev pub Metered : Type 0 → Type 0
Metered A = Result SynthesisError A × ℕ

abbrev pub and_then : {A B : Type 0} → Metered A → (A → ℕ → Metered B) → Metered B
and_then (ok a, n) f = f a n
and_then (err e, n) f = (err e, n)

-- `synthesis::Cluster`
pub record Cluster : Type 0 where
  pub id : Uuid
  pub synthesis_id : Uuid
  pub cluster_index : ℕ
  pub title : Text
  pub summary : Text
  pub member_claim_ids : List Uuid
  pub support_count : ℕ
  pub contradict_count : ℕ

-- What the stages take from other libraries: a JSON object's field as text, `str::trim`, an identifier in print, and
-- the two regular expressions, with the first one's matches parsed.
pub record Texts (V : Type 0) : Type 0 where
  pub as_str : V → String → Option Text
  pub is_blank : Text → Bool
  pub print : Uuid → Text
  pub full_citations : Text → List (Option Uuid)
  pub short_citations : Text → List Text

abbrev pub or_empty : Option Text → Text
or_empty none = []
or_empty (some t) = t
