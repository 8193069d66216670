-- ===== src/Client.antt =====
-- crates/episcience-api/src/clients/claude_cli.rs: the client of the language model, of which `parse_envelope` reads what
-- the command printed. Serde's parsing, the regular expression of closing tool-call tags, `to_lowercase` and the test for
-- white space are arguments; of an error's text only the cause is kept.
pub mod Repair
pub mod Pieces
pub mod Spans
pub mod Models
pub mod Scans
pub mod Readings
pub mod Envelopes
use Prim.Native.String.{String}
use Prim.Native.Char.{code}
use text.Mathlib.Text.{◌==◌ as str_eq}
use episcience.Base.{
  ℕ, Bool, true, false, not, ◌||◌, Option, none, some, List, [], ◌∷◌, map, any, ◌==◌, if◌then◌else◌,
  ltb, length,
}
use episcience.Base.Results.{Result, ok, err, ◌>>=◌, bind_some}
use episcience.Base.Sort.{sort_by}
use episcience.Base.Texts.{Text, text_eq, text_le, has_text, split}
use package.episcience.Client.Repair.{repair_json}
use package.episcience.Client.Pieces.{Piece, trim, find, extract_json_from_text, bracket_spans}

-- A JSON value, with the values of an array and the fields of an object in their order.
mutual
  pub data Value : Type 0 where
    null : Value
    bool : Bool → Value
    number : Text → Value
    string : Text → Value
    array : Values → Value
    object : Fields → Value

  pub data Values : Type 0 where
    no_values : Values
    and_value : Value → Values → Values

  pub data Fields : Type 0 where
    no_fields : Fields
    and_field : Text → Value → Fields → Fields

-- The causes that callers tell apart.
pub data LlmError : Type 0 where
  malformed_response rate_limited request_failed classifier_stop : LlmError

-- A literal's characters.
abbrev pub chars : String → Text
chars String.[] = []
chars (String.◌∷◌ c s) = code c ∷ chars s

abbrev pub find_field : Text → Fields → Option Value
find_field key no_fields = none
find_field key (and_field k v fields) = if text_eq k key then some v else find_field key fields

-- `get` with a key
abbrev pub get : Value → String → Option Value
get (object fields) key = find_field (chars key) fields
get v key = none

abbrev pub as_str : Value → Option Text
as_str (string s) = some s
as_str v = none

abbrev pub as_bool : Value → Option Bool
as_bool (bool b) = some b
as_bool v = none

abbrev pub keys : Fields → List Text
keys no_fields = []
keys (and_field k v fields) = k ∷ keys fields

abbrev pub as_keys : Value → Option (List Text)
as_keys (object fields) = some (keys fields)
as_keys v = none

-- `Value::Object(_) | Value::Array(_)`
abbrev pub is_container : Value → Bool
is_container (object f) = true
is_container (array vs) = true
is_container v = false

abbrev pub or_else {ℓ} : {A : Type ℓ} → Option A → A → A
or_else none d = d
or_else (some a) d = a

abbrev pub is_some : {A : Type 0} → Option A → Bool
is_some none = false
is_some (some a) = true

-- `str::contains`
abbrev pub contains_text : Text → Text → Bool
contains_text t token = is_some (find token t)

-- `dedup` of a sorted vector
abbrev pub dedup : List Text → List Text
dedup [] = []
dedup (t ∷ ts) = let rest = dedup ts in if next_is t ts then rest else t ∷ rest
  where
    next_is : Text → List Text → Bool
    next_is t [] = false
    next_is t (s ∷ ts) = text_eq t s

-- What comes from other libraries: serde's parse of a text, the regular expression's test, lowercase and white space.
pub record Libraries : Type 0 where
  pub from_str : Text → Option Value
  pub is_closer : Text → Bool
  pub to_lowercase : Text → Text
  pub is_whitespace : ℕ → Bool

module _ (lib : Libraries) where
  abbrev pub trimmed : Text → Text
  trimmed t = (trim lib.is_whitespace (record { before = []; part = t; after = [] })).part

  -- `leaked_tool_call_markup`, without the path: whether some string has a closing tag.
  abbrev mutual
    pub leaked_tool_call_markup : Value → Bool
    leaked_tool_call_markup (string s) = lib.is_closer s
    leaked_tool_call_markup (array values) = leaked_in_values values
    leaked_tool_call_markup (object fields) = leaked_in_fields fields
    leaked_tool_call_markup v = false

    pub leaked_in_values : Values → Bool
    leaked_in_values no_values = false
    leaked_in_values (and_value v values) = leaked_tool_call_markup v || leaked_in_values values

    pub leaked_in_fields : Fields → Bool
    leaked_in_fields no_fields = false
    leaked_in_fields (and_field k v fields) = leaked_tool_call_markup v || leaked_in_fields fields

  -- The model's identifier up to a bracket.
  abbrev pub head_or : List Text → Text → Text
  head_or [] t = t
  head_or (s ∷ ts) t = s

  unfoldable pub usage_models : Value → Option (List Text)
  unfolding split
  usage_models envelope =
      bind_some (bind_some (get envelope "modelUsage") as_keys)
        λ ks. some (dedup (sort_by text_le (map (λ k. trimmed (head_or (split b'[' k) k)) ks)))

  unfoldable pub fallback_models : Value → Option (List Text)
  unfolding usage_models
  fallback_models envelope =
      bind_some (usage_models envelope)
        λ models. if ltb 1 (length models) then some models else none

  -- The last line that has the value.
  abbrev pub last_some : {A : Type 0} → (Text → Option A) → List Text → Option A
  last_some f [] = none
  last_some f (t ∷ ts) = elim (last_some f ts) [ some a ↦ some a | none ↦ f t ]

  abbrev pub object_line : Text → Option Value
  object_line [] = none
  object_line (c ∷ t) = if c == b'{' then lib.from_str (c ∷ t) else none

  unfoldable pub last_envelope : Text → Option Value
  unfolding split
  last_envelope stdout = last_some (λ line. object_line (trimmed line)) (split b'\n' stdout)

  unfoldable pub mentions_safety_classifier : Text → Bool
  mentions_safety_classifier t =
      let lower = lib.to_lowercase t in
      contains_text lower (chars "safety classifier") || contains_text lower (chars "safety filter")

  abbrev pub container : Option Value → Option Value
  container none = none
  container (some v) = if is_container v then some v else none

  unfoldable pub parse_candidate : Text → Option Value
  unfolding repair_json
  parse_candidate candidate = elim (lib.from_str candidate) [
    | some v ↦ some v
    | none ↦ container (lib.from_str (repair_json candidate))
  ]

  -- The parts around prose, but those that were tried.
  unfoldable pub try_parts : Text → List Text → List Piece → Result LlmError Value
  try_parts text tried [] =
      if mentions_safety_classifier text then err classifier_stop else err malformed_response
  try_parts text tried (p ∷ ps) =
      let seen = has_text tried p.part in
      let rest = try_parts text (if seen then tried else p.part ∷ tried) ps in
      if seen then rest else elim (parse_candidate p.part) [
        | some v ↦
            if mentions_safety_classifier p.before || mentions_safety_classifier p.after
            then err classifier_stop
            else ok v
        | none ↦ rest
      ]

  unfoldable pub parse_result : Text → Result LlmError Value
  unfolding extract_json_from_text bracket_spans
  parse_result text = elim (parse_candidate text) [
    | some v ↦ ok v
    | none ↦
        try_parts text (text ∷ [])
          (extract_json_from_text lib.is_whitespace text ∷ bracket_spans text)
  ]

  -- The answer as text, where there is no structured one.
  abbrev pub read_result : Value → Result LlmError Value
  read_result envelope = elim (bind_some (get envelope "result") as_str) [
    | none ↦ err malformed_response
    | some t ↦ elim (trimmed t) [ [] ↦ err request_failed | (c ∷ u) ↦ parse_result (c ∷ u) ]
  ]

  abbrev pub is_error : Value → Bool
  is_error envelope = or_else (bind_some (get envelope "is_error") as_bool) false

  abbrev pub subtype : Value → Text
  subtype envelope = or_else (bind_some (get envelope "subtype") as_str) []

  unfoldable pub read_envelope : Value → Result LlmError Value
  read_envelope envelope =
      if is_error envelope || not (text_eq (subtype envelope) (chars "success"))
      then (if contains_text (subtype envelope) (chars "limit")
            || contains_text (subtype envelope) (chars "rate")
          then err rate_limited
          else err request_failed)
      else elim (fallback_models envelope) [
        | some models ↦ err classifier_stop
        | none ↦ elim (container (get envelope "structured_output")) [
          | some v ↦ if leaked_tool_call_markup v then err malformed_response else ok v
          | none ↦ read_result envelope
        ]
      ]

  unfoldable pub parse_envelope : Text → Result LlmError Value
  unfolding last_envelope read_envelope
  parse_envelope stdout = elim (last_envelope stdout) [
    | none ↦ err malformed_response
    | some envelope ↦ read_envelope envelope
  ]
