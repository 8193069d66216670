-- ===== src/Client/Envelopes.antt =====
-- Which texts of the command are read as an answer.
use episcience.Base.{
  ◌≡◌, refl, ◌≤◌, inl, Bool, true, false, not, ◌||◌, Option, none, some, List, if◌then◌else◌, ltb,
  length, arith,
}
use episcience.Base.Results.{Result, ok, err, Yields, Yields-map, bind_some}
use episcience.Base.Texts.{Text, text_eq, text_eq-exact, split}
use package.episcience.Client.{
  Value, LlmError, Libraries, chars, get, contains_text, leaked_tool_call_markup, usage_models,
  fallback_models, last_envelope, container, read_result, is_error, subtype, read_envelope,
  parse_envelope,
}
use package.episcience.Client.Spans.{OnSome}
use package.episcience.Client.Models.{HasOneModel, usage_models-HasOneModel}
use package.episcience.Client.Scans.{leaked-HasNoTag, IsLastObject, last_some-IsLastObject}
use package.episcience.Client.Readings.{container-IsContainer, IsAnswerOf, read_result-IsAnswerOf}

module _ (lib : Libraries) where
  abbrev pub IsAccepted : Value → Value → Type 0
  IsAccepted envelope v =
      (is_error lib envelope ≡ false)
      × (subtype lib envelope ≡ chars "success")
      × HasOneModel lib (get envelope "modelUsage")
      × IsAnswerOf lib envelope v

  one_model :
      (envelope : Value)
      → fallback_models lib envelope ≡ none
      → OnSome (λ (models : List Text). length models ≤ 1) (usage_models lib envelope)
  unfolding fallback_models
  one_model envelope = go (usage_models lib envelope)
    where
      few :
          (models : List Text) (b : Bool)
          → ltb 1 (length models) ≡ b
          → (if b then some models else none) ≡ none
          → length models ≤ 1
      few models true e h = absurd (grind (arith, h))
      few models false e h = ground (arith, e)

      go :
          (o : Option (List Text))
          → bind_some o (λ models. if ltb 1 (length models) then some models else none) ≡ none
          → OnSome (λ (models : List Text). length models ≤ 1) o
      go none h = tt
      go (some models) h = few models (ltb 1 (length models)) refl h

  read_envelope-IsAccepted :
      (envelope : Value) → Yields (IsAccepted envelope) (read_envelope lib envelope)
  unfolding read_envelope
  read_envelope-IsAccepted envelope =
      go (is_error lib envelope) (text_eq (subtype lib envelope) (chars "success")) refl refl
    where
      output : Option Value
      output = container lib (get envelope "structured_output")

      leaked :
          (v : Value)
          → output ≡ some v
          → (b : Bool) → leaked_tool_call_markup lib v ≡ b
          → Yields
              (IsAnswerOf lib envelope)
              (if◌then◌else◌ {A = Result LlmError Value} b (err LlmError.malformed_response) (ok v))
      leaked v e true l = tt
      leaked v e false l =
          let c = container-IsContainer lib (get envelope "structured_output") v e in
          inl (c.0, c.1, leaked-HasNoTag lib v l)

      structured :
          (o : Option Value)
          → output ≡ o
          → Yields (IsAnswerOf lib envelope) (elim o as (λ o. Result LlmError Value) [
            | some v ↦
                if leaked_tool_call_markup lib v then err LlmError.malformed_response else ok v
            | none ↦ read_result lib envelope
          ])
      structured none e = read_result-IsAnswerOf lib envelope e
      structured (some v) e = leaked v e (leaked_tool_call_markup lib v) refl

      rest : Result LlmError Value
      rest = elim output [
        | some v ↦ if leaked_tool_call_markup lib v then err LlmError.malformed_response else ok v
        | none ↦ read_result lib envelope
      ]

      single :
          is_error lib envelope ≡ false
          → text_eq (subtype lib envelope) (chars "success") ≡ true
          → (o : Option (List Text)) → fallback_models lib envelope ≡ o
          → Yields (IsAccepted envelope) (elim o as (λ o. Result LlmError Value) [
            | some models ↦ err LlmError.classifier_stop
            | none ↦ rest
          ])
      single e s (some models) f = tt
      single e s none f =
          Yields-map (IsAnswerOf lib envelope) (IsAccepted envelope) rest (structured output refl)
            λ v a. (
              e,
              text_eq-exact (subtype lib envelope) (chars "success") s,
              usage_models-HasOneModel lib envelope (one_model envelope f),
              a,
            )

      refusal :
          (b : Bool)
          → Yields (IsAccepted envelope) (
              if◌then◌else◌ {A = Result LlmError Value} b
                (err LlmError.rate_limited)
                (err LlmError.request_failed))
      refusal true = tt
      refusal false = tt

      go :
          (a b : Bool)
          → is_error lib envelope ≡ a
          → text_eq (subtype lib envelope) (chars "success") ≡ b
          → Yields (IsAccepted envelope) (
              if◌then◌else◌ {A = Result LlmError Value}
                (a || not b)
                (if contains_text (subtype lib envelope) (chars "limit")
                    || contains_text (subtype lib envelope) (chars "rate")
                  then err LlmError.rate_limited
                  else err LlmError.request_failed)
                (elim (fallback_models lib envelope) [
                  | some models ↦ err LlmError.classifier_stop
                  | none ↦ rest
                ]))
      go true b ha hb = refusal _
      go false false ha hb = refusal _
      go false true ha hb = single ha hb (fallback_models lib envelope) refl

  -- For any JSON parser, test for tool-call tags and lowercase: a value that is read as the answer comes from the last
  -- line that, trimmed, starts with a brace and is parsed. That envelope is no error and reports success, and the keys of
  -- its model usage, up to a bracket and trimmed, are all the same. The value is the envelope's structured output, an
  -- object or array no string of which has a tool-call tag; or the envelope has no object or array as its output, and the
  -- value is parsed from the whole trimmed result, or from a piece of it, and then neither the text before the piece nor
  -- the text after it has, in lowercase, "safety classifier" or "safety filter". What is parsed is JSON as it stands, or
  -- else is an object or array once repaired.
  pub parse_envelope-IsAccepted :
      (stdout : Text)
      → Yields
          (λ v.
            (envelope : Value) × (IsLastObject lib (split b'\n' stdout) envelope
              × IsAccepted envelope v))
          (parse_envelope lib stdout)
  unfolding parse_envelope last_envelope
  parse_envelope-IsAccepted stdout = go (last_envelope lib stdout) refl
    where
      Goal : Value → Type 0
      Goal v =
          (envelope : Value) × (IsLastObject lib (split b'\n' stdout) envelope
            × IsAccepted envelope v)

      go :
          (o : Option Value)
          → last_envelope lib stdout ≡ o
          → Yields Goal (elim o as (λ o. Result LlmError Value) [
            | none ↦ err LlmError.malformed_response
            | some envelope ↦ read_envelope lib envelope
          ])
      go none e = tt
      go (some envelope) e =
          Yields-map (IsAccepted envelope) Goal (read_envelope lib envelope)
            (read_envelope-IsAccepted envelope)
            λ v a. (envelope, (last_some-IsLastObject lib (split b'\n' stdout) envelope e, a))
