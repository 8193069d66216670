-- ===== src/Client/Readings.antt =====
-- Which values are read from the result's text.
use mathlib.Core.Option.{some-injective}
use episcience.Base.{
  ◌≡◌, refl, sym, ◌∙◌, ap, subst, ◌⊎◌, inl, inr, Bool, true, false, ◌||◌, Option, none, some, List,
  [], ◌∷◌, if◌then◌else◌, All, arith,
}
use episcience.Base.Results.{Result, ok, err, Yields, Yields-map, bind_some}
use episcience.Base.Texts.{Text, has_text}
use package.episcience.Client.{
  Value, Values, Fields, LlmError, Libraries, get, as_str, trimmed, mentions_safety_classifier,
  container, parse_candidate, try_parts, parse_result, read_result,
}
use package.episcience.Client.Pieces.{Piece, extract_json_from_text, bracket_spans}
use package.episcience.Client.Repair.{repair_json}
use package.episcience.Client.Scans.{HasNoTag, IsSilent, mentions-IsSilent}
use package.episcience.Client.Spans.{IsPieceOf, extract_json_from_text_whole, bracket_spans_whole}

module _ (lib : Libraries) where
  -- The value is an object or an array.
  abbrev pub IsContainer : Value → Type 0
  IsContainer v = ((fs : Fields) × (v ≡ Value.object fs)) ⊎ ((vs : Values) × (v ≡ Value.array vs))

  pub container-IsContainer :
      (o : Option Value) (v : Value) → container lib o ≡ some v → (o ≡ some v) × IsContainer v
  container-IsContainer none v h = absurd (grind (arith, h))
  container-IsContainer (some Value.null) v h = absurd (grind (arith, h))
  container-IsContainer (some (Value.bool b)) v h = absurd (grind (arith, h))
  container-IsContainer (some (Value.number n)) v h = absurd (grind (arith, h))
  container-IsContainer (some (Value.string s)) v h = absurd (grind (arith, h))
  container-IsContainer (some (Value.array vs)) v h =
      (h, inr (vs, sym (some-injective (Value.array vs) v h)))
  container-IsContainer (some (Value.object fs)) v h =
      (h, inl (fs, sym (some-injective (Value.object fs) v h)))

  -- No object or array is there.
  abbrev pub IsNoContainer : Option Value → Type 0
  IsNoContainer o = (v : Value) → IsContainer v → ¬ (o ≡ some v)

  container-IsNoContainer : (o : Option Value) → container lib o ≡ none → IsNoContainer o
  container-IsNoContainer o h v (inl (fs, e)) k =
      absurd (grind (arith, sym h ∙ ap (container lib) (k ∙ ap some e)))
  container-IsNoContainer o h v (inr (vs, e)) k =
      absurd (grind (arith, sym h ∙ ap (container lib) (k ∙ ap some e)))

  -- The text is JSON for the value, or it is none and its repair is JSON for it, an object or array.
  abbrev pub IsParsed : Text → Value → Type 0
  IsParsed text v =
      (lib.from_str text ≡ some v)
      ⊎ ((lib.from_str text ≡ none) × (lib.from_str (repair_json text) ≡ some v) × IsContainer v)

  parse_candidate-IsParsed :
      (text : Text) (v : Value) → parse_candidate lib text ≡ some v → IsParsed text v
  unfolding parse_candidate
  parse_candidate-IsParsed text v = go (lib.from_str text) refl
    where
      go :
          (o : Option Value)
          → lib.from_str text ≡ o
          → elim o as (λ o. Option Value) [
            | some v ↦ some v
            | none ↦ container lib (lib.from_str (repair_json text))
          ]
            ≡ some v
          → IsParsed text v
      go (some w) e h = inl (e ∙ h)
      go none e h =
          let c = container-IsContainer (lib.from_str (repair_json text)) v h in inr (e, c.0, c.1)

  -- The value is the whole text's, or a piece's, and what is around the piece mentions no classifier.
  abbrev pub IsRead : Text → Value → Type 0
  IsRead text v =
      IsParsed text v
      ⊎ ((p : Piece) × (IsPieceOf text p
            × IsParsed p.part v
            × IsSilent lib p.before
            × IsSilent lib p.after))

  -- The value is the structured output, or there is none and it is read from the result.
  abbrev pub IsAnswerOf : Value → Value → Type 0
  IsAnswerOf envelope v =
      ((get envelope "structured_output" ≡ some v) × IsContainer v × HasNoTag lib v)
      ⊎ (IsNoContainer (get envelope "structured_output")
          × ((t : Text) × ((bind_some (get envelope "result") as_str ≡ some t)
                × IsRead (trimmed lib t) v)))

  try_parts-IsRead :
      (text : Text) (tried : List Text) (ps : List Piece)
      → All (IsPieceOf text) ps
      → Yields (IsRead text) (try_parts lib text tried ps)
  unfolding try_parts
  try_parts-IsRead text tried [] h = go (mentions_safety_classifier lib text)
    where
      go :
          (b : Bool)
          → Yields (IsRead text) (
              if◌then◌else◌ {A = Result LlmError Value} b
                (err LlmError.classifier_stop)
                (err LlmError.malformed_response))
      go true = tt
      go false = tt
  try_parts-IsRead text tried (p ∷ ps) h =
      go (has_text tried p.part)
        (try_parts-IsRead text (if has_text tried p.part then tried else p.part ∷ tried) ps h.1)
    where
      rest : Result LlmError Value
      rest = try_parts lib text (if has_text tried p.part then tried else p.part ∷ tried) ps

      around :
          (v : Value)
          → parse_candidate lib p.part ≡ some v
          → (a b : Bool) → mentions_safety_classifier lib p.before ≡ a
          → mentions_safety_classifier lib p.after ≡ b
          → Yields (IsRead text) (
              if◌then◌else◌ {A = Result LlmError Value}
                (a || b)
                (err LlmError.classifier_stop)
                (ok v))
      around v e true b ha hb = tt
      around v e false true ha hb = tt
      around v e false false ha hb = inr (
        p,
        (
          h.0,
          parse_candidate-IsParsed p.part v e,
          mentions-IsSilent lib p.before ha,
          mentions-IsSilent lib p.after hb,
        ),
      )

      parsed :
          (o : Option Value)
          → parse_candidate lib p.part ≡ o
          → Yields (IsRead text) rest
          → Yields (IsRead text) (elim o as (λ o. Result LlmError Value) [
            | some v ↦
                if mentions_safety_classifier lib p.before || mentions_safety_classifier lib p.after
                then err LlmError.classifier_stop
                else ok v
            | none ↦ rest
          ])
      parsed none e y = y
      parsed (some v) e y =
          around v e (mentions_safety_classifier lib p.before)
            (mentions_safety_classifier lib p.after) refl refl

      go :
          (seen : Bool)
          → Yields (IsRead text) rest
          → Yields (IsRead text) (
              if seen then rest else elim (parse_candidate lib p.part) [
                | some v ↦
                    if mentions_safety_classifier lib p.before
                      || mentions_safety_classifier lib p.after
                    then err LlmError.classifier_stop
                    else ok v
                | none ↦ rest
              ])
      go true y = y
      go false y = parsed (parse_candidate lib p.part) refl y

  parse_result-IsRead : (text : Text) → Yields (IsRead text) (parse_result lib text)
  unfolding parse_result
  parse_result-IsRead text = go (parse_candidate lib text) refl
    where
      pieces : List Piece
      pieces = extract_json_from_text lib.is_whitespace text ∷ bracket_spans text

      go :
          (o : Option Value)
          → parse_candidate lib text ≡ o
          → Yields (IsRead text) (elim o as (λ o. Result LlmError Value) [
            | some v ↦ ok v
            | none ↦ try_parts lib text (text ∷ []) pieces
          ])
      go (some v) e = inl (parse_candidate-IsParsed text v e)
      go none e =
          try_parts-IsRead text (text ∷ []) pieces
            (extract_json_from_text_whole lib.is_whitespace text, bracket_spans_whole text)

  pub read_result-IsAnswerOf :
      (envelope : Value)
      → container lib (get envelope "structured_output") ≡ none
      → Yields (IsAnswerOf envelope) (read_result lib envelope)
  read_result-IsAnswerOf envelope h = go (bind_some (get envelope "result") as_str) refl
    where
      filled :
          (t : Text)
          → bind_some (get envelope "result") as_str ≡ some t
          → (u : Text) → trimmed lib t ≡ u
          → Yields (IsAnswerOf envelope) (elim u as (λ u. Result LlmError Value) [
            | [] ↦ err LlmError.request_failed
            | (c ∷ u) ↦ parse_result lib (c ∷ u)
          ])
      filled t e [] k = tt
      filled t e (c ∷ u) k =
          Yields-map (IsRead (c ∷ u)) (IsAnswerOf envelope) (parse_result lib (c ∷ u))
            (parse_result-IsRead (c ∷ u))
            λ v r. inr (
              container-IsNoContainer (get envelope "structured_output") h,
              (t, (e, subst (λ text. IsRead text v) (sym k) r)),
            )

      go :
          (o : Option Text)
          → bind_some (get envelope "result") as_str ≡ o
          → Yields (IsAnswerOf envelope) (elim o as (λ o. Result LlmError Value) [
            | none ↦ err LlmError.malformed_response
            | some t ↦ elim (trimmed lib t) [
              | [] ↦ err LlmError.request_failed
              | (c ∷ u) ↦ parse_result lib (c ∷ u)
            ]
          ])
      go none e = tt
      go (some t) e = filled t e (trimmed lib t) refl
