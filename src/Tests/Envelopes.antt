-- ===== src/Tests/Envelopes.antt =====
-- An example of an envelope: one line, on which a parser finds a success with a result.
use episcience.Base.{◌≡◌, refl, false, none, some, ◌==◌, if◌then◌else◌}
use episcience.Base.Results.{ok, Yields}
use episcience.Base.Texts.{text_eq, split}
use episcience.Client.{
  Value, Values, Fields, Libraries, chars, fallback_models, mentions_safety_classifier,
  parse_candidate, try_parts, parse_result, parse_envelope,
}
use episcience.Client.Scans.{IsLastObject}
use episcience.Client.Envelopes.{IsAccepted, parse_envelope-IsAccepted}

abbrev envelope : Value
envelope = Value.object (
    Fields.and_field (chars "subtype") (Value.string (chars "success"))
      (Fields.and_field (chars "result") (Value.string (chars "Here: [1]")) Fields.no_fields))

abbrev lib : Libraries
lib = record {
  from_str = λ t.
      if text_eq t (chars "{..}")
      then some envelope
      else if text_eq t (chars "[1]")
      then some (Value.array Values.no_values)
      else none;
  is_closer = λ t. false;
  to_lowercase = λ t. t;
  is_whitespace = λ c. c == b' ';
}

-- The value in brackets, behind prose.
answer : parse_envelope lib (chars "{..}") ≡ ok (Value.array Values.no_values)
unfolding parse_envelope fallback_models parse_result parse_candidate try_parts
    mentions_safety_classifier
answer = refl

parse_envelope_example :
    Yields
      (λ v.
        (envelope : Value) × (IsLastObject lib (split b'\n' (chars "{..}")) envelope
          × IsAccepted lib envelope v))
      (parse_envelope lib (chars "{..}"))
parse_envelope_example = parse_envelope-IsAccepted lib (chars "{..}")
