-- ===== src/Pipeline/Seeding/Vectors.antt =====
-- A vector in pgvector's text form is read back.
use episcience.Base.{◌≡◌, refl, ◌∙◌, ap, Option, some, List, [], ◌∷◌, ◌++◌, map, All}
use package.episcience.Pipeline.{Text}
use episcience.Base.Results.{bind_some}
use episcience.Base.Texts.{
  strip_prefix, strip_suffix, split, IsPlain, joined, strip_suffix-append, split-joined,
}
use package.episcience.Pipeline.Seeding.{collect, then_some, parse_pgvector}

-- `vec_to_text` of crates/episcience-db/src/repos/synthesis_embeddings.rs, with the printing of a number.
unfoldable pub vec_to_text : {F : Type 0} → (F → Text) → List F → Text
vec_to_text print values = b'[' ∷ (joined b',' (map print values) ++ b']' ∷ [])

module _ {F : Type 0} (print : F → Text) (plain : (x : F) → IsPlain b',' (print x)) where
  map-IsPlain : (v : List F) → All (IsPlain b',') (map print v)
  map-IsPlain [] = tt
  map-IsPlain (x ∷ v) = (plain x, map-IsPlain v)

  collect-print :
      (read : Text → Option F)
      → ((x : F) → read (print x) ≡ some x)
      → (v : List F) → collect read (map print v) ≡ some v
  collect-print read back [] = refl
  collect-print read back (x ∷ v) = rw (back x, collect-print read back v) refl

  -- For a way to print numbers that are read back after trimming and hold no comma, and a trimming that leaves a text
  -- in brackets as it is: the text form of a vector with an element is read as that vector.
  pub parse_pgvector-vec_to_text :
      (trim : Text → Text) (parse : Text → Option F)
      (whole : (t : Text) → trim (b'[' ∷ (t ++ b']' ∷ [])) ≡ b'[' ∷ (t ++ b']' ∷ []))
      (back : (x : F) → parse (trim (print x)) ≡ some x) (x : F) (v : List F)
      → parse_pgvector trim parse (vec_to_text print (x ∷ v)) ≡ some (x ∷ v)
  unfolding parse_pgvector vec_to_text
  parse_pgvector-vec_to_text trim parse whole back x v =
      ap (λ s. bind_some (strip_prefix b'[' s) inner_of) (whole text)
      ∙ ap (λ o. bind_some o read) (strip_suffix-append b']' text)
      ∙ ap (λ l. bind_some (collect (λ t. parse (trim t)) l) then_some)
          (split-joined b',' (print x) (map print v) (map-IsPlain (x ∷ v)))
      ∙ ap (λ o. bind_some o then_some) (collect-print (λ t. parse (trim t)) back (x ∷ v))
    where
      text : Text
      text = joined b',' (map print (x ∷ v))

      read : Text → Option (List F)
      read inner = bind_some (collect (λ t. parse (trim t)) (split b',' inner)) then_some

      inner_of : Text → Option (List F)
      inner_of rest = bind_some (strip_suffix b']' rest) read
