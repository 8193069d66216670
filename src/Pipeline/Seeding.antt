-- ===== src/Pipeline/Seeding.antt =====
-- `stage1_seed`, `stage1_seed_theme` and `parse_pgvector` of pipeline.rs: the claims that a synthesis starts from. The
-- kernel's recall and its reads of a theme and of stored embeddings, `str::trim` and `f32`'s parsing are arguments.
pub mod Themes
pub mod Vectors
use episcience.Base.{
  ◌≡◌, ℕ, Bool, true, false, Option, none, some, List, [], ◌∷◌, Uuid, ◌==◌, if◌then◌else◌,
}
use episcience.Base.Floats.{Float}
use episcience.Base.Runs.{Run, returns, panics, unfinished}
use episcience.Base.Results.{Result, ok, err, ◌>>=◌, map_err, bind_some}
use episcience.Seeds.{SeedCandidate, select_article_seeds}
use episcience.Base.Texts.{strip_prefix, strip_suffix, split}
use package.episcience.Pipeline.{Text, SynthesisError, empty_result, db, validation}

module _ {F : Type 0} where
  abbrev pub and_cons : Option F → Option (List F) → Option (List F)
  and_cons none v = none
  and_cons (some x) none = none
  and_cons (some x) (some v) = some (x ∷ v)

  -- `collect::<Option<Vec<_>>>()`
  abbrev pub collect : (Text → Option F) → List Text → Option (List F)
  collect read [] = some []
  collect read (t ∷ ts) = and_cons (read t) (collect read ts)

  abbrev pub then_some : List F → Option (List F)
  then_some [] = none
  then_some (x ∷ v) = some (x ∷ v)

  unfoldable pub parse_pgvector : (Text → Text) → (Text → Option F) → Text → Option (List F)
  unfolding strip_prefix strip_suffix split
  parse_pgvector trim parse s = bind_some (strip_prefix b'[' (trim s)) λ rest.
      bind_some (strip_suffix b']' rest)
        λ inner. bind_some (collect (λ x. parse (trim x)) (split b',' inner)) then_some

-- What stage 1 asks: the recall's claims, none for an identifier that cannot be parsed; a theme's members by similarity
-- to the query; and a claim's stored embedding.
pub record Recall (F : Type 0) : Type 0 where
  pub recall : Result Unit (List (Option Uuid))
  pub query_embedding : List F
  pub claims_in_theme : Uuid → Result Unit (List (Uuid × F))
  pub get_claim_embedding_str : Uuid → Result Unit (Option Text)
  pub trim : Text → Text
  pub parse_f32 : Text → Option F

unfoldable pub parse_ids : List (Option Uuid) → Result SynthesisError (List Uuid)
parse_ids [] = ok []
parse_ids (none ∷ ids) = err validation
parse_ids (some id ∷ ids) = parse_ids ids >>= λ rest. ok (id ∷ rest)

abbrev pub nonempty : {A : Type 0} → SynthesisError → List A → Result SynthesisError (List A)
nonempty e [] = err e
nonempty e (x ∷ xs) = ok (x ∷ xs)

-- A panic would stop the job; the selection has none.
abbrev pub selected : Run (List Uuid) → Result SynthesisError (List Uuid)
selected (returns ids) = ok ids
selected panics = err db
selected unfinished = err db

module _ {F : Type 0} ⦃fl : Float F⦄ (r : Recall F) where
  unfoldable pub stage1_seed : Result SynthesisError (List Uuid)
  unfolding parse_ids
  stage1_seed = map_err (λ e. db) r.recall >>= nonempty empty_result >>= parse_ids

  -- A member without a usable stored embedding is skipped.
  abbrev pub push : Uuid → F → Option Text → List (SeedCandidate F) → List (SeedCandidate F)
  push id sim none cands = cands
  push id sim (some t) cands = elim (parse_pgvector r.trim r.parse_f32 t) [
    | none ↦ cands
    | some v ↦ record { id = id; relevance = sim; embedding = v } ∷ cands
  ]

  unfoldable pub candidates : List (Uuid × F) → Result SynthesisError (List (SeedCandidate F))
  unfolding parse_pgvector
  candidates [] = ok []
  candidates ((id, sim) ∷ rows) = map_err (λ e. db) (r.get_claim_embedding_str id) >>= λ stored.
      candidates rows >>= λ cands. ok (push id sim stored cands)

  abbrev pub has_query : List F → Bool
  has_query [] = false
  has_query (x ∷ v) = true

  -- SEED_BUDGET, DUP_COSINE and MMR_LAMBDA are wiki/mod.rs's.
  unfoldable pub stage1_seed_theme : Uuid → Result SynthesisError (List Uuid)
  unfolding candidates
  stage1_seed_theme theme =
      if has_query r.query_embedding
      then (map_err (λ e. db) (r.claims_in_theme theme)
          >>= nonempty validation
          >>= candidates
          >>= (λ cands. selected (select_article_seeds cands 50 (fl.literal 95 2) (fl.literal 7 1)))
          >>= nonempty validation)
      else err validation
