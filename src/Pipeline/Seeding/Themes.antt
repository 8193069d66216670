-- ===== src/Pipeline/Seeding/Themes.antt =====
-- The seeds of a wiki article: which members of the theme they are.
use episcience.Base.{
  ◌≡◌, refl, ap, subst, ◌∙◌, ◌≢◌, ◌≤◌, Bool, true, false, Option, none, some, List, [], ◌∷◌, map,
  Uuid, if◌then◌else◌, keep, length, count, arith,
}
use episcience.Base.Floats.{Float}
use episcience.Base.Runs.{Run, returns, panics, unfinished, Returns, Returns-bind}
use episcience.Base.Results.{Result, ok, err, ◌>>=◌, map_err, Yields, Yields-bind}
use episcience.Seeds.{SeedCandidate, select_candidates, select_article_seeds}
use episcience.Seeds.Selection.{ids, IsSelection, select_candidates-IsSelection}
use package.episcience.Pipeline.{Text, SynthesisError, db, validation}
use package.episcience.Pipeline.Seeding.{
  Recall, parse_pgvector, nonempty, selected, push, candidates, has_query, stage1_seed_theme,
}

module _ {F : Type 0} ⦃fl : Float F⦄ (r : Recall F) where
  abbrev is_vector : Option (List F) → Bool
  is_vector none = false
  is_vector (some v) = true

  abbrev is_readable : Option Text → Bool
  is_readable none = false
  is_readable (some t) = is_vector (parse_pgvector r.trim r.parse_f32 t)

  -- The claim's stored embedding is there, and can be read.
  abbrev pub is_embedded : Uuid → Bool
  is_embedded id = elim (r.get_claim_embedding_str id) [ ok o ↦ is_readable o | err e ↦ false ]

  abbrev pub embedded_members : List (Uuid × F) → List Uuid
  embedded_members rows = map (λ m. m.0) (keep (λ m. is_embedded m.0) rows)

  push-ids :
      (id : Uuid) (sim : F) (o : Option Text) (cands : List (SeedCandidate F))
      → ids (push r id sim o cands) ≡ (if is_readable o then id ∷ ids cands else ids cands)
  push-ids id sim none cands = refl
  push-ids id sim (some t) cands = go (parse_pgvector r.trim r.parse_f32 t)
    where
      go :
          (v : Option (List F))
          → ids (elim v as (λ v. List (SeedCandidate F)) [
            | none ↦ cands
            | some v ↦ record { id = id; relevance = sim; embedding = v } ∷ cands
          ])
            ≡ (if is_vector v then id ∷ ids cands else ids cands)
      go none = refl
      go (some v) = refl

  -- The candidates are the members with an embedding that can be read, in their order.
  candidates-ids :
      (rows : List (Uuid × F))
      → Yields (λ cands. ids cands ≡ embedded_members rows) (candidates r rows)
  unfolding candidates
  candidates-ids [] = refl
  candidates-ids ((id, sim) ∷ rows) = go (r.get_claim_embedding_str id) refl (candidates-ids rows)
    where
      pushed : Option Text → List (SeedCandidate F) → Result SynthesisError (List (SeedCandidate F))
      pushed o cands = ok (push r id sim o cands)

      Right : List (SeedCandidate F) → Type 0
      Right cands = ids cands ≡ embedded_members ((id, sim) ∷ rows)

      members :
          (b c : Bool) (cands : List (SeedCandidate F))
          → c ≡ b
          → ids cands ≡ embedded_members rows
          → (if b then id ∷ ids cands else ids cands)
            ≡ map
                (λ m. m.0)
                (if c
                  then (id, sim) ∷ keep (λ m. is_embedded m.0) rows
                  else keep (λ m. is_embedded m.0) rows)
      members true true cands e k = ap (λ l. id ∷ l) k
      members false false cands e k = k
      members true false cands e k = absurd (grind (arith, e))
      members false true cands e k = absurd (grind (arith, e))

      go :
          (s : Result Unit (Option Text))
          → r.get_claim_embedding_str id ≡ s
          → Yields (λ cands. ids cands ≡ embedded_members rows) (candidates r rows)
          → Yields Right (map_err (λ e. db) s >>= λ o. candidates r rows >>= pushed o)
      go (err e) k y = tt
      go (ok o) k y =
          Yields-bind (λ cands. ids cands ≡ embedded_members rows) Right (candidates r rows)
            (pushed o) y
            λ cands same.
              push-ids id sim o cands
              ∙ members (is_readable o) (is_embedded id) cands
                  (ap (λ s. elim s as (λ s. Bool) [ ok o ↦ is_readable o | err e ↦ false ]) k) same

  -- The seeds of a theme: some, at most so many, and each as often at most as it is a member with an embedding.
  abbrev pub IsSeeding : Uuid → List Uuid → Type 0
  IsSeeding theme seeds =
      (seeds ≢ [])
      × (length seeds ≤ 50)
      × ((rows : List (Uuid × F)) × ((r.claims_in_theme theme ≡ ok rows)
            × ((a : Uuid) → count a seeds ≤ count a (embedded_members rows))))

  length-ids : (cands : List (SeedCandidate F)) → length (ids cands) ≡ length cands
  length-ids [] = refl
  length-ids (c ∷ cands) = omega (arith, length-ids cands)

  chosen :
      (cands : List (SeedCandidate F))
      → Returns
          (λ seeds. (length seeds ≤ 50) × ((a : Uuid) → count a seeds ≤ count a (ids cands)))
          (select_article_seeds cands 50 (fl.literal 95 2) (fl.literal 7 1))
  unfolding select_article_seeds
  chosen cands =
      Returns-bind (IsSelection (fl.literal 95 2) 50 (λ a. count a (ids cands))) _
        (select_candidates cands 50 (fl.literal 95 2) (fl.literal 7 1)) _
        (select_candidates-IsSelection (fl.literal 95 2) cands 50 (fl.literal 7 1))
        λ picked s. (omega (arith, s.size, length-ids picked), s.once)

  -- For any answers of the kernel and any arithmetic: if stage 1 of a wiki article succeeds, it returns a seed, at most
  -- fifty, and each seed is a member of the theme whose stored embedding can be read, no more often than the theme lists
  -- it. Without an embedding of the query it fails.
  pub stage1_seed_theme-IsSeeding :
      (theme : Uuid)
      → Yields (IsSeeding theme) (stage1_seed_theme r theme)
        × (has_query r r.query_embedding ≡ false → stage1_seed_theme r theme ≡ err validation)
  unfolding stage1_seed_theme
  stage1_seed_theme-IsSeeding theme = go (has_query r r.query_embedding)
    where
      pick : List (SeedCandidate F) → Result SynthesisError (List Uuid)
      pick cands = selected (select_article_seeds cands 50 (fl.literal 95 2) (fl.literal 7 1))

      all : Result SynthesisError (List Uuid)
      all =
          map_err (λ e. db) (r.claims_in_theme theme)
          >>= nonempty validation
          >>= candidates r
          >>= pick
          >>= nonempty validation

      Chosen : List (Uuid × F) → List Uuid → Type 0
      Chosen rows seeds =
          (length seeds ≤ 50) × ((a : Uuid) → count a seeds ≤ count a (embedded_members rows))

      ran :
          (rows : List (Uuid × F)) (cands : List (SeedCandidate F))
          → ids cands ≡ embedded_members rows
          → (m : Run (List Uuid))
          → Returns
              (λ seeds. (length seeds ≤ 50) × ((a : Uuid) → count a seeds ≤ count a (ids cands)))
              m
          → Yields (Chosen rows) (selected m)
      ran rows cands same (returns seeds) h =
          (h.0, λ a. subst (λ l. count a seeds ≤ count a l) same (h.1 a))
      ran rows cands same panics h = tt
      ran rows cands same unfinished h = tt

      filled :
          (rows : List (Uuid × F))
          → r.claims_in_theme theme ≡ ok rows
          → (seeds : List Uuid) → Chosen rows seeds
          → Yields (IsSeeding theme) (nonempty validation seeds)
      filled rows e [] c = tt
      filled rows e (x ∷ seeds) c = ((λ n. absurd (grind (arith, n))), c.0, (rows, (e, c.1)))

      from_rows :
          (rows : List (Uuid × F))
          → r.claims_in_theme theme ≡ ok rows
          → Yields (IsSeeding theme) (candidates r rows >>= pick >>= nonempty validation)
      from_rows rows e =
          Yields-bind (Chosen rows) (IsSeeding theme) (candidates r rows >>= pick)
            (nonempty validation)
            (Yields-bind (λ cands. ids cands ≡ embedded_members rows) (Chosen rows)
              (candidates r rows) pick (candidates-ids rows)
              λ cands same.
                ran rows cands same
                  (select_article_seeds cands 50 (fl.literal 95 2) (fl.literal 7 1)) (chosen cands))
            (filled rows e)

      asked :
          (q : Result Unit (List (Uuid × F)))
          → r.claims_in_theme theme ≡ q
          → Yields (IsSeeding theme) (
              map_err (λ e. db) q
              >>= nonempty validation
              >>= candidates r
              >>= pick
              >>= nonempty validation)
      asked (err x) e = tt
      asked (ok []) e = tt
      asked (ok (m ∷ rows)) e = from_rows (m ∷ rows) e

      go :
          (b : Bool)
          → Yields (IsSeeding theme) (if b then all else err validation)
            × (b ≡ false → (if b then all else err validation) ≡ err validation)
      go true = (asked (r.claims_in_theme theme) refl, λ h. absurd (grind (arith, h)))
      go false = (tt, λ h. refl)
