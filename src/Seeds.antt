-- ===== src/Seeds.antt =====
-- crates/episcience-core/src/wiki/seed.rs: the seeds of a wiki article, chosen for relevance and against repetition.
pub mod Selection
use episcience.Base.{
  ◌≡◌, ℕ, zero, suc, ◌+◌, Bool, true, false, not, ◌&&◌, ◌||◌, Option, none, some, List, [], ◌∷◌,
  ◌++◌, map, Uuid, ltb, ◌==◌, if◌then◌else◌, keep, length,
}
use episcience.Base.Floats.{Float}
use episcience.Base.Runs.{Run, returns, panics, unfinished, ◌>>=◌, or_panic}

pub record SeedCandidate (F : Type 0) : Type 0 where
  pub id : Uuid
  pub relevance : F
  pub embedding : List F

-- `Vec::remove`, which panics where there is no such index.
unfoldable pub remove_at : {A : Type 0} → ℕ → List A → Option (A × List A)
remove_at i [] = none
remove_at zero (x ∷ xs) = some (x, xs)
remove_at (suc i) (x ∷ xs) = elim (remove_at i xs) [ none ↦ none | some r ↦ some (r.0, x ∷ r.1) ]

module _ {F : Type 0} ⦃fl : Float F⦄ where
  -- The loop of `cosine`, on `(d, na, nb)`.
  unfoldable pub products : List F → List F → F × F × F → F × F × F
  products [] b acc = acc
  products (x ∷ a) [] acc = acc
  products (x ∷ a) (y ∷ b) (d, na, nb) =
      products a b (fl.add d (fl.mul x y), fl.add na (fl.mul x x), fl.add nb (fl.mul y y))

  unfoldable pub cosine : List F → List F → Option F
  unfolding products
  cosine a b =
      let zero_f = fl.literal 0 0 in
      let s = products a b (zero_f, zero_f, zero_f) in
      if (length a == 0) || not (length a == length b)
      then none
      else if fl.eq s.1 zero_f || fl.eq s.2 zero_f
      then none
      else some (fl.div s.0 (fl.mul (fl.sqrt s.1) (fl.sqrt s.2)))

  abbrev pub is_usable : SeedCandidate F → Bool
  is_usable c = elim (cosine c.embedding c.embedding) [ none ↦ false | some s ↦ true ]

  -- `dim`: the length of the first usable embedding.
  unfoldable pub dimension : List (SeedCandidate F) → Option ℕ
  dimension [] = none
  dimension (c ∷ cs) = if is_usable c then some (length c.embedding) else dimension cs

  abbrev pub has_dimension : Option ℕ → SeedCandidate F → Bool
  has_dimension none c = false
  has_dimension (some n) c = length c.embedding == n

  -- `picked.iter().filter_map(cosine).fold(0, max)`
  unfoldable pub redundancy : SeedCandidate F → List (SeedCandidate F) → F → F
  redundancy c [] acc = acc
  redundancy c (p ∷ ps) acc =
      redundancy c ps
        (elim (cosine c.embedding p.embedding) [ none ↦ acc | some s ↦ fl.larger acc s ])

  unfoldable pub score_of : F → List (SeedCandidate F) → SeedCandidate F → F
  unfolding redundancy
  score_of lambda picked c =
      fl.sub (fl.mul lambda c.relevance)
        (fl.mul (fl.sub (fl.literal 1 0) lambda) (redundancy c picked (fl.literal 0 0)))

  -- The loop over the pool, with the index of its next element and the best index so far with its score.
  unfoldable pub best_index :
      (SeedCandidate F → F) → ℕ → List (SeedCandidate F) → Option (ℕ × F) → Option (ℕ × F)
  best_index score i [] best = best
  best_index score i (c ∷ cs) best = best_index score (i + 1) cs (elim best [
    | none ↦ some (i, score c)
    | some b ↦ if fl.lt b.1 (score c) then some (i, score c) else some b
  ])

  -- `cosine(..).map_or(true, |s| s < dup_cosine)`
  abbrev pub is_apart : F → SeedCandidate F → SeedCandidate F → Bool
  is_apart dup_cosine chosen c = elim (cosine c.embedding chosen.embedding) [
    | none ↦ true
    | some s ↦ fl.lt s dup_cosine
  ]

  -- The `while` loop; each turn takes a candidate from the pool, so as many turns as candidates are enough.
  unfoldable pub pick_loop :
      ℕ → ℕ → F → F → List (SeedCandidate F) → List (SeedCandidate F) → Run (List (SeedCandidate F))
  unfolding best_index
  pick_loop fuel budget dup_cosine lambda picked [] = returns picked
  pick_loop zero budget dup_cosine lambda picked (c ∷ pool) = unfinished
  pick_loop (suc fuel) budget dup_cosine lambda picked (c ∷ pool) =
      if not (ltb (length picked) budget)
      then returns picked
      else (or_panic (best_index (score_of lambda picked) 0 (c ∷ pool) none) >>= λ best.
          or_panic (remove_at best.0 (c ∷ pool)) >>= λ r.
          pick_loop fuel budget dup_cosine lambda (picked ++ r.0 ∷ [])
            (keep (is_apart dup_cosine r.0) r.1))

  unfoldable pub select_candidates :
      List (SeedCandidate F) → ℕ → F → F → Run (List (SeedCandidate F))
  unfolding pick_loop dimension
  select_candidates cands budget dup_cosine lambda =
      let pool = keep (λ c. has_dimension (dimension cands) c && is_usable c) cands in
      pick_loop (length pool) budget dup_cosine lambda [] pool

  unfoldable pub select_article_seeds : List (SeedCandidate F) → ℕ → F → F → Run (List Uuid)
  unfolding select_candidates
  select_article_seeds cands budget dup_cosine lambda =
      select_candidates cands budget dup_cosine lambda >>= λ picked.
      returns (map (λ c. c.id) picked)
