-- ===== src/Seeds/Selection.antt =====
-- What the selection of seeds returns.
use episcience.Base.{
  ◌≡◌, refl, ℕ, zero, suc, ◌+◌, ◌≤◌, ◌<◌, Bool, true, false, not, ◌&&◌, Option, none, some, List,
  [], ◌∷◌, ◌++◌, map, Uuid, ltb, ◌==◌, if◌then◌else◌, keep, length, length-append, length-keep,
  count, All, All-append, arith,
}
use episcience.Base.Floats.{Float}
use episcience.Base.Runs.{Run, returns, ◌>>=◌, or_panic, Returns}
use package.episcience.Seeds.{
  SeedCandidate, remove_at, is_usable, dimension, has_dimension, score_of, best_index, is_apart,
  pick_loop, select_candidates,
}

module _ {F : Type 0} where
  abbrev pub ids : List (SeedCandidate F) → List Uuid
  ids = map (λ c. c.id)

  -- Taking an element out of a list.
  abbrev Removal :
      List (SeedCandidate F) → Option (SeedCandidate F × List (SeedCandidate F)) → Type 0
  Removal xs none = ⊥
  Removal xs (some r) =
      (suc (length r.1) ≡ length xs)
      × ((a : Uuid) → count a (ids (r.0 ∷ r.1)) ≡ count a (ids xs))
      × ((P : SeedCandidate F → Bool)
          → All (λ c. P c ≡ true) xs
          → (P r.0 ≡ true) × All (λ c. P c ≡ true) r.1)

  remove_at-Removal :
      (i : ℕ) (xs : List (SeedCandidate F)) → i < length xs → Removal xs (remove_at i xs)
  unfolding remove_at
  remove_at-Removal i [] h = absurd (omega (arith, h))
  remove_at-Removal zero (x ∷ xs) h = (refl, (λ a. refl), (λ P q. q))
  remove_at-Removal (suc i) (x ∷ xs) h =
      go (remove_at i xs) (remove_at-Removal i xs (omega (arith, h)))
    where
      go :
          (o : Option (SeedCandidate F × List (SeedCandidate F)))
          → Removal xs o
          → Removal (x ∷ xs) (elim o [ none ↦ none | some r ↦ some (r.0, x ∷ r.1) ])
      go none k = k
      go (some r) k = (
        omega (arith, k.0),
        (λ a. ground (arith, k.1 a)),
        (λ P q. ((k.2 P q.1).0, (q.0, (k.2 P q.1).1))),
      )

  -- An index below a bound.
  abbrev Below : ℕ → Option (ℕ × F) → Type 0
  Below n none = ⊥
  Below n (some b) = b.0 < n

  count-kept :
      (a : Uuid) (p : SeedCandidate F → Bool) (xs : List (SeedCandidate F))
      → count a (ids (keep p xs)) ≤ count a (ids xs)
  count-kept a p [] = omega arith
  count-kept a p (x ∷ xs) = ground (arith, count-kept a p xs)

  count-snoc :
      (a : Uuid) (xs : List (SeedCandidate F)) (c : SeedCandidate F)
      → count a (ids (xs ++ c ∷ [])) ≡ count a (ids xs) + (if c.id == a then 1 else 0)
  count-snoc a [] c = omega arith
  count-snoc a (x ∷ xs) c = omega (arith, count-snoc a xs c)

  -- A list whose elements pass a test passes it after a filter, and both tests after a filter by another.
  All-kept :
      (p q r : SeedCandidate F → Bool)
      → ((c : SeedCandidate F) → p c ≡ true → q c ≡ true → r c ≡ true)
      → (xs : List (SeedCandidate F)) → All (λ c. p c ≡ true) xs
      → All (λ c. r c ≡ true) (keep q xs)
  All-kept p q r f [] h = tt
  All-kept p q r f (x ∷ xs) h = go (q x) refl (All-kept p q r f xs h.1)
    where
      go :
          (b : Bool)
          → q x ≡ b
          → All (λ c. r c ≡ true) (keep q xs)
          → All (λ c. r c ≡ true) (if b then x ∷ keep q xs else keep q xs)
      go true e k = (f x h.0 e, k)
      go false e k = k

module _ {F : Type 0} ⦃fl : Float F⦄ (dup_cosine : F) where
  abbrev apart_from : List (SeedCandidate F) → SeedCandidate F → Bool
  apart_from [] c = true
  apart_from (p ∷ ps) c = is_apart dup_cosine p c && apart_from ps c

  -- No candidate of the list is a near duplicate of an earlier one.
  abbrev pub Apart : List (SeedCandidate F) → Type 0
  Apart [] = Unit
  Apart (x ∷ xs) = All (λ y. is_apart dup_cosine x y ≡ true) xs × Apart xs

  and-true : (a b : Bool) → (a && b) ≡ true → (a ≡ true) × (b ≡ true)
  and-true true true h = (refl, refl)
  and-true true false h = absurd (grind (arith, h))
  and-true false b h = absurd (grind (arith, h))

  Apart-snoc :
      (xs : List (SeedCandidate F)) (y : SeedCandidate F)
      → Apart xs
      → apart_from xs y ≡ true
      → Apart (xs ++ y ∷ [])
  Apart-snoc [] y h k = (tt, tt)
  Apart-snoc (x ∷ xs) y h k =
      let both = and-true (is_apart dup_cosine x y) (apart_from xs y) k in
      (
        All-append (λ z. is_apart dup_cosine x z ≡ true) xs (y ∷ []) h.0 (both.0, tt),
        Apart-snoc xs y h.1 both.1,
      )

  apart_from-snoc :
      (xs : List (SeedCandidate F)) (y c : SeedCandidate F)
      → apart_from xs c ≡ true
      → is_apart dup_cosine y c ≡ true
      → apart_from (xs ++ y ∷ []) c ≡ true
  apart_from-snoc [] y c h k = rw k refl
  apart_from-snoc (x ∷ xs) y c h k =
      let both = and-true (is_apart dup_cosine x c) (apart_from xs c) h in
      rw (both.0) (apart_from-snoc xs y c both.1 k)

  -- What the loop keeps true of the picked candidates and of its pool.
  record Picks (budget : ℕ) (total : Uuid → ℕ) (picked pool : List (SeedCandidate F)) : Type 0 where
    size : length picked ≤ budget
    once : (a : Uuid) → count a (ids picked) + count a (ids pool) ≤ total a
    apart : Apart picked
    fresh : All (λ c. apart_from picked c ≡ true) pool

  -- What is returned: within the budget, no candidate more often than it was offered, and no near duplicates.
  pub record IsSelection (budget : ℕ) (total : Uuid → ℕ) (picked : List (SeedCandidate F))
      : Type 0 where
    pub size : length picked ≤ budget
    pub once : (a : Uuid) → count a (ids picked) ≤ total a
    pub apart : Apart picked

  Picks-IsSelection :
      {budget : ℕ} {total : Uuid → ℕ} {picked pool : List (SeedCandidate F)}
      → Picks budget total picked pool
      → IsSelection budget total picked
  Picks-IsSelection {pool = pool} p = record {
    size = p.size;
    once = λ a. omega (arith, p.once a);
    apart = p.apart;
  }

  best_index-Below :
      (score : SeedCandidate F → F) (n i : ℕ) (xs : List (SeedCandidate F)) (b : ℕ × F)
      → i + length xs ≡ n
      → b.0 < n
      → Below n (best_index score i xs (some b))
  unfolding best_index
  best_index-Below score n i [] b h k = k
  best_index-Below score n i (c ∷ cs) b h k =
      go (fl.lt b.1 (score c))
        (best_index-Below score n (i + 1) cs (i, score c) (omega (arith, h)) (omega (arith, h)))
        (best_index-Below score n (i + 1) cs b (omega (arith, h)) k)
    where
      go :
          (t : Bool)
          → Below n (best_index score (i + 1) cs (some (i, score c)))
          → Below n (best_index score (i + 1) cs (some b))
          → Below n (best_index score (i + 1) cs (if t then some (i, score c) else some b))
      go true x y = x
      go false x y = y

  first-Below :
      (score : SeedCandidate F → F) (c : SeedCandidate F) (cs : List (SeedCandidate F))
      → Below (suc (length cs)) (best_index score 0 (c ∷ cs) none)
  unfolding best_index
  first-Below score c cs =
      best_index-Below score (suc (length cs)) 1 cs (0, score c) (omega arith) (omega arith)

  picked-Picks :
      (budget : ℕ) (total : Uuid → ℕ) (picked pool : List (SeedCandidate F))
      (r : SeedCandidate F × List (SeedCandidate F))
      → Picks budget total picked pool
      → length picked < budget
      → Removal pool (some r)
      → Picks budget total (picked ++ r.0 ∷ []) (keep (is_apart dup_cosine r.0) r.1)
  picked-Picks budget total picked pool r p room m =
      let left = m.2 (apart_from picked) p.fresh in
      record {
        size = omega (arith, length-append picked (r.0 ∷ []), room);
        once = λ a. ground (
          arith,
          p.once a,
          count-snoc a picked r.0,
          count-kept a (is_apart dup_cosine r.0) r.1,
          m.1 a,
        );
        apart = Apart-snoc picked r.0 p.apart left.0;
        fresh =
            All-kept (apart_from picked) (is_apart dup_cosine r.0) (apart_from (picked ++ r.0 ∷ []))
              (apart_from-snoc picked r.0) r.1 left.1;
      }

  pick_loop-IsSelection :
      (fuel budget : ℕ) (lambda : F) (total : Uuid → ℕ) (picked pool : List (SeedCandidate F))
      → length pool ≤ fuel
      → Picks budget total picked pool
      → Returns (IsSelection budget total) (pick_loop fuel budget dup_cosine lambda picked pool)
  unfolding pick_loop
  pick_loop-IsSelection fuel budget lambda total picked [] h p = Picks-IsSelection p
  pick_loop-IsSelection zero budget lambda total picked (c ∷ pool) h p = absurd (omega (arith, h))
  pick_loop-IsSelection (suc fuel) budget lambda total picked (c ∷ pool) h p =
      go (ltb (length picked) budget) refl λ r m room.
        pick_loop-IsSelection fuel budget lambda total (picked ++ r.0 ∷ [])
          (keep (is_apart dup_cosine r.0) r.1)
          (omega (arith, h, m.0, length-keep (is_apart dup_cosine r.0) r.1))
          (picked-Picks budget total picked (c ∷ pool) r p room m)
    where
      Goal : Run (List (SeedCandidate F)) → Type 0
      Goal = Returns (IsSelection budget total)

      rest : SeedCandidate F × List (SeedCandidate F) → Run (List (SeedCandidate F))
      rest r =
          pick_loop fuel budget dup_cosine lambda (picked ++ r.0 ∷ [])
            (keep (is_apart dup_cosine r.0) r.1)

      taken :
          (o : Option (SeedCandidate F × List (SeedCandidate F)))
          → Removal (c ∷ pool) o
          → ((r : SeedCandidate F × List (SeedCandidate F))
              → Removal (c ∷ pool) (some r)
              → Goal (rest r))
          → Goal (or_panic o >>= rest)
      taken none m next = absurd m
      taken (some r) m next = next r m

      indexed :
          (o : Option (ℕ × F))
          → Below (suc (length pool)) o
          → ((r : SeedCandidate F × List (SeedCandidate F))
              → Removal (c ∷ pool) (some r)
              → Goal (rest r))
          → Goal (or_panic o >>= λ best. or_panic (remove_at best.0 (c ∷ pool)) >>= rest)
      indexed none k next = absurd k
      indexed (some b) k next =
          taken (remove_at b.0 (c ∷ pool)) (remove_at-Removal b.0 (c ∷ pool) k) next

      go :
          (t : Bool)
          → ltb (length picked) budget ≡ t
          → ((r : SeedCandidate F × List (SeedCandidate F))
              → Removal (c ∷ pool) (some r)
              → length picked < budget
              → Goal (rest r))
          → Goal (
              if not t
              then returns picked
              else (or_panic (best_index (score_of lambda picked) 0 (c ∷ pool) none) >>= λ best.
                  or_panic (remove_at best.0 (c ∷ pool)) >>= rest))
      go false e next = Picks-IsSelection p
      go true e next =
          indexed (best_index (score_of lambda picked) 0 (c ∷ pool) none)
            (first-Below (score_of lambda picked) c pool) λ r m. next r m (ground (arith, e))

  start-Picks :
      (budget : ℕ) (cands : List (SeedCandidate F)) (q : SeedCandidate F → Bool)
      → Picks budget (λ a. count a (ids cands)) [] (keep q cands)
  start-Picks budget cands q = record {
    size = omega arith;
    once = λ a. omega (arith, count-kept a q cands);
    apart = tt;
    fresh = All-kept (λ c. true) q (λ c. true) (λ c h k. refl) cands (always cands);
  }
    where
      always : (xs : List (SeedCandidate F)) → All (λ c. true ≡ true) xs
      always [] = tt
      always (x ∷ xs) = (refl, always xs)

  -- For any arithmetic of the scores the selection ends without a panic. It picks at most as many candidates as the
  -- budget, no identifier more often than it is offered, and none that is a near duplicate of one picked before it: its
  -- cosine to that one is below the bound, or cannot be told.
  pub select_candidates-IsSelection :
      (cands : List (SeedCandidate F)) (budget : ℕ) (lambda : F)
      → Returns
          (IsSelection budget (λ a. count a (ids cands)))
          (select_candidates cands budget dup_cosine lambda)
  unfolding select_candidates
  select_candidates-IsSelection cands budget lambda =
      let usable : SeedCandidate F → Bool = λ c. has_dimension (dimension cands) c && is_usable c in
      pick_loop-IsSelection (length (keep usable cands)) budget lambda (λ a. count a (ids cands)) []
        (keep usable cands) (omega arith) (start-Picks budget cands usable)
