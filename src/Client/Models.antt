-- ===== src/Client/Models.antt =====
-- The models that an envelope names: the keys of its `modelUsage`, each up to a bracket.
use episcience.Base.{
  ◌≡◌, refl, sym, ◌∙◌, ap, subst, ◌≤◌, Bool, true, false, Option, none, some, List, [], ◌∷◌, map,
  ◌==◌, if◌then◌else◌, length, All, arith,
}
use episcience.Base.Results.{bind_some}
use episcience.Base.Sort.{insert_by, sort_by}
use episcience.Base.Texts.{Text, text_eq, text_eq-exact, text_le, cons_head, split}
use package.episcience.Client.{
  Value, Libraries, get, keys, as_keys, dedup, trimmed, head_or, usage_models,
}
use package.episcience.Client.Spans.{OnSome}

abbrev pub before_bracket : Text → Text
before_bracket [] = []
before_bracket (c ∷ t) = if c == b'[' then [] else c ∷ before_bracket t

first_piece : (lib : Libraries) (t d : Text) → head_or lib (split b'[' t) d ≡ before_bracket t
unfolding split
first_piece lib [] d = refl
first_piece lib (c ∷ t) d = go (c == b'[') (split b'[' t) (first_piece lib t [])
  where
    go :
        (b : Bool) (ss : List Text)
        → head_or lib ss [] ≡ before_bracket t
        → head_or lib (if b then [] ∷ ss else cons_head c ss) d
          ≡ (if b then [] else c ∷ before_bracket t)
    go true ss h = refl
    go false [] h = ap (λ u. c ∷ u) h
    go false (s ∷ ss) h = ap (λ u. c ∷ u) h

All-insert_by :
    (P : Text → Type 0) (x : Text) (ys : List Text)
    → All P (insert_by text_le x ys)
    → P x × All P ys
All-insert_by P x [] h = h
All-insert_by P x (y ∷ ys) h = go (text_le x y) h (λ h. All-insert_by P x ys h)
  where
    go :
        (b : Bool)
        → All P (if b then x ∷ y ∷ ys else y ∷ insert_by text_le x ys)
        → (All P (insert_by text_le x ys) → P x × All P ys)
        → P x × All P (y ∷ ys)
    go true h f = h
    go false h f = let r = f h.1 in (r.0, (h.0, r.1))

All-sort_by : (P : Text → Type 0) (xs : List Text) → All P (sort_by text_le xs) → All P xs
All-sort_by P [] h = tt
All-sort_by P (x ∷ xs) h =
    let r = All-insert_by P x (sort_by text_le xs) h in (r.0, All-sort_by P xs r.1)

length-dedup : (x : Text) (xs : List Text) → 1 ≤ length (dedup (x ∷ xs))
length-dedup x [] = omega arith
length-dedup x (y ∷ ys) = go (text_eq x y) (length-dedup y ys)
  where
    go :
        (b : Bool)
        → 1 ≤ length (dedup (y ∷ ys))
        → 1 ≤ length (if b then dedup (y ∷ ys) else x ∷ dedup (y ∷ ys))
    go true h = h
    go false h = omega arith

-- Neighbours of which at most one is left are all the same.
dedup-same : (x : Text) (xs : List Text) → length (dedup (x ∷ xs)) ≤ 1 → All (λ y. y ≡ x) xs
dedup-same x [] h = tt
dedup-same x (y ∷ ys) h = go (text_eq x y) refl h (λ h. dedup-same y ys h)
  where
    go :
        (b : Bool)
        → text_eq x y ≡ b
        → length (if b then dedup (y ∷ ys) else x ∷ dedup (y ∷ ys)) ≤ 1
        → (length (dedup (y ∷ ys)) ≤ 1 → All (λ z. z ≡ y) ys)
        → All (λ z. z ≡ x) (y ∷ ys)
    go true e h f =
        let same = text_eq-exact x y e in
        (sym same, subst (λ x. All (λ z. z ≡ x) ys) (sym same) (f h))
    go false e h f = absurd (omega (arith, length-dedup y ys, h))

module _ (lib : Libraries) where
  abbrev pub model_name : Text → Text
  model_name key = trimmed lib (before_bracket key)

  -- The usage, if it is an object, has keys of one model only.
  abbrev pub HasOneModel : Option Value → Type 0
  HasOneModel (some (Value.object fields)) =
      (name : Text) × All (λ key. model_name key ≡ name) (keys fields)
  HasOneModel usage = Unit

  one_name : (ns : List Text) → length (dedup ns) ≤ 1 → (name : Text) × All (λ n. n ≡ name) ns
  one_name [] h = ([], tt)
  one_name (n ∷ ns) h = (n, (refl, dedup-same n ns h))

  names_of :
      (name : Text) (ks : List Text)
      → All (λ n. n ≡ name) (map (λ k. trimmed lib (head_or lib (split b'[' k) k)) ks)
      → All (λ k. model_name k ≡ name) ks
  names_of name [] h = tt
  names_of name (k ∷ ks) h =
      (ap (trimmed lib) (sym (first_piece lib k k)) ∙ h.0, names_of name ks h.1)

  pub usage_models-HasOneModel :
      (envelope : Value)
      → OnSome (λ (models : List Text). length models ≤ 1) (usage_models lib envelope)
      → HasOneModel (get envelope "modelUsage")
  unfolding usage_models
  usage_models-HasOneModel envelope = go (get envelope "modelUsage")
    where
      go :
          (o : Option Value)
          → OnSome
              (λ (models : List Text). length models ≤ 1)
              (bind_some (bind_some o as_keys) λ ks. some (
                dedup (sort_by text_le (map (λ k. trimmed lib (head_or lib (split b'[' k) k)) ks))))
          → HasOneModel o
      go none h = tt
      go (some Value.null) h = tt
      go (some (Value.bool b)) h = tt
      go (some (Value.number n)) h = tt
      go (some (Value.string s)) h = tt
      go (some (Value.array vs)) h = tt
      go (some (Value.object fields)) h =
          let names = map (λ k. trimmed lib (head_or lib (split b'[' k) k)) (keys fields) in
          let one = one_name (sort_by text_le names) h in
          (one.0, names_of one.0 (keys fields) (All-sort_by _ names one.1))
