-- ===== src/Client/Scans.antt =====
-- What the client's scans look for: the last line that is an object, the strings of a value, and a phrase in a text.
use episcience.Base.{
  ◌≡◌, refl, sym, ◌∙◌, ap, ℕ, Bool, true, false, ◌||◌, Option, none, some, List, [], ◌∷◌, ◌++◌,
  ◌==◌, ==_iff, if◌then◌else◌, All, arith,
}
use episcience.Base.Texts.{Text, starts_with}
use package.episcience.Client.Pieces.{drop, push_front, find}
use package.episcience.Client.{
  Value, Values, Fields, Libraries, chars, is_some, trimmed, leaked_tool_call_markup,
  leaked_in_values, leaked_in_fields, last_some, object_line, mentions_safety_classifier,
}

-- A text is a string of a value, also deep inside it.
mutual
  pub data IsStringOf : Text → Value → Type 0 where
    itself : {s : Text} → IsStringOf s (Value.string s)
    in_array : {s : Text} {vs : Values} → IsStringOfValues s vs → IsStringOf s (Value.array vs)
    in_object : {s : Text} {fs : Fields} → IsStringOfFields s fs → IsStringOf s (Value.object fs)

  pub data IsStringOfValues : Text → Values → Type 0 where
    first_value :
        {s : Text} {v : Value} {vs : Values}
        → IsStringOf s v
        → IsStringOfValues s (Values.and_value v vs)
    later_value :
        {s : Text} {v : Value} {vs : Values}
        → IsStringOfValues s vs
        → IsStringOfValues s (Values.and_value v vs)

  pub data IsStringOfFields : Text → Fields → Type 0 where
    first_field :
        {s k : Text} {v : Value} {fs : Fields}
        → IsStringOf s v
        → IsStringOfFields s (Fields.and_field k v fs)
    later_field :
        {s k : Text} {v : Value} {fs : Fields}
        → IsStringOfFields s fs
        → IsStringOfFields s (Fields.and_field k v fs)

or_false : (a b : Bool) → (a || b) ≡ false → (a ≡ false) × (b ≡ false)
or_false true b h = absurd (grind (arith, h))
or_false false b h = (refl, h)

-- Behind no text stands the phrase.
abbrev pub Lacks : Text → Text → Type 0
Lacks phrase t = (b a : Text) → ¬ (t ≡ b ++ (phrase ++ a))

starts_with-append : (phrase a : Text) → starts_with (phrase ++ a) phrase ≡ true
starts_with-append [] a = refl
starts_with-append (c ∷ phrase) a = rw ((==_iff c c).1 refl) (starts_with-append phrase a)

abbrev tail_of : Text → Text
tail_of [] = []
tail_of (c ∷ t) = t

find-Lacks : (c : ℕ) (phrase t : Text) → find (c ∷ phrase) t ≡ none → Lacks (c ∷ phrase) t
unfolding find
find-Lacks c phrase [] h [] a e = absurd (grind (arith, e))
find-Lacks c phrase [] h (x ∷ b) a e = absurd (grind (arith, e))
find-Lacks c phrase (d ∷ t) h b a e =
    go (starts_with (d ∷ t) (c ∷ phrase)) refl (find (c ∷ phrase) t) (λ k. find-Lacks c phrase t k)
      h b e
  where
    go :
        (s : Bool)
        → starts_with (d ∷ t) (c ∷ phrase) ≡ s
        → (o : Option (Text × Text)) → (o ≡ none → Lacks (c ∷ phrase) t)
        → (if s then some ([], drop (c ∷ phrase) (d ∷ t)) else push_front d o) ≡ none
        → (b : Text) → d ∷ t ≡ b ++ ((c ∷ phrase) ++ a)
        → ⊥
    go true k o f h b e = absurd (grind (arith, h))
    go false k (some r) f h b e = absurd (grind (arith, h))
    go false k none f h [] e = absurd (
        grind
          (arith, k, ap (λ u. starts_with u (c ∷ phrase)) e ∙ starts_with-append (c ∷ phrase) a))
    go false k none f h (x ∷ b) e = f refl b a (ap tail_of e)

module _ (lib : Libraries) where
  abbrev pub HasNoTag : Value → Type 0
  HasNoTag v = (s : Text) → IsStringOf s v → lib.is_closer s ≡ false

  mutual
    no_tag :
        {s : Text} {v : Value}
        → IsStringOf s v
        → leaked_tool_call_markup lib v ≡ false
        → lib.is_closer s ≡ false
    no_tag itself h = h
    no_tag (in_array i) h = no_tag_values i h
    no_tag (in_object i) h = no_tag_fields i h

    no_tag_values :
        {s : Text} {vs : Values}
        → IsStringOfValues s vs
        → leaked_in_values lib vs ≡ false
        → lib.is_closer s ≡ false
    no_tag_values (first_value i) h = no_tag i (or_false _ _ h).0
    no_tag_values (later_value i) h = no_tag_values i (or_false _ _ h).1

    no_tag_fields :
        {s : Text} {fs : Fields}
        → IsStringOfFields s fs
        → leaked_in_fields lib fs ≡ false
        → lib.is_closer s ≡ false
    no_tag_fields (first_field i) h = no_tag i (or_false _ _ h).0
    no_tag_fields (later_field i) h = no_tag_fields i (or_false _ _ h).1

  pub leaked-HasNoTag : (v : Value) → leaked_tool_call_markup lib v ≡ false → HasNoTag v
  leaked-HasNoTag v h s i = no_tag i h

  -- The text, in lowercase, has neither phrase.
  abbrev pub IsSilent : Text → Type 0
  IsSilent t =
      Lacks (chars "safety classifier") (lib.to_lowercase t)
      × Lacks (chars "safety filter") (lib.to_lowercase t)

  lacks : (o : Option (Text × Text)) → is_some o ≡ false → o ≡ none
  lacks none h = refl
  lacks (some r) h = absurd (grind (arith, h))

  pub mentions-IsSilent : (t : Text) → mentions_safety_classifier lib t ≡ false → IsSilent t
  unfolding mentions_safety_classifier
  mentions-IsSilent t h =
      let r = or_false _ _ h in
      (
        find-Lacks _ _ (lib.to_lowercase t) (lacks _ r.0),
        find-Lacks _ _ (lib.to_lowercase t) (lacks _ r.1),
      )

  -- The line, trimmed, starts as an object and is parsed as the value.
  abbrev pub IsObjectLine : Text → Value → Type 0
  IsObjectLine line v =
      (rest : Text) × ((trimmed lib line ≡ b'{' ∷ rest)
        × (lib.from_str (trimmed lib line) ≡ some v))

  -- The last such line of a list.
  abbrev pub IsLastObject : List Text → Value → Type 0
  IsLastObject lines v =
      (before : List Text) × (line : Text) × (after : List Text) × ((lines ≡ before ++ line ∷ after)
        × IsObjectLine line v
        × All (λ l. (w : Value) → ¬ IsObjectLine l w) after)

  IsObjectLine-object_line :
      (line : Text) (v : Value) → IsObjectLine line v → object_line lib (trimmed lib line) ≡ some v
  IsObjectLine-object_line line v (rest, (e, f)) =
      ap (object_line lib) e ∙ ap lib.from_str (sym e) ∙ f

  object_line-IsObjectLine :
      (line : Text) (v : Value) → object_line lib (trimmed lib line) ≡ some v → IsObjectLine line v
  object_line-IsObjectLine line v h = go (trimmed lib line) h
    where
      go :
          (t : Text)
          → object_line lib t ≡ some v
          → (rest : Text) × ((t ≡ b'{' ∷ rest) × (lib.from_str t ≡ some v))
      go [] h = absurd (grind (arith, h))
      go (c ∷ t) h = opened (c == b'{') refl h
        where
          opened :
              (b : Bool)
              → (c == b'{') ≡ b
              → (if b then lib.from_str (c ∷ t) else none) ≡ some v
              → (rest : Text) × ((◌≡◌ {A = Text} (c ∷ t) (b'{' ∷ rest))
                  × (lib.from_str (c ∷ t) ≡ some v))
          opened true e h = (t, (ap (λ c. c ∷ t) ((==_iff c b'{').0 e), h))
          opened false e h = absurd (grind (arith, h))

  no_object :
      (ts : List Text)
      → last_some lib (λ line. object_line lib (trimmed lib line)) ts ≡ none
      → All (λ l. (w : Value) → ¬ IsObjectLine l w) ts
  no_object [] h = tt
  no_object (t ∷ ts) h =
      go (last_some lib (λ line. object_line lib (trimmed lib line)) ts) h (λ h. no_object ts h)
    where
      go :
          (o : Option Value)
          → elim o as (λ o. Option Value) [
            | some a ↦ some a
            | none ↦ object_line lib (trimmed lib t)
          ]
            ≡ none
          → (o ≡ none → All (λ l. (w : Value) → ¬ IsObjectLine l w) ts)
          → All (λ l. (w : Value) → ¬ IsObjectLine l w) (t ∷ ts)
      go (some a) h f = absurd (grind (arith, h))
      go none h f = ((λ w i. absurd (grind (arith, h, IsObjectLine-object_line t w i))), f refl)

  pub last_some-IsLastObject :
      (lines : List Text) (v : Value)
      → last_some lib (λ line. object_line lib (trimmed lib line)) lines ≡ some v
      → IsLastObject lines v
  last_some-IsLastObject [] v h = absurd (grind (arith, h))
  last_some-IsLastObject (t ∷ ts) v h =
      go (last_some lib (λ line. object_line lib (trimmed lib line)) ts) refl h
        (λ h. last_some-IsLastObject ts v h)
    where
      go :
          (o : Option Value)
          → last_some lib (λ line. object_line lib (trimmed lib line)) ts ≡ o
          → elim o as (λ o. Option Value) [
            | some a ↦ some a
            | none ↦ object_line lib (trimmed lib t)
          ]
            ≡ some v
          → (o ≡ some v → IsLastObject ts v)
          → IsLastObject (t ∷ ts) v
      go (some a) e h f = let r = f h in (t ∷ r.0, r.1, r.2, (ap (λ l. t ∷ l) r.3.0, r.3.1, r.3.2))
      go none e h f = ([], t, ts, (refl, object_line-IsObjectLine t v h, no_object ts e))
