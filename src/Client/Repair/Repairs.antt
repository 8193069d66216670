-- ===== src/Client/Repair/Repairs.antt =====
-- What a repair leaves, and what it changes.
use episcience.Base.{
  ◌≡◌, refl, sym, ◌∙◌, ap, subst, ℕ, ◌<◌, Bool, true, false, not, ◌&&◌, Option, none, some, [], ◌∷◌,
  ◌++◌, ◌==◌, if◌then◌else◌, inl, inr, arith,
}
use episcience.Base.Texts.{Text}
use package.episcience.Client.Repair.{
  Mode, outside, inside, escaped, escape, repair_loop, repair_json,
}
use package.episcience.Client.Repair.Escapes.{unescape, unescape-escape}
use package.episcience.Client.Repair.Steps.{
  is_blank, before_closer, behind_value, next, is_sound, is_clean, kept, content, is_clean-escape,
  content-escape, Keeps, View, no_quote, comma_no_quote, below, no_ws, view, repair_loop-step,
}

ws_no_quote : (c : ℕ) → is_blank c ≡ true → (c == b'"') ≡ false
ws_no_quote c h = ground arith

and_false : (a b : Bool) → b ≡ false → (a && b) ≡ false
and_false true b h = h
and_false false b h = refl

-- Behind no value, no comma is dropped before the next character.
closes-repair_loop :
    (last : Option ℕ) (t : Text)
    → behind_value last ≡ false
    → before_closer (repair_loop (outside last) t) ≡ before_closer t
unfolding repair_loop View
closes-repair_loop last [] h = refl
closes-repair_loop last (c ∷ t) h =
    go (view (outside last) c t) (is_blank c) refl (closes-repair_loop last t h)
  where
    same :
        (b : Bool)
        → is_blank c ≡ b
        → before_closer (repair_loop (outside last) t) ≡ before_closer t
        → before_closer (c ∷ repair_loop (next (outside last) c) t) ≡ before_closer (c ∷ t)
    same true k i = rw (ws_no_quote c k, k) i
    same false k i = rw k refl

    go :
        View (outside last) c t
        → (b : Bool) → is_blank c ≡ b
        → before_closer (repair_loop (outside last) t) ≡ before_closer t
        → before_closer (repair_loop (outside last) (c ∷ t)) ≡ before_closer (c ∷ t)
    go (inl v) b k i = ap before_closer (repair_loop-step (outside last) c t _ v.0) ∙ same b k i
    go (inr v) b k i =
        absurd (grind (arith, v.2, and_false (before_closer t) (behind_value last) h))

comma_no_value : (c : ℕ) → (c == b',') ≡ true → behind_value (some c) ≡ false
comma_no_value c h = ground arith

-- A character stays sound when the rest is repaired.
is_sound-repair_loop :
    (m : Mode) (c : ℕ) (t : Text)
    → is_sound m c t ≡ true
    → is_sound m c (repair_loop (next m c) t) ≡ true
is_sound-repair_loop escaped c t h = refl
is_sound-repair_loop inside c t h = h
is_sound-repair_loop (outside last) c t h = go (c == b',') refl (c == b'"') refl h
  where
    go :
        (b : Bool)
        → (c == b',') ≡ b
        → (a : Bool) → (c == b'"') ≡ a
        → not (b && (before_closer t && behind_value last)) ≡ true
        → not (b && (before_closer (repair_loop (next (outside last) c) t) && behind_value last))
          ≡ true
    go false k a q h = refl
    go true k true q h = absurd (grind (arith, k, no_quote c q))
    go true k false q h = rw (q, no_ws c k, closes-repair_loop (some c) t (comma_no_value c k)) h

and_split : (a b : Bool) → (a && b) ≡ true → (a ≡ true) × (b ≡ true)
and_split true b h = (refl, h)
and_split false b h = absurd (grind (arith, h))

and_join : (a b : Bool) → a ≡ true → b ≡ true → (a && b) ≡ true
and_join a b h k = rw h k

is_clean-repair_loop : (m : Mode) (t : Text) → is_clean m (repair_loop m t) ≡ true
unfolding repair_loop View
is_clean-repair_loop m [] = refl
is_clean-repair_loop m (c ∷ t) = go m (view m c t) λ m. is_clean-repair_loop m t
  where
    Clean : Mode → Text → Type 0
    Clean m o = is_clean m o ≡ true

    keeps :
        (m : Mode)
        → Keeps m c t
        → Clean (next m c) (repair_loop (next m c) t)
        → Clean m (repair_loop m (c ∷ t))
    keeps m k i =
        subst (Clean m) (sym (repair_loop-step m c t _ k.0))
          (and_join _ _ (is_sound-repair_loop m c t k.1) i)

    go :
        (m : Mode)
        → View m c t
        → ((m : Mode) → Clean m (repair_loop m t))
        → Clean m (repair_loop m (c ∷ t))
    go escaped v i = keeps escaped v (i _)
    go inside (inl v) i = keeps inside v (i _)
    go inside (inr v) i =
        subst (Clean inside) (sym (repair_loop-step inside c t _ v.0))
          (is_clean-escape c (repair_loop inside t) (below c v.1) ∙ i inside)
    go (outside last) (inl v) i = keeps (outside last) v (i _)
    go (outside last) (inr v) i =
        subst (Clean (outside last)) (sym (repair_loop-step (outside last) c t _ v.0))
          (i (outside last))

repair_loop-clean : (m : Mode) (t : Text) → is_clean m t ≡ true → repair_loop m t ≡ t
unfolding repair_loop View
repair_loop-clean m [] h = refl
repair_loop-clean m (c ∷ t) h =
    go m (view m c t) (and_split _ _ h).0 (repair_loop-clean (next m c) t (and_split _ _ h).1)
  where
    keeps : (m : Mode) → Keeps m c t → repair_loop (next m c) t ≡ t → repair_loop m (c ∷ t) ≡ c ∷ t
    keeps m k i = repair_loop-step m c t _ k.0 ∙ ap (λ o. c ∷ o) i

    go :
        (m : Mode)
        → View m c t
        → is_sound m c t ≡ true
        → repair_loop (next m c) t ≡ t
        → repair_loop m (c ∷ t) ≡ c ∷ t
    go escaped v s i = keeps escaped v i
    go inside (inl v) s i = keeps inside v i
    go inside (inr v) s i = absurd (grind (arith, s, v.1))
    go (outside last) (inl v) s i = keeps (outside last) v i
    go (outside last) (inr v) s i = absurd (grind (arith, s, v.1, v.2))

-- What is kept does not depend on what stood before.
content-outside : (a b : Option ℕ) (t : Text) → content (outside a) t ≡ content (outside b) t
content-outside a b [] = refl
content-outside a b (c ∷ t) = go (c == b'"') (is_blank c) (content-outside a b t)
  where
    go :
        (q w : Bool)
        → content (outside a) t ≡ content (outside b) t
        → kept (outside a) c ++ content (if q then inside else outside (if w then a else some c)) t
          ≡ kept (outside b) c
            ++ content (if q then inside else outside (if w then b else some c)) t
    go true w i = refl
    go false true i = ap (λ o. kept (outside a) c ++ o) i
    go false false i = refl

content-repair_loop : (m : Mode) (t : Text) → content m (repair_loop m t) ≡ content m t
unfolding repair_loop View
content-repair_loop m [] = refl
content-repair_loop m (c ∷ t) = go m (view m c t) λ m. content-repair_loop m t
  where
    Same : Mode → Type 0
    Same m = content m (repair_loop m t) ≡ content m t

    keeps :
        (m : Mode)
        → Keeps m c t
        → Same (next m c)
        → content m (repair_loop m (c ∷ t)) ≡ content m (c ∷ t)
    keeps m k i = ap (content m) (repair_loop-step m c t _ k.0) ∙ ap (λ o. kept m c ++ o) i

    go :
        (m : Mode)
        → View m c t
        → ((m : Mode) → Same m)
        → content m (repair_loop m (c ∷ t)) ≡ content m (c ∷ t)
    go escaped v i = keeps escaped v (i _)
    go inside (inl v) i = keeps inside v (i _)
    go inside (inr v) i =
        ap (content inside) (repair_loop-step inside c t _ v.0)
        ∙ content-escape c (repair_loop inside t) (below c v.1)
        ∙ ap (λ o. escape c ++ o) (i inside)
        ∙ rw (v.1, v.2) refl
    go (outside last) (inl v) i = keeps (outside last) v (i _)
    go (outside last) (inr v) i =
        ap (content (outside last)) (repair_loop-step (outside last) c t _ v.0)
        ∙ i (outside last)
        ∙ content-outside last (some c) t
        ∙ rw (v.1, comma_no_quote c v.1, no_ws c v.1) refl

-- For any text: a repaired text has no control character in a string but directly behind a backslash, and no comma that
-- stands before a closing bracket and behind anything but an opening bracket, a comma, a colon or nothing; a text that
-- has neither is not changed, so a second repair changes nothing; the text and its repair are the same text once the
-- commas outside strings are left out and the control characters in strings, not behind a backslash, are written as
-- their escapes; and JSON reads the escape of a control character as that character.
pub repair_json-Repairs :
    (text : Text)
    → (is_clean (outside none) (repair_json text) ≡ true)
      × (is_clean (outside none) text ≡ true → repair_json text ≡ text)
      × (repair_json (repair_json text) ≡ repair_json text)
      × (content (outside none) (repair_json text) ≡ content (outside none) text)
      × ((c : ℕ) → c < 32 → unescape (escape c) ≡ some c)
unfolding repair_json
repair_json-Repairs text = (
  is_clean-repair_loop (outside none) text,
  repair_loop-clean (outside none) text,
  repair_loop-clean (outside none) (repair_loop (outside none) text)
      (is_clean-repair_loop (outside none) text),
  content-repair_loop (outside none) text,
  unescape-escape,
)
