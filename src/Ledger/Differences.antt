-- ===== src/Ledger/Differences.antt =====
-- When two fingerprints have no difference.
use episcience.Base.{
  ◌≡◌, ◌↔◌, refl, sym, ◌∙◌, ap, subst, Bool, true, false, not, ◌||◌, List, [], ◌∷◌, ◌++◌, map,
  if◌then◌else◌, arith,
}
use episcience.Base.Sort.{insert_by}
use episcience.Base.Texts.{Text, text_eq, text_eq-same, text_eq-exact, text_le, has_text}
use package.episcience.Ledger.Fingerprints.{to_set, difference, fingerprint_diff}

has_text-insert_by :
    (x t : Text) (ts : List Text)
    → has_text (insert_by text_le t ts) x ≡ (text_eq t x || has_text ts x)
has_text-insert_by x t [] = refl
has_text-insert_by x t (s ∷ ts) = go (text_le t s) (has_text-insert_by x t ts)
  where
    swap : (a b c : Bool) → (b || (a || c)) ≡ (a || (b || c))
    swap true true c = refl
    swap true false c = refl
    swap false true c = refl
    swap false false c = refl

    go :
        (b : Bool)
        → has_text (insert_by text_le t ts) x ≡ (text_eq t x || has_text ts x)
        → has_text (if b then t ∷ s ∷ ts else s ∷ insert_by text_le t ts) x
          ≡ (text_eq t x || (text_eq s x || has_text ts x))
    go true h = refl
    go false h = ap (λ b. text_eq s x || b) h ∙ swap (text_eq t x) (text_eq s x) (has_text ts x)

has_text-to_set : (x : Text) (ts : List Text) → has_text (to_set ts) x ≡ has_text ts x
has_text-to_set x [] = refl
has_text-to_set x (t ∷ ts) = go (has_text (to_set ts) t) refl (has_text-to_set x ts)
  where
    absorbed :
        (b : Bool)
        → text_eq t x ≡ b
        → has_text (to_set ts) t ≡ true
        → has_text (to_set ts) x ≡ (b || has_text (to_set ts) x)
    absorbed true e h = subst (λ y. has_text (to_set ts) y ≡ true) (text_eq-exact t x e) h
    absorbed false e h = refl

    go :
        (b : Bool)
        → has_text (to_set ts) t ≡ b
        → has_text (to_set ts) x ≡ has_text ts x
        → has_text (if b then to_set ts else insert_by text_le t (to_set ts)) x
          ≡ (text_eq t x || has_text ts x)
    go true k h = absorbed (text_eq t x) refl k ∙ ap (λ b. text_eq t x || b) h
    go false k h = has_text-insert_by x t (to_set ts) ∙ ap (λ b. text_eq t x || b) h

-- Nothing is left over exactly if each line of the one is in the other.
difference_none_iff :
    (e l : List Text)
    → (difference e l ≡ []) ↔ ((x : Text) → has_text e x ≡ true → has_text l x ≡ true)
difference_none_iff [] l = (λ h x k. absurd (grind (arith, k)), λ h. refl)
difference_none_iff (t ∷ e) l = go (has_text l t) refl (difference_none_iff e l)
  where
    Covers : List Text → Type 0
    Covers e = (x : Text) → has_text e x ≡ true → has_text l x ≡ true

    member : has_text (t ∷ e) t ≡ true
    member = rw (text_eq-same t) refl

    behind : (x : Text) → has_text e x ≡ true → has_text (t ∷ e) x ≡ true
    behind x k = over (text_eq t x)
      where
        over : (b : Bool) → (b || has_text e x) ≡ true
        over true = refl
        over false = k

    covered : has_text l t ≡ true → Covers e → Covers (t ∷ e)
    covered k c x = here (text_eq t x) refl
      where
        here : (b : Bool) → text_eq t x ≡ b → (b || has_text e x) ≡ true → has_text l x ≡ true
        here true q h = subst (λ y. has_text l y ≡ true) (text_eq-exact t x q) k
        here false q h = c x h

    go :
        (b : Bool)
        → has_text l t ≡ b
        → (difference e l ≡ []) ↔ Covers e
        → ((if not b then t ∷ difference e l else difference e l) ≡ []) ↔ Covers (t ∷ e)
    go true k i = (λ h. covered k (i.0 h), λ c. i.1 (λ x h. c x (behind x h)))
    go false k i = (λ h. absurd (grind (arith, h)), λ c. absurd (grind (arith, k, c t member)))

append_map_none :
    (f g : Text → Text) (xs ys : List Text) → (map f xs ++ map g ys ≡ []) ↔ ((xs ≡ []) × (ys ≡ []))
append_map_none f g [] [] = (λ h. (refl, refl), λ h. refl)
append_map_none f g [] (y ∷ ys) = (λ h. absurd (grind (arith, h)), λ h. absurd (grind (arith, h.1)))
append_map_none f g (x ∷ xs) ys = (λ h. absurd (grind (arith, h)), λ h. absurd (grind (arith, h.0)))

-- For any two fingerprints: their difference is empty exactly if each line is in both or in neither.
pub fingerprint_diff_iff :
    (expected live : List Text)
    → (fingerprint_diff expected live ≡ []) ↔ ((x : Text) → has_text expected x ≡ has_text live x)
unfolding fingerprint_diff
fingerprint_diff_iff expected live = (same, none)
  where
    e : List Text
    e = to_set expected

    l : List Text
    l = to_set live

    Covers : List Text → List Text → Type 0
    Covers a b = (x : Text) → has_text a x ≡ true → has_text b x ≡ true

    equal : (a b : Bool) → (a ≡ true → b ≡ true) → (b ≡ true → a ≡ true) → a ≡ b
    equal true b f g = sym (f refl)
    equal false true f g = g refl
    equal false false f g = refl

    both :
        (map (λ t. b'-' ∷ b' ' ∷ t) (difference e l) ++ map (λ t. b'+' ∷ b' ' ∷ t) (difference l e)
          ≡ [])
        ↔ ((difference e l ≡ []) × (difference l e ≡ []))
    both = append_map_none _ _ (difference e l) (difference l e)

    same : fingerprint_diff expected live ≡ [] → (x : Text) → has_text expected x ≡ has_text live x
    same h x =
        let d = both.0 h in
        sym (has_text-to_set x expected)
        ∙ equal (has_text e x) (has_text l x) ((difference_none_iff e l).0 d.0 x)
            ((difference_none_iff l e).0 d.1 x)
        ∙ has_text-to_set x live

    agree :
        ((x : Text) → has_text expected x ≡ has_text live x)
        → (x : Text) → has_text e x ≡ has_text l x
    agree h x = has_text-to_set x expected ∙ h x ∙ sym (has_text-to_set x live)

    none :
        ((x : Text) → has_text expected x ≡ has_text live x) → fingerprint_diff expected live ≡ []
    none h = both.1 (
      (difference_none_iff e l).1 (λ x k. sym (agree h x) ∙ k),
      (difference_none_iff l e).1 (λ x k. agree h x ∙ k),
    )
