-- ===== src/Keys/Slugs.antt =====
-- A page has exactly one URL: which texts are read as which key.
use mathlib.Core.Option.{some-injective}
use episcience.Base.{
  ◌≡◌, ◌↔◌, refl, sym, ◌∙◌, ap, subst, ℕ, ◌==◌, Bool, true, false, not, ◌||◌, Option, none, some,
  List, [], ◌∷◌, Uuid, if◌then◌else◌, length, arith,
}
use episcience.Base.Results.{bind_some, bind_some_iff}
use episcience.Base.Texts.{
  text_eq, text_eq-same, text_eq-exact, Text, IsPlain, strip_prefix, split, split-joined,
}
use package.episcience.Keys.{
  ℤ, WikiKey, print_ℤ, is_hex, every, digits, slug, as_slug, with_run, parse_parts, parse_slug,
}
use package.episcience.Keys.Digits.{
  InRange, digits-print, digits-InRange, every-IsPlain, hex-no_dash, print-IsPlain,
}

bind_some_assoc :
    {A B C : Type 0} (m : Option A) (f : A → Option B) (g : B → Option C)
    → bind_some m (λ a. bind_some (f a) g) ≡ bind_some (bind_some m f) g
bind_some_assoc none f g = refl
bind_some_assoc (some a) f g = refl

abbrev pub SplitInRange : Option ℤ → Type 0
SplitInRange none = Unit
SplitInRange (some n) = InRange n

-- Numbers that are not negative and fit into an `i64`.
abbrev pub IsKey : WikiKey → Type 0
IsKey k = InRange k.cluster_id × SplitInRange k.split_part

number-InRange :
    (c : ℕ) (t : Text) (n : ℤ) → bind_some (strip_prefix c t) digits ≡ some n → InRange n
number-InRange c t n h =
    let p = (bind_some_iff (strip_prefix c t) digits n).0 h in digits-InRange p.0 n p.1.1

module _ (simple : Uuid → Text) (parse_str : Text → Option Uuid) where
  with_run-numbers :
      (run : Text) (c : ℤ) (o : Option ℤ) (k : WikiKey)
      → with_run simple parse_str run c o ≡ some k
      → (c ≡ k.cluster_id) × (o ≡ k.split_part)
  with_run-numbers run c o k = go (not (length run == 32) || not (every is_hex run)) (parse_str run)
    where
      go :
          (b : Bool) (p : Option Uuid)
          → (if b
              then none
              else bind_some p λ id. some (record { run_id = id; cluster_id = c; split_part = o }))
            ≡ some k
          → (c ≡ k.cluster_id) × (o ≡ k.split_part)
      go true p h = absurd (grind (arith, h))
      go false none h = absurd (grind (arith, h))
      go false (some id) h =
          let e = some-injective _ k h in
          (ap (λ (k : WikiKey). k.cluster_id) e, ap (λ (k : WikiKey). k.split_part) e)

  parse_parts-IsKey :
      (parts : List Text) (k : WikiKey) → parse_parts simple parse_str parts ≡ some k → IsKey k
  unfolding parse_parts
  parse_parts-IsKey [] k h = absurd (grind (arith, h))
  parse_parts-IsKey (run ∷ []) k h = absurd (grind (arith, h))
  parse_parts-IsKey (run ∷ c ∷ []) k h =
      let n = (bind_some_iff (bind_some (strip_prefix b'c' c) digits) _ k).0 h in
      let e = with_run-numbers run n.0 none k n.1.1 in
      (subst InRange e.0 (number-InRange b'c' c n.0 n.1.0), subst SplitInRange e.1 tt)
  parse_parts-IsKey (run ∷ c ∷ s ∷ []) k h =
      let n = (bind_some_iff (bind_some (strip_prefix b'c' c) digits) _ k).0 h in
      let m = (bind_some_iff (bind_some (strip_prefix b's' s) digits) _ k).0 n.1.1 in
      let e = with_run-numbers run n.0 (some m.0) k m.1.1 in
      (
        subst InRange e.0 (number-InRange b'c' c n.0 n.1.0),
        subst SplitInRange e.1 (number-InRange b's' s m.0 m.1.0),
      )
  parse_parts-IsKey (run ∷ c ∷ s ∷ t ∷ parts) k h = absurd (grind (arith, h))

  only_slug :
      (s : Text) (k : WikiKey)
      → parse_slug simple parse_str s ≡ some k
      → (s ≡ as_slug simple k) × IsKey k
  unfolding parse_slug
  only_slug s k h =
      let p = (bind_some_iff (strip_prefix b'r' s) _ k).0 h in
      let q = (bind_some_iff (parse_parts simple parse_str (split b'-' p.0)) _ k).0 p.1.1 in
      chosen q.0 (parse_parts-IsKey (split b'-' p.0) q.0 q.1.0) (text_eq (as_slug simple q.0) s)
        refl q.1.1
    where
      chosen :
          (k' : WikiKey)
          → IsKey k'
          → (b : Bool) → text_eq (as_slug simple k') s ≡ b
          → (if b then some k' else none) ≡ some k
          → (s ≡ as_slug simple k) × IsKey k
      chosen k' i true e h =
          let same = some-injective k' k h in
          (
            sym (text_eq-exact (as_slug simple k') s e) ∙ ap (as_slug simple) same,
            subst IsKey same i,
          )
      chosen k' i false e h = absurd (grind (arith, h))

  -- The key's own identifier, as the library prints and parses it: 32 digits, read back.
  module _ (k : WikiKey) (hex : every is_hex (simple k.run_id) ≡ true)
      (len : length (simple k.run_id) ≡ 32)
      (back : parse_str (simple k.run_id) ≡ some k.run_id) where
    simple-IsPlain : IsPlain b'-' (simple k.run_id)
    simple-IsPlain = every-IsPlain is_hex hex-no_dash (simple k.run_id) hex

    read_back :
        (o : Option ℤ)
        → InRange k.cluster_id
        → SplitInRange o
        → bind_some
            (strip_prefix b'r' (slug (simple k.run_id) k.cluster_id o))
            (λ rest. parse_parts simple parse_str (split b'-' rest))
          ≡ some (record { run_id = k.run_id; cluster_id = k.cluster_id; split_part = o })
    unfolding parse_parts strip_prefix
    read_back none h u =
        ap (parse_parts simple parse_str) (
          split-joined b'-' (simple k.run_id) ((b'c' ∷ print_ℤ k.cluster_id) ∷ [])
            (simple-IsPlain, ((refl, print-IsPlain k.cluster_id h), tt)))
        ∙ rw (digits-print k.cluster_id h, len, hex, back) refl
    read_back (some m) h u =
        ap (parse_parts simple parse_str) (
          split-joined b'-' (simple k.run_id)
            ((b'c' ∷ print_ℤ k.cluster_id) ∷ (b's' ∷ print_ℤ m) ∷ [])
            (
              simple-IsPlain,
              ((refl, print-IsPlain k.cluster_id h), ((refl, print-IsPlain m u), tt)),
            ))
        ∙ rw (digits-print k.cluster_id h, digits-print m u, len, hex, back) refl

    slug_read : IsKey k → parse_slug simple parse_str (as_slug simple k) ≡ some k
    unfolding parse_slug as_slug
    slug_read i =
        bind_some_assoc (strip_prefix b'r' (as_slug simple k))
          (λ rest. parse_parts simple parse_str (split b'-' rest)) _
        ∙ ap
            (λ o.
              bind_some o
                λ k'. if text_eq (as_slug simple k') (as_slug simple k) then some k' else none)
            (read_back k.split_part i.0 i.1)
        ∙ rw (text_eq-same (as_slug simple k)) refl

    -- If a key's run is printed as 32 lowercase hex digits that are parsed as that run: a text is read as the key exactly
    -- if it is the key's slug and the key's numbers are not negative and fit into an `i64`.
    pub parse_slug_iff :
        (s : Text) → (parse_slug simple parse_str s ≡ some k) ↔ ((s ≡ as_slug simple k) × IsKey k)
    parse_slug_iff s = (only_slug s k, λ h. ap (parse_slug simple parse_str) h.0 ∙ slug_read h.1)
