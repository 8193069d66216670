-- ===== src/Keys/Titles.antt =====
-- What the properties of a theme make of a page: a key that its URL gives back, and a title.
use mathlib.Core.Option.{some-injective}
use episcience.Base.{
  ◌≡◌, refl, ap, subst, ℕ, ◌≤◌, Bool, true, false, Option, none, some, [], ◌∷◌, ◌++◌, Uuid,
  if◌then◌else◌, length, arith,
}
use episcience.Base.Results.{bind_some, bind_some_iff}
use episcience.Base.Texts.{Text, IsPlain}
use package.episcience.Keys.{
  ℤ, pos, negsuc, WikiKey, Properties, nonnegative, read_split, from_properties, is_hex, every,
  max_i64, as_slug, parse_slug, article_query, title_from_query,
}
use package.episcience.Keys.Digits.{InRange}
use package.episcience.Keys.Slugs.{SplitInRange, IsKey, parse_slug_iff}

module _ {V : Type 0} (json : Properties V) (parse_str : Text → Option Uuid)
    (bounded : (v : V) (n : ℕ) → json.as_i64 v ≡ some (pos n) → n ≤ max_i64) where
  nonnegative-InRange : (v : V) (n : ℤ) → bind_some (json.as_i64 v) nonnegative ≡ some n → InRange n
  nonnegative-InRange v n h =
      let p = (bind_some_iff (json.as_i64 v) nonnegative n).0 h in read p.0 p.1.0 p.1.1
    where
      read : (m : ℤ) → json.as_i64 v ≡ some m → nonnegative m ≡ some n → InRange n
      read (pos m) e k = subst InRange (some-injective (pos m) n k) (bounded v m e)
      read (negsuc m) e k = absurd (grind (arith, k))

  field-InRange :
      (o : Option V) (n : ℤ) → bind_some (bind_some o json.as_i64) nonnegative ≡ some n → InRange n
  field-InRange none n h = absurd (grind (arith, h))
  field-InRange (some v) n h = nonnegative-InRange v n h

  read_split-SplitInRange :
      (o : Option V) (part : Option ℤ) → read_split json o ≡ some part → SplitInRange part
  read_split-SplitInRange none part h = subst SplitInRange (some-injective none part h) tt
  read_split-SplitInRange (some v) part h = go (json.is_null v) h
    where
      go :
          (b : Bool)
          → (if b
              then some none
              else bind_some (bind_some (json.as_i64 v) nonnegative) λ n. some (some n))
            ≡ some part
          → SplitInRange part
      go true h = subst SplitInRange (some-injective none part h) tt
      go false h =
          let p = (bind_some_iff (bind_some (json.as_i64 v) nonnegative) _ part).0 h in
          subst SplitInRange (some-injective (some p.0) part p.1.1)
            (nonnegative-InRange v p.0 p.1.0)

  from_properties-IsKey :
      (p : V) (k : WikiKey) → from_properties json parse_str p ≡ some k → IsKey k
  unfolding from_properties
  from_properties-IsKey p k h =
      let run =
        (bind_some_iff (bind_some (bind_some (json.get p "cluster_run_id") json.as_str) parse_str) _
            k).0
          h in
      let cluster =
        (bind_some_iff (bind_some (bind_some (json.get p "cluster_id") json.as_i64) nonnegative) _
            k).0
          run.1.1 in
      let part = (bind_some_iff (read_split json (json.get p "split_part")) _ k).0 cluster.1.1 in
      subst IsKey (some-injective _ k part.1.1) (
        field-InRange (json.get p "cluster_id") cluster.0 cluster.1.0,
        read_split-SplitInRange (json.get p "split_part") part.0 part.1.0,
      )

  -- If a JSON integer fits into an `i64`: a key that the properties of a theme give, whose run is printed as 32 lowercase
  -- hex digits that are parsed as that run, is read back from its slug.
  pub from_properties-parse_slug :
      (simple : Uuid → Text) (p : V) (k : WikiKey) (hex : every is_hex (simple k.run_id) ≡ true)
      (len : length (simple k.run_id) ≡ 32) (back : parse_str (simple k.run_id) ≡ some k.run_id)
      (given : from_properties json parse_str p ≡ some k)
      → parse_slug simple parse_str (as_slug simple k) ≡ some k
  from_properties-parse_slug simple p k hex len back given =
      (parse_slug_iff simple parse_str k hex len back (as_slug simple k)).1
        (refl, from_properties-IsKey p k given)

-- The title of an article's query is the label, if the label has no line break.
pub title_from_query-article_query :
    (is_blank : Text → Bool) (label description : Text)
    → IsPlain b'\n' label
    → title_from_query (article_query is_blank label description) ≡ label
unfolding article_query title_from_query
title_from_query-article_query is_blank label description h = go (is_blank description)
  where
    whole : (t : Text) → IsPlain b'\n' t → title_from_query t ≡ t
    whole [] h = refl
    whole (c ∷ t) h = rw h.0 (ap (λ l. c ∷ l) (whole t h.1))

    line : (t rest : Text) → IsPlain b'\n' t → title_from_query (t ++ (b'\n' ∷ rest)) ≡ t
    line [] rest h = refl
    line (c ∷ t) rest h = rw h.0 (ap (λ l. c ∷ l) (line t rest h.1))

    go :
        (b : Bool)
        → title_from_query (if b then label else label ++ (b'\n' ∷ b'\n' ∷ description)) ≡ label
    go true = whole label h
    go false = line label (b'\n' ∷ description) h
