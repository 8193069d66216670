-- ===== src/Tests/Pages.antt =====
-- Examples of wiki keys. A run of these examples is a digit, printed behind 31 zeros.
use text.Mathlib.Text.{◌==◌ as str_eq}
use episcience.Base.{
  ◌≡◌, ◌↔◌, refl, ℕ, zero, suc, ◌+◌, ◌≤◌, Bool, true, false, Option, none, some, [], ◌∷◌, ◌++◌,
  Uuid, ◌==◌, if◌then◌else◌, leb, arith,
}
use episcience.Base.Texts.{Text}
use episcience.Keys.{
  pos, WikiKey, Properties, value, decimal, max_i64, as_slug, parse_slug, from_properties,
}
use episcience.Keys.Slugs.{IsKey, parse_slug_iff}
use episcience.Keys.Titles.{from_properties-parse_slug}

abbrev zeros : ℕ → Text
zeros zero = []
zeros (suc n) = b'0' ∷ zeros n

abbrev simple : Uuid → Text
simple id = zeros 31 ++ (b'0' + id) ∷ []

abbrev parse_str : Text → Option Uuid
unfolding value
parse_str t = some (value 0 t)

abbrev key : WikiKey
key = record { run_id = 7; cluster_id = pos 197; split_part = some (pos 1) }

back : parse_str (simple 7) ≡ some 7
unfolding value
back = refl

parse_slug_example :
    (parse_slug simple parse_str (as_slug simple key) ≡ some key)
    ↔ ((as_slug simple key ≡ as_slug simple key) × IsKey key)
parse_slug_example = parse_slug_iff simple parse_str key refl refl back (as_slug simple key)

-- `c0197` is no canonical number.
abbrev spelled : Text
spelled = b'r' ∷ (simple 7 ++ (b'-' ∷ b'c' ∷ b'0' ∷ b'1' ∷ []))

spelled_otherwise : parse_slug simple parse_str spelled ≡ none
unfolding parse_slug decimal
spelled_otherwise = refl

-- An object is 0, its run 1, other numbers are themselves.
abbrev json : Properties ℕ
json = record {
  get = λ v name.
      if str_eq name "cluster_run_id"
      then some 1
      else if str_eq name "cluster_id"
      then some 197
      else none;
  as_str = λ v. if v == 1 then some (simple 7) else none;
  as_i64 = λ v. if leb v 1000 then some (pos v) else none;
  is_null = λ v. false;
}

small : (v : ℕ) → leb v 1000 ≡ true → v ≤ 1000
small v h = ground arith

bounded : (v n : ℕ) → json.as_i64 v ≡ some (pos n) → n ≤ max_i64
bounded v n = go (leb v 1000) refl
  where
    go :
        (b : Bool)
        → leb v 1000 ≡ b
        → (if b then some (pos v) else none) ≡ some (pos n)
        → n ≤ max_i64
    go true k h = grind (arith, small v k, h)
    go false k h = absurd (grind (arith, h))

abbrev unsplit : WikiKey
unsplit = record { run_id = 7; cluster_id = pos 197; split_part = none }

given : from_properties json parse_str 0 ≡ some unsplit
unfolding from_properties value
given = refl

from_properties_example : parse_slug simple parse_str (as_slug simple unsplit) ≡ some unsplit
from_properties_example =
    from_properties-parse_slug json parse_str bounded simple 0 unsplit refl refl back given
