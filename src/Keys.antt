-- ===== src/Keys.antt =====
-- crates/episcience-core/src/wiki/key.rs: the identity of a wiki page and its place in a URL. The printing and parsing of
-- an identifier and the reads of a JSON value are arguments; an `i64` is an integer, with its bounds where it is parsed.
pub mod Digits
pub mod Slugs
pub mod Titles
use Prim.Native.String.{String}
use episcience.Base.{
  ◌≡◌, ℕ, zero, suc, ◌+◌, ◌-◌, ◌*◌, ◌/◌, ◌%◌, ◌^◌, Bool, true, false, not, ◌&&◌, ◌||◌, Option, none,
  some, List, [], ◌∷◌, ◌++◌, Uuid, ◌==◌, if◌then◌else◌, ltb, leb, length,
}
use episcience.Base.Results.{bind_some}
use episcience.Base.Texts.{Text, text_eq, strip_prefix, split}

-- `pos n` is n, `negsuc n` is -(n + 1).
pub data ℤ : Type 0 where
  pos negsuc : ℕ → ℤ

pub record WikiKey : Type 0 where
  pub run_id : Uuid
  pub cluster_id : ℤ
  pub split_part : Option ℤ

-- A number in decimal, with fuel for its digits.
unfoldable pub decimal : ℕ → ℕ → Text
decimal zero n = (b'0' + n) ∷ []
decimal (suc fuel) n =
    let front = decimal fuel (n / 10) in
    if ltb n 10 then (b'0' + n) ∷ [] else front ++ (b'0' + n % 10) ∷ []

abbrev pub print_ℕ : ℕ → Text
print_ℕ n = decimal n n

abbrev pub print_ℤ : ℤ → Text
print_ℤ (pos n) = print_ℕ n
print_ℤ (negsuc n) = b'-' ∷ print_ℕ (suc n)

abbrev pub is_digit : ℕ → Bool
is_digit c = leb b'0' c && leb c b'9'

-- `is_ascii_digit() || (b'a'..=b'f').contains(&b)`
abbrev pub is_hex : ℕ → Bool
is_hex c = is_digit c || (leb b'a' c && leb c b'f')

abbrev pub every : (ℕ → Bool) → Text → Bool
every p [] = true
every p (c ∷ t) = p c && every p t

-- The value of a text of digits, behind a number.
unfoldable pub value : ℕ → Text → ℕ
value n [] = n
value n (c ∷ t) = value (n * 10 + (c - b'0')) t

abbrev pub is_empty : Text → Bool
is_empty [] = true
is_empty (c ∷ t) = false

abbrev pub max_i64 : ℕ
max_i64 = 2 ^ 63 - 1

-- The closure `digits`, with `str::parse::<i64>`.
unfoldable pub digits : Text → Option ℤ
unfolding value
digits t =
    if is_empty t || not (every is_digit t)
    then none
    else if leb (value 0 t) max_i64
    then some (pos (value 0 t))
    else none

-- The two formats, with the printed run.
abbrev pub slug : Text → ℤ → Option ℤ → Text
slug run cluster_id none = b'r' ∷ (run ++ (b'-' ∷ b'c' ∷ print_ℤ cluster_id))
slug run cluster_id (some s) =
    b'r' ∷ (run ++ (b'-' ∷ b'c' ∷ (print_ℤ cluster_id ++ (b'-' ∷ b's' ∷ print_ℤ s))))

module _ (simple : Uuid → Text) where
  unfoldable pub as_slug : WikiKey → Text
  as_slug k = slug (simple k.run_id) k.cluster_id k.split_part

  module _ (parse_str : Text → Option Uuid) where
    -- The check and the parsing of the run, behind the numbers.
    abbrev pub with_run : Text → ℤ → Option ℤ → Option WikiKey
    with_run run cluster_id split_part =
        if not (length run == 32) || not (every is_hex run)
        then none
        else bind_some (parse_str run)
            λ id. some (record { run_id = id; cluster_id = cluster_id; split_part = split_part })

    -- The key of the parts between the dashes.
    unfoldable pub parse_parts : List Text → Option WikiKey
    unfolding strip_prefix digits
    parse_parts (run ∷ c ∷ []) =
        bind_some (bind_some (strip_prefix b'c' c) digits) λ n. with_run run n none
    parse_parts (run ∷ c ∷ s ∷ []) =
        bind_some (bind_some (strip_prefix b'c' c) digits)
          λ n. bind_some (bind_some (strip_prefix b's' s) digits) λ m. with_run run n (some m)
    parse_parts parts = none

    unfoldable pub parse_slug : Text → Option WikiKey
    unfolding as_slug parse_parts split
    parse_slug s = bind_some (strip_prefix b'r' s) λ rest.
        bind_some (parse_parts (split b'-' rest))
          λ k. if text_eq (as_slug k) s then some k else none

-- What `from_properties` asks of a JSON value.
pub record Properties (V : Type 0) : Type 0 where
  pub get : V → String → Option V
  pub as_str : V → Option Text
  pub as_i64 : V → Option ℤ
  pub is_null : V → Bool

-- `filter(|n| *n >= 0)`
abbrev pub nonnegative : ℤ → Option ℤ
nonnegative (pos n) = some (pos n)
nonnegative (negsuc n) = none

module _ {V : Type 0} (json : Properties V) where
  abbrev pub read_split : Option V → Option (Option ℤ)
  read_split none = some none
  read_split (some v) =
      if json.is_null v
      then some none
      else bind_some (bind_some (json.as_i64 v) nonnegative) λ n. some (some n)

  unfoldable pub from_properties : (Text → Option Uuid) → V → Option WikiKey
  from_properties parse_str p =
      bind_some (bind_some (bind_some (json.get p "cluster_run_id") json.as_str) parse_str) λ run.
        bind_some (bind_some (bind_some (json.get p "cluster_id") json.as_i64) nonnegative)
          λ cluster.
            bind_some (read_split (json.get p "split_part"))
              λ part. some (record { run_id = run; cluster_id = cluster; split_part = part })

-- `article_query`, with `str::trim`, and `title_from_query`
unfoldable pub article_query : (Text → Bool) → Text → Text → Text
article_query is_blank label description =
    if is_blank description then label else label ++ (b'\n' ∷ b'\n' ∷ description)

unfoldable pub title_from_query : Text → Text
title_from_query [] = []
title_from_query (c ∷ t) = let rest = title_from_query t in if c == b'\n' then [] else c ∷ rest
