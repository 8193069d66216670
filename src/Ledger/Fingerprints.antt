-- ===== src/Ledger/Fingerprints.antt =====
-- The fingerprint functions of crates/episcience-db/src/ledger.rs. A fingerprint is its lines; the test for white space is
-- an argument.
use episcience.Base.{ℕ, Bool, false, not, List, [], ◌∷◌, ◌++◌, map, ◌==◌, if◌then◌else◌, keep}
use episcience.Base.Sort.{insert_by, sort_by}
use episcience.Base.Texts.{Text, split, text_le, has_text, starts_with}

-- `str::trim_end`
abbrev pub trim_end : (ℕ → Bool) → Text → Text
trim_end is_whitespace [] = []
trim_end is_whitespace (c ∷ t) = elim (trim_end is_whitespace t) [
  | [] ↦ if is_whitespace c then [] else c ∷ []
  | (d ∷ u) ↦ c ∷ d ∷ u
]

abbrev pub is_line : Text → Bool
is_line [] = false
is_line (c ∷ t) = not (c == b'#')

-- `str::lines` leaves out an empty last line and a carriage return, which the filter and `trim_end` drop anyway.
unfoldable pub parse_fingerprint : (ℕ → Bool) → Text → List Text
unfolding split
parse_fingerprint is_whitespace body =
    sort_by text_le (keep is_line (map (trim_end is_whitespace) (split b'\n' body)))

-- A `BTreeSet`: sorted, and no line twice.
abbrev pub to_set : List Text → List Text
to_set [] = []
to_set (t ∷ ts) = let rest = to_set ts in if has_text rest t then rest else insert_by text_le t rest

abbrev pub difference : List Text → List Text → List Text
difference e l = keep (λ t. not (has_text l t)) e

unfoldable pub fingerprint_diff : List Text → List Text → List Text
fingerprint_diff expected live =
    let e = to_set expected in
    let l = to_set live in
    map (λ t. b'-' ∷ b' ' ∷ t) (difference e l) ++ map (λ t. b'+' ∷ b' ' ∷ t) (difference l e)

-- `starts_with("table ")`
abbrev pub is_table : Text → Bool
is_table line = starts_with line (b't' ∷ b'a' ∷ b'b' ∷ b'l' ∷ b'e' ∷ b' ' ∷ [])
