-- ===== src/Client/Pieces.antt =====
-- Parts of a text with what stands before and after them: `trim`, `find`, `rfind`, and the parts in which a JSON value is
-- looked for. The test for white space is an argument.
use episcience.Base.{
  ℕ, Bool, false, ◌||◌, Option, none, some, List, [], ◌∷◌, ◌++◌, ◌==◌, if◌then◌else◌, length, leb,
}
use episcience.Base.Texts.{Text, starts_with}

-- The text before, the part, and the text after it.
pub record Piece : Type 0 where
  pub before : Text
  pub part : Text
  pub after : Text

abbrev pub joined_piece : Piece → Text
joined_piece p = p.before ++ (p.part ++ p.after)

module _ (is_whitespace : ℕ → Bool) where
  -- White space at the front, and the rest.
  abbrev pub front : Text → Text × Text
  front [] = ([], [])
  front (c ∷ t) = let r = front t in if is_whitespace c then (c ∷ r.0, r.1) else ([], c ∷ t)

  abbrev pub add_back : ℕ → Text × Text → Text × Text
  add_back c ([], s) = if is_whitespace c then ([], c ∷ s) else (c ∷ [], s)
  add_back c (d ∷ t, s) = (c ∷ d ∷ t, s)

  -- The text up to the white space at its end, and that.
  abbrev pub back : Text → Text × Text
  back [] = ([], [])
  back (c ∷ t) = add_back c (back t)

  -- `str::trim`
  abbrev pub trim : Piece → Piece
  trim p =
      let f = front p.part in
      let b = back f.1 in record { before = p.before ++ f.0; part = b.0; after = b.1 ++ p.after }

-- `find`, by a token that is not empty: the text before its first occurrence and the text behind it.
abbrev pub drop : Text → Text → Text
drop [] t = t
drop (c ∷ token) [] = []
drop (c ∷ token) (d ∷ t) = drop token t

abbrev pub push_front : ℕ → Option (Text × Text) → Option (Text × Text)
push_front c none = none
push_front c (some r) = some (c ∷ r.0, r.1)

unfoldable pub find : Text → Text → Option (Text × Text)
find token [] = none
find token (c ∷ t) =
    let rest = find token t in
    if starts_with (c ∷ t) token then some ([], drop token (c ∷ t)) else push_front c rest

-- `rfind`, by a character.
unfoldable pub rfind : ℕ → Text → Option (Text × Text)
rfind c [] = none
rfind c (d ∷ t) = elim (rfind c t) [
  | some r ↦ some (d ∷ r.0, r.1)
  | none ↦ if d == c then some ([], t) else none
]

-- The text between two fences, trimmed.
abbrev pub fenced : (ℕ → Bool) → Text → Text → Piece → Option Piece
fenced is_whitespace opener closer p = elim (find opener p.part) [
  | none ↦ none
  | some (b, t) ↦ elim (find closer t) [
    | none ↦ none
    | some (inner, rest) ↦ some (
        trim is_whitespace (record {
          before = p.before ++ (b ++ opener);
          part = inner;
          after = closer ++ (rest ++ p.after);
        }))
  ]
]

abbrev pub opens : Text → Bool
opens [] = false
opens (c ∷ t) = (c == b'[') || (c == b'{')

abbrev pub fence : Text
fence = b'`' ∷ b'`' ∷ b'`' ∷ []

abbrev pub json_fence : Text
json_fence = b'`' ∷ b'`' ∷ b'`' ∷ b'j' ∷ b's' ∷ b'o' ∷ b'n' ∷ []

-- The second fence counts only before an opening bracket.
abbrev pub plain_fenced : Piece → Option Piece → Piece
plain_fenced p none = p
plain_fenced p (some q) = if opens q.part then q else p

abbrev pub first_fenced : Piece → Option Piece → Option Piece → Piece
first_fenced p (some q) o = q
first_fenced p none o = plain_fenced p o

unfoldable pub extract_json_from_text : (ℕ → Bool) → Text → Piece
unfolding find
extract_json_from_text is_whitespace text =
    let p = trim is_whitespace (record { before = []; part = text; after = [] }) in
    first_fenced p (fenced is_whitespace json_fence fence p) (fenced is_whitespace fence fence p)

-- From the first opening bracket to the last closing one, which is behind it.
abbrev pub bracket_span : ℕ → ℕ → Text → Option Piece
bracket_span opener closer text = elim (find (opener ∷ []) text) [
  | none ↦ none
  | some (b, t) ↦ elim (rfind closer t) [
    | none ↦ none
    | some (inner, rest) ↦
        some (record { before = b; part = opener ∷ (inner ++ closer ∷ []); after = rest })
  ]
]

abbrev pub by_start : Option Piece → Option Piece → List Piece
by_start none none = []
by_start none (some q) = q ∷ []
by_start (some p) none = p ∷ []
by_start (some p) (some q) =
    if leb (length p.before) (length q.before) then p ∷ q ∷ [] else q ∷ p ∷ []

unfoldable pub bracket_spans : Text → List Piece
unfolding find rfind
bracket_spans text = by_start (bracket_span b'{' b'}' text) (bracket_span b'[' b']' text)
