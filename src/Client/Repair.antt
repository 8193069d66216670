-- ===== src/Client/Repair.antt =====
-- `repair_json` of crates/episcience-api/src/clients/claude_cli.rs: the repair of a model's near-JSON, character by
-- character.
pub mod Escapes
pub mod Steps
pub mod Repairs
use episcience.Base.{
  ℕ, ◌+◌, ◌-◌, ◌/◌, ◌%◌, Bool, true, false, not, ◌&&◌, ◌||◌, Option, none, some, List, [], ◌∷◌,
  ◌++◌, ◌==◌, if◌then◌else◌, ltb,
}
use episcience.Base.Texts.{Text}

-- Where the scan is: `in_string`, `escaped`, and outside strings the last character that is no white space.
pub data Mode : Type 0 where
  outside : Option ℕ → Mode
  inside escaped : Mode

abbrev pub is_json_ws : ℕ → Bool
is_json_ws c = (c == b' ') || (c == b'\t') || (c == b'\n') || (c == b'\r')

-- The next character that is no white space is `}` or `]`.
abbrev pub closes : Text → Bool
closes [] = false
closes (c ∷ t) = let rest = closes t in if is_json_ws c then rest else (c == b'}') || (c == b']')

abbrev pub after_value : Option ℕ → Bool
after_value none = false
after_value (some c) = not ((c == b'{') || (c == b'[') || (c == b',') || (c == b':'))

abbrev pub hex_digit : ℕ → ℕ
hex_digit n = if ltb n 10 then b'0' + n else b'a' + (n - 10)

-- `\n`, `\r`, `\t`, or `\u` with the number in four hex digits, of which the first two are 0 below 0x20.
unfoldable pub escape : ℕ → Text
escape c =
    if c == b'\n'
    then b'\\' ∷ b'n' ∷ []
    else if c == b'\r'
    then b'\\' ∷ b'r' ∷ []
    else if c == b'\t'
    then b'\\' ∷ b't' ∷ []
    else b'\\' ∷ b'u' ∷ b'0' ∷ b'0' ∷ hex_digit (c / 16) ∷ hex_digit (c % 16) ∷ []

-- What one character adds to the output, and the mode behind it; the rest of the text is looked ahead at.
unfoldable pub step : Mode → ℕ → Text → Text × Mode
step escaped c rest = (c ∷ [], inside)
step inside c rest =
    if c == b'\\'
    then (c ∷ [], escaped)
    else if c == b'"'
    then (c ∷ [], outside (some b'"'))
    else if ltb c 32
    then (escape c, inside)
    else (c ∷ [], inside)
step (outside last_sig) c rest =
    if c == b'"'
    then (c ∷ [], inside)
    else if c == b','
    then (if closes rest && after_value last_sig
        then ([], outside last_sig)
        else (c ∷ [], outside (some c)))
    else (c ∷ [], outside (if is_json_ws c then last_sig else some c))

unfoldable pub repair_loop : Mode → Text → Text
unfolding step
repair_loop mode [] = []
repair_loop mode (c ∷ t) = let r = step mode c t in r.0 ++ repair_loop r.1 t

unfoldable pub repair_json : Text → Text
unfolding repair_loop
repair_json text = repair_loop (outside none) text
