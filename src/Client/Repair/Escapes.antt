-- ===== src/Client/Repair/Escapes.antt =====
-- What JSON reads an escape as.
use episcience.Base.{
  ◌≡◌, refl, ap, ℕ, ◌+◌, ◌-◌, ◌*◌, ◌/◌, ◌%◌, ◌<◌, Bool, true, false, ◌&&◌, Option, none, some, [],
  ◌∷◌, ◌==◌, ==_iff, if◌then◌else◌, ltb, arith,
}
use episcience.Base.Texts.{Text}
use package.episcience.Client.Repair.{hex_digit, escape}

abbrev letter : ℕ → Option ℕ
letter c =
    if c == b'b'
    then some 8
    else if c == b't'
    then some 9
    else if c == b'n'
    then some 10
    else if c == b'f'
    then some 12
    else if c == b'r'
    then some 13
    else none

abbrev digit : ℕ → ℕ
digit c = if ltb c b'a' then c - b'0' else c - b'a' + 10

-- The character that an escape of one letter, or of four hex digits, stands for.
abbrev pub unescape : Text → Option ℕ
unescape (b ∷ l ∷ []) = if b == b'\\' then letter l else none
unescape (b ∷ u ∷ p ∷ q ∷ r ∷ s ∷ []) =
    if (b == b'\\') && (u == b'u')
    then some (((digit p * 16 + digit q) * 16 + digit r) * 16 + digit s)
    else none
unescape t = none

digit-hex_digit : (n : ℕ) → n < 16 → digit (hex_digit n) ≡ n
digit-hex_digit n h = ground arith

pub unescape-escape : (c : ℕ) → c < 32 → unescape (escape c) ≡ some c
unfolding escape
unescape-escape c h = go (c == b'\n') (c == b'\r') (c == b'\t') refl refl refl
  where
    two : (0 + digit (hex_digit (c / 16))) * 16 + digit (hex_digit (c % 16)) ≡ c
    two =
        rw (digit-hex_digit (c / 16) (omega arith), digit-hex_digit (c % 16) (omega arith))
          (omega arith)

    go :
        (n r b : Bool)
        → (c == b'\n') ≡ n
        → (c == b'\r') ≡ r
        → (c == b'\t') ≡ b
        → unescape (
            if n
            then b'\\' ∷ b'n' ∷ []
            else if r
            then b'\\' ∷ b'r' ∷ []
            else if b
            then b'\\' ∷ b't' ∷ []
            else b'\\' ∷ b'u' ∷ b'0' ∷ b'0' ∷ hex_digit (c / 16) ∷ hex_digit (c % 16) ∷ [])
          ≡ some c
    go true r b hn hr hb = ap some (omega (arith, (==_iff c b'\n').0 hn))
    go false true b hn hr hb = ap some (omega (arith, (==_iff c b'\r').0 hr))
    go false false true hn hr hb = ap some (omega (arith, (==_iff c b'\t').0 hb))
    go false false false hn hr hb = ap some two
