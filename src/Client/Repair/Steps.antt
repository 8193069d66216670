-- ===== src/Client/Repair/Steps.antt =====
-- What a text without defects is, what of a text is kept in any case, and the three things that a step does.
use episcience.Base.{
  ◌≡◌, ◌∙◌, refl, ap, ℕ, ◌/◌, ◌%◌, ◌<◌, ◌≤◌, Bool, true, false, not, ◌&&◌, ◌||◌, Option, none, some,
  [], ◌∷◌, ◌++◌, ◌==◌, if◌then◌else◌, ltb, ◌⊎◌, inl, inr, arith,
}
use episcience.Base.Texts.{Text}
use package.episcience.Client.Repair.{
  Mode, outside, inside, escaped, is_json_ws, closes, after_value, hex_digit, escape, step,
  repair_loop,
}

abbrev is_one_of : ℕ → Text → Bool
is_one_of c [] = false
is_one_of c (d ∷ t) = if c == d then true else is_one_of c t

-- JSON's white space.
abbrev pub is_blank : ℕ → Bool
is_blank c = is_one_of c (b'\t' ∷ b'\n' ∷ b'\r' ∷ b' ' ∷ [])

-- Behind white space a bracket closes.
abbrev pub before_closer : Text → Bool
before_closer [] = false
before_closer (c ∷ t) =
    let rest = before_closer t in if is_blank c then rest else is_one_of c (b']' ∷ b'}' ∷ [])

-- Behind the last character that is no white space a comma separates something: it opens no array or object and is no
-- separator itself.
abbrev pub behind_value : Option ℕ → Bool
behind_value none = false
behind_value (some c) = not (is_one_of c (b',' ∷ b':' ∷ b'[' ∷ b'{' ∷ []))

is_json_ws-is_blank : (c : ℕ) → is_json_ws c ≡ is_blank c
is_json_ws-is_blank c = ground arith

closes-before_closer : (t : Text) → closes t ≡ before_closer t
closes-before_closer [] = refl
closes-before_closer (c ∷ t) =
    rw (is_json_ws-is_blank c, closes-before_closer t)
      (ap (λ b. if is_blank c then before_closer t else b) brackets)
  where
    brackets : ((c == b'}') || (c == b']')) ≡ is_one_of c (b']' ∷ b'}' ∷ [])
    brackets = ground arith

after_value-behind_value : (last : Option ℕ) → after_value last ≡ behind_value last
after_value-behind_value none = refl
after_value-behind_value (some c) = ap not separators
  where
    separators :
        ((c == b'{') || (c == b'[') || (c == b',') || (c == b':'))
        ≡ is_one_of c (b',' ∷ b':' ∷ b'[' ∷ b'{' ∷ [])
    separators = ground arith

-- The mode behind a character that is kept.
abbrev pub next : Mode → ℕ → Mode
next escaped c = inside
next inside c = if c == b'\\' then escaped else if c == b'"' then outside (some b'"') else inside
next (outside last) c = if c == b'"' then inside else outside (if is_blank c then last else some c)

-- The character is no defect: no control character in a string but behind a backslash, no comma behind a value and
-- before a closing bracket.
abbrev pub is_sound : Mode → ℕ → Text → Bool
is_sound escaped c t = true
is_sound inside c t = not (ltb c 32)
is_sound (outside last) c t = not ((c == b',') && (before_closer t && behind_value last))

abbrev pub is_clean : Mode → Text → Bool
is_clean mode [] = true
is_clean mode (c ∷ t) = is_sound mode c t && is_clean (next mode c) t

-- A character as it is kept in any case: a control character in a string by its escape, a comma outside not at all.
abbrev pub kept : Mode → ℕ → Text
kept escaped c = c ∷ []
kept inside c = if ltb c 32 then escape c else c ∷ []
kept (outside last) c = if c == b',' then [] else c ∷ []

abbrev pub content : Mode → Text → Text
content mode [] = []
content mode (c ∷ t) = kept mode c ++ content (next mode c) t

-- A character of a string that is itself.
IsOrdinary : ℕ → Type 0
IsOrdinary c = ((c == b'\\') ≡ false) × ((c == b'"') ≡ false) × (ltb c 32 ≡ false)

hex_digit-IsOrdinary : (n : ℕ) → n < 16 → IsOrdinary (hex_digit n)
unfolding IsOrdinary
hex_digit-IsOrdinary n h = (ground arith, ground arith, ground arith)

-- What is known of a run through an escape.
pub is_clean-escape :
    (c : ℕ) (t : Text) → c < 32 → is_clean inside (escape c ++ t) ≡ is_clean inside t
unfolding escape IsOrdinary
is_clean-escape c t h =
    go (c == b'\n') (c == b'\r') (c == b'\t') (hex_digit-IsOrdinary (c / 16) (omega arith))
      (hex_digit-IsOrdinary (c % 16) (omega arith))
  where
    go :
        (n r b : Bool)
        → IsOrdinary (hex_digit (c / 16))
        → IsOrdinary (hex_digit (c % 16))
        → is_clean inside (
            (if n
              then b'\\' ∷ b'n' ∷ []
              else if r
              then b'\\' ∷ b'r' ∷ []
              else if b
              then b'\\' ∷ b't' ∷ []
              else b'\\' ∷ b'u' ∷ b'0' ∷ b'0' ∷ hex_digit (c / 16) ∷ hex_digit (c % 16) ∷ [])
            ++ t)
          ≡ is_clean inside t
    go true r b x y = refl
    go false true b x y = refl
    go false false true x y = refl
    go false false false x y = rw (x.0, x.1, x.2, y.0, y.1, y.2) refl

pub content-escape :
    (c : ℕ) (t : Text) → c < 32 → content inside (escape c ++ t) ≡ escape c ++ content inside t
unfolding escape IsOrdinary
content-escape c t h =
    go (c == b'\n') (c == b'\r') (c == b'\t') (hex_digit-IsOrdinary (c / 16) (omega arith))
      (hex_digit-IsOrdinary (c % 16) (omega arith))
  where
    go :
        (n r b : Bool)
        → IsOrdinary (hex_digit (c / 16))
        → IsOrdinary (hex_digit (c % 16))
        → let e : Text =
            if n
            then b'\\' ∷ b'n' ∷ []
            else if r
            then b'\\' ∷ b'r' ∷ []
            else if b
            then b'\\' ∷ b't' ∷ []
            else b'\\' ∷ b'u' ∷ b'0' ∷ b'0' ∷ hex_digit (c / 16) ∷ hex_digit (c % 16) ∷ [] in
          content inside (e ++ t) ≡ e ++ content inside t
    go true r b x y = refl
    go false true b x y = refl
    go false false true x y = refl
    go false false false x y = rw (x.0, x.1, x.2, y.0, y.1, y.2) refl

-- The three things that the repair does: it keeps a sound character, escapes one, or drops a comma.
abbrev pub Keeps : Mode → ℕ → Text → Type 0
Keeps m c t = (step m c t ≡ (c ∷ [], next m c)) × (is_sound m c t ≡ true)

unfoldable pub View : Mode → ℕ → Text → Type 0
View escaped c t = Keeps escaped c t
View inside c t =
    Keeps inside c t
    ⊎ ((step inside c t ≡ (escape c, inside)) × (ltb c 32 ≡ true) × (next inside c ≡ inside))
View (outside last) c t =
    Keeps (outside last) c t
    ⊎ ((step (outside last) c t ≡ ([], outside last))
        × ((c == b',') ≡ true)
        × ((before_closer t && behind_value last) ≡ true))

no_control : (c d : ℕ) → 32 ≤ d → (c == d) ≡ true → ltb c 32 ≡ false
no_control c d h k = ground arith

pub no_quote : (c : ℕ) → (c == b'"') ≡ true → (c == b',') ≡ false
no_quote c h = ground arith

pub comma_no_quote : (c : ℕ) → (c == b',') ≡ true → (c == b'"') ≡ false
comma_no_quote c h = ground arith

pub below : (c : ℕ) → ltb c 32 ≡ true → c < 32
below c h = ground arith

pub no_ws : (c : ℕ) → (c == b',') ≡ true → is_blank c ≡ false
no_ws c h = ground arith

pub view : (m : Mode) (c : ℕ) (t : Text) → View m c t
unfolding View step
view escaped c t = (refl, refl)
view inside c t = go (c == b'\\') (c == b'"') (ltb c 32) refl refl refl
  where
    go : (a b d : Bool) → (c == b'\\') ≡ a → (c == b'"') ≡ b → ltb c 32 ≡ d → View inside c t
    go true b d ha hb hd = inl (rw ha refl, rw (no_control c b'\\' (omega arith) ha) refl)
    go false true d ha hb hd = inl (rw (ha, hb) refl, rw (no_control c b'"' (omega arith) hb) refl)
    go false false true ha hb hd = inr (rw (ha, hb, hd) refl, hd, rw (ha, hb) refl)
    go false false false ha hb hd = inl (rw (ha, hb, hd) refl, rw hd refl)
view (outside last) c t =
    go (c == b'"') (c == b',') (before_closer t && behind_value last) refl refl refl
  where
    code : (closes t && after_value last) ≡ (before_closer t && behind_value last)
    code = rw (closes-before_closer t, after_value-behind_value last) refl

    go :
        (a b d : Bool)
        → (c == b'"') ≡ a
        → (c == b',') ≡ b
        → (before_closer t && behind_value last) ≡ d
        → View (outside last) c t
    go true b d ha hb hd = inl (rw ha refl, rw (no_quote c ha) refl)
    go false true true ha hb hd = inr (rw (ha, hb, code ∙ hd) refl, hb, hd)
    go false true false ha hb hd = inl (rw (ha, hb, code ∙ hd, no_ws c hb) refl, rw (hb, hd) refl)
    go false false d ha hb hd = inl (rw (ha, hb, is_json_ws-is_blank c) refl, rw hb refl)

pub repair_loop-step :
    (m : Mode) (c : ℕ) (t : Text) (r : Text × Mode)
    → step m c t ≡ r
    → repair_loop m (c ∷ t) ≡ r.0 ++ repair_loop r.1 t
unfolding repair_loop
repair_loop-step m c t r h = ap (λ (r : Text × Mode). r.0 ++ repair_loop r.1 t) h
