-- ===== src/Client/Spans.antt =====
-- Each part, with what stands before and after it, is the whole text.
use mathlib.Core.List.{append_assoc, append-nil}
use episcience.Base.{
  ◌≡◌, refl, sym, ◌∙◌, ap, ℕ, ◌==◌, ==_iff, Bool, true, false, ◌&&◌, Option, none, some, [], ◌∷◌,
  ◌++◌, if◌then◌else◌, length, leb, All, arith,
}
use episcience.Base.Texts.{Text, starts_with}
use package.episcience.Client.Pieces.{
  Piece, joined_piece, front, back, add_back, trim, drop, push_front, find, rfind, fenced, opens,
  fence, json_fence, first_fenced, extract_json_from_text, bracket_span, by_start, bracket_spans,
}

-- A value that is found has the property.
abbrev pub OnSome {ℓ} : {A : Type 0} → (A → Type ℓ) → Option A → Type ℓ
OnSome P none = Unit
OnSome P (some a) = P a

module _ (is_whitespace : ℕ → Bool) where
  front_whole : (t : Text) → (front is_whitespace t).0 ++ (front is_whitespace t).1 ≡ t
  front_whole [] = refl
  front_whole (c ∷ t) = go (is_whitespace c) (front_whole t)
    where
      go :
          (b : Bool)
          → (front is_whitespace t).0 ++ (front is_whitespace t).1 ≡ t
          → (let r : Text × Text =
                if b
                then (c ∷ (front is_whitespace t).0, (front is_whitespace t).1)
                else ([], c ∷ t) in
              r.0 ++ r.1)
            ≡ c ∷ t
      go true h = ap (λ l. c ∷ l) h
      go false h = refl

  back_whole : (t : Text) → (back is_whitespace t).0 ++ (back is_whitespace t).1 ≡ t
  back_whole [] = refl
  back_whole (c ∷ t) = go (back is_whitespace t) (back_whole t)
    where
      blank :
          (b : Bool) (s : Text)
          → s ≡ t
          → (let r : Text × Text = if b then ([], c ∷ s) else (c ∷ [], s) in r.0 ++ r.1) ≡ c ∷ t
      blank true s h = ap (λ l. c ∷ l) h
      blank false s h = ap (λ l. c ∷ l) h

      go :
          (r : Text × Text)
          → r.0 ++ r.1 ≡ t
          → (add_back is_whitespace c r).0 ++ (add_back is_whitespace c r).1 ≡ c ∷ t
      go ([], s) h = blank (is_whitespace c) s h
      go (d ∷ u, s) h = ap (λ l. c ∷ l) h

  trim_whole : (p : Piece) → joined_piece (trim is_whitespace p) ≡ joined_piece p
  trim_whole p =
      let f = front is_whitespace p.part in
      let b = back is_whitespace f.1 in
      append_assoc p.before f.0 (b.0 ++ (b.1 ++ p.after))
      ∙ ap (λ l. p.before ++ (f.0 ++ l))
          (sym (append_assoc b.0 b.1 p.after) ∙ ap (λ l. l ++ p.after) (back_whole f.1))
      ∙ ap (λ l. p.before ++ l)
          (sym (append_assoc f.0 f.1 p.after) ∙ ap (λ l. l ++ p.after) (front_whole p.part))

token_whole : (token t : Text) → starts_with t token ≡ true → token ++ drop token t ≡ t
token_whole [] t h = refl
token_whole (c ∷ token) [] h = absurd (grind (arith, h))
token_whole (c ∷ token) (d ∷ t) h = go (d == c) refl h λ h. token_whole token t h
  where
    go :
        (b : Bool)
        → (d == c) ≡ b
        → (b && starts_with t token) ≡ true
        → (starts_with t token ≡ true → token ++ drop token t ≡ t)
        → c ∷ (token ++ drop token t) ≡ d ∷ t
    go true k h f =
        ap (λ e. e ∷ (token ++ drop token t)) (sym ((==_iff d c).0 k)) ∙ ap (λ l. d ∷ l) (f h)
    go false k h f = absurd (grind (arith, h))

find_whole :
    (token t : Text) → OnSome (λ (r : Text × Text). r.0 ++ (token ++ r.1) ≡ t) (find token t)
unfolding find
find_whole token [] = tt
find_whole token (c ∷ t) = go (starts_with (c ∷ t) token) refl (find token t) (find_whole token t)
  where
    further :
        (o : Option (Text × Text))
        → OnSome (λ (r : Text × Text). r.0 ++ (token ++ r.1) ≡ t) o
        → OnSome (λ (r : Text × Text). r.0 ++ (token ++ r.1) ≡ c ∷ t) (push_front c o)
    further none h = tt
    further (some r) h = ap (λ l. c ∷ l) h

    go :
        (b : Bool)
        → starts_with (c ∷ t) token ≡ b
        → (o : Option (Text × Text)) → OnSome (λ (r : Text × Text). r.0 ++ (token ++ r.1) ≡ t) o
        → OnSome
            (λ (r : Text × Text). r.0 ++ (token ++ r.1) ≡ c ∷ t)
            (if b then some ([], drop token (c ∷ t)) else push_front c o)
    go true k o h = token_whole token (c ∷ t) k
    go false k o h = further o h

rfind_whole : (c : ℕ) (t : Text) → OnSome (λ (r : Text × Text). r.0 ++ (c ∷ r.1) ≡ t) (rfind c t)
unfolding rfind
rfind_whole c [] = tt
rfind_whole c (d ∷ t) = go (rfind c t) (rfind_whole c t)
  where
    here :
        (b : Bool)
        → (d == c) ≡ b
        → OnSome (λ (r : Text × Text). r.0 ++ (c ∷ r.1) ≡ d ∷ t) (if b then some ([], t) else none)
    here true k = ap (λ e. e ∷ t) (sym ((==_iff d c).0 k))
    here false k = tt

    go :
        (o : Option (Text × Text))
        → OnSome (λ (r : Text × Text). r.0 ++ (c ∷ r.1) ≡ t) o
        → OnSome
            (λ (r : Text × Text). r.0 ++ (c ∷ r.1) ≡ d ∷ t)
            (elim o as (λ o. Option (Text × Text)) [
              | some r ↦ some (d ∷ r.0, r.1)
              | none ↦ if d == c then some ([], t) else none
            ])
    go none h = here (d == c) refl
    go (some r) h = ap (λ l. d ∷ l) h

-- A piece of a text.
abbrev pub IsPieceOf : Text → Piece → Type 0
IsPieceOf t p = joined_piece p ≡ t

module _ (is_whitespace : ℕ → Bool) where
  fenced_whole :
      (opener closer : Text) (p : Piece)
      → OnSome (IsPieceOf (joined_piece p)) (fenced is_whitespace opener closer p)
  fenced_whole opener closer p = go (find opener p.part) (find_whole opener p.part)
    where
      between : Text → Text → Text → Piece
      between b inner rest = record {
        before = p.before ++ (b ++ opener);
        part = inner;
        after = closer ++ (rest ++ p.after);
      }

      closed :
          (b t : Text)
          → b ++ (opener ++ t) ≡ p.part
          → (o : Option (Text × Text)) → OnSome (λ (r : Text × Text). r.0 ++ (closer ++ r.1) ≡ t) o
          → OnSome (IsPieceOf (joined_piece p)) (elim o as (λ o. Option Piece) [
            | none ↦ none
            | some (inner, rest) ↦ some (
                trim is_whitespace (record {
                  before = p.before ++ (b ++ opener);
                  part = inner;
                  after = closer ++ (rest ++ p.after);
                }))
          ])
      closed b t h none k = tt
      closed b t h (some (inner, rest)) k =
          trim_whole is_whitespace (record {
            before = p.before ++ (b ++ opener);
            part = inner;
            after = closer ++ (rest ++ p.after);
          })
          ∙ ap (λ l. (p.before ++ (b ++ opener)) ++ l)
              (ap (λ l. inner ++ l) (sym (append_assoc closer rest p.after))
                ∙ sym (append_assoc inner (closer ++ rest) p.after)
                ∙ ap (λ l. l ++ p.after) k)
          ∙ append_assoc p.before (b ++ opener) (t ++ p.after)
          ∙ ap (λ l. p.before ++ l)
              (append_assoc b opener (t ++ p.after)
                ∙ ap (λ l. b ++ l) (sym (append_assoc opener t p.after))
                ∙ sym (append_assoc b (opener ++ t) p.after)
                ∙ ap (λ l. l ++ p.after) h)

      go :
          (o : Option (Text × Text))
          → OnSome (λ (r : Text × Text). r.0 ++ (opener ++ r.1) ≡ p.part) o
          → OnSome (IsPieceOf (joined_piece p)) (elim o as (λ o. Option Piece) [
            | none ↦ none
            | some (b, t) ↦ elim (find closer t) [
              | none ↦ none
              | some (inner, rest) ↦ some (
                  trim is_whitespace (record {
                    before = p.before ++ (b ++ opener);
                    part = inner;
                    after = closer ++ (rest ++ p.after);
                  }))
            ]
          ])
      go none h = tt
      go (some (b, t)) h = closed b t h (find closer t) (find_whole closer t)

  chosen_whole :
      (t : Text) (p : Piece) (o o' : Option Piece)
      → IsPieceOf t p
      → OnSome (IsPieceOf t) o
      → OnSome (IsPieceOf t) o'
      → IsPieceOf t (first_fenced p o o')
  chosen_whole t p (some q) o' h k l = k
  chosen_whole t p none none h k l = h
  chosen_whole t p none (some q) h k l = go (opens q.part)
    where
      go : (b : Bool) → IsPieceOf t (if b then q else p)
      go true = l
      go false = h

  pub extract_json_from_text_whole :
      (t : Text) → IsPieceOf t (extract_json_from_text is_whitespace t)
  unfolding extract_json_from_text
  extract_json_from_text_whole t =
      chosen_whole t p (fenced is_whitespace json_fence fence p)
        (fenced is_whitespace fence fence p) h
        (onto (fenced is_whitespace json_fence fence p) (fenced_whole json_fence fence p))
        (onto (fenced is_whitespace fence fence p) (fenced_whole fence fence p))
    where
      p : Piece
      p = trim is_whitespace (record { before = []; part = t; after = [] })

      h : IsPieceOf t p
      h = trim_whole is_whitespace (record { before = []; part = t; after = [] }) ∙ append-nil t

      onto : (o : Option Piece) → OnSome (IsPieceOf (joined_piece p)) o → OnSome (IsPieceOf t) o
      onto none k = tt
      onto (some q) k = k ∙ h

bracket_span_whole :
    (opener closer : ℕ) (t : Text) → OnSome (IsPieceOf t) (bracket_span opener closer t)
bracket_span_whole opener closer t = go (find (opener ∷ []) t) (find_whole (opener ∷ []) t)
  where
    closed :
        (b u : Text)
        → b ++ (opener ∷ u) ≡ t
        → (o : Option (Text × Text)) → OnSome (λ (r : Text × Text). r.0 ++ (closer ∷ r.1) ≡ u) o
        → OnSome (IsPieceOf t) (elim o as (λ o. Option Piece) [
          | none ↦ none
          | some (inner, rest) ↦
              some (record { before = b; part = opener ∷ (inner ++ closer ∷ []); after = rest })
        ])
    closed b u h none k = tt
    closed b u h (some (inner, rest)) k =
        ap (λ l. b ++ (opener ∷ l)) (append_assoc inner (closer ∷ []) rest ∙ k) ∙ h

    go :
        (o : Option (Text × Text))
        → OnSome (λ (r : Text × Text). r.0 ++ (opener ∷ r.1) ≡ t) o
        → OnSome (IsPieceOf t) (elim o as (λ o. Option Piece) [
          | none ↦ none
          | some (b, u) ↦ elim (rfind closer u) [
            | none ↦ none
            | some (inner, rest) ↦
                some (record { before = b; part = opener ∷ (inner ++ closer ∷ []); after = rest })
          ]
        ])
    go none h = tt
    go (some (b, u)) h = closed b u h (rfind closer u) (rfind_whole closer u)

pub bracket_spans_whole : (t : Text) → All (IsPieceOf t) (bracket_spans t)
unfolding bracket_spans
bracket_spans_whole t =
    go (bracket_span b'{' b'}' t) (bracket_span b'[' b']' t) (bracket_span_whole b'{' b'}' t)
      (bracket_span_whole b'[' b']' t)
  where
    ordered :
        (b : Bool) (p q : Piece)
        → IsPieceOf t p
        → IsPieceOf t q
        → All (IsPieceOf t) (if b then p ∷ q ∷ [] else q ∷ p ∷ [])
    ordered true p q h k = (h, (k, tt))
    ordered false p q h k = (k, (h, tt))

    go :
        (o o' : Option Piece)
        → OnSome (IsPieceOf t) o
        → OnSome (IsPieceOf t) o'
        → All (IsPieceOf t) (by_start o o')
    go none none h k = tt
    go none (some q) h k = (k, tt)
    go (some p) none h k = (h, tt)
    go (some p) (some q) h k = ordered (leb (length p.before) (length q.before)) p q h k
