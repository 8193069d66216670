-- ===== src/Verifier.antt =====
-- crates/episcience-core/src/synthesis/verifier.rs: the default rubric. Which identifiers a narrative cites is the answer
-- of a regular expression, and so an argument; a set is a list, in the order it is walked.
use episcience.Base.{
  ◌≡◌, refl, ℕ, Bool, true, false, not, Option, none, some, List, [], ◌∷◌, Uuid, ◌==◌, ==_iff,
  if◌then◌else◌, contains, distinct, length, arith, Bool-cases, inl, inr,
}

pub data VerificationReason : Type 0 where
  uncited_member hallucinated_citation kernel_contradiction : Uuid → VerificationReason
  skill_rejection : VerificationReason

pub data VerificationOutcome : Type 0 where
  accept : ℕ → VerificationOutcome
  reject : VerificationReason → VerificationOutcome

pub record VerificationContext (Narrative : Type 0) : Type 0 where
  pub narrative : Narrative
  pub cluster_member_ids : List Uuid

-- The first identifier of a list that is not in another.
abbrev pub first_missing : List Uuid → List Uuid → Option Uuid
first_missing [] others = none
first_missing (x ∷ xs) others = if not (contains others x) then some x else first_missing xs others

module _ {Narrative : Type 0} (citations : Narrative → List Uuid) where
  unfoldable pub default_citation_rubric : VerificationContext Narrative → VerificationOutcome
  default_citation_rubric ctx =
      let cited = distinct (citations ctx.narrative) in
      elim (first_missing ctx.cluster_member_ids cited) [
        | some m ↦ reject (uncited_member m)
        | none ↦ elim (first_missing cited ctx.cluster_member_ids) [
          | some c ↦ reject (hallucinated_citation c)
          | none ↦ accept (length cited)
        ]
      ]

abbrev pub Missing : List Uuid → List Uuid → Option Uuid → Type 0
Missing xs others none = (a : Uuid) → contains xs a ≡ true → contains others a ≡ true
Missing xs others (some a) = (contains xs a ≡ true) × (contains others a ≡ false)

first_missing-Missing : (xs others : List Uuid) → Missing xs others (first_missing xs others)
first_missing-Missing [] others = λ a h. absurd (ground (arith, h))
first_missing-Missing (x ∷ xs) others =
    go (contains others x) refl (first_missing xs others) (first_missing-Missing xs others)
  where
    go :
        (b : Bool)
        → contains others x ≡ b
        → (o : Option Uuid) → Missing xs others o
        → Missing (x ∷ xs) others (if not b then some x else o)
    go false h o k = (ground arith, h)
    go true h none k = λ a m. elim (Bool-cases (x == a)) [
      | inl e ↦ ground (arith, h, (==_iff x a).0 e)
      | inr e ↦ k a (ground (arith, m, e))
    ]
    go true h (some a) k = (ground (arith, k.0), k.1)

-- What the rubric's outcome says of the members of the cluster and of the citations.
abbrev pub Judges : List Uuid → List Uuid → VerificationOutcome → Type 0
Judges members cited (accept n) =
    (n ≡ length cited) × ((a : Uuid) → contains members a ≡ contains cited a)
Judges members cited (reject (uncited_member m)) =
    (contains members m ≡ true) × (contains cited m ≡ false)
Judges members cited (reject (hallucinated_citation c)) =
    (contains cited c ≡ true) × (contains members c ≡ false)
Judges members cited (reject r) = ⊥

both :
    (xs ys : List Uuid)
    → Missing xs ys none
    → Missing ys xs none
    → (a : Uuid) → contains xs a ≡ contains ys a
both xs ys h k a = go (contains xs a) (contains ys a) refl refl
  where
    go : (b c : Bool) → contains xs a ≡ b → contains ys a ≡ c → b ≡ c
    go true true e f = refl
    go false false e f = refl
    go true false e f = absurd (grind (arith, h a e, f))
    go false true e f = absurd (grind (arith, k a f, e))

-- The rubric accepts a narrative only if it cites exactly the members of the cluster, and counts each cited claim once;
-- it rejects one by naming a member that is not cited, or a citation that is no member, and for no other reason.
pub default_citation_rubric-Judges :
    {Narrative : Type 0} (citations : Narrative → List Uuid) (ctx : VerificationContext Narrative)
    → Judges ctx.cluster_member_ids
        (distinct (citations ctx.narrative))
        (default_citation_rubric citations ctx)
unfolding default_citation_rubric
default_citation_rubric-Judges citations ctx =
    go (first_missing members cited) (first_missing cited members)
      (first_missing-Missing members cited) (first_missing-Missing cited members)
  where
    members : List Uuid
    members = ctx.cluster_member_ids

    cited : List Uuid
    cited = distinct (citations ctx.narrative)

    go :
        (o p : Option Uuid)
        → Missing members cited o
        → Missing cited members p
        → Judges members cited (elim o [
          | some m ↦ reject (uncited_member m)
          | none ↦ elim p [
            | some c ↦ reject (hallucinated_citation c)
            | none ↦ accept (length cited)
          ]
        ])
    go (some m) p h k = h
    go none (some c) h k = k
    go none none h k = (refl, both members cited h k)
