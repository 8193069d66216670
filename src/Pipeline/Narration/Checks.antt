-- ===== src/Pipeline/Narration/Checks.antt =====
-- Which answers the validator of `narrate_cluster` accepts.
use episcience.Base.{
  ◌≡◌, refl, sym, ◌∙◌, ◌↔◌, ℕ, ◌≤◌, Bool, true, false, not, Option, none, some, List, [], ◌∷◌, Uuid,
  ltb, if◌then◌else◌, length, contains, distinct, contains-distinct, All, arith,
}
use episcience.Base.Texts.{starts_with}
use episcience.Base.Results.{Result, ok, err, ◌>>◌, >>-iff}
use episcience.Verifier.{
  VerificationReason, VerificationOutcome, VerificationContext, default_citation_rubric, Judges,
  default_citation_rubric-Judges,
}
use package.episcience.Pipeline.{
  Text, Texts, SynthesisError, hallucinated_claim_id, abbreviated_citation, validation, or_empty,
}
use package.episcience.Pipeline.Narration.{
  narration_title_max_chars, parsed, citations, is_present, check_fields, check_full, check_short,
  abbreviated, check_outcome, check_narration,
}

abbrev pub IsMember : List Uuid → Option Uuid → Type 0
IsMember members none = ⊥
IsMember members (some id) = contains members id ≡ true

check_full_iff :
    (members : List Uuid) (ids : List (Option Uuid))
    → (check_full members ids ≡ ok tt) ↔ All (IsMember members) ids
unfolding check_full
check_full_iff members [] = (λ h. tt, λ h. refl)
check_full_iff members (none ∷ ids) = (λ h. absurd (grind (arith, h)), λ h. absurd h.0)
check_full_iff members (some id ∷ ids) = go (contains members id) refl (check_full_iff members ids)
  where
    go :
        (b : Bool)
        → contains members id ≡ b
        → (check_full members ids ≡ ok tt) ↔ All (IsMember members) ids
        → ((if not b then err (hallucinated_claim_id id) else check_full members ids) ≡ ok tt)
          ↔ All (IsMember members) (some id ∷ ids)
    go true k i = (λ h. (k, i.0 h), λ h. i.1 h.1)
    go false k i = (λ h. absurd (grind (arith, h)), λ h. absurd (grind (arith, k, h.0)))

check_outcome-accept :
    (members cited : List Uuid) (o : VerificationOutcome)
    → Judges members cited o
    → check_outcome o ≡ ok tt
    → (a : Uuid) → contains members a ≡ contains cited a
unfolding check_outcome
check_outcome-accept members cited (VerificationOutcome.accept n) j h = j.1
check_outcome-accept members cited
      (VerificationOutcome.reject (VerificationReason.uncited_member m)) j h =
    absurd (grind (arith, h))
check_outcome-accept members cited
      (VerificationOutcome.reject (VerificationReason.hallucinated_citation c)) j h =
    absurd (grind (arith, h))
check_outcome-accept members cited
      (VerificationOutcome.reject (VerificationReason.kernel_contradiction c)) j h =
    absurd j
check_outcome-accept members cited (VerificationOutcome.reject VerificationReason.skill_rejection) j
      h =
    absurd j

accept-check_outcome :
    (members cited : List Uuid) (o : VerificationOutcome)
    → Judges members cited o
    → ((a : Uuid) → contains members a ≡ contains cited a)
    → check_outcome o ≡ ok tt
unfolding check_outcome
accept-check_outcome members cited (VerificationOutcome.accept n) j h = refl
accept-check_outcome members cited
      (VerificationOutcome.reject (VerificationReason.uncited_member m)) j h =
    absurd (grind (arith, j.0, j.1, h m))
accept-check_outcome members cited
      (VerificationOutcome.reject (VerificationReason.hallucinated_citation c)) j h =
    absurd (grind (arith, j.0, j.1, h c))
accept-check_outcome members cited
      (VerificationOutcome.reject (VerificationReason.kernel_contradiction c)) j h =
    absurd j
accept-check_outcome members cited (VerificationOutcome.reject VerificationReason.skill_rejection) j
      h =
    absurd j

-- What is parsed of citations that are all members is a member.
parsed-member :
    (members : List Uuid) (ids : List (Option Uuid)) (a : Uuid)
    → All (IsMember members) ids
    → contains (parsed ids) a ≡ true
    → contains members a ≡ true
parsed-member members [] a h k = absurd (grind (arith, k))
parsed-member members (none ∷ ids) a h k = absurd h.0
parsed-member members (some id ∷ ids) a h k =
    ground (arith, h.0, k, parsed-member members ids a h.1)

module _ {V : Type 0} (texts : Texts V) where
  -- No member is cited by a prefix of its identifier.
  abbrev pub InFull : List Uuid → Text → Type 0
  InFull members token = All (λ m. starts_with (texts.print m) token ≡ false) members

  abbreviated_iff :
      (members : List Uuid) (token : Text)
      → (abbreviated texts members token ≡ none) ↔ InFull members token
  abbreviated_iff [] token = (λ h. tt, λ h. refl)
  abbreviated_iff (m ∷ members) token =
      go (starts_with (texts.print m) token) refl (abbreviated_iff members token)
    where
      go :
          (b : Bool)
          → starts_with (texts.print m) token ≡ b
          → (abbreviated texts members token ≡ none) ↔ InFull members token
          → ((if b then some m else abbreviated texts members token) ≡ none)
            ↔ InFull (m ∷ members) token
      go true k i = (λ h. absurd (grind (arith, h)), λ h. absurd (grind (arith, k, h.0)))
      go false k i = (λ h. (k, i.0 h), λ h. i.1 h.1)

  check_short_iff :
      (members : List Uuid) (tokens : List Text)
      → (check_short texts members tokens ≡ ok tt) ↔ All (InFull members) tokens
  unfolding check_short
  check_short_iff members [] = (λ h. tt, λ h. refl)
  check_short_iff members (token ∷ tokens) =
      go (abbreviated texts members token) refl (check_short_iff members tokens)
    where
      go :
          (o : Option Uuid)
          → abbreviated texts members token ≡ o
          → (check_short texts members tokens ≡ ok tt) ↔ All (InFull members) tokens
          → (elim o as (λ o. Result SynthesisError Unit) [
            | some m ↦ err (abbreviated_citation token m)
            | none ↦ check_short texts members tokens
          ]
              ≡ ok tt)
            ↔ All (InFull members) (token ∷ tokens)
      go none k i = (λ h. ((abbreviated_iff members token).0 k, i.0 h), λ h. i.1 h.1)
      go (some m) k i = (
        λ h. absurd (grind (arith, h)),
        λ h. absurd (grind (arith, k, (abbreviated_iff members token).1 h.0)),
      )

  -- The answer has a title and a summary that are not blank, the title of at most 200 characters.
  abbrev pub HasFields : V → Type 0
  HasFields json =
      (is_present texts (texts.as_str json "title") ≡ true)
      × (is_present texts (texts.as_str json "summary") ≡ true)
      × (length (or_empty (texts.as_str json "title")) ≤ narration_title_max_chars)

  check_fields_iff : (json : V) → (check_fields texts json ≡ ok tt) ↔ HasFields json
  unfolding check_fields
  check_fields_iff json =
      go (is_present texts (texts.as_str json "title"))
        (is_present texts (texts.as_str json "summary")) (ltb narration_title_max_chars n) refl
    where
      n : ℕ
      n = length (or_empty (texts.as_str json "title"))

      go :
          (t s l : Bool)
          → ltb narration_title_max_chars n ≡ l
          → (if◌then◌else◌ {A = Result SynthesisError Unit}
                (not t)
                (err validation)
                (if not s then err validation else if l then err validation else ok tt)
              ≡ ok tt)
            ↔ ((t ≡ true) × (s ≡ true) × (n ≤ narration_title_max_chars))
      go false s l k = (λ h. absurd (grind (arith, h)), λ h. absurd (grind (arith, h.0)))
      go true false l k = (λ h. absurd (grind (arith, h)), λ h. absurd (grind (arith, h.1)))
      go true true true k = (λ h. absurd (grind (arith, h)), λ h. absurd (ground (arith, k, h.2)))
      go true true false k = (λ h. (refl, refl, ground (arith, k)), λ h. refl)

  -- Every citation of the summary is of a member, no member is cited by a prefix, and each is cited in full.
  abbrev pub CitesMembers : List Uuid → Text → Type 0
  CitesMembers members summary =
      All (IsMember members) (texts.full_citations summary)
      × All (InFull members) (texts.short_citations summary)
      × ((a : Uuid) → contains members a ≡ true → contains (citations texts summary) a ≡ true)

  -- For an answer of the model and the members of a cluster: the validator accepts the answer exactly if the title and
  -- the summary are texts that are not blank, the title has at most 200 characters, every citation in full is of a member,
  -- no member is cited by a prefix of its identifier, and every member is cited in full.
  pub check_narration_iff :
      (members : List Uuid) (json : V)
      → (check_narration texts members json ≡ ok tt)
        ↔ (HasFields json × CitesMembers members (or_empty (texts.as_str json "summary")))
  unfolding check_narration
  check_narration_iff members json = (to, from)
    where
      summary : Text
      summary = or_empty (texts.as_str json "summary")

      context : VerificationContext Text
      context = record { narrative = summary; cluster_member_ids = members }

      judged :
          Judges members
            (distinct (citations texts summary))
            (default_citation_rubric (citations texts) context)
      judged = default_citation_rubric-Judges (citations texts) context

      fields : Result SynthesisError Unit
      fields = check_fields texts json

      full : Result SynthesisError Unit
      full = check_full members (texts.full_citations summary)

      short : Result SynthesisError Unit
      short = check_short texts members (texts.short_citations summary)

      rubric : Result SynthesisError Unit
      rubric = check_outcome (default_citation_rubric (citations texts) context)

      to :
          (fields >> full >> short >> rubric) ≡ ok tt
          → HasFields json × CitesMembers members summary
      to h =
          let h3 = (>>-iff (fields >> full >> short) rubric).0 h in
          let h2 = (>>-iff (fields >> full) short).0 h3.0 in
          let h1 = (>>-iff fields full).0 h2.0 in
          let same =
            check_outcome-accept members (distinct (citations texts summary))
              (default_citation_rubric (citations texts) context) judged h3.1 in
          (
            (check_fields_iff json).0 h1.0,
            (
              (check_full_iff members (texts.full_citations summary)).0 h1.1,
              (check_short_iff members (texts.short_citations summary)).0 h2.1,
              λ a k. sym (contains-distinct a (citations texts summary)) ∙ sym (same a) ∙ k,
            ),
          )

      from :
          HasFields json × CitesMembers members summary
          → (fields >> full >> short >> rubric) ≡ ok tt
      from (f, (m, s, c)) = (>>-iff (fields >> full >> short) rubric).1 (
        (>>-iff (fields >> full) short).1 (
          (>>-iff fields full).1 (
            (check_fields_iff json).1 f,
            (check_full_iff members (texts.full_citations summary)).1 m,
          ),
          (check_short_iff members (texts.short_citations summary)).1 s,
        ),
        accept-check_outcome members (distinct (citations texts summary))
            (default_citation_rubric (citations texts) context) judged (λ a. same a),
      )
        where
          both :
              (a : Uuid) (b d : Bool)
              → contains members a ≡ b
              → contains (citations texts summary) a ≡ d
              → b ≡ d
          both a true d k l = sym (c a k) ∙ l
          both a false true k l =
              absurd (grind (arith, k, parsed-member members (texts.full_citations summary) a m l))
          both a false false k l = refl

          same : (a : Uuid) → contains members a ≡ contains (distinct (citations texts summary)) a
          same a =
              both a (contains members a) (contains (citations texts summary) a) refl refl
              ∙ sym (contains-distinct a (citations texts summary))
