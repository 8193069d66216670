-- ===== src/Pipeline/Narration.antt =====
-- `narrate_cluster` of pipeline.rs: the checks on an answer, and the cluster with its title and summary.
use Prim.Native.String.{String}
use episcience.Base.{
  ◌≡◌, refl, ◌↔◌, ℕ, zero, suc, ◌+◌, ◌≤◌, Bool, true, false, not, ◌&&◌, Option, none, some, List,
  [], ◌∷◌, Uuid, ◌==◌, ltb, if◌then◌else◌, length, contains, All, arith,
}
use episcience.Base.Results.{Result, ok, err, ◌>>◌}
use episcience.Verifier.{VerificationReason, VerificationOutcome, default_citation_rubric}
use episcience.Base.Texts.{starts_with}
use package.episcience.Pipeline.{
  Text, SynthesisError, hallucinated_claim_id, uncited_member, abbreviated_citation, validation,
  LlmError, call_llm_with_schema_retry, Metered, and_then, Cluster, Texts, or_empty,
}
pub mod Checks

abbrev pub narration_title_max_chars : ℕ
narration_title_max_chars = 200

-- `Uuid::nil()`
abbrev pub nil_id : Uuid
nil_id = 0

-- `filter_map(|c| c[1].parse().ok())`
abbrev pub parsed : List (Option Uuid) → List Uuid
parsed [] = []
parsed (none ∷ ids) = parsed ids
parsed (some id ∷ ids) = id ∷ parsed ids

module _ {V : Type 0} (texts : Texts V) where
  -- The identifiers that the rubric finds in a narrative.
  abbrev pub citations : Text → List Uuid
  citations t = parsed (texts.full_citations t)

  abbrev pub is_present : Option Text → Bool
  is_present none = false
  is_present (some t) = not (texts.is_blank t)

  unfoldable pub check_fields : V → Result SynthesisError Unit
  check_fields json =
      if not (is_present (texts.as_str json "title"))
      then err validation
      else if not (is_present (texts.as_str json "summary"))
      then err validation
      else if ltb narration_title_max_chars (length (or_empty (texts.as_str json "title")))
      then err validation
      else ok tt

  -- `position(|m| m.starts_with(token))`
  abbrev pub abbreviated : List Uuid → Text → Option Uuid
  abbreviated [] token = none
  abbreviated (m ∷ members) token =
      if starts_with (texts.print m) token then some m else abbreviated members token

  unfoldable pub check_short : List Uuid → List Text → Result SynthesisError Unit
  check_short members [] = ok tt
  check_short members (token ∷ tokens) = elim (abbreviated members token) [
    | some m ↦ err (abbreviated_citation token m)
    | none ↦ check_short members tokens
  ]

unfoldable pub check_full : List Uuid → List (Option Uuid) → Result SynthesisError Unit
check_full members [] = ok tt
check_full members (none ∷ ids) = err (hallucinated_claim_id nil_id)
check_full members (some id ∷ ids) =
    let rest = check_full members ids in
    if not (contains members id) then err (hallucinated_claim_id id) else rest

unfoldable pub check_outcome : VerificationOutcome → Result SynthesisError Unit
check_outcome (VerificationOutcome.accept n) = ok tt
check_outcome (VerificationOutcome.reject (VerificationReason.uncited_member m)) =
    err (uncited_member m)
check_outcome (VerificationOutcome.reject (VerificationReason.hallucinated_citation c)) =
    err (hallucinated_claim_id c)
check_outcome (VerificationOutcome.reject r) = err validation

module _ {V : Type 0} (texts : Texts V) where
  -- The validator that `narrate_cluster` passes on.
  unfoldable pub check_narration : List Uuid → V → Result SynthesisError Unit
  unfolding check_fields check_full check_short check_outcome
  check_narration member_ids json =
      let summary = or_empty (texts.as_str json "summary") in
      check_fields texts json
      >> check_full member_ids (texts.full_citations summary)
      >> check_short texts member_ids (texts.short_citations summary)
      >> check_outcome (
          default_citation_rubric (citations texts)
            (record { narrative = summary; cluster_member_ids = member_ids }))

module _ {V : Type 0} (texts : Texts V) (complete : ℕ → Result LlmError V) (cost_budget : ℕ) where
  unfoldable pub narrate_cluster : Cluster → ℕ → Metered Cluster
  unfolding check_narration
  narrate_cluster c llm_call_count =
      and_then
        (call_llm_with_schema_retry complete cost_budget (check_narration texts c.member_claim_ids)
          1 llm_call_count)
        λ response n. (
          ok (record c {
            title = or_empty (texts.as_str response "title");
            summary = or_empty (texts.as_str response "summary");
          }),
          n,
        )

  -- The loop of stage 4 over the clusters.
  unfoldable pub narrate_all : List Cluster → ℕ → Metered (List Cluster)
  unfolding narrate_cluster
  narrate_all [] n = (ok [], n)
  narrate_all (c ∷ clusters) n =
      and_then (narrate_cluster c n)
        λ narrated n'. and_then (narrate_all clusters n') λ rest n''. (ok (narrated ∷ rest), n'')
