-- ===== src/Pipeline/Composition.antt =====
-- `splice_compose_placeholders` and `stage5_compose` of pipeline.rs. The matches of `{{CLUSTER_n}}` are an argument: each
-- with the text before it and its number, none if it is too large to parse, and the text behind the last.
pub mod Splice
pub mod Coverage
use episcience.Base.{
  ℕ, zero, suc, ◌+◌, Bool, true, false, not, Option, none, some, List, [], ◌∷◌, ◌++◌, Uuid,
  if◌then◌else◌, map,
}
use episcience.Base.Results.{Result, ok, err, ◌>>=◌}
use package.episcience.Pipeline.{
  Text, SynthesisError, compose_anchor_violation, LlmError, call_llm_with_schema_retry, Metered,
  and_then, Cluster, Texts, or_empty,
}
use package.episcience.Pipeline.Narration.{nil_id, narrate_all}

abbrev pub Capture : Type 0
Capture = Text × Option ℕ

abbrev pub get_elem? {ℓ} : {A : Type ℓ} → List A → ℕ → Option A
get_elem? [] i = none
get_elem? (x ∷ xs) zero = some x
get_elem? (x ∷ xs) (suc i) = get_elem? xs i

-- `seen[i]` and `seen[i] = true`
abbrev pub is_seen : List Bool → ℕ → Bool
is_seen [] i = false
is_seen (b ∷ seen) zero = b
is_seen (b ∷ seen) (suc i) = is_seen seen i

abbrev pub mark : List Bool → ℕ → List Bool
mark [] i = []
mark (b ∷ seen) zero = true ∷ seen
mark (b ∷ seen) (suc i) = b ∷ mark seen i

-- A number in `1..=clusters.len()` as a position, with the cluster there.
abbrev pub named : List Cluster → Option ℕ → Option (ℕ × Cluster)
named clusters none = none
named clusters (some zero) = none
named clusters (some (suc i)) = elim (get_elem? clusters i) [ none ↦ none | some c ↦ some (i, c) ]

unfoldable pub splice_loop :
    List Cluster → List Capture → List Bool → Text → Result SynthesisError (List Bool × Text)
splice_loop clusters [] seen out = ok (seen, out)
splice_loop clusters ((before, number) ∷ captures) seen out = elim (named clusters number) [
  | none ↦ err (compose_anchor_violation nil_id)
  | some (i, c) ↦ elim (is_seen seen i) [
    | true ↦ err (compose_anchor_violation c.id)
    | false ↦ splice_loop clusters captures (mark seen i) (out ++ before ++ c.summary)
  ]
]

-- The cluster at the first position that is not seen.
abbrev pub first_unseen : List Bool → List Cluster → Option Cluster
first_unseen (false ∷ seen) (c ∷ clusters) = some c
first_unseen (true ∷ seen) (c ∷ clusters) = first_unseen seen clusters
first_unseen seen [] = none
first_unseen [] clusters = none

unfoldable pub finish_splice : List Cluster → Text → List Bool × Text → Result SynthesisError Text
finish_splice clusters tail (seen, out) = elim (first_unseen seen clusters) [
  | some c ↦ err (compose_anchor_violation c.id)
  | none ↦ ok (out ++ tail)
]

unfoldable pub splice_compose_placeholders :
    List Cluster → List Capture × Text → Result SynthesisError Text
unfolding splice_loop finish_splice
splice_compose_placeholders clusters (captures, tail) =
    splice_loop clusters captures (map (λ c. false) clusters) [] >>= finish_splice clusters tail

module _ {V : Type 0} (texts : Texts V) (captures_iter : Text → List Capture × Text)
    (complete : ℕ → Result LlmError V) (cost_budget : ℕ) where
  -- The narrative of an answer, spliced.
  unfoldable pub spliced : List Cluster → V → Result SynthesisError Text
  unfolding splice_compose_placeholders
  spliced clusters json =
      splice_compose_placeholders clusters
        (captures_iter (or_empty (texts.as_str json "narrative")))

  unfoldable pub stage5_compose : List Cluster → ℕ → Metered Text
  unfolding spliced
  stage5_compose clusters llm_call_count =
      and_then
        (call_llm_with_schema_retry complete cost_budget
          (λ json. spliced clusters json >>= λ t. ok tt) 1 llm_call_count)
        λ response n. (spliced clusters response, n)

  -- Stages 4 and 5 of the job: the clusters with their texts, and the narrative.
  unfoldable pub write_narrative : List Cluster → ℕ → Metered (List Cluster × Text)
  unfolding stage5_compose narrate_all
  write_narrative clusters llm_call_count =
      and_then (narrate_all texts complete cost_budget clusters llm_call_count) λ narrated n.
        and_then (stage5_compose narrated n) λ narrative n'. (ok (narrated, narrative), n')
