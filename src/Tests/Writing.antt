-- ===== src/Tests/Writing.antt =====
-- Examples of the stages that write a narrative, and of its outbox. The texts of these examples are lists of the claims
-- that they cite.
use episcience.Base.{
  ℕ, zero, suc, ◌+◌, ◌-◌, ◌*◌, leb, ◌≡◌, ◌↔◌, refl, subst, sym, true, false, Bool, ◌||◌, Option,
  none, some, List, [], ◌∷◌, ◌++◌, map, Uuid, length, length-keep, contains, contains-append, All,
  any, not, ◌==◌, arith,
}
use episcience.Base.Results.{Result, ok, err, Yields}
use episcience.Tests.{whole_numbers}
use episcience.Publish.{
  ProvenanceEdge, OutboxRow, edge, has_key, same_edge, new_row, Tables, planned_edges,
  stage6_plan_edges, stage6_write_edges,
}
use episcience.Publish.Plan.{settled, has_edge, HasKey, stage6_plan_edges_lem}
use episcience.Publish.Writes.{Settles, stage6_write_edges-Settles}
use episcience.Pipeline.{Text, Texts, Cluster, LlmError, SynthesisError, call_llm_with_schema_retry}
use episcience.Pipeline.Calls.{Called, call_llm_with_schema_retry-Called}
use episcience.Pipeline.Narration.{citations, parsed, check_narration}
use episcience.Pipeline.Narration.Checks.{HasFields, CitesMembers, check_narration_iff}
use episcience.Pipeline.Composition.{Capture, splice_compose_placeholders, write_narrative}
use episcience.Pipeline.Composition.Splice.{Splices, splice_compose_placeholders-Splices}
use episcience.Pipeline.Composition.Coverage.{
  Spends, FindsAll, IsNarrated, member_ids, write_narrative_lem,
}
use episcience.Pipeline.Seeding.{Recall, parse_pgvector, has_query, stage1_seed_theme}
use episcience.Pipeline.Seeding.Vectors.{vec_to_text, parse_pgvector-vec_to_text}
use episcience.Pipeline.Seeding.Themes.{IsSeeding, stage1_seed_theme-IsSeeding}
use episcience.Verifier.{default_citation_rubric}

-- The session does not see the row of claim 4.
abbrev sees : ProvenanceEdge → Bool
sees e = not (e.target_id == 4)

abbrev outbox : List OutboxRow
outbox = new_row 5 (edge "WAS_DERIVED_FROM" "claim" 4) ∷ []

stage6_plan_edges_example :
    let after = stage6_plan_edges sees 5 (3 ∷ []) none (8 ∷ []) 7 none outbox in
    HasKey after
    × ((fresh : List ProvenanceEdge) × (after ≡ settled sees 5 outbox ++ map (new_row 5) fresh))
    × ((e : ProvenanceEdge)
        → has_edge 5 e after ≡ (
            has_edge 5 e (settled sees 5 outbox)
            || any (λ p. same_edge p e) (planned_edges (3 ∷ []) none (8 ∷ []) 7 none)))
stage6_plan_edges_example =
    stage6_plan_edges_lem sees 5 (3 ∷ []) none (8 ∷ []) 7 none outbox
      (λ id e. length-keep (has_key id e) outbox)

abbrev tables : Tables
tables = record { outbox = outbox; edges = [] }

abbrev create : ProvenanceEdge → Result Unit Uuid
create e = ok 77

stage6_write_edges_example :
    Yields
      (λ r. Settles 5 ((4 ∷ []) ∷ []) tables r × (true ≡ false → r.0.edges ≡ tables.edges))
      (stage6_write_edges create 5 (λ l. l) ((4 ∷ []) ∷ []) true tables)
stage6_write_edges_example =
    stage6_write_edges-Settles create (λ l. l) (λ p l h. h) 5 ((4 ∷ []) ∷ []) true tables

abbrev complete : ℕ → Result LlmError ℕ
complete n = ok n

abbrev accepts : ℕ → Result SynthesisError Unit
accepts n = elim n [ zero ↦ err SynthesisError.validation | suc m ↦ ok tt ]

call_llm_with_schema_retry_example :
    Called complete 20 accepts 1 0 (call_llm_with_schema_retry complete 20 accepts 1 0)
call_llm_with_schema_retry_example = call_llm_with_schema_retry-Called complete 20 accepts 1 0

abbrev pub blank : Text → Bool
blank [] = true
blank (c ∷ t) = false

abbrev pub texts : Texts ℕ
texts = record {
  as_str = λ v field. some (3 ∷ []);
  is_blank = blank;
  print = λ id. id ∷ [];
  full_citations = λ t. map some t;
  short_citations = λ t. [];
}

check_narration_example :
    (check_narration texts (3 ∷ []) 0 ≡ ok tt)
    ↔ (HasFields texts 0 × CitesMembers texts (3 ∷ []) (3 ∷ []))
check_narration_example = check_narration_iff texts (3 ∷ []) 0

abbrev pub cluster : Cluster
cluster = record {
  id = 20;
  synthesis_id = 5;
  cluster_index = 0;
  title = [];
  summary = 3 ∷ [];
  member_claim_ids = 3 ∷ [];
  support_count = 0;
  contradict_count = 0;
}

abbrev pub template : List Capture × Text
template = ((9 ∷ [], some 1) ∷ [], 8 ∷ [])

splice_example :
    Splices
      (cluster ∷ [])
      template.0
      template.1
      (splice_compose_placeholders (cluster ∷ []) (template.0, template.1))
splice_example = splice_compose_placeholders-Splices (cluster ∷ []) template.0 template.1

parsed-some : (t : Text) → parsed (map some t) ≡ t
parsed-some [] = refl
parsed-some (c ∷ t) = λ i. c ∷ parsed-some t i

joins :
    (s t : Text) (a : Uuid)
    → (contains (citations texts s) a || contains (citations texts t) a) ≡ true
    → contains (citations texts (s ++ t)) a ≡ true
joins s t a h =
    subst (λ (l : Text). contains l a ≡ true) (sym (parsed-some (s ++ t)))
      (both (
        subst (λ (l : Text). (contains l a || contains (citations texts t) a) ≡ true)
          (parsed-some s) h))
  where
    both : (contains s a || contains (citations texts t) a) ≡ true → contains (s ++ t) a ≡ true
    both k = ground (
      arith,
      contains-append a s t,
      subst (λ (l : Text). (contains s a || contains l a) ≡ true) (parsed-some t) k,
    )

write_narrative_example :
    Spends texts complete 20
      (2 * length (cluster ∷ []) + 2)
      0
      (write_narrative texts (λ t. template) complete 20 (cluster ∷ []) 0).1
    × Yields
        (λ r.
          (member_ids r.0 ≡ member_ids (cluster ∷ []))
          × All (IsNarrated texts) r.0
          × FindsAll (
              default_citation_rubric
                (citations texts)
                (record { narrative = r.1; cluster_member_ids = member_ids r.0 })))
        (write_narrative texts (λ t. template) complete 20 (cluster ∷ []) 0).0
write_narrative_example =
    write_narrative_lem texts joins (λ t. template) complete 20 (cluster ∷ []) 0

-- Numbers below the comma stand for themselves.
abbrev digit : Text → Option ℕ
digit [] = none
digit (c ∷ t) = some (elim (leb 45 c) [ true ↦ c - 45 | false ↦ c ])

abbrev pub recall : Recall ℕ
recall = record {
  recall = ok (some 3 ∷ []);
  query_embedding = 1 ∷ [];
  claims_in_theme = λ theme. ok ((3, 2) ∷ (4, 1) ∷ []);
  get_claim_embedding_str = λ id. ok (some (b'[' ∷ 49 ∷ b']' ∷ []));
  trim = λ t. t;
  parse_f32 = digit;
}

parse_pgvector_example :
    parse_pgvector (λ t. t) digit (vec_to_text (λ n. (n + 45) ∷ []) (1 ∷ 2 ∷ []))
    ≡ some (1 ∷ 2 ∷ [])
parse_pgvector_example =
    parse_pgvector-vec_to_text (λ n. (n + 45) ∷ []) (λ n. (ground arith, tt)) (λ t. t) digit
      (λ t. refl) (λ n. ground arith) 1 (2 ∷ [])

stage1_seed_theme_example :
    Yields (IsSeeding recall 6) (stage1_seed_theme recall 6)
    × (has_query recall recall.query_embedding ≡ false
        → stage1_seed_theme recall 6 ≡ err SynthesisError.validation)
stage1_seed_theme_example = stage1_seed_theme-IsSeeding recall 6
