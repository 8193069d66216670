-- ===== src/Tests/Rows.antt =====
-- Examples of refinement, of the verifier and of staleness.
use episcience.Base.{
  ℕ, ◌≤◌, ◌≡◌, refl, true, false, none, some, List, [], ◌∷◌, Uuid, ◌==◌, any, distinct,
  if◌then◌else◌,
}
use episcience.Base.Results.{Result, ok, err, Yields}
use episcience.Tenancy.{Visibility}
use episcience.Synthesis.{SynthesisStatus}
use episcience.Refinement.{
  SynthesisJobPayload, SynthesisRow, Rows, find_row, is_live, reject_and_refine,
}
use episcience.Refinement.Spawns.{Refines, reject_and_refine-Refines}
use episcience.Verifier.{
  VerificationContext, default_citation_rubric, Judges, default_citation_rubric-Judges,
}
use episcience.Staleness.{
  BeliefIntervalEntry, BeliefQueryError, recheck_beliefs, moved, unseen, failing, claims_where,
  recheck_beliefs_lem,
}
use episcience.Sample.{prepared, in_use, archived, can_transition_to}
use episcience.Sample.Lifecycle.{History, stays, moves, History-ends}
use package.episcience.Tests.{whole_numbers}

abbrev row : SynthesisRow ℕ ℕ
row = record {
  id = 5;
  query = "aging";
  agent_id = 7;
  status = SynthesisStatus.verifying;
  parent_synthesis_id = none;
  visibility = Visibility.group;
  owner_group_id = some 10;
  skill_name = "baseline";
  refinement_temperature = none;
  prereq_synthesis_ids = [];
  seed_theme_id = none;
  wiki_key = none;
  verifier_outcome = none;
  verifier_attempts = 0;
}

abbrev payload : SynthesisJobPayload ℕ
payload = record {
  synthesis_id = 5;
  query = "aging";
  traversal_config = none;
  agent_id = 7;
  parent_synthesis_id = none;
  prereq_synthesis_ids = [];
  workflow_run_id = none;
  seed_theme_id = none;
}

abbrev rows : Rows ℕ ℕ
rows = record {
  syntheses = row ∷ [];
  refines = [];
  jobs = record { id = 5; principal_id = some 7; payload = payload } ∷ [];
}

reject_and_refine_example :
    Yields
      (λ r.
        (found : SynthesisRow ℕ ℕ) × ((find_row 5 rows.syntheses ≡ some found)
          × (is_live found.status ≡ true)
          × Refines true rows payload 7 0 found r.0 r.1))
      (reject_and_refine true
        (ok (record { principal = some 7; writable_groups = 10 ∷ [] }))
        rows
        payload
        7
        0
        9)
reject_and_refine_example =
    reject_and_refine-Refines true (ok (record { principal = some 7; writable_groups = 10 ∷ [] }))
      rows payload 7 0 9

abbrev context : VerificationContext (List Uuid)
context = record { narrative = 1 ∷ 2 ∷ 1 ∷ []; cluster_member_ids = 1 ∷ 2 ∷ 3 ∷ [] }

default_citation_rubric_example :
    Judges (1 ∷ 2 ∷ 3 ∷ []) (distinct (1 ∷ 2 ∷ 1 ∷ [])) (default_citation_rubric (λ n. n) context)
default_citation_rubric_example = default_citation_rubric-Judges (λ n. n) context

abbrev belief : Uuid → Result BeliefQueryError ℕ
belief id = elim (id == 2) [ true ↦ err BeliefQueryError.claim_not_found | false ↦ ok 9 ]

abbrev entries : List (BeliefIntervalEntry ℕ)
entries =
    record { claim_id = 1; pignistic_prob = 20 } ∷ record { claim_id = 2; pignistic_prob = 3 } ∷ []

recheck_beliefs_example : recheck_beliefs belief 4 entries ≡ (
    if any (failing belief 4) entries
    then err BeliefQueryError.other_failure
    else ok (record {
      drifted = claims_where belief 4 (moved belief 4) entries;
      unknown = claims_where belief 4 (unseen belief 4) entries;
    }))
recheck_beliefs_example = recheck_beliefs_lem belief 4 entries

prepared_may_be_used : can_transition_to prepared in_use ≡ true
unfolding can_transition_to
prepared_may_be_used = refl

used_may_be_archived : can_transition_to in_use archived ≡ true
unfolding can_transition_to
used_may_be_archived = refl

abbrev used_up : History prepared archived 2
used_up = moves prepared_may_be_used (moves used_may_be_archived stays)

abbrev changes : ℕ
changes = 2

History-ends_example :
    (changes ≤ 3) × (prepared ≡ archived → changes ≡ 0) × (prepared ≡ archived → changes ≡ 0)
History-ends_example = History-ends prepared archived changes used_up
