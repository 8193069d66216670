-- ===== src/Refinement.antt =====
-- crates/episcience-core/src/synthesis/refinement.rs, and `reject_and_refine` of
-- crates/episcience-api/src/jobs/synthesis_job.rs: a rejected synthesis and the child that refines it. One stage
-- transaction is a function on the rows; it ends in the new rows, or in an error that rolls everything back. Left out:
-- failures of single statements (they roll back too), and the child's empty snapshot, hash and LLM record.
pub mod Spawns
use Prim.Native.String.{String}
use episcience.Base.{
  ◌≡◌, ℕ, ◌+◌, min, Bool, true, false, not, Option, none, some, List, [], ◌∷◌, ◌++◌, map, Uuid, leb,
  ◌==◌, if◌then◌else◌,
}
use episcience.Base.Floats.{Float}
use episcience.Base.Results.{Result, ok, err, ◌>>=◌, ◌>>◌, ok_or, map_err}
use episcience.Tenancy.{Visibility}
use episcience.Ownership.{Viewer}
use episcience.Session.{SessionError}
use episcience.Synthesis.{SynthesisStatus}

pub record RefinementTemperature (F : Type 0) : Type 0 where
  pub depth_delta : ℕ
  pub relevance_prune_relax : F
  pub allow_soft_verifier : Bool

module _ {F : Type 0} ⦃fl : Float F⦄ where
  unfoldable pub default_temperature : RefinementTemperature F
  default_temperature = record {
    depth_delta = 0;
    relevance_prune_relax = fl.literal 1 0;
    allow_soft_verifier = false;
  }

  -- `depth_delta` is a `u8`.
  unfoldable pub anneal : RefinementTemperature F → RefinementTemperature F
  anneal t = record {
    depth_delta = min (min (t.depth_delta + 1) 255) 3;
    relevance_prune_relax =
        fl.larger (fl.mul t.relevance_prune_relax (fl.literal 8 1)) (fl.literal 4 1);
    allow_soft_verifier = true;
  }

module _ {F : Type 0} where
  unfoldable pub at_ceiling : RefinementTemperature F → Bool
  at_ceiling t = leb 3 t.depth_delta

-- The job's payload; `Value` is JSON.
pub record SynthesisJobPayload (Value : Type 0) : Type 0 where
  pub synthesis_id : Uuid
  pub query : String
  pub traversal_config : Option Value
  pub agent_id : Uuid
  pub parent_synthesis_id : Option Uuid
  pub prereq_synthesis_ids : List Uuid
  pub workflow_run_id : Option Uuid
  pub seed_theme_id : Option Uuid

pub record SynthesisRow (F Value : Type 0) : Type 0 where
  pub id : Uuid
  pub query : String
  pub agent_id : Uuid
  pub status : SynthesisStatus
  pub parent_synthesis_id : Option Uuid
  pub visibility : Visibility
  pub owner_group_id : Option Uuid
  pub skill_name : String
  pub refinement_temperature : Option (RefinementTemperature F)
  pub prereq_synthesis_ids : List Uuid
  pub seed_theme_id : Option Uuid
  pub wiki_key : Option String
  pub verifier_outcome : Option Value
  pub verifier_attempts : ℕ

pub record JobRow (Value : Type 0) : Type 0 where
  pub id : Uuid
  pub principal_id : Option Uuid
  pub payload : SynthesisJobPayload Value

-- The tables; an edge is a REFINES row of the outbox.
pub record Rows (F Value : Type 0) : Type 0 where
  pub syntheses : List (SynthesisRow F Value)
  pub refines : List (Uuid × Uuid)
  pub jobs : List (JobRow Value)

pub data StageError : Type 0 where
  authority synth : StageError

pub data Rejected : Type 0 where
  ceiling_reached no_principal : Rejected
  refined : Uuid → ℕ → Rejected

unfoldable pub stage_error : SessionError → StageError
stage_error SessionError.authority = authority
stage_error SessionError.db = synth

-- `RowLiveness::Live`
abbrev pub is_live : SynthesisStatus → Bool
is_live SynthesisStatus.complete = false
is_live SynthesisStatus.deleted = false
is_live s = true

module _ {Value : Type 0} where
  abbrev pub principal_of : Uuid → List (JobRow Value) → Option Uuid
  principal_of id [] = none
  principal_of id (j ∷ js) = if j.id == id then j.principal_id else principal_of id js

  unfoldable pub child_payload : Uuid → Uuid → SynthesisJobPayload Value → SynthesisJobPayload Value
  child_payload child_id chain p = record {
    synthesis_id = child_id;
    query = p.query;
    traversal_config = p.traversal_config;
    agent_id = chain;
    parent_synthesis_id = some p.synthesis_id;
    prereq_synthesis_ids = p.prereq_synthesis_ids;
    workflow_run_id = p.workflow_run_id;
    seed_theme_id = p.seed_theme_id;
  }

module _ {F Value : Type 0} where
  abbrev pub find_row : Uuid → List (SynthesisRow F Value) → Option (SynthesisRow F Value)
  find_row id [] = none
  find_row id (r ∷ rs) = if r.id == id then some r else find_row id rs

  -- The trigger `tenancy_45_publish_rule` of an update of the status to `rejected`: a public row that is not publishable
  -- becomes its group's.
  unfoldable pub publish_rule : Bool → SynthesisRow F Value → Visibility
  publish_rule publishable r = elim r.visibility [
    | Visibility.group ↦ Visibility.group
    | Visibility.public ↦ elim r.status [
      | SynthesisStatus.rejected ↦ Visibility.public
      | _ ↦ if publishable then Visibility.public else Visibility.group
    ]
  ]

  -- The two updates of the rejected row: its verifier's outcome, and its status.
  unfoldable pub reject_row : Bool → Value → SynthesisRow F Value → SynthesisRow F Value
  unfolding publish_rule
  reject_row publishable outcome r = record {
    id = r.id;
    query = r.query;
    agent_id = r.agent_id;
    status = SynthesisStatus.rejected;
    parent_synthesis_id = r.parent_synthesis_id;
    visibility = publish_rule publishable r;
    owner_group_id = r.owner_group_id;
    skill_name = r.skill_name;
    refinement_temperature = r.refinement_temperature;
    prereq_synthesis_ids = r.prereq_synthesis_ids;
    seed_theme_id = r.seed_theme_id;
    wiki_key = r.wiki_key;
    verifier_outcome = some outcome;
    verifier_attempts = r.verifier_attempts + 1;
  }

  abbrev pub update_row :
      Uuid
      → (SynthesisRow F Value → SynthesisRow F Value)
      → List (SynthesisRow F Value)
      → List (SynthesisRow F Value)
  update_row id f rows = map (λ r. if r.id == id then f r else r) rows

  -- The INSERT of the child.
  unfoldable pub child_row :
      Uuid → Uuid → RefinementTemperature F → SynthesisRow F Value → SynthesisRow F Value
  child_row child_id chain temperature r = record {
    id = child_id;
    query = r.query;
    agent_id = chain;
    status = SynthesisStatus.pending;
    parent_synthesis_id = some r.id;
    visibility = r.visibility;
    owner_group_id = r.owner_group_id;
    skill_name = r.skill_name;
    refinement_temperature = some temperature;
    prereq_synthesis_ids = r.prereq_synthesis_ids;
    seed_theme_id = r.seed_theme_id;
    wiki_key = r.wiki_key;
    verifier_outcome = none;
    verifier_attempts = 0;
  }

  module _ ⦃fl : Float F⦄ where
    abbrev pub current_temperature : SynthesisRow F Value → RefinementTemperature F
    current_temperature r = elim r.refinement_temperature [
      | none ↦ default_temperature
      | some t ↦ t
    ]

    -- After the row was found live: `child_id` is the new identifier.
    -- The child copies the row as it stands behind its updates.
    unfoldable pub refine_row :
        Bool
        → Rows F Value
        → SynthesisJobPayload Value
        → Uuid
        → Value
        → Uuid
        → SynthesisRow F Value
        → Result StageError (Rows F Value × Rejected)
    refine_row publishable st payload acting outcome child_id row =
        let marked =
          update_row payload.synthesis_id (reject_row publishable outcome) st.syntheses in
        let rejected : Rows F Value = record {
          syntheses = marked;
          refines = st.refines;
          jobs = st.jobs;
        } in
        let temperature = current_temperature row in
        if at_ceiling temperature
        then ok (rejected, ceiling_reached)
        else elim (principal_of payload.synthesis_id st.jobs) [
          | none ↦ ok (rejected, no_principal)
          | some chain ↦
              if not (chain == acting)
              then err authority
              else ok (
                record {
                  syntheses =
                      child_row child_id chain (anneal temperature)
                        (reject_row publishable outcome row)
                      ∷ marked;
                  refines = (child_id, payload.synthesis_id) ∷ st.refines;
                  jobs =
                      record {
                        id = child_id;
                        principal_id = some chain;
                        payload = child_payload child_id chain payload;
                      }
                      ∷ st.jobs;
                },
                refined child_id (anneal temperature).depth_delta,
              )
        ]

    -- `begun` answers `StageSession::begin`, `publishable` answers `episcience_synthesis_is_publishable`.
    unfoldable pub reject_and_refine :
        Bool
        → Result SessionError Viewer
        → Rows F Value
        → SynthesisJobPayload Value
        → Uuid
        → Value
        → Uuid
        → Result StageError (Rows F Value × Rejected)
    reject_and_refine publishable begun st payload acting outcome child_id = do
      map_err stage_error begun
      row ← ok_or (find_row payload.synthesis_id st.syntheses) synth
      if not (is_live row.status)
          then err authority
          else refine_row publishable st payload acting outcome child_id row
