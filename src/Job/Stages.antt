-- ===== src/Job/Stages.antt =====
-- The steps of a job in synthesis_job.rs and in crates/episcience-db/src/synthesis/pipeline.rs: what each computes, and
-- what its transaction writes, with the updates of crates/episcience-db/src/repos/synthesis.rs. The traversal and the
-- clustering return, as is proved with them; a panic there would stop the job.
-- The database's publish rule narrows a row when it is rejected, in Refinement; no other change of a status narrows one
-- here. What the principal's sessions see of the outbox stays the same during an attempt.
use episcience.Base.{
  ℕ, suc, ◌+◌, Bool, true, false, not, any, ◌&&◌, Option, none, some, List, [], ◌∷◌, ◌++◌, map,
  Uuid, ◌==◌, if◌then◌else◌, keep, length, contains,
}
use episcience.Base.Floats.{Float}
use episcience.Base.Runs.{Run, returns, panics, unfinished}
use episcience.Base.Results.{Result, ok, err, ◌>>=◌, map_err}
use episcience.Tenancy.{Visibility}
use episcience.Synthesis.{SynthesisStatus}
use episcience.Traversal.{EdgeType, TraversalConfig, default_config, traverse}
use episcience.Clustering.{cluster_signed}
use episcience.Clustering.Graph.{SignedEdge}
use episcience.Pipeline.Seeding.{Recall, stage1_seed, stage1_seed_theme}
use episcience.Publish.{
  ProvenanceEdge, OutboxRow, plan, edge, stage6_plan_edges, stage6_write_edges, may_complete,
}
use episcience.Pipeline.{Text, Cluster, Texts, LlmError, SynthesisError}
use episcience.Pipeline.Composition.{Capture}
use episcience.Verifier.{VerificationOutcome}
use episcience.Refinement.{
  SynthesisJobPayload, SynthesisRow, StageError, synth, Rejected, find_row, reject_and_refine,
}
use package.episcience.Job.{Store, Body, with_row, if_live, status_of}

abbrev pub from_run : {A : Type 0} → Run A → Result StageError A
from_run (returns a) = ok a
from_run panics = err synth
from_run unfinished = err synth

module _ {F : Type 0} ⦃fl : Float F⦄ where
  -- The signed weights of `stage3_plan`.
  abbrev pub weight : EdgeType → F
  weight EdgeType.supports = fl.literal 1 0
  weight EdgeType.corroborates = fl.literal 1 0
  weight EdgeType.methodology = fl.literal 5 1
  weight EdgeType.contradicts = fl.sub (fl.literal 0 0) (fl.literal 5 1)
  weight EdgeType.supersedes = fl.literal 0 0

  abbrev pub signed : List (Uuid × Uuid × EdgeType) → List (SignedEdge F)
  signed [] = []
  signed ((a, b, t) ∷ edges) = (a, b, weight t) ∷ signed edges

  -- The edges inside a cluster that pass a test of their weight.
  abbrev pub count_within : (F → Bool) → List Uuid → List (SignedEdge F) → ℕ
  count_within test members edges =
      length (keep (λ e. test e.2 && contains members e.0 && contains members e.1) edges)

  unfoldable pub build_clusters :
      (ℕ → Uuid) → Uuid → List (SignedEdge F) → ℕ → List (List Uuid) → List Cluster
  build_clusters new_id id edges i [] = []
  build_clusters new_id id edges i (members ∷ raw) =
      record {
        id = new_id i;
        synthesis_id = id;
        cluster_index = i;
        title = [];
        summary = [];
        member_claim_ids = members;
        support_count = count_within (λ w. fl.lt (fl.literal 0 0) w) members edges;
        contradict_count = count_within (λ w. fl.lt w (fl.literal 0 0)) members edges;
      }
      ∷ build_clusters new_id id edges (suc i) raw

-- `fuel` bounds the Louvain rounds.
unfoldable pub stage3_plan :
    (F : Type 0) ⦃fl : Float F⦄
    → ℕ
    → (ℕ → Uuid)
    → Uuid
    → List Uuid
    → List (Uuid × Uuid × EdgeType)
    → Result StageError (List Cluster)
unfolding build_clusters
stage3_plan F fuel new_id id claims edges_with_types =
    let edges : List (SignedEdge F) = signed edges_with_types in
    from_run (cluster_signed fuel claims edges 12) >>= λ raw.
    ok (build_clusters new_id id edges 0 raw)

-- `update_text`: exactly one row per cluster.
unfoldable pub store_text : Cluster → List Cluster → Result StageError (List Cluster)
store_text c rows =
    if length (keep (λ d. d.id == c.id) rows) == 1
    then ok (
        map (λ d. if d.id == c.id then record d { title = c.title; summary = c.summary } else d)
          rows)
    else err synth

unfoldable pub stage4_persist : List Cluster → List Cluster → Result StageError (List Cluster)
unfolding store_text
stage4_persist [] rows = ok rows
stage4_persist (c ∷ clusters) rows = store_text c rows >>= stage4_persist clusters

abbrev pub no_synth : {A : Type 0} → Result SynthesisError A → Result StageError A
no_synth r = map_err (λ e. synth) r

-- What the handler is built with and what it is told: the kernel, the embedder, the model, the skill and new identifiers.
pub record Handler (F Value V : Type 0) : Type 0 where
  pub cost_budget : ℕ
  pub texts : Texts V
  pub captures_iter : Text → List Capture × Text
  pub complete : ℕ → Result LlmError V
  -- `StageSession::viewer`
  pub viewer : Result {0} Unit Unit
  pub recall : Recall F
  -- A claim's visibility and its owner group.
  pub claims : Uuid → Option (Visibility × Uuid)
  pub neighbors : Uuid → List EdgeType → List (Uuid × EdgeType)
  pub relevance : Uuid → F
  pub get_belief : Uuid → Result {0} Unit Unit
  pub from_value : Value → Option (TraversalConfig F)
  pub to_value : VerificationOutcome → Value
  -- The skill's own configuration and its verifier.
  pub skill_config : Option (TraversalConfig F)
  pub verify : Text → List Uuid → VerificationOutcome
  pub new_cluster_id : ℕ → Uuid
  pub child_id : Uuid
  pub embed : Result {0} Unit Unit
  pub create : ProvenanceEdge → Result Unit Uuid
  pub order_by : List ProvenanceEdge → List ProvenanceEdge
  pub is_publishable : Store F Value → Bool
  -- The row policies of `synthesis_provo_edges`: whether the principal's sessions see the row of an edge.
  pub sees : ProvenanceEdge → Bool
  -- The full narrative's embedding, where the backend wants it, and the reader; then the backend's score.
  pub novelty_inputs : Result {0} Unit Unit
  pub score : Result {0} Unit Unit

abbrev pub nonempty : List Uuid → Result StageError (List Uuid)
nonempty [] = err synth
nonempty (x ∷ xs) = ok (x ∷ xs)

abbrev pub all_ok : {A : Type 0} → (A → Result {0} Unit Unit) → List A → Bool
all_ok f [] = true
all_ok f (x ∷ xs) = elim (f x) [ ok u ↦ all_ok f xs | err e ↦ false ]

-- A child's REFINES row of the outbox.
abbrev pub child_outbox : Uuid → Rejected → List OutboxRow → List OutboxRow
child_outbox parent Rejected.ceiling_reached rows = rows
child_outbox parent Rejected.no_principal rows = rows
child_outbox parent (Rejected.refined child_id depth) rows =
    plan child_id (edge "REFINES" "synthesis" parent ∷ []) rows

module _ {F Value V : Type 0} ⦃fl : Float F⦄ (h : Handler F Value V) where
  -- The skill's configuration, else the default.
  abbrev pub own_config : TraversalConfig F
  own_config = elim h.skill_config [ some cfg ↦ cfg | none ↦ default_config ]

  -- The payload's configuration, if there is one and it can be read.
  unfoldable pub resolve_traversal_config : Option Value → TraversalConfig F
  resolve_traversal_config none = own_config
  resolve_traversal_config (some json) = elim (h.from_value json) [
    | some cfg ↦ cfg
    | none ↦ own_config
  ]

  unfoldable pub stage1 : Option Uuid → Result StageError (List Uuid)
  stage1 none = no_synth (stage1_seed h.recall)
  stage1 (some theme) = no_synth (stage1_seed_theme h.recall theme)

  -- A public synthesis keeps public claims, a group's synthesis also the claims of its own group.
  unfoldable pub may_seed : SynthesisRow F Value → Uuid → Bool
  may_seed row c = elim (h.claims c) [
    | none ↦ false
    | some (Visibility.public, owner) ↦ true
    | some (Visibility.group, owner) ↦ elim row.visibility [
      | Visibility.public ↦ false
      | Visibility.group ↦ elim row.owner_group_id [ none ↦ false | some g ↦ owner == g ]
    ]
  ]

  unfoldable pub seed_filter : Option (SynthesisRow F Value) → List Uuid → List Uuid
  unfolding may_seed
  seed_filter none seeds = []
  seed_filter (some row) seeds = keep (may_seed row) seeds

  -- The claim-attach rule of `replace_for_synthesis`.
  unfoldable pub is_foreign : SynthesisRow F Value → Uuid → Bool
  is_foreign row c = elim (h.claims c) [
    | none ↦ false
    | some (Visibility.public, owner) ↦ false
    | some (Visibility.group, owner) ↦ elim row.owner_group_id [
      | none ↦ true
      | some g ↦ not (owner == g)
    ]
  ]

  unfoldable pub stage2_compute : TraversalConfig F → List Uuid → Result StageError (List Uuid)
  stage2_compute cfg seeds =
      from_run
        (traverse h.neighbors h.relevance cfg (suc (length seeds + cfg.max_subgraph_size)) seeds)
      >>= λ snapshot.
          if all_ok h.get_belief snapshot.claim_ids then ok snapshot.claim_ids else err synth

  abbrev Db : Type 0
  Db = Store F Value

  -- The bodies of the transactions. `mark_running` answers whether the row is live; one that is complete is left.
  module _ (id : Uuid) where
    abbrev pub start_row : SynthesisStatus → Db → Result StageError (Bool × Option Db)
    start_row SynthesisStatus.complete s = ok (false, none)
    start_row SynthesisStatus.deleted s = err StageError.authority
    start_row status s =
        ok (true, some (with_row id (λ r. record r { status = SynthesisStatus.running }) s))

    unfoldable pub mark_running : Body Db Bool
    mark_running viewer s = elim (status_of id s) [
      | none ↦ err synth
      | some status ↦ start_row status s
    ]

    unfoldable pub record_llm_usage : ℕ → Body Db Bool
    unfolding if_live
    record_llm_usage n viewer s =
        let p =
          if_live id (λ s. record s { columns = record s.columns { llm_call_count = n } }) s in
        ok (p.0, some p.1)

    unfoldable pub mark_failed : Body Db Unit
    unfolding if_live
    mark_failed viewer s = ok (
      tt,
      some (if_live id (with_row id (λ r. record r { status = SynthesisStatus.failed })) s).1,
    )

    unfoldable pub filter_seeds : List Uuid → Body Db (List Uuid)
    unfolding seed_filter
    filter_seeds seeds viewer s = ok (seed_filter (find_row id s.rows.syntheses) seeds, some s)

    -- The snapshot's update wants the row; one claim of another group refuses the whole set of members.
    unfoldable pub stage2_persist : List Uuid → Body Db Unit
    unfolding is_foreign
    stage2_persist claims viewer s = elim (find_row id s.rows.syntheses) [
      | none ↦ err synth
      | some row ↦
          if any (is_foreign row) claims
          then err synth
          else ok (
            tt,
            some (record s {
              columns = record s.columns { snapshot_claims = claims; members = claims };
            }),
          )
    ]

    unfoldable pub stage3_persist : List Cluster → Body Db Unit
    stage3_persist clusters viewer s =
        ok (tt, some (record s { columns = record s.columns { clusters = clusters } }))

    unfoldable pub store_narration : List Cluster → Body Db Unit
    unfolding stage4_persist
    store_narration narrated viewer s = stage4_persist narrated s.columns.clusters >>= λ clusters.
        ok (tt, some (record s { columns = record s.columns { clusters = clusters } }))

    unfoldable pub persist_verifier_outcome : VerificationOutcome → Body Db Unit
    persist_verifier_outcome outcome viewer s = ok (
      tt,
      some (
          with_row id
            (λ r. record r {
              verifier_outcome = some (h.to_value outcome);
              verifier_attempts = r.verifier_attempts + 1;
            })
            s),
    )

    -- The parent and the prerequisites are the row's.
    unfoldable pub plan_edges : List Uuid → Uuid → Option Uuid → Body Db Unit
    plan_edges cited acting workflow_run viewer s = elim (find_row id s.rows.syntheses) [
      | none ↦ err synth
      | some row ↦ ok (
        tt,
        some (record s {
          tables = record s.tables {
            outbox =
                stage6_plan_edges h.sees id cited row.parent_synthesis_id row.prereq_synthesis_ids
                  acting workflow_run s.tables.outbox;
          };
        }),
      )
    ]

    unfoldable pub upsert_embedding : Body Db Unit
    upsert_embedding viewer s =
        ok (tt, some (record s { columns = record s.columns { embedded = true } }))

    -- `save_narrative`: one row, not complete or deleted.
    unfoldable pub save_narrative : Text → Db → Result StageError Db
    unfolding if_live
    save_narrative narrative s =
        let p =
          if_live id
            (λ s.
              with_row id (λ r. record r { status = SynthesisStatus.complete })
                (record s { columns = record s.columns { narrative = some narrative } }))
            s in
        if p.0 then ok p.1 else err synth

    -- Steps 10d and 10e: whether the row is complete; a refused edge commits what happened before it. The statements reach
    -- the rows of the outbox that the session sees.
    unfoldable pub write_and_complete : Text → Body Db Bool
    write_and_complete narrative viewer s =
        let seen = keep (λ r. h.sees r.edge) s.tables.outbox in
        let hidden = keep (λ r. not (h.sees r.edge)) s.tables.outbox in
        map_err (λ e. synth)
          (stage6_write_edges h.create id h.order_by
            (map (λ c. c.member_claim_ids) s.columns.clusters) (h.is_publishable s)
            (record s.tables { outbox = seen }))
        >>= λ written.
            let s' : Db = record s {
              tables = record written.0 { outbox = written.0.outbox ++ hidden };
            } in
            elim written.1.failure [
              | some f ↦ ok (false, some s')
              | none ↦
                  map_err (λ e. synth) (may_complete id written.0.outbox)
                  >>= (λ u. save_narrative narrative s')
                  >>= λ s''. ok (true, some s'')
            ]

    -- The score and its update, in one transaction.
    unfoldable pub store_novelty : Body Db Unit
    store_novelty viewer s = map_err (λ e. synth) h.score >>= λ u. elim (status_of id s) [
      | none ↦ err synth
      | some status ↦ ok (tt, some (record s { columns = record s.columns { has_novelty = true } }))
    ]

    -- The outcome, the rejected row and its refinement: `reject_and_refine` in the transaction that is open.
    unfoldable pub reject_body :
        SynthesisJobPayload Value → Uuid → VerificationOutcome → Body Db Rejected
    reject_body payload acting outcome viewer s =
        reject_and_refine (h.is_publishable s) (ok viewer) s.rows payload acting
          (h.to_value outcome) h.child_id
        >>= λ r. ok (
          r.1,
          some (record s {
            rows = r.0;
            tables = record s.tables { outbox = child_outbox id r.1 s.tables.outbox };
          }),
        )
