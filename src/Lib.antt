-- ===== src/Lib.antt =====
-- EpiScience keeps a laboratory's samples, protocols and syntheses beside a kernel of claims. A synthesis is made by a
-- worker: it takes a job from a queue, acts as the job's principal, walks the graph of claims from some seeds, clusters
-- them, has a narrative written and verified, and publishes it or has it refined. Every row has an owner group and a
-- visibility, and every request and every stage acts as one principal.
--
-- Which file models what:
--   Clustering      crates/episcience-core/src/synthesis/clustering: `cluster_signed`, with a child for each step of
--                   signed_louvain.rs: Louvain, Separate, Merge.
--   Traversal       crates/episcience-core/src/synthesis/traversal.rs: `traverse`.
--   Tenancy         crates/episcience-core/src/tenancy.rs, and `read_predicate` of synthesis/mod.rs.
--   Ownership       crates/episcience-api/src/auth/tenancy.rs: which owner group and visibility a write gets.
--   Session         crates/episcience-api/src/jobs/session.rs: transient errors, and the check before a stage.
--   Principal       crates/episcience-db/src/tenancy.rs: `resolve_principal` and `write_as`.
--   Worker          crates/episcience-api/src/jobs/worker.rs: `authorize`; Queue: `queue_call`, `run_once` and what it
--                   calls; Worklist: `run_worklist`; Backoff: `WorklistBackoff`.
--   Refinement      crates/episcience-core/src/synthesis/refinement.rs, and `reject_and_refine` of
--                   crates/episcience-api/src/jobs/synthesis_job.rs.
--   Verifier        crates/episcience-core/src/synthesis/verifier.rs: `default_citation_rubric`.
--   Staleness       crates/episcience-db/src/synthesis/staleness.rs: `recheck_beliefs`.
--   Seeds           crates/episcience-core/src/wiki/seed.rs: `select_article_seeds`.
--   Sample          crates/episcience-core/src/sample.rs: kinds, states and transitions.
--   Synthesis       crates/episcience-core/src/synthesis/mod.rs: the states and their words.
--   Pipeline        crates/episcience-db/src/synthesis/pipeline.rs: `call_llm_with_schema_retry`; Seeding: stage 1;
--                   Narration: `narrate_cluster`; Composition: `stage5_compose` and the splice.
--   Publish         crates/episcience-db/src/synthesis/publish.rs and repos/synthesis_provo_edges.rs: the outbox of PROV
--                   edges, planned, deferred, written.
--   Job             crates/episcience-api/src/jobs/synthesis_job.rs: the handler. Stages: what each transaction writes,
--                   with stages 2 to 4 of the pipeline and the updates of crates/episcience-db/src/repos/synthesis.rs;
--                   Run: `run`, `run_stages`, `run_on_pipeline`; Courses, Respects, Endings and Answers: what holds of
--                   them.
--   Client          crates/episcience-api/src/clients/claude_cli.rs: `parse_envelope`, with Pieces for its parts of a
--                   text and Repair for `repair_json`.
--   Keys            crates/episcience-core/src/wiki/key.rs: the slug of a wiki page; Slugs and Titles: what it gives back.
--   Ledger          crates/episcience-db/src/ledger.rs: `adopt_baseline`, `run_to`, `verify`, with a child for each, and
--                   the fingerprints. It shares nothing with the rest: a deploy runs it.
--   Base, Tests     what these share, and concrete inputs.
--
-- The worker runs Job, which begins each transaction by Session's check, and calls Pipeline, Publish, and Refinement
-- when the verifier rejects; Ownership and Principal decide the rows that requests write; Traversal's claims are what
-- Clustering partitions. In Job, whether a transaction opens is an argument.
--
-- How code becomes a function: state is passed on explicitly; an early return with an error is a `Result`; code that can
-- panic, or that a model stops, is a `Run`. A `HashMap` or `HashSet` is a list, in an order that Rust leaves open.
-- Identifiers and versions of migrations are natural numbers. Floating point is a record of operations, of which no law is
-- assumed. What the kernel, the database, the clock, the model and the edge provider answer is an argument; of a failure's
-- text only its kind is kept.
--
-- Fuel: `traverse` takes one unit a turn, and the number of seeds and the cap together are enough; `merge_until_cap` has
-- as many turns as there are clusters; `queue_call` has its four tries; the selection of seeds has as many turns as
-- candidates. Louvain rounds have no bound in the code, and rounding may keep them going, so their fuel stays a parameter;
-- the handler passes no edges, and one round is enough then. A call of the model is tried again as often as the caller
-- says.
--
-- Not modelled: SQL, HTTP and MCP handlers, the process of the language model's client, prompts, novelty backends,
-- configuration and binaries, the endless polling loop of the worker, best-effort events and the catalog's queries;
-- failures of single statements inside a stage transaction, which roll it back.
-- Of the database's triggers and policies: the publish rule is applied where a rejection changes the status, as the child
-- copies what it leaves; what row security shows of the outbox is an argument, the same for a whole attempt; the others
-- are left out.
pub mod Base
pub mod Clustering
pub mod Traversal
pub mod Tenancy
pub mod Ownership
pub mod Session
pub mod Principal
pub mod Worker
pub mod Refinement
pub mod Verifier
pub mod Staleness
pub mod Seeds
pub mod Sample
pub mod Synthesis
pub mod Tests
pub mod Publish
pub mod Pipeline
pub mod Job
pub mod Keys
pub mod Ledger
pub mod Client
