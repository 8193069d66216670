-- ===== src/Job.antt =====
-- The job handler, crates/episcience-api/src/jobs/synthesis_job.rs: its transactions and their writes. Between two
-- transactions others may change the database in any way. A transaction ends in a commit, is dropped, or is lost: its
-- answer fails although it took effect. Left out: timings, logs, events, and failures of single statements, which are
-- those of the commit. `Stages` has what the transactions do, `Run` the handler itself.
pub mod Stages
pub mod Run
pub mod Courses
pub mod Respects
pub mod Endings
pub mod Answers
use episcience.Base.{
  ◌≡◌, ℕ, zero, suc, ◌+◌, Bool, true, false, not, ◌&&◌, ◌||◌, Option, none, some, List, [], ◌∷◌,
  ◌++◌, map, Uuid, ◌==◌, if◌then◌else◌, keep, length, any,
}
use episcience.Base.Results.{Result, ok, err, ◌>>=◌, ok_or}
use episcience.Tenancy.{Visibility}
use episcience.Ownership.{Viewer}
use episcience.Session.{SessionError}
use episcience.Synthesis.{SynthesisStatus}
use episcience.Publish.{Tables, OutboxRow}
use episcience.Pipeline.{Text, Cluster}
use episcience.Refinement.{
  Rows, SynthesisRow, StageError, stage_error, authority, synth, is_live, find_row, update_row,
}

-- The columns and tables of one synthesis that `Rows` leaves out.
pub record Columns : Type 0 where
  pub snapshot_claims : List Uuid
  pub members : List Uuid
  pub clusters : List Cluster
  pub llm_call_count : ℕ
  pub embedded : Bool
  pub narrative : Option Text
  pub has_novelty : Bool

pub record Store (F Value : Type 0) : Type 0 where
  pub rows : Rows F Value
  pub columns : Columns
  pub tables : Tables

-- How the commit of a transaction ends.
pub data Commit : Type 0 where
  committed lost rolled_back : Commit

-- The world outside the job, by the number of the transaction; `S` is the database.
pub record Session (S : Type 0) : Type 0 where
  pub others : ℕ → S → S
  pub begin : ℕ → S → Result SessionError Viewer
  pub commit : ℕ → Commit

-- A job in its course: the database as it last saw it, the transactions that it opened, and those that took effect,
-- with the database before and after.
pub record Course (S : Type 0) : Type 0 where
  pub now : S
  pub opened : ℕ
  pub done : List (S × S)

abbrev pub M : Type 0 → Type 0 → Type 0
M S A = Course S → Result StageError A × Course S

-- What a transaction, stamped as a viewer, does to the database it sees: a value and the new database, or none if it is dropped.
abbrev pub Body : Type 0 → Type 0 → Type 0
Body S A = Viewer → S → Result StageError (A × Option S)

module _ {S A : Type 0} where
  abbrev pub lift : Result StageError A → M S A
  lift r j = (r, j)

  -- The rest of a step, by its result.
  unfoldable pub continue :
      {B : Type 0} → Result StageError A × Course S → (A → M S B) → Result StageError B × Course S
  continue (ok a, j) f = f a j
  continue (err e, j) f = (err e, j)

  infixl 5 ◌>>>◌
  unfoldable pub ◌>>>◌ : {B : Type 0} → M S A → (A → M S B) → M S B
  unfolding continue
  ◌>>>◌ m f j = continue (m j) f

  unfoldable pub conclude : Commit → S → A → S → Course S → Result StageError A × Course S
  conclude committed before a after j =
      (ok a, record { now = after; opened = j.opened; done = (before, after) ∷ j.done })
  conclude lost before a after j =
      (err synth, record { now = after; opened = j.opened; done = (before, after) ∷ j.done })
  conclude rolled_back before a after j =
      (err synth, record { now = before; opened = j.opened; done = j.done })

  unfoldable pub run_body :
      Commit → S → Result StageError (A × Option S) → Course S → Result StageError A × Course S
  unfolding conclude
  run_body c before (err e) j = (err e, record { now = before; opened = j.opened; done = j.done })
  run_body c before (ok (a, none)) j =
      (ok a, record { now = before; opened = j.opened; done = j.done })
  run_body c before (ok (a, some after)) j = conclude c before a after j

  -- `StageSession::begin` .. `commit`
  unfoldable pub transaction : Session S → Body S A → M S A
  unfolding run_body
  transaction session body j =
      let before = session.others j.opened j.now in
      let j' : Course S = record { now = before; opened = suc j.opened; done = j.done } in
      elim (session.begin j.opened before) [
        | err e ↦ (err (stage_error e), j')
        | ok viewer ↦ run_body (session.commit j.opened) before (body viewer before) j'
      ]

module _ {F Value : Type 0} where
  module _ (id : Uuid) where
    abbrev pub status_of : Store F Value → Option SynthesisStatus
    status_of s = elim (find_row id s.rows.syntheses) [ none ↦ none | some r ↦ some r.status ]

    -- `lock_live`, and the refusal of `begin_live`: the body runs on a live row only.
    unfoldable pub on_live : {A : Type 0} → Body (Store F Value) A → Body (Store F Value) A
    on_live body viewer s = elim (status_of s) [
      | none ↦ err synth
      | some status ↦ elim (is_live status) [ true ↦ body viewer s | false ↦ err authority ]
    ]

    -- An UPDATE of the one row of the synthesis.
    abbrev pub with_row :
        (SynthesisRow F Value → SynthesisRow F Value) → Store F Value → Store F Value
    with_row f s = record s {
      rows = record s.rows { syntheses = update_row id f s.rows.syntheses };
    }

    -- `WHERE status NOT IN ('complete', 'deleted')`, with whether a row matched.
    unfoldable pub if_live : (Store F Value → Store F Value) → Store F Value → Bool × Store F Value
    if_live f s = elim (status_of s) [
      | none ↦ (false, s)
      | some status ↦ elim (is_live status) [ true ↦ (true, f s) | false ↦ (false, s) ]
    ]
