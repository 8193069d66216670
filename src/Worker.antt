-- ===== src/Worker.antt =====
-- crates/episcience-api/src/jobs/worker.rs: the worker of the synthesis queue and its per-item backoff.
pub mod Backoff
pub mod Authority
pub mod Queue
pub mod Worklist
use episcience.Base.{
  ◌≡◌, refl, Bool, true, false, Option, none, some, List, [], ◌∷◌, Uuid, if◌then◌else◌,
}
use episcience.Base.Results.{Result, ok, err, ◌>>=◌, map_err}
use episcience.Ownership.{Viewer}
use episcience.Session.{DbError, is_transient_db, is_empty}

-- `Refusal`: what a refusal to act as a job's principal says.
pub data Refusal : Type 0 where
  operated authority transient : Refusal

abbrev pub could_not : DbError → Refusal
could_not e = if is_transient_db e then transient else authority

-- The arguments answer `Viewer::resolve` and the kernel's operator lookup for a principal.
unfoldable pub authorize :
    (Uuid → Result DbError Viewer)
    → (Uuid → Result DbError (Option Uuid))
    → Uuid
    → Result Refusal Viewer
authorize resolve operator_of principal = do
  viewer ← map_err could_not (resolve principal)
  operator ← map_err could_not (operator_of principal)
  elim operator [
    | some o ↦ err operated
    | none ↦ if is_empty viewer.writable_groups then err authority else ok viewer
  ]
