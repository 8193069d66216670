-- ===== src/Session.antt =====
-- crates/episcience-api/src/jobs/session.rs: which database errors are transient, and when a stage transaction of
-- the worker may open. Messages of the errors are left out; the answers of the kernel and the database are arguments.
pub mod Stages
use Prim.Native.String.{String}
use text.Mathlib.Text.{◌==◌ as str_eq, starts_with}
use episcience.Base.{
  Bool, true, false, not, ◌||◌, Option, none, some, List, [], ◌∷◌, Uuid, if◌then◌else◌, contains,
}
use episcience.Base.Results.{Result, ok, err, ◌>>=◌, ◌>>◌, map_err}
use episcience.Ownership.{Viewer}

-- `sqlx::Error`, as far as the program tells its variants apart; a database error has its SQLSTATE.
pub data SqlxError : Type 0 where
  io tls protocol pool_timed_out pool_closed worker_crashed : SqlxError
  database : Option String → SqlxError
  another_error : SqlxError

unfoldable pub is_transient_sqlstate : String → Bool
is_transient_sqlstate code =
    starts_with code "08"
    || starts_with code "53"
    || starts_with code "57P"
    || str_eq code "57014"
    || str_eq code "40001"
    || str_eq code "40P01"
    || str_eq code "55P03"

unfoldable pub is_transient_sqlx : SqlxError → Bool
is_transient_sqlx io = true
is_transient_sqlx tls = true
is_transient_sqlx protocol = true
is_transient_sqlx pool_timed_out = true
is_transient_sqlx pool_closed = true
is_transient_sqlx worker_crashed = true
is_transient_sqlx (database none) = false
is_transient_sqlx (database (some c)) = is_transient_sqlstate c
is_transient_sqlx another_error = false

-- The kernel's repository error.
pub data DbError : Type 0 where
  query_failed connection_failed : SqlxError → DbError
  another_failure : DbError

unfoldable pub is_transient_db : DbError → Bool
is_transient_db (query_failed source) = is_transient_sqlx source
is_transient_db (connection_failed source) = is_transient_sqlx source
is_transient_db another_failure = false

pub data SessionError : Type 0 where
  authority db : SessionError

unfoldable pub resolve_failure : DbError → SessionError
resolve_failure e = if is_transient_db e then db else authority

abbrev pub is_empty : List Uuid → Bool
is_empty [] = true
is_empty (g ∷ gs) = false

-- The check of the owner group that was read inside the transaction.
abbrev pub check_owner : Viewer → Option Uuid → Result SessionError Viewer
check_owner viewer none = err authority
check_owner viewer (some g) =
    if not (contains viewer.writable_groups g) then err authority else ok viewer

-- The transaction is named by the viewer it is stamped as. The arguments answer `Viewer::resolve`, `begin_as` and the
-- read of the synthesis' owner group in the opened transaction.
unfoldable pub begin :
    Result DbError Viewer
    → (Viewer → Result DbError Unit)
    → (Viewer → Result SqlxError (Option Uuid))
    → Result SessionError Viewer
begin resolved begin_as owner_group_id = do
  viewer ← map_err resolve_failure resolved
  if is_empty viewer.writable_groups then err authority else do
    map_err (λ e. db) (begin_as viewer)
    owner ← map_err (λ e. db) (owner_group_id viewer)
    check_owner viewer owner
