-- ===== src/Tests/Requests.antt =====
-- Examples of the ownership decisions and of a request's authority.
use episcience.Base.{Option, ◌≡◌, true, false, none, some, [], ◌∷◌, Uuid, ◌==◌, ◌↔◌, All}
use episcience.Base.Results.{Result, ok, Yields}
use episcience.Tenancy.{Visibility}
use episcience.Ownership.{
  ApiError, Viewer, DefaultDecl, ParentRow, child_ownership, countersign_ownership,
  narrow_for_prerequisites,
}
use episcience.Ownership.Writable.{CanWrite}
use episcience.Ownership.Narrowing.{
  NoWider, child_ownership_lem, countersign_ownership_lem, narrow_for_prerequisites-public,
}
use episcience.Session.{SqlxError, DbError, begin}
use episcience.Session.Stages.{MayStage, begin_iff}
use episcience.Worker.{authorize}
use episcience.Worker.Authority.{Answers, authorize-Answers}
use episcience.Principal.{write_request, Authority, write_request_iff}

abbrev member : Viewer
member = record { principal = some 7; writable_groups = 10 ∷ 11 ∷ [] }

abbrev personal : DefaultDecl
personal p = ok (some 10)

abbrev team_parent : ParentRow
team_parent = record { visibility = Visibility.group; owner_group_id = some 11 }

child_ownership_example :
    Yields
      (λ o. CanWrite member o.owner_group_id × NoWider Visibility.group (some 11) o)
      (child_ownership personal member team_parent none Visibility.public)
child_ownership_example = child_ownership_lem personal member team_parent none Visibility.public

countersign_ownership_example :
    Yields
      (λ o. CanWrite member o.owner_group_id × NoWider Visibility.group (some 11) o)
      (countersign_ownership personal member Visibility.group 11)
countersign_ownership_example = countersign_ownership_lem personal member Visibility.group 11

abbrev readable : Uuid → Result ApiError Visibility
readable id = elim (id == 3) [ true ↦ ok Visibility.group | false ↦ ok Visibility.public ]

narrow_for_prerequisites_example :
    (narrow_for_prerequisites readable Visibility.public (1 ∷ 3 ∷ []) ≡ ok Visibility.public)
    ↔ All (λ id. readable id ≡ ok Visibility.public) (1 ∷ 3 ∷ [])
narrow_for_prerequisites_example = narrow_for_prerequisites-public readable (1 ∷ 3 ∷ [])

abbrev resolve : Uuid → Result DbError Viewer
resolve p = ok member

write_request_example :
    (write_request resolve (λ p. ok none) (λ v. ok tt) (some 7) ≡ ok member)
    ↔ Authority resolve (λ p. ok none) (λ v. ok tt) (some 7) member
write_request_example = write_request_iff resolve (λ p. ok none) (λ v. ok tt) (some 7) member

abbrev answered : Result DbError Viewer
answered = ok member

abbrev stage_owner : Viewer → Result SqlxError (Option Uuid)
stage_owner v = ok (some 11)

begin_example :
    (begin (ok member) (λ v. ok tt) stage_owner ≡ ok member)
    ↔ ((answered ≡ ok member) × MayStage (λ v. ok tt) stage_owner member)
begin_example = begin_iff (λ v. ok tt) stage_owner (ok member) member

authorize-Answers_example :
    Answers resolve (λ p. ok (some 9)) 7 (authorize resolve (λ p. ok (some 9)) 7)
authorize-Answers_example = authorize-Answers resolve (λ p. ok (some 9)) 7
