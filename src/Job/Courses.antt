-- ===== src/Job/Courses.antt =====
-- What every transaction that takes effect has in common, step by step through a course.
use episcience.Base.{suc, Bool, true, false, Option, none, some, All, if◌then◌else◌}
use episcience.Base.Results.{Result, ok, err, Yields}
use episcience.Ownership.{Viewer}
use episcience.Session.{SessionError}
use episcience.Refinement.{StageError, stage_error}
use package.episcience.Job.{
  Commit, committed, lost, rolled_back, Session, Course, M, Body, lift, continue, ◌>>>◌, conclude,
  run_body, transaction,
}

module _ {S : Type 0} (P : S × S → Type 0) where
  abbrev pub Respectful : Course S → Type 0
  Respectful j = All P j.done

  -- Run on such a course, the step only adds transactions with the property.
  unfoldable pub Keeps : {A : Type 0} → M S A → Type 0
  Keeps m = (j : Course S) → Respectful j → Respectful (m j).1

  abbrev pub Writes : S → Option S → Type 0
  Writes s none = Unit
  Writes s (some s') = P (s, s')

  abbrev pub BodyKeeps : {A : Type 0} → Body S A → Type 0
  BodyKeeps body = (viewer : Viewer) (s : S) → Yields (λ r. Writes s r.1) (body viewer s)

  pub lift-Keeps : {A : Type 0} (r : Result StageError A) → Keeps (lift r)
  unfolding Keeps
  lift-Keeps r j h = h

  pub if-Keeps :
      {A : Type 0} (b : Bool) (m n : M S A) → Keeps m → Keeps n → Keeps (if b then m else n)
  if-Keeps true m n hm hn = hm
  if-Keeps false m n hm hn = hn

  pub bind-Keeps :
      {A B : Type 0} (m : M S A) (f : A → M S B)
      → Keeps m
      → ((a : A) → Keeps (f a))
      → Keeps (m >>> f)
  unfolding Keeps ◌>>>◌
  bind-Keeps {A} {B} m f hm hf j h = go (m j) (hm j h)
    where
      go : (r : Result StageError A × Course S) → Respectful r.1 → Respectful (continue r f).1
      go (ok a, j') k = hf a j' k
      go (err e, j') k = k

  pub transaction-Keeps :
      {A : Type 0} (session : Session S) (body : Body S A)
      → BodyKeeps body
      → Keeps (transaction session body)
  unfolding Keeps transaction run_body conclude
  transaction-Keeps {A} session body hb j h = go (session.begin j.opened before)
    where
      before : S
      before = session.others j.opened j.now

      j' : Course S
      j' = record { now = before; opened = suc j.opened; done = j.done }

      ended :
          (c : Commit) (a : A) (after : S)
          → P (before, after)
          → Respectful (conclude c before a after j').1
      ended committed a after p = (p, h)
      ended lost a after p = (p, h)
      ended rolled_back a after p = h

      ran :
          (r : Result StageError (A × Option S))
          → Yields (λ r. Writes before r.1) r
          → Respectful (run_body (session.commit j.opened) before r j').1
      ran (err e) y = h
      ran (ok (a, none)) y = h
      ran (ok (a, some after)) y = ended (session.commit j.opened) a after y

      go :
          (b : Result SessionError Viewer)
          → Respectful
              (elim b as (λ b. Result StageError A × Course S) [
                | err e ↦ (err (stage_error e), j')
                | ok viewer ↦ run_body (session.commit j.opened) before (body viewer before) j'
              ]).1
      go (err e) = h
      go (ok viewer) = ran (body viewer before) (hb viewer before)
