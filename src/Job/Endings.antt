-- ===== src/Job/Endings.antt =====
-- How a transaction of a job ends, and what it leaves of those before it.
use episcience.Base.{◌≡◌, refl, ◌⊎◌, inl, inr, suc, Option, none, some, List, [], ◌∷◌}
use episcience.Base.Results.{Result, ok, err, Yields}
use episcience.Ownership.{Viewer}
use episcience.Session.{SessionError}
use episcience.Refinement.{StageError, stage_error}
use package.episcience.Job.{
  Commit, committed, lost, rolled_back, Session, Course, Body, conclude, run_body, transaction,
}

-- Some element has the property.
abbrev pub Some : {A : Type 0} → (A → Type 0) → List A → Type 0
Some P [] = ⊥
Some P (x ∷ xs) = P x ⊎ Some P xs

module _ {S A : Type 0} (Post : A → S → Option S → Type 0) where
  -- A transaction that was answered: dropped, or committed last.
  abbrev pub TxEnds : Result StageError A × Course S → Type 0
  TxEnds (err e, j) = Unit
  TxEnds (ok a, j) =
      Post a j.now none
      ⊎ ((before : S) × (after : S) × (rest : List (S × S)) × (Post a before (some after)
            × (j.done ≡ (before, after) ∷ rest)))

  pub transaction-TxEnds :
      (session : Session S) (body : Body S A)
      → ((viewer : Viewer) (s : S) → Yields (λ r. Post r.0 s r.1) (body viewer s))
      → (j : Course S) → TxEnds (transaction session body j)
  unfolding transaction run_body conclude
  transaction-TxEnds session body h j = go (session.begin j.opened before)
    where
      before : S
      before = session.others j.opened j.now

      j' : Course S
      j' = record { now = before; opened = suc j.opened; done = j.done }

      ended :
          (c : Commit) (a : A) (after : S)
          → Post a before (some after)
          → TxEnds (conclude c before a after j')
      ended committed a after p = inr (before, after, j.done, (p, refl))
      ended lost a after p = tt
      ended rolled_back a after p = tt

      ran :
          (r : Result StageError (A × Option S))
          → Yields (λ r. Post r.0 before r.1) r
          → TxEnds (run_body (session.commit j.opened) before r j')
      ran (err e) y = tt
      ran (ok (a, none)) y = inl y
      ran (ok (a, some after)) y = ended (session.commit j.opened) a after y

      go :
          (b : Result SessionError Viewer)
          → TxEnds (elim b as (λ b. Result StageError A × Course S) [
            | err e ↦ (err (stage_error e), j')
            | ok viewer ↦ run_body (session.commit j.opened) before (body viewer before) j'
          ])
      go (err e) = tt
      go (ok viewer) = ran (body viewer before) (h viewer before)

-- What stays true of the transactions that took effect as further ones do.
module _ {S : Type 0} (P : S × S → Type 0) where
  pub transaction-Some :
      {A : Type 0} (session : Session S) (body : Body S A) (j : Course S)
      → Some P j.done
      → Some P (transaction session body j).1.done
  unfolding transaction run_body conclude
  transaction-Some {A} session body j h = go (session.begin j.opened before)
    where
      before : S
      before = session.others j.opened j.now

      j' : Course S
      j' = record { now = before; opened = suc j.opened; done = j.done }

      ended : (c : Commit) (a : A) (after : S) → Some P (conclude c before a after j').1.done
      ended committed a after = inr h
      ended lost a after = inr h
      ended rolled_back a after = h

      ran :
          (r : Result StageError (A × Option S))
          → Some P (run_body (session.commit j.opened) before r j').1.done
      ran (err e) = h
      ran (ok (a, none)) = h
      ran (ok (a, some after)) = ended (session.commit j.opened) a after

      go :
          (b : Result SessionError Viewer)
          → Some P
              (elim b as (λ b. Result StageError A × Course S) [
                | err e ↦ (err (stage_error e), j')
                | ok viewer ↦ run_body (session.commit j.opened) before (body viewer before) j'
              ]).1.done
      go (err e) = h
      go (ok viewer) = ran (body viewer before)
