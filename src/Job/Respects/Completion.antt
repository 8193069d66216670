-- ===== src/Job/Respects/Completion.antt =====
-- The last transaction writes the edges and completes the row, or leaves it.
use episcience.Base.{
  not, keep, All, [], ◌∷◌, ◌++◌, ◌≡◌, refl, ◌∙◌, ap, ℕ, Bool, true, false, Option, none, some, List,
  map, Uuid, if◌then◌else◌, arith,
}
use episcience.Base.Floats.{Float}
use episcience.Base.Results.{
  Result, ok, err, ◌>>=◌, map_err, Yields, Yields-after, Yields-bind, Yields-map,
}
use episcience.Ownership.{Viewer}
use episcience.Synthesis.{SynthesisStatus}
use episcience.Publish.{
  OutboxRow, Tables, EdgeWriteOutcome, WriteFailure, stage6_write_edges, may_complete,
}
use episcience.Pipeline.{Text}
use episcience.Verifier.{accept}
use episcience.Refinement.{SynthesisRow, StageError, is_live}
use package.episcience.Job.{Store, status_of, with_row, if_live}
use package.episcience.Job.Stages.{Handler, save_narrative, write_and_complete}
use package.episcience.Job.Respects.{
  IsComposed, live, status-update, Earned, EarnedIfComplete, LiveBody, same_status,
}

module _ {F Value V : Type 0} ⦃fl : Float F⦄ (h : Handler F Value V) (id : Uuid) where
  -- What the store shows after its narrative was saved: the row was live.
  abbrev pub Saved : Text → Store F Value → Store F Value → Type 0
  Saved narrative s s' =
      (s'.tables ≡ s.tables)
      × (s'.columns.narrative ≡ some narrative)
      × (status_of id s' ≡ some SynthesisStatus.complete)

  pub save_narrative-Saved :
      (narrative : Text) (s : Store F Value)
      → Yields (Saved narrative s) (save_narrative h id narrative s)
  unfolding save_narrative if_live
  save_narrative-Saved narrative s = go (status_of id s) refl
    where
      finish : SynthesisRow F Value → SynthesisRow F Value
      finish r = record r { status = SynthesisStatus.complete }

      s' : Store F Value
      s' =
          with_row id finish
            (record s { columns = record s.columns { narrative = some narrative } })

      out : Bool × Store F Value → Result StageError (Store F Value)
      out p = if p.0 then ok p.1 else err StageError.synth

      after :
          (o : Option SynthesisStatus) (x : SynthesisStatus)
          → o ≡ some x
          → elim o as (λ o. Option SynthesisStatus) [
            | none ↦ none
            | some x ↦ some SynthesisStatus.complete
          ]
            ≡ some SynthesisStatus.complete
      after none x e = absurd (grind (arith, e))
      after (some y) x e = refl

      one :
          (x : SynthesisStatus)
          → status_of id s ≡ some x
          → (b : Bool)
          → Yields (Saved narrative s) (
              out
                (elim b as (λ b. Bool × Store F Value) [ true ↦ (true, s') | false ↦ (false, s) ]))
      one x e true = (
        refl,
        refl,
        status-update id finish (λ x. SynthesisStatus.complete) (λ r. refl) (λ r. refl)
              s.rows.syntheses
            ∙ after (status_of id s) x e,
      )
      one x e false = tt

      go :
          (o : Option SynthesisStatus)
          → status_of id s ≡ o
          → Yields (Saved narrative s) (
              out (elim o as (λ o. Bool × Store F Value) [
                | none ↦ (false, s)
                | some x ↦ elim (is_live x) as (λ b. Bool × Store F Value) [
                  | true ↦ (true, s')
                  | false ↦ (false, s)
                ]
              ]))
      go none e = tt
      go (some x) e = one x e (is_live x)

  -- What the last transaction leaves: either it is not done, or the row is complete and that is earned.
  abbrev pub Ended : Bool × Option (Store F Value) → Type 0
  Ended (b, none) = b ≡ false
  Ended (true, some s') = Earned h id s' × (status_of id s' ≡ some SynthesisStatus.complete)
  Ended (false, some s') = EarnedIfComplete h id s'

  hidden-unseen :
      (rows : List OutboxRow)
      → All (λ r. h.sees r.edge ≡ false) (keep (λ r. not (h.sees r.edge)) rows)
  hidden-unseen [] = tt
  hidden-unseen (r ∷ rows) = go (h.sees r.edge) refl (hidden-unseen rows)
    where
      rest : List OutboxRow
      rest = keep (λ r. not (h.sees r.edge)) rows

      go :
          (b : Bool)
          → h.sees r.edge ≡ b
          → All (λ r. h.sees r.edge ≡ false) rest
          → All (λ r. h.sees r.edge ≡ false) (if not b then r ∷ rest else rest)
      go true e all = all
      go false e all = (e, all)

  pub write_and_complete-Ended :
      (narrative : Text) (members : List Uuid) (n : ℕ)
      → h.verify narrative members ≡ accept n
      → IsComposed h id narrative members
      → (viewer : Viewer) (s : Store F Value) → live id s ≡ true
      → Yields Ended (write_and_complete h id narrative viewer s)
  unfolding write_and_complete
  write_and_complete-Ended narrative members n accepted composed viewer s l =
      Yields-after Ended
        (map_err (λ e. StageError.synth)
          (stage6_write_edges h.create id h.order_by
            (map (λ c. c.member_claim_ids) s.columns.clusters) (h.is_publishable s)
            (record s.tables { outbox = keep (λ r. h.sees r.edge) s.tables.outbox })))
        _ λ written. outcome written written.1.failure
    where
      hidden : List OutboxRow
      hidden = keep (λ r. not (h.sees r.edge)) s.tables.outbox

      after : Tables → Store F Value
      after t = record s { tables = record t { outbox = t.outbox ++ hidden } }

      earned :
          (t : Tables) (s' : Store F Value)
          → may_complete id t.outbox ≡ ok tt
          → Saved narrative (after t) s'
          → Earned h id s'
      earned t s' e (same, text, done) = (
        (t.outbox, hidden, (ap (λ (t : Tables). t.outbox) same, hidden-unseen s.tables.outbox, e)),
        (narrative, members, n, (text, accepted, composed)),
      )

      settled :
          (t : Tables) (r : Result {0} Unit Unit)
          → may_complete id t.outbox ≡ r
          → Yields Ended (
              map_err (λ e. StageError.synth) r
              >>= (λ u. save_narrative h id narrative (after t))
              >>= λ s'. ok (true, some s'))
      settled t (ok u) e =
          Yields-bind (Saved narrative (after t)) Ended (save_narrative h id narrative (after t)) _
            (save_narrative-Saved narrative (after t)) λ s' saved. (earned t s' e saved, saved.2)
      settled t (err x) e = tt

      outcome :
          (written : Tables × EdgeWriteOutcome) (o : Option WriteFailure)
          → Yields Ended (elim o as (λ o. Result StageError (Bool × Option (Store F Value))) [
            | some f ↦ ok (false, some (after written.0))
            | none ↦
                map_err (λ e. StageError.synth) (may_complete id written.0.outbox)
                >>= (λ u. save_narrative h id narrative (after written.0))
                >>= λ s'. ok (true, some s')
          ])
      outcome written (some f) = same_status h id s (after written.0) l refl
      outcome written none = settled written.0 (may_complete id written.0.outbox) refl

  pub write_and_complete-LiveBody :
      (narrative : Text) (members : List Uuid) (n : ℕ)
      → h.verify narrative members ≡ accept n
      → IsComposed h id narrative members
      → LiveBody h id (write_and_complete h id narrative)
  write_and_complete-LiveBody narrative members n accepted composed viewer s l =
      Yields-map Ended Good (write_and_complete h id narrative viewer s)
        (write_and_complete-Ended narrative members n accepted composed viewer s l) weaken
    where
      Good : Bool × Option (Store F Value) → Type 0
      Good r = elim r.1 as (λ o. Type 0) [ none ↦ Unit | some s' ↦ EarnedIfComplete h id s' ]

      weaken : (r : Bool × Option (Store F Value)) → Ended r → Good r
      weaken (b, none) e = tt
      weaken (true, some s') e = λ k. e.0
      weaken (false, some s') e = e
