-- ===== src/Job/Respects/Rejection.antt =====
-- The transaction that rejects a synthesis and refines it completes nothing.
use episcience.Base.{
  ◌≡◌, refl, sym, ◌∙◌, ap, ◌≢◌, ℕ, Bool, true, false, not, Option, none, some, List, ◌∷◌, Uuid,
  ◌==◌, if◌then◌else◌, arith,
}
use episcience.Base.Floats.{Float}
use episcience.Base.Results.{Result, ok, err, ◌>>=◌, ok_or, Yields, Yields-bind, Yields-map}
use episcience.Ownership.{Viewer}
use episcience.Synthesis.{SynthesisStatus}
use episcience.Verifier.{VerificationOutcome}
use episcience.Refinement.{
  SynthesisJobPayload, SynthesisRow, Rows, Rejected, ceiling_reached, no_principal, refined,
  StageError, is_live, find_row, update_row, principal_of, at_ceiling, current_temperature, anneal,
  reject_row, child_row, child_payload, refine_row, reject_and_refine, RefinementTemperature,
}
use package.episcience.Job.{Store, status_of}
use package.episcience.Job.Courses.{Writes, BodyKeeps}
use package.episcience.Job.Stages.{Handler, reject_body, child_outbox}
use package.episcience.Job.Respects.{live, status_in, status-update, Respects}

module _ {F Value V : Type 0} ⦃fl : Float F⦄ (h : Handler F Value V)
    (payload : SynthesisJobPayload Value) where
  abbrev id : Uuid
  id = payload.synthesis_id

  rejected-status :
      (publishable : Bool) (outcome : Value) (rows : List (SynthesisRow F Value))
      (x : SynthesisStatus)
      → status_in id rows ≡ some x
      → status_in id (update_row id (reject_row publishable outcome) rows)
        ≡ some SynthesisStatus.rejected
  unfolding reject_row
  rejected-status publishable outcome rows x e =
      status-update id (reject_row publishable outcome) (λ x. SynthesisStatus.rejected) (λ r. refl)
        (λ r. refl) rows
      ∙ go (status_in id rows) e
    where
      go :
          (o : Option SynthesisStatus)
          → o ≡ some x
          → elim o as (λ o. Option SynthesisStatus) [
            | none ↦ none
            | some x ↦ some SynthesisStatus.rejected
          ]
            ≡ some SynthesisStatus.rejected
      go none e = absurd (grind (arith, e))
      go (some y) e = refl

  -- The statuses that the rows show after a rejection: of the marked rows, or of these with a pending child.
  refine_row-Yields :
      (publishable : Bool) (P : List (SynthesisRow F Value) → Type 0) (st : Rows F Value)
      (acting : Uuid) (outcome : Value) (child_id : Uuid) (row : SynthesisRow F Value)
      → P (update_row id (reject_row publishable outcome) st.syntheses)
      → ((child : SynthesisRow F Value)
          → child.id ≡ child_id
          → child.status ≡ SynthesisStatus.pending
          → P (child ∷ update_row id (reject_row publishable outcome) st.syntheses))
      → Yields
          (λ r. P r.0.syntheses)
          (refine_row publishable st payload acting outcome child_id row)
  unfolding refine_row reject_row child_row
  refine_row-Yields publishable P st acting outcome child_id row whole grown =
      ceiling (at_ceiling temperature)
    where
      marked : List (SynthesisRow F Value)
      marked = update_row id (reject_row publishable outcome) st.syntheses

      marked_rows : Rows F Value
      marked_rows = record { syntheses = marked; refines = st.refines; jobs = st.jobs }

      temperature : RefinementTemperature F
      temperature = current_temperature row

      spawned : Uuid → Rows F Value
      spawned chain = record {
        syntheses =
            child_row child_id chain (anneal temperature) (reject_row publishable outcome row)
            ∷ marked;
        refines = (child_id, id) ∷ st.refines;
        jobs =
            record {
              id = child_id;
              principal_id = some chain;
              payload = child_payload child_id chain payload;
            }
            ∷ st.jobs;
      }

      depth : ℕ
      depth = (anneal temperature).depth_delta

      Goal : Result StageError (Rows F Value × Rejected) → Type 0
      Goal = Yields (λ r. P r.0.syntheses)

      acts :
          (chain : Uuid) (b : Bool)
          → Goal (
              if not b
              then err StageError.authority
              else ok (spawned chain, refined child_id depth))
      acts chain true =
          grown (child_row child_id chain (anneal temperature) (reject_row publishable outcome row))
            refl refl
      acts chain false = tt

      principal :
          (o : Option Uuid)
          → Goal (elim o as (λ o. Result StageError (Rows F Value × Rejected)) [
            | none ↦ ok (marked_rows, no_principal)
            | some chain ↦
                if not (chain == acting)
                then err StageError.authority
                else ok (spawned chain, refined child_id depth)
          ])
      principal none = whole
      principal (some chain) = acts chain (chain == acting)

      ceiling :
          (b : Bool)
          → Goal (
              if b
              then ok (marked_rows, ceiling_reached)
              else elim (principal_of id st.jobs)
                  as (λ o. Result StageError (Rows F Value × Rejected)) [
                    | none ↦ ok (marked_rows, no_principal)
                    | some chain ↦
                        if not (chain == acting)
                        then err StageError.authority
                        else ok (spawned chain, refined child_id depth)
                  ])
      ceiling true = whole
      ceiling false = principal (principal_of id st.jobs)

  child_first :
      (child : SynthesisRow F Value) (b : Bool) (rows : List (SynthesisRow F Value))
      → (child.id == id) ≡ b
      → status_in id (child ∷ rows) ≡ (if b then some child.status else status_in id rows)
  child_first child true rows e = rw (e, status_in, find_row) refl
  child_first child false rows e = rw (e, status_in, find_row) refl

  -- A rejection finds the row live, and shows it rejected, or a child of the same identifier pending.
  abbrev pub Marks : Rejected → Store F Value → Option (Store F Value) → Type 0
  Marks r s none = ⊥
  Marks r s (some s') =
      (live id s ≡ true)
      × (status_of id s' ≢ some SynthesisStatus.complete)
      × ((h.child_id == id) ≡ false → status_of id s' ≡ some SynthesisStatus.rejected)

  marked-status :
      (s : Store F Value) (row : SynthesisRow F Value) (acting : Uuid) (outcome : Value)
      → status_in id s.rows.syntheses ≡ some row.status
      → Yields
          (λ r.
            (status_in id r.0.syntheses ≢ some SynthesisStatus.complete)
            × ((h.child_id == id) ≡ false
                → status_in id r.0.syntheses ≡ some SynthesisStatus.rejected))
          (refine_row (h.is_publishable s) s.rows payload acting outcome h.child_id row)
  marked-status s row acting outcome e =
      refine_row-Yields (h.is_publishable s) Shown s.rows acting outcome h.child_id row
        (shown marked done) grown
    where
      Shown : List (SynthesisRow F Value) → Type 0
      Shown rows =
          (status_in id rows ≢ some SynthesisStatus.complete)
          × ((h.child_id == id) ≡ false → status_in id rows ≡ some SynthesisStatus.rejected)

      marked : List (SynthesisRow F Value)
      marked = update_row id (reject_row (h.is_publishable s) outcome) s.rows.syntheses

      done : status_in id marked ≡ some SynthesisStatus.rejected
      done = rejected-status (h.is_publishable s) outcome s.rows.syntheses row.status e

      shown :
          (rows : List (SynthesisRow F Value))
          → status_in id rows ≡ some SynthesisStatus.rejected
          → Shown rows
      shown rows d = ((λ c. grind (arith, sym d ∙ c)), λ f. d)

      grown :
          (child : SynthesisRow F Value)
          → child.id ≡ h.child_id
          → child.status ≡ SynthesisStatus.pending
          → Shown (child ∷ marked)
      grown child same pending = go (child.id == id) refl
        where
          go : (b : Bool) → (child.id == id) ≡ b → Shown (child ∷ marked)
          go true k = (
            (λ c. grind (arith, pending, sym (child_first child true marked k) ∙ c)),
            λ f. absurd (grind (arith, sym (ap (λ (n : Uuid). n == id) same) ∙ k, f)),
          )
          go false k = shown (child ∷ marked) (child_first child false marked k ∙ done)

  pub reject_body-Marks :
      (acting : Uuid) (outcome : VerificationOutcome) (viewer : Viewer) (s : Store F Value)
      → Yields (λ r. Marks r.0 s r.1) (reject_body h id payload acting outcome viewer s)
  unfolding reject_body reject_and_refine
  reject_body-Marks acting outcome viewer s = go (find_row id s.rows.syntheses) refl
    where
      value : Value
      value = h.to_value outcome

      Goal : Result StageError (Rejected × Option (Store F Value)) → Type 0
      Goal = Yields (λ r. Marks r.0 s r.1)

      finish : Rows F Value × Rejected → Result StageError (Rejected × Option (Store F Value))
      finish r = ok (
        r.1,
        some (record s {
          rows = r.0;
          tables = record s.tables { outbox = child_outbox id r.1 s.tables.outbox };
        }),
      )

      shown : SynthesisRow F Value → Option SynthesisStatus
      shown r = some r.status

      status :
          (row : SynthesisRow F Value)
          → find_row id s.rows.syntheses ≡ some row
          → status_in id s.rows.syntheses ≡ some row.status
      status row e =
          ap (λ o. elim o as (λ o. Option SynthesisStatus) [ none ↦ none | some r ↦ some r.status ])
            e

      living :
          (row : SynthesisRow F Value)
          → find_row id s.rows.syntheses ≡ some row
          → (b : Bool) → is_live row.status ≡ b
          → Goal (
              (if not b
                then err StageError.authority
                else refine_row (h.is_publishable s) s.rows payload acting value h.child_id row)
              >>= finish)
      living row e true l =
          Yields-bind
            (λ r.
              (status_in id r.0.syntheses ≢ some SynthesisStatus.complete)
              × ((h.child_id == id) ≡ false
                  → status_in id r.0.syntheses ≡ some SynthesisStatus.rejected))
            (λ r. Marks r.0 s r.1)
            (refine_row (h.is_publishable s) s.rows payload acting value h.child_id row) finish
            (marked-status s row acting value (status row e))
            λ r m. (
              ap (λ o. elim o as (λ o. Bool) [ none ↦ false | some x ↦ is_live x ]) (status row e)
                  ∙ l,
              m.0,
              m.1,
            )
      living row e false l = tt

      go :
          (o : Option (SynthesisRow F Value))
          → find_row id s.rows.syntheses ≡ o
          → Goal (
              (ok_or o StageError.synth >>= λ row.
              if not (is_live row.status)
              then err StageError.authority
              else refine_row (h.is_publishable s) s.rows payload acting value h.child_id row)
              >>= finish)
      go none e = tt
      go (some row) e = living row e (is_live row.status) refl

  pub reject_body-Keeping :
      (acting : Uuid) (outcome : VerificationOutcome)
      → BodyKeeps (Respects h id) (reject_body h id payload acting outcome)
  reject_body-Keeping acting outcome viewer s =
      Yields-map (λ r. Marks r.0 s r.1) (λ r. Writes (Respects h id) s r.1)
        (reject_body h id payload acting outcome viewer s)
        (reject_body-Marks acting outcome viewer s) kept
    where
      kept :
          (r : Rejected × Option (Store F Value)) → Marks r.0 s r.1 → Writes (Respects h id) s r.1
      kept (r, none) m = tt
      kept (r, some s') (l, n, d) =
          ((λ dead. absurd (grind (arith, l, dead))), λ l' k. absurd (n k))
