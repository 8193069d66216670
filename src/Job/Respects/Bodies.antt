-- ===== src/Job/Respects/Bodies.antt =====
-- Each transaction of the handler respects the synthesis.
use episcience.Base.{
  ◌≡◌, refl, ◌∙◌, ap, ℕ, ◌+◌, Bool, true, false, Option, none, some, List, any, Uuid, if◌then◌else◌,
  arith,
}
use episcience.Base.Floats.{Float}
use episcience.Base.Results.{Result, ok, err, map_err, Yields, Yields-after}
use episcience.Synthesis.{SynthesisStatus}
use episcience.Publish.{stage6_plan_edges}
use episcience.Pipeline.{Cluster}
use episcience.Verifier.{VerificationOutcome}
use episcience.Refinement.{SynthesisRow, StageError, is_live, find_row}
use package.episcience.Job.{Store, Body, status_of, with_row, if_live}
use package.episcience.Job.Courses.{Writes, BodyKeeps}
use package.episcience.Job.Stages.{
  Handler, is_foreign, start_row, mark_running, record_llm_usage, mark_failed, filter_seeds,
  stage2_persist, stage3_persist, store_narration, stage4_persist, persist_verifier_outcome,
  plan_edges, upsert_embedding, store_novelty,
}
use package.episcience.Job.Respects.{
  live, Frozen, status_in, status-update, EarnedIfComplete, Respects, LiveBody, same_status,
  Frozen-Respects, other_status,
}

module _ {F Value V : Type 0} ⦃fl : Float F⦄ (h : Handler F Value V) (id : Uuid) where
  abbrev pub Keeping : {A : Type 0} → Body (Store F Value) A → Type 0
  Keeping body = BodyKeeps (Respects h id) body

  -- Updates of other columns.
  pub untouched : (s s' : Store F Value) → Frozen s s' → Respects h id (s, s')
  untouched = Frozen-Respects h id

  pub filter_seeds-Keeping : (seeds : List Uuid) → Keeping (filter_seeds h id seeds)
  unfolding filter_seeds
  filter_seeds-Keeping seeds viewer s = untouched s s (refl, refl, refl, refl, refl)

  pub stage2_persist-Keeping : (claims : List Uuid) → Keeping (stage2_persist h id claims)
  unfolding stage2_persist
  stage2_persist-Keeping claims viewer s = go (find_row id s.rows.syntheses)
    where
      s' : Store F Value
      s' = record s { columns = record s.columns { snapshot_claims = claims; members = claims } }

      attached :
          (b : Bool)
          → Yields
              (λ r. Writes (Respects h id) s r.1)
              (if◌then◌else◌ {A = Result StageError (Unit {0} × Option (Store F Value))} b
                (err StageError.synth)
                (ok (tt, some s')))
      attached true = tt
      attached false = untouched s s' (refl, refl, refl, refl, refl)

      go :
          (o : Option (SynthesisRow F Value))
          → Yields
              (λ r. Writes (Respects h id) s r.1)
              (elim o as (λ o. Result StageError (Unit {0} × Option (Store F Value))) [
                | none ↦ err StageError.synth
                | some row ↦
                    if any (is_foreign h row) claims then err StageError.synth else ok (tt, some s')
              ])
      go none = tt
      go (some row) = attached (any (is_foreign h row) claims)

  pub store_novelty-Keeping : Keeping (store_novelty h id)
  unfolding store_novelty
  store_novelty-Keeping viewer s =
      Yields-after (λ r. Writes (Respects h id) s r.1) (map_err (λ e. StageError.synth) h.score) _
        λ u. go (status_of id s)
    where
      s' : Store F Value
      s' = record s { columns = record s.columns { has_novelty = true } }

      go :
          (o : Option SynthesisStatus)
          → Yields
              (λ r. Writes (Respects h id) s r.1)
              (elim o as (λ o. Result StageError (Unit {0} × Option (Store F Value))) [
                | none ↦ err StageError.synth
                | some x ↦ ok (tt, some s')
              ])
      go none = tt
      go (some x) = untouched s s' (refl, refl, refl, refl, refl)

  pub stage3_persist-Keeping : (clusters : List Cluster) → Keeping (stage3_persist h id clusters)
  unfolding stage3_persist
  stage3_persist-Keeping clusters viewer s =
      untouched s (record s { columns = record s.columns { clusters = clusters } })
        (refl, refl, refl, refl, refl)

  pub store_narration-Keeping : (narrated : List Cluster) → Keeping (store_narration h id narrated)
  unfolding store_narration
  store_narration-Keeping narrated viewer s =
      Yields-after (λ r. Writes (Respects h id) s r.1) (stage4_persist narrated s.columns.clusters)
        _
        λ clusters.
          untouched s (record s { columns = record s.columns { clusters = clusters } })
            (refl, refl, refl, refl, refl)

  pub mark_running-Keeping : Keeping (mark_running h id)
  unfolding mark_running
  mark_running-Keeping viewer s = go (status_of id s) refl
    where
      Goal : Result StageError (Bool × Option (Store F Value)) → Type 0
      Goal = Yields (λ r. Writes (Respects h id) s r.1)

      s' : Store F Value
      s' = with_row id (λ r. record r { status = SynthesisStatus.running }) s

      started :
          (x : SynthesisStatus) → status_of id s ≡ some x → is_live x ≡ true → Respects h id (s, s')
      started x e l = (
        λ d. absurd (
            grind (
              arith,
              d,
              ap (λ o. elim o as (λ o. Bool) [ none ↦ false | some x ↦ is_live x ]) e ∙ l,
            )),
        λ l.
            other_status h id (λ r. record r { status = SynthesisStatus.running })
              SynthesisStatus.running (λ r. refl) (λ r. refl) (λ e. grind (arith, e)) s,
      )

      go :
          (o : Option SynthesisStatus)
          → status_of id s ≡ o
          → Goal (elim o as (λ o. Result StageError (Bool × Option (Store F Value))) [
            | none ↦ err StageError.synth
            | some x ↦ start_row h id x s
          ])
      go none e = tt
      go (some SynthesisStatus.complete) e = tt
      go (some SynthesisStatus.deleted) e = tt
      go (some SynthesisStatus.pending) e = started SynthesisStatus.pending e refl
      go (some SynthesisStatus.running) e = started SynthesisStatus.running e refl
      go (some SynthesisStatus.verifying) e = started SynthesisStatus.verifying e refl
      go (some SynthesisStatus.failed) e = started SynthesisStatus.failed e refl
      go (some SynthesisStatus.rejected) e = started SynthesisStatus.rejected e refl

  -- A conditional update: of a live row, by what keeps the rule there.
  if_live-Respects :
      (f : Store F Value → Store F Value)
      → ((s : Store F Value) → live id s ≡ true → EarnedIfComplete h id (f s))
      → (s : Store F Value) → Respects h id (s, (if_live id f s).1)
  unfolding if_live
  if_live-Respects f k s = go (status_of id s) refl
    where
      alive : (x : SynthesisStatus) → status_of id s ≡ some x → live id s ≡ is_live x
      alive x e = ap (λ o. elim o as (λ o. Bool) [ none ↦ false | some x ↦ is_live x ]) e

      one :
          (x : SynthesisStatus)
          → status_of id s ≡ some x
          → (b : Bool) → is_live x ≡ b
          → Respects h id (
            s,
            (elim b as (λ b. Bool × Store F Value) [ true ↦ (true, f s) | false ↦ (false, s) ]).1,
          )
      one x e true l = (λ d. absurd (grind (arith, d, alive x e ∙ l)), λ l'. k s l')
      one x e false l = untouched s s (refl, refl, refl, refl, refl)

      go :
          (o : Option SynthesisStatus)
          → status_of id s ≡ o
          → Respects h id (
            s,
            (elim o as (λ o. Bool × Store F Value) [
              | none ↦ (false, s)
              | some x ↦ elim (is_live x) as (λ b. Bool × Store F Value) [
                | true ↦ (true, f s)
                | false ↦ (false, s)
              ]
            ]).1,
          )
      go none e = untouched s s (refl, refl, refl, refl, refl)
      go (some x) e = one x e (is_live x) refl

  pub record_llm_usage-Keeping : (n : ℕ) → Keeping (record_llm_usage h id n)
  unfolding record_llm_usage
  record_llm_usage-Keeping n viewer s =
      if_live-Respects (λ s. record s { columns = record s.columns { llm_call_count = n } })
        (λ s l.
          same_status h id s (record s { columns = record s.columns { llm_call_count = n } }) l
            refl)
        s

  pub mark_failed-Keeping : Keeping (mark_failed h id)
  unfolding mark_failed
  mark_failed-Keeping viewer s =
      if_live-Respects (with_row id (λ r. record r { status = SynthesisStatus.failed }))
        (λ s l.
          other_status h id (λ r. record r { status = SynthesisStatus.failed })
            SynthesisStatus.failed (λ r. refl) (λ r. refl) (λ e. grind (arith, e)) s)
        s

  pub persist_verifier_outcome-LiveBody :
      (outcome : VerificationOutcome) → LiveBody h id (persist_verifier_outcome h id outcome)
  unfolding persist_verifier_outcome
  persist_verifier_outcome-LiveBody outcome viewer s l = same_status h id s (with_row id f s) l (
      status-update id f (λ x. x) (λ r. refl) (λ r. refl) s.rows.syntheses
      ∙ plain (status_in id s.rows.syntheses))
    where
      f : SynthesisRow F Value → SynthesisRow F Value
      f r = record r {
        verifier_outcome = some (h.to_value outcome);
        verifier_attempts = r.verifier_attempts + 1;
      }

      plain :
          (o : Option SynthesisStatus)
          → elim o as (λ o. Option SynthesisStatus) [ none ↦ none | some x ↦ some x ] ≡ o
      plain none = refl
      plain (some x) = refl

  pub plan_edges-LiveBody :
      (cited : List Uuid) (acting : Uuid) (run : Option Uuid)
      → LiveBody h id (plan_edges h id cited acting run)
  unfolding plan_edges
  plan_edges-LiveBody cited acting run viewer s l = go (find_row id s.rows.syntheses)
    where
      planned : SynthesisRow F Value → Store F Value
      planned row = record s {
        tables = record s.tables {
          outbox =
              stage6_plan_edges h.sees id cited row.parent_synthesis_id row.prereq_synthesis_ids
                acting run s.tables.outbox;
        };
      }

      go :
          (o : Option (SynthesisRow F Value))
          → Yields
              (λ r. elim r.1 as (λ o. Type 0) [ none ↦ Unit | some s' ↦ EarnedIfComplete h id s' ])
              (elim o as (λ o. Result StageError (Unit {0} × Option (Store F Value))) [
                | none ↦ err StageError.synth
                | some row ↦ ok (tt, some (planned row))
              ])
      go none = tt
      go (some row) = same_status h id s (planned row) l refl

  pub upsert_embedding-LiveBody : LiveBody h id (upsert_embedding h id)
  unfolding upsert_embedding
  upsert_embedding-LiveBody viewer s l =
      same_status h id s (record s { columns = record s.columns { embedded = true } }) l refl
