-- ===== src/Staleness.antt =====
-- crates/episcience-db/src/synthesis/staleness.rs: which recorded beliefs of a synthesis have drifted. The engine's
-- `get_belief` is an argument; of an interval only the pignistic probability is read.
use episcience.Base.{
  ◌≡◌, refl, ◌∙◌, ap, Bool, true, false, List, [], ◌∷◌, map, Uuid, if◌then◌else◌, keep, any, ◌++◌,
  ◌||◌, sym,
}
use mathlib.Core.List.{append_assoc, append-nil}
use mathlib.Core.Path.{ap₂}
use episcience.Base.Floats.{Float}
use episcience.Base.Results.{Result, ok, err, ◌>>=◌}

pub record BeliefIntervalEntry (F : Type 0) : Type 0 where
  pub claim_id : Uuid
  pub pignistic_prob : F

pub record Recheck : Type 0 where
  pub drifted : List Uuid
  pub unknown : List Uuid

abbrev the_recheck : List Uuid → List Uuid → Recheck
the_recheck d u = record { drifted = d; unknown = u }

pub data BeliefQueryError : Type 0 where
  claim_not_found other_failure : BeliefQueryError

unfoldable pub is_stale : Recheck → Bool
is_stale r = elim r.drifted [ [] ↦ false | x ∷ xs ↦ true ]

module _ {F : Type 0} ⦃fl : Float F⦄ where
  unfoldable pub drifted : F → F → F → Bool
  drifted recorded current epsilon = fl.lt epsilon (fl.abs (fl.sub recorded current))

  -- One turn of the loop on what it has collected.
  abbrev pub note_entry :
      F
      → BeliefIntervalEntry F
      → Result BeliefQueryError F
      → Recheck
      → Result BeliefQueryError Recheck
  note_entry epsilon bi (ok now) out = ok (
      if drifted bi.pignistic_prob now epsilon
      then record { drifted = out.drifted ++ (bi.claim_id ∷ []); unknown = out.unknown }
      else out)
  note_entry epsilon bi (err claim_not_found) out =
      ok (record { drifted = out.drifted; unknown = out.unknown ++ (bi.claim_id ∷ []) })
  note_entry epsilon bi (err other_failure) out = err other_failure

  unfoldable pub recheck_loop :
      (Uuid → Result BeliefQueryError F)
      → F
      → List (BeliefIntervalEntry F)
      → Recheck
      → Result BeliefQueryError Recheck
  recheck_loop get_belief epsilon [] out = ok out
  recheck_loop get_belief epsilon (bi ∷ entries) out =
      note_entry epsilon bi (get_belief bi.claim_id) out >>= recheck_loop get_belief epsilon entries

  unfoldable pub recheck_beliefs :
      (Uuid → Result BeliefQueryError F)
      → F
      → List (BeliefIntervalEntry F)
      → Result BeliefQueryError Recheck
  recheck_beliefs get_belief epsilon entries =
      recheck_loop get_belief epsilon entries (record { drifted = []; unknown = [] })

  -- An entry's belief moved, cannot be seen, or could not be asked for.
  abbrev pub has_drifted : F → BeliefIntervalEntry F → Result BeliefQueryError F → Bool
  has_drifted epsilon bi (ok now) = drifted bi.pignistic_prob now epsilon
  has_drifted epsilon bi (err e) = false

abbrev pub is_unknown : {F : Type 0} → Result BeliefQueryError F → Bool
is_unknown (ok now) = false
is_unknown (err claim_not_found) = true
is_unknown (err other_failure) = false

abbrev pub has_failed : {F : Type 0} → Result BeliefQueryError F → Bool
has_failed (ok now) = false
has_failed (err claim_not_found) = false
has_failed (err other_failure) = true

module _ {F : Type 0} ⦃fl : Float F⦄ (get_belief : Uuid → Result BeliefQueryError F)
    (epsilon : F) where
  abbrev pub claims_where :
      (BeliefIntervalEntry F → Bool) → List (BeliefIntervalEntry F) → List Uuid
  claims_where p entries = map (λ bi. bi.claim_id) (keep p entries)

  abbrev pub moved : BeliefIntervalEntry F → Bool
  moved bi = has_drifted epsilon bi (get_belief bi.claim_id)

  abbrev pub unseen : BeliefIntervalEntry F → Bool
  unseen bi = is_unknown (get_belief bi.claim_id)

  abbrev pub failing : BeliefIntervalEntry F → Bool
  failing bi = has_failed (get_belief bi.claim_id)

  -- The recheck that adds the entries' answers to what is collected.
  abbrev with_entries : List (BeliefIntervalEntry F) → Recheck → Recheck
  with_entries entries out = record {
    drifted = out.drifted ++ claims_where moved entries;
    unknown = out.unknown ++ claims_where unseen entries;
  }

  recheck_loop_lem :
      (entries : List (BeliefIntervalEntry F)) (out : Recheck)
      → recheck_loop get_belief epsilon entries out
        ≡ (if any failing entries then err other_failure else ok (with_entries entries out))
  unfolding recheck_loop
  recheck_loop_lem [] out =
      ap (λ r. ok r)
        (sym (ap₂ (λ d u. the_recheck d u) (append-nil out.drifted) (append-nil out.unknown)))
  recheck_loop_lem (bi ∷ entries) out = go (get_belief bi.claim_id) (recheck_loop_lem entries)
    where
      Rest : Recheck → Type 0
      Rest o =
          recheck_loop get_belief epsilon entries o
          ≡ (if any failing entries then err other_failure else ok (with_entries entries o))

      same :
          {a b : Recheck}
          → a ≡ b
          → (if any failing entries then err other_failure else ok a) ≡ (
              if◌then◌else◌ {A = Result BeliefQueryError Recheck}
                (any failing entries)
                (err other_failure)
                (ok b))
      same h = ap (λ r. if any failing entries then err other_failure else ok r) h

      turn :
          (now : F) (b : Bool)
          → ((o : Recheck) → Rest o)
          → recheck_loop get_belief epsilon entries
              (if b then the_recheck (out.drifted ++ (bi.claim_id ∷ [])) out.unknown else out)
            ≡ (if any failing entries
                then err other_failure
                else ok (
                    the_recheck
                      (out.drifted
                        ++ map
                            (λ e. e.claim_id)
                            (if b then bi ∷ keep moved entries else keep moved entries))
                      (out.unknown ++ claims_where unseen entries)))
      turn now true rest =
          rest (the_recheck (out.drifted ++ (bi.claim_id ∷ [])) out.unknown)
          ∙ same (
              ap (λ d. the_recheck d (out.unknown ++ claims_where unseen entries))
                (append_assoc out.drifted (bi.claim_id ∷ []) (claims_where moved entries)))
      turn now false rest = rest out

      go :
          (a : Result BeliefQueryError F)
          → ((o : Recheck) → Rest o)
          → (note_entry epsilon bi a out >>= recheck_loop get_belief epsilon entries) ≡ (
              if has_failed a || any failing entries
              then err other_failure
              else ok (
                  the_recheck
                    (out.drifted
                      ++ map
                          (λ e. e.claim_id)
                          (if has_drifted epsilon bi a
                            then bi ∷ keep moved entries
                            else keep moved entries))
                    (out.unknown
                      ++ map
                          (λ e. e.claim_id)
                          (if is_unknown a
                            then bi ∷ keep unseen entries
                            else keep unseen entries))))
      go (ok now) rest = turn now (drifted bi.pignistic_prob now epsilon) rest
      go (err claim_not_found) rest =
          rest (the_recheck out.drifted (out.unknown ++ (bi.claim_id ∷ [])))
          ∙ same (
              ap (λ u. the_recheck (out.drifted ++ claims_where moved entries) u)
                (append_assoc out.unknown (bi.claim_id ∷ []) (claims_where unseen entries)))
      go (err other_failure) rest = refl

  -- A recheck fails exactly if the engine fails on some recorded claim, other than by not finding it. Otherwise it lists,
  -- in the order of the snapshot, the claims whose belief moved by more than the epsilon, and those that were not found.
  pub recheck_beliefs_lem :
      (entries : List (BeliefIntervalEntry F))
      → recheck_beliefs get_belief epsilon entries ≡ (
          if any failing entries
          then err other_failure
          else ok (record {
            drifted = claims_where moved entries;
            unknown = claims_where unseen entries;
          }))
  unfolding recheck_beliefs
  recheck_beliefs_lem entries = recheck_loop_lem entries (the_recheck [] [])
