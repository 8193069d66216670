-- ===== src/Worker/Backoff.antt =====
-- crates/episcience-api/src/jobs/worker.rs, `WorklistBackoff`: how long a skipped item is held back. The mutex is left
-- out: each operation holds it from its start to its end. `holds` lists the entries of the map, one for a key.
pub mod Laws
use episcience.Base.{
  ◌≡◌, ℕ, ◌+◌, ◌-◌, ◌*◌, ◌^◌, ◌%◌, min, Bool, true, false, ◌&&◌, ◌||◌, not, Option, none, some,
  List, [], ◌∷◌, map, Uuid, ltb, ◌==◌, if◌then◌else◌, keep,
}

pub data WorklistKind : Type 0 where
  stage6_pending staleness_check : WorklistKind

abbrev pub same_kind : WorklistKind → WorklistKind → Bool
same_kind stage6_pending stage6_pending = true
same_kind stage6_pending staleness_check = false
same_kind staleness_check stage6_pending = false
same_kind staleness_check staleness_check = true

-- `Hold`, with the key it stands under.
pub record Hold : Type 0 where
  pub kind : WorklistKind
  pub id : Uuid
  pub skips : ℕ
  pub eligible_at : ℕ

pub record BackoffState : Type 0 where
  pub period : ℕ
  pub holds : List Hold

abbrev pub worklist_max_hold_periods : ℕ
worklist_max_hold_periods = 64

abbrev pub worklist_persistent_skips : ℕ
worklist_persistent_skips = 5

abbrev pub is_key : WorklistKind → Uuid → Hold → Bool
is_key kind id h = same_kind h.kind kind && (h.id == id)

-- `period` is a `u64` that counts minutes, so its overflow is left out.
unfoldable pub begin_period : BackoffState → ℕ × BackoffState
begin_period st =
    let now = st.period + 1 in
    (
      now,
      record {
        period = now;
        holds = keep (λ h. ltb now (h.eligible_at + 2 * worklist_max_hold_periods)) st.holds;
      },
    )

unfoldable pub held : WorklistKind → ℕ → BackoffState → List Uuid
held kind period st =
    map (λ h. h.id) (keep (λ h. same_kind h.kind kind && ltb period h.eligible_at) st.holds)

-- The `skips` of the entry under a key; 0 where there is none.
abbrev pub skips_of : WorklistKind → Uuid → List Hold → ℕ
skips_of kind id [] = 0
skips_of kind id (h ∷ hs) = if is_key kind id h then h.skips else skips_of kind id hs

-- `u32::saturating_add(1)`
abbrev pub one_more : ℕ → ℕ
one_more skips = min (skips + 1) (2 ^ 32 - 1)

-- How many periods after the next one an item waits after that many skips in a row.
unfoldable pub hold_periods : ℕ → ℕ
hold_periods skips = min (2 ^ min (skips - 1) 6) worklist_max_hold_periods

abbrev pub without : WorklistKind → Uuid → List Hold → List Hold
without kind id holds = keep (λ h. not (is_key kind id h)) holds

unfoldable pub skipped : WorklistKind → Uuid → ℕ → BackoffState → ℕ × BackoffState
unfolding hold_periods
skipped kind id period st =
    let skips = one_more (skips_of kind id st.holds) in
    let h : Hold = record {
      kind = kind;
      id = id;
      skips = skips;
      eligible_at = period + 1 + hold_periods skips;
    } in
    (skips, record { period = st.period; holds = h ∷ without kind id st.holds })

unfoldable pub succeeded : WorklistKind → Uuid → BackoffState → BackoffState
succeeded kind id st = record { period = st.period; holds = without kind id st.holds }

unfoldable pub is_persistent : ℕ → Bool
is_persistent skips = ltb 0 skips && (skips % worklist_persistent_skips == 0)
