-- ===== src/Worker/Backoff/Laws.antt =====
-- How long the worklist holds an item back.
use episcience.Base.{
  ◌≡◌, refl, ℕ, zero, suc, ◌+◌, ◌-◌, ◌*◌, ◌^◌, ◌≤◌, min, Bool, true, false, ◌&&◌, List, [], ◌∷◌,
  map, Uuid, ltb, ◌==◌, keep, contains, arith,
}
use Prim.Native.Nat.pow
use package.episcience.Worker.Backoff.{
  WorklistKind, stage6_pending, staleness_check, same_kind, Hold, BackoffState,
  worklist_max_hold_periods, begin_period, held, skips_of, one_more, hold_periods, without, skipped,
  succeeded,
}

abbrev holds_back : WorklistKind → ℕ → Hold → Bool
holds_back kind period h = same_kind h.kind kind && ltb period h.eligible_at

-- Whether an item is held back in a period.
abbrev pub is_held : WorklistKind → Uuid → ℕ → BackoffState → Bool
is_held kind id period st = contains (held kind period st) id

abbrev held_in : WorklistKind → Uuid → ℕ → List Hold → Bool
held_in kind id period hs = contains (map (λ h. h.id) (keep (holds_back kind period) hs)) id

-- A key that is left out is not held; the others are as before.
without-same :
    (kind : WorklistKind) (id : Uuid) (period : ℕ) (hs : List Hold)
    → held_in kind id period (without kind id hs) ≡ false
without-same kind id period [] = refl
without-same kind id period (h ∷ hs) = ground (arith, without-same kind id period hs)

same_kind_refl : (k : WorklistKind) → same_kind k k ≡ true
same_kind_refl stage6_pending = refl
same_kind_refl staleness_check = refl

same_kind-agree : (a b c : WorklistKind) → same_kind a b ≡ true → same_kind a c ≡ same_kind b c
same_kind-agree stage6_pending stage6_pending c h = refl
same_kind-agree staleness_check staleness_check c h = refl
same_kind-agree stage6_pending staleness_check c h = ground (arith, h)
same_kind-agree staleness_check stage6_pending c h = ground (arith, h)

-- Another item is held as before.
without-other :
    (kind : WorklistKind) (id : Uuid) (k : WorklistKind) (i : Uuid) (period : ℕ) (hs : List Hold)
    → (same_kind kind k && (id == i)) ≡ false
    → held_in k i period (without kind id hs) ≡ held_in k i period hs
without-other kind id k i period [] n = refl
without-other kind id k i period (h ∷ hs) n =
    ground (arith, n, without-other kind id k i period hs n, same_kind-agree h.kind kind k)

begin_period-held_in :
    (kind : WorklistKind) (id : Uuid) (now period : ℕ) (hs : List Hold)
    → now ≤ period
    → held_in kind id period
        (keep (λ h. ltb now (h.eligible_at + 2 * worklist_max_hold_periods)) hs)
      ≡ held_in kind id period hs
begin_period-held_in kind id now period [] l = refl
begin_period-held_in kind id now period (h ∷ hs) l =
    ground (arith, l, begin_period-held_in kind id now period hs l)

pow-pos : (n : ℕ) → 1 ≤ 2 ^ n
pow-pos zero = omega arith
pow-pos (suc n) = omega (arith, pow-pos n, pow.suc 2 n)

-- A skip holds an item for at least one period after the next, and for at most 64.
pub hold_periods-bounds :
    (skips : ℕ) → (1 ≤ hold_periods skips) × (hold_periods skips ≤ worklist_max_hold_periods)
unfolding hold_periods
hold_periods-bounds skips = (omega (arith, pow-pos (min (skips - 1) 6)), omega arith)

-- After a skip in some period, with a hold of some length for its count of skips, an item is held in exactly the periods
-- before the one that is this length after the next; the length is at least one and at most 64; and no other item is held
-- differently.
pub skipped_lem :
    (kind : WorklistKind) (id : Uuid) (period : ℕ) (st : BackoffState)
    → let after = skipped kind id period st in
      ((q : ℕ) → is_held kind id q after.1 ≡ ltb q (period + 1 + hold_periods after.0))
      × (1 ≤ hold_periods after.0)
      × (hold_periods after.0 ≤ worklist_max_hold_periods)
      × ((k : WorklistKind) (i : Uuid) (q : ℕ)
          → (same_kind kind k && (id == i)) ≡ false
          → is_held k i q after.1 ≡ is_held k i q st)
unfolding skipped held
skipped_lem kind id period st = (own, (hold_periods-bounds n).0, (hold_periods-bounds n).1, other)
  where
    n : ℕ
    n = one_more (skips_of kind id st.holds)

    own :
        (q : ℕ)
        → is_held kind id q (skipped kind id period st).1 ≡ ltb q (period + 1 + hold_periods n)
    own q = ground (arith, without-same kind id q st.holds, same_kind_refl kind)

    other :
        (k : WorklistKind) (i : Uuid) (q : ℕ)
        → (same_kind kind k && (id == i)) ≡ false
        → is_held k i q (skipped kind id period st).1 ≡ is_held k i q st
    other k i q h = ground (arith, h, without-other kind id k i q st.holds h)

-- A success releases the item and no other; a new period releases no item that is held in it or later.
pub released_lem :
    (kind : WorklistKind) (id : Uuid) (st : BackoffState)
    → ((q : ℕ) → is_held kind id q (succeeded kind id st) ≡ false)
      × ((k : WorklistKind) (i : Uuid) (q : ℕ)
          → (same_kind kind k && (id == i)) ≡ false
          → is_held k i q (succeeded kind id st) ≡ is_held k i q st)
      × ((q : ℕ)
          → (begin_period st).0 ≤ q
          → is_held kind id q (begin_period st).1 ≡ is_held kind id q st)
unfolding succeeded begin_period held
released_lem kind id st = (
  (λ q. without-same kind id q st.holds),
  (λ k i q h. without-other kind id k i q st.holds h),
  (λ q h. begin_period-held_in kind id (st.period + 1) q st.holds h),
)
