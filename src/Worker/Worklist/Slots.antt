-- ===== src/Worker/Worklist/Slots.antt =====
-- Which of the offered items a worklist period attempts.
use episcience.Base.{
  ◌≡◌, refl, sym, ◌∙◌, ap, ℕ, zero, suc, ◌-◌, Bool, true, false, not, List, [], ◌∷◌, Uuid, ◌==◌,
  if◌then◌else◌, contains, keep, arith,
}
use episcience.Base.Results.{ok, err}
use package.episcience.Worker.Backoff.{WorklistKind}
use package.episcience.Worker.Worklist.{
  Attempt, Progress, settle, work_items, count_success, count_held,
}

abbrev pub free : List Uuid → Uuid × Uuid → Bool
free held_items item = not (contains held_items item.0)

-- The first items of a list.
abbrev pub first_items : ℕ → List (Uuid × Uuid) → List (Uuid × Uuid)
first_items zero items = []
first_items (suc n) [] = []
first_items (suc n) (x ∷ items) = x ∷ first_items n items

-- A report without its count of the items that were held back.
abbrev pub uncounted : Progress → Progress
uncounted p = record {
  report = record {
    edges_written = p.report.edges_written;
    edges_deferred = p.report.edges_deferred;
    rechecked = p.report.rechecked;
    marked_stale = p.report.marked_stale;
    skipped = p.report.skipped;
    held_back = 0;
  };
  backoff = p.backoff;
}

module _ (attempt : WorklistKind → Uuid → Uuid → Attempt) (period : ℕ) where
  -- Every item of the list is attempted, in order.
  abbrev pub attempt_all : WorklistKind → List (Uuid × Uuid) → Progress → Progress
  attempt_all kind [] p = p
  attempt_all kind (item ∷ items) p =
      attempt_all kind items (settle attempt kind period item.0 (attempt kind item.0 item.1) p)

  settle-uncounted :
      (kind : WorklistKind) (id : Uuid) (a : Attempt) (p : Progress)
      → uncounted (settle attempt kind period id a p)
        ≡ uncounted (settle attempt kind period id a (uncounted p))
  unfolding settle count_success
  settle-uncounted WorklistKind.stage6_pending id (ok (stale, deferred)) p = refl
  settle-uncounted WorklistKind.staleness_check id (ok (true, deferred)) p = refl
  settle-uncounted WorklistKind.staleness_check id (ok (false, deferred)) p = refl
  settle-uncounted kind id (err e) p = refl

  attempt_all-uncounted :
      (kind : WorklistKind) (items : List (Uuid × Uuid)) (p q : Progress)
      → uncounted p ≡ uncounted q
      → uncounted (attempt_all kind items p) ≡ uncounted (attempt_all kind items q)
  attempt_all-uncounted kind [] p q h = h
  attempt_all-uncounted kind (item ∷ items) p q h =
      let a = attempt kind item.0 item.1 in
      let s = settle attempt kind period item.0 a in
      attempt_all-uncounted kind items (s p) (s q) (
        settle-uncounted kind item.0 a p
        ∙ ap (λ r. uncounted (s r)) h
        ∙ sym (settle-uncounted kind item.0 a q))

  -- A period attempts, in order, exactly the first offered items that are not held back, as many as it has slots: the
  -- backoff and all counts of the report but that of the items held back are those of attempting just these.
  pub work_items_lem :
      (kind : WorklistKind) (held_items : List Uuid) (slots : ℕ) (items : List (Uuid × Uuid))
      (p : Progress)
      → uncounted (work_items attempt kind period held_items slots items p)
        ≡ uncounted (attempt_all kind (first_items slots (keep (free held_items) items)) p)
  unfolding work_items
  work_items_lem kind held_items zero [] p = refl
  work_items_lem kind held_items (suc slots) [] p = refl
  work_items_lem kind held_items slots (item ∷ items) p =
      go slots (contains held_items item.0) (slots == 0) refl
        (work_items_lem kind held_items slots items
          (record { report = count_held p.report; backoff = p.backoff }))
        (work_items_lem kind held_items (slots - 1) items
          (settle attempt kind period item.0 (attempt kind item.0 item.1) p))
    where
      counted : Progress
      counted = record { report = count_held p.report; backoff = p.backoff }

      settled : Progress
      settled = settle attempt kind period item.0 (attempt kind item.0 item.1) p

      rest : List (Uuid × Uuid)
      rest = keep (free held_items) items

      pred : (n : ℕ) → suc n - 1 ≡ n
      pred n = omega arith

      go :
          (n : ℕ) (b z : Bool)
          → (n == 0) ≡ z
          → uncounted (work_items attempt kind period held_items n items counted)
            ≡ uncounted (attempt_all kind (first_items n rest) counted)
          → uncounted (work_items attempt kind period held_items (n - 1) items settled)
            ≡ uncounted (attempt_all kind (first_items (n - 1) rest) settled)
          → uncounted (
              if b
              then work_items attempt kind period held_items n items counted
              else if z
              then p
              else work_items attempt kind period held_items (n - 1) items settled)
            ≡ uncounted (attempt_all kind (first_items n (if not b then item ∷ rest else rest)) p)
      go n true z e h k = h ∙ attempt_all-uncounted kind (first_items n rest) counted p refl
      go zero false true e h k = refl
      go zero false false e h k = absurd (ground (arith, e))
      go (suc n) false true e h k = absurd (ground (arith, e))
      go (suc n) false false e h k =
          k ∙ ap (λ m. uncounted (attempt_all kind (first_items m rest) settled)) (pred n)
