-- ===== src/Worker/Queue/Calls.antt =====
-- How often a queue definer is called before its answer is returned, and how long the worker pauses in between.
use episcience.Base.{
  ◌≡◌, refl, ℕ, zero, suc, ◌+◌, ◌*◌, ◌≤◌, ◌<◌, Bool, true, false, ◌&&◌, ltb, if◌then◌else◌, arith,
  ◌⊎◌, inl, inr, ◌^◌, ◌-◌, ap, sym, ◌∙◌, subst, Bool-cases, ◌==◌, ==_iff,
}
use Prim.Native.Nat.pow
use episcience.Base.Results.{Result, ok, err}
use episcience.Base.Runs.{Run, returns, Returns}
use episcience.Session.{SqlxError, is_transient_sqlx}
use package.episcience.Worker.Queue.{
  CallEnd, queue_call_loop, queue_call, queue_call_tries, queue_call_first_pause,
}

-- The answer is one that the loop does not try again after.
abbrev pub IsFinal : Result SqlxError Unit → Type 0
IsFinal (ok t) = Unit
IsFinal (err e) = is_transient_sqlx e ≡ false

-- The answer is a transient failure.
abbrev pub IsTransient : Result SqlxError Unit → Type 0
IsTransient (ok t) = ⊥
IsTransient (err e) = is_transient_sqlx e ≡ true

-- An end of the call: its answer is that of its last try, every earlier try failed transiently, and it was final
-- unless the tries were used up.
abbrev pub IsEnd : (ℕ → Result SqlxError Unit) → CallEnd → Type 0
IsEnd execute c =
    (c.answer ≡ execute c.tries)
    × (1 ≤ c.tries)
    × (c.tries ≤ queue_call_tries)
    × ((n : ℕ) → 1 ≤ n → n < c.tries → IsTransient (execute n))
    × (IsFinal c.answer ⊎ (c.tries ≡ queue_call_tries))
    × (c.paused + queue_call_first_pause ≡ queue_call_first_pause * 2 ^ (c.tries - 1))

-- The pauses double.
doubled : (tries : ℕ) → 500 * 2 ^ tries * 2 ≡ 500 * 2 ^ (tries + 1)
doubled tries = double tries ∙ ap (λ n. 500 * 2 ^ n) (succ tries)
  where
    double : (n : ℕ) → 500 * 2 ^ n * 2 ≡ 500 * 2 ^ suc n
    double n = omega (arith, pow.suc 2 n)

    succ : (n : ℕ) → suc n ≡ n + 1
    succ n = omega arith

unshift : (tries : ℕ) → 500 * 2 ^ (tries + 1 - 1) ≡ 500 * 2 ^ tries
unshift tries = ap (λ n. 500 * 2 ^ n) (omega arith)

module _ (execute : ℕ → Result SqlxError Unit) where
  -- One try more, after the tries that failed transiently.
  all_before :
      (tries : ℕ)
      → ((n : ℕ) → 1 ≤ n → n ≤ tries → IsTransient (execute n))
      → IsTransient (execute (tries + 1))
      → (n : ℕ) → 1 ≤ n
      → n ≤ tries + 1
      → IsTransient (execute n)
  all_before tries before now n h k = elim (Bool-cases (n == tries + 1)) [
    | inl e ↦ subst (λ m. IsTransient (execute m)) (sym ((==_iff n (tries + 1)).0 e)) now
    | inr e ↦ before n h (ground (arith, k, e))
  ]

  one_try :
      (fuel tries pause paused : ℕ)
      → tries + 1 ≤ queue_call_tries
      → paused + 500 ≡ 500 * 2 ^ tries
      → ((n : ℕ) → 1 ≤ n → n ≤ tries → IsTransient (execute n))
      → (tries + 2 ≤ queue_call_tries
          → IsTransient (execute (tries + 1))
          → Returns
              (IsEnd execute)
              (queue_call_loop fuel execute (tries + 1) (pause * 2) (paused + pause)))
      → Returns (IsEnd execute) (queue_call_loop (suc fuel) execute tries pause paused)
  unfolding queue_call_loop
  one_try fuel tries pause paused room hq before more = go (execute (tries + 1)) refl
    where
      spent : paused + 500 ≡ 500 * 2 ^ (tries + 1 - 1)
      spent = hq ∙ sym (unshift tries)

      earlier : (n : ℕ) → 1 ≤ n → n < tries + 1 → IsTransient (execute n)
      earlier n h k = before n h (omega (arith, k))

      tail : Run CallEnd
      tail = queue_call_loop fuel execute (tries + 1) (pause * 2) (paused + pause)

      choose :
          (e : SqlxError) (b c : Bool)
          → execute (tries + 1) ≡ err e
          → is_transient_sqlx e ≡ b
          → ltb (tries + 1) queue_call_tries ≡ c
          → Returns (IsEnd execute) (
              if b && c
              then tail
              else returns (record { answer = err e; tries = tries + 1; paused = paused }))
      choose e false c h k l = (sym h, omega arith, room, earlier, inl k, spent)
      choose e true false h k l =
          (sym h, omega arith, room, earlier, inr (ground (arith, l, room)), spent)
      choose e true true h k l = more (ground (arith, l)) (subst IsTransient (sym h) k)

      go :
          (a : Result SqlxError Unit)
          → execute (tries + 1) ≡ a
          → Returns (IsEnd execute) (elim a [
            | ok t ↦ returns (record { answer = ok t; tries = tries + 1; paused = paused })
            | err e ↦
                if is_transient_sqlx e && ltb (tries + 1) queue_call_tries
                then tail
                else returns (record { answer = err e; tries = tries + 1; paused = paused })
          ])
      go (ok t) h = (sym h, omega arith, room, earlier, inl tt, spent)
      go (err e) h = choose e (is_transient_sqlx e) (ltb (tries + 1) queue_call_tries) h refl refl

  loop-IsEnd :
      (fuel tries pause paused : ℕ)
      → tries + fuel ≡ queue_call_tries
      → tries + 1 ≤ queue_call_tries
      → pause ≡ 500 * 2 ^ tries
      → paused + 500 ≡ pause
      → ((n : ℕ) → 1 ≤ n → n ≤ tries → IsTransient (execute n))
      → Returns (IsEnd execute) (queue_call_loop fuel execute tries pause paused)
  loop-IsEnd zero tries pause paused total room hp hq before = absurd (omega (arith, total, room))
  loop-IsEnd (suc fuel) tries pause paused total room hp hq before =
      one_try fuel tries pause paused room (hq ∙ hp) before λ left now.
        loop-IsEnd fuel (tries + 1) (pause * 2) (paused + pause) (omega (arith, total))
          (omega (arith, left)) (ap (λ n. n * 2) hp ∙ doubled tries) (omega (arith, hq))
          (all_before tries before now)

-- A call of a queue definer always ends, after at most four tries. Its answer is that of the last try; every earlier
-- try failed transiently; an answer that is a transient failure comes only from the fourth try; and the pauses add up
-- to half a second times one less than two to the number of the tries before the last.
pub queue_call-IsEnd :
    (execute : ℕ → Result SqlxError Unit) → Returns (IsEnd execute) (queue_call execute)
unfolding queue_call
queue_call-IsEnd execute =
    loop-IsEnd execute 4 0 500 0 refl (omega arith) refl refl λ n h k. absurd (omega (arith, h, k))
