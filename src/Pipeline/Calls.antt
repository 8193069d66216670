-- ===== src/Pipeline/Calls.antt =====
-- What a call of the model with retries costs, and which answer it returns.
use episcience.Base.{
  ◌≡◌, refl, sym, subst, ℕ, zero, suc, ◌+◌, ◌≤◌, ◌<◌, ◌⊎◌, inl, inr, Bool, true, false,
  if◌then◌else◌, leb, ◌==◌, ==_iff, Bool-cases, arith,
}
use episcience.Base.Results.{Result, ok, err}
use package.episcience.Pipeline.{
  SynthesisError, cost_budget_exceeded, llm, LlmError, rejected, verdict_of, judge, last_result,
  call_llm_with_schema_retry,
}

module _ {V : Type 0} (complete : ℕ → Result LlmError V) (cost_budget : ℕ)
    (validator : V → Result SynthesisError Unit) where
  -- The answer for which the model is asked again, with the error: no JSON, or refused by the validator.
  abbrev pub Rejects : Result LlmError V → SynthesisError → Type 0
  Rejects (ok v) e = validator v ≡ err e
  Rejects (err x) e = (x ≡ LlmError.malformed_response) × (e ≡ llm)

  abbrev pub AllRejected : ℕ → ℕ → Type 0
  AllRejected first n = (k : ℕ) → first ≤ k → k < n → (e : SynthesisError) × Rejects (complete k) e

  -- How a call that starts after `first` calls, with `left` retries, ends with its result and `n` calls made: with the
  -- last answer, the first that is not rejected; with the budget used up; with a failure of the client; or
  -- with the error of the last answer, the retries used up.
  abbrev pub Ends : ℕ → ℕ → ℕ → Result SynthesisError V → Type 0
  Ends left first n (ok v) =
      (k : ℕ) × ((n ≡ suc k)
        × (first ≤ k)
        × (complete k ≡ ok v)
        × (validator v ≡ ok tt)
        × AllRejected first k)
  Ends left first n (err e) =
      ((e ≡ cost_budget_exceeded cost_budget) × (cost_budget ≤ n) × AllRejected first n)
      ⊎ ((k : ℕ) × ((n ≡ suc k)
            × (first ≤ k)
            × (complete k ≡ err LlmError.other_failure)
            × (e ≡ llm)
            × AllRejected first k))
      ⊎ ((n ≡ suc (first + left))
          × Rejects (complete (first + left)) e
          × AllRejected first (first + left))

  abbrev pub Called : ℕ → ℕ → Result SynthesisError V × ℕ → Type 0
  Called left first out =
      ((first ≤ out.1) × (out.1 ≤ suc (first + left)) × (first ≤ cost_budget → out.1 ≤ cost_budget))
      × Ends left first out.1 out.0

  none_rejected : (first : ℕ) → AllRejected first first
  none_rejected first k h l = absurd (omega arith)

  AllRejected-cons :
      (first n : ℕ) (e : SynthesisError)
      → Rejects (complete first) e
      → AllRejected (suc first) n
      → AllRejected first n
  AllRejected-cons first n e r all k h l = elim (Bool-cases (first == k)) [
    | inl same ↦
        subst (λ j. (e : SynthesisError) × Rejects (complete j) e) ((==_iff first k).0 same) (e, r)
    | inr other ↦ all k (ground arith) l
  ]

  -- A first answer that is rejected, and a further call.
  Called-cons :
      (left first : ℕ) (e : SynthesisError) (out : Result SynthesisError V × ℕ)
      → suc first ≤ cost_budget
      → Rejects (complete first) e
      → Called left (suc first) out
      → Called (suc left) first out
  Called-cons left first e (ok v, n) b r ((lo, hi, cap), (k, (h0, h1, h2, h3, all))) = (
    (omega arith, omega arith, λ h. cap b),
    (k, (h0, omega arith, h2, h3, AllRejected-cons first k e r all)),
  )
  Called-cons left first e (err x, n) b r ((lo, hi, cap), inl (h0, h1, all)) =
      ((omega arith, omega arith, λ h. cap b), inl (h0, h1, AllRejected-cons first n e r all))
  Called-cons left first e (err x, n) b r ((lo, hi, cap), inr (inl (k, (h0, h1, h2, h3, all)))) = (
    (omega arith, omega arith, λ h. cap b),
    inr (inl (k, (h0, omega arith, h2, h3, AllRejected-cons first k e r all))),
  )
  Called-cons left first e (err x, n) b r ((lo, hi, cap), inr (inr (h0, h1, all))) = (
    (omega arith, omega arith, λ h. cap b),
    inr (
        inr (
          omega arith,
          subst (λ j. Rejects (complete j) x) shift h1,
          subst (AllRejected first) shift (AllRejected-cons first (suc first + left) e r all),
        )),
  )
    where
      shift : ◌≡◌ {A = ℕ} (suc first + left) (first + suc left)
      shift = omega arith

  over_budget :
      (left first : ℕ)
      → cost_budget ≤ first
      → Called left first (err (cost_budget_exceeded cost_budget), first)
  over_budget left first h =
      ((omega arith, omega arith, λ l. l), inl (refl, h, none_rejected first))

  -- The answer of a single call.
  answered :
      (first : ℕ) (v : V) (left : ℕ)
      → suc first ≤ cost_budget
      → complete first ≡ ok v
      → validator v ≡ ok tt
      → Called left first (ok v, suc first)
  answered first v left b h k =
      ((omega arith, omega arith, λ l. b), (first, (refl, omega arith, h, k, none_rejected first)))

  failed :
      (first left : ℕ)
      → suc first ≤ cost_budget
      → complete first ≡ err LlmError.other_failure
      → Called left first (err llm, suc first)
  failed first left b h = (
    (omega arith, omega arith, λ l. b),
    inr (inl (first, (refl, omega arith, h, refl, none_rejected first))),
  )

  used_up :
      (first : ℕ) (e : SynthesisError)
      → suc first ≤ cost_budget
      → Rejects (complete first) e
      → Called zero first (err e, suc first)
  used_up first e b h = (
    (omega arith, omega arith, λ l. b),
    inr (
        inr (
          omega arith,
          subst (λ j. Rejects (complete j) e) here h,
          subst (AllRejected first) here (none_rejected first),
        )),
  )
    where
      here : ◌≡◌ {A = ℕ} first (first + zero)
      here = omega arith

  -- A call that starts below the budget ends at or below it and costs at most one call more than its retries. It returns
  -- an answer only if that is the last one, the validator accepts it, and each earlier one was malformed or refused. It
  -- fails for one of three causes: the budget is used up, and every answer was malformed or refused; the client failed
  -- otherwise on the last call, which is not retried; or all retries are used, and the error is that of the last answer.
  pub call_llm_with_schema_retry-Called :
      (left first : ℕ)
      → Called left first (call_llm_with_schema_retry complete cost_budget validator left first)
  unfolding call_llm_with_schema_retry
  call_llm_with_schema_retry-Called zero first = go (leb cost_budget first) refl
    where
      judged :
          (a : Result LlmError V)
          → complete first ≡ a
          → suc first ≤ cost_budget
          → Called zero first (last_result (judge validator a), suc first)
      judged (ok v) h b = valid (validator v) refl
        where
          valid :
              (r : Result SynthesisError Unit)
              → validator v ≡ r
              → Called zero first (last_result (verdict_of v r), suc first)
          valid (ok u) k = answered first v zero b h k
          valid (err e) k = used_up first e b (subst (λ a. Rejects a e) (sym h) k)
      judged (err LlmError.malformed_response) h b =
          used_up first llm b (subst (λ a. Rejects a llm) (sym h) (refl, refl))
      judged (err LlmError.other_failure) h b = failed first zero b h

      go :
          (b : Bool)
          → leb cost_budget first ≡ b
          → Called zero first (
              if b
              then (err (cost_budget_exceeded cost_budget), first)
              else (last_result (judge validator (complete first)), suc first))
      go true h = over_budget zero first (ground arith)
      go false h = judged (complete first) refl (ground arith)
  call_llm_with_schema_retry-Called (suc left) first =
      go (leb cost_budget first) refl (call_llm_with_schema_retry-Called left (suc first))
    where
      next : Result SynthesisError V × ℕ
      next = call_llm_with_schema_retry complete cost_budget validator left (suc first)

      judged :
          (a : Result LlmError V)
          → complete first ≡ a
          → suc first ≤ cost_budget
          → Called left (suc first) next
          → Called
              (suc left)
              first
              (elim (judge validator a) [ rejected e ↦ next | v ↦ (last_result v, suc first) ])
      judged (ok v) h b c = valid (validator v) refl
        where
          valid :
              (r : Result SynthesisError Unit)
              → validator v ≡ r
              → Called
                  (suc left)
                  first
                  (elim (verdict_of v r) [ rejected e ↦ next | w ↦ (last_result w, suc first) ])
          valid (ok u) k = answered first v (suc left) b h k
          valid (err e) k = Called-cons left first e next b (subst (λ a. Rejects a e) (sym h) k) c
      judged (err LlmError.malformed_response) h b c =
          Called-cons left first llm next b (subst (λ a. Rejects a llm) (sym h) (refl, refl)) c
      judged (err LlmError.other_failure) h b c = failed first (suc left) b h

      go :
          (b : Bool)
          → leb cost_budget first ≡ b
          → Called left (suc first) next
          → Called (suc left) first (
              if b
              then (err (cost_budget_exceeded cost_budget), first)
              else elim (judge validator (complete first)) [
                | rejected e ↦ next
                | v ↦ (last_result v, suc first)
              ])
      go true h c = over_budget (suc left) first (ground arith)
      go false h c = judged (complete first) refl (ground arith) c
