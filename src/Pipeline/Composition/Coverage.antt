-- ===== src/Pipeline/Composition/Coverage.antt =====
-- Stages 4 and 5 together: what the written narrative cites, and what the model's calls cost.
use episcience.Base.{
  ◌≡◌, refl, sym, subst, ℕ, zero, suc, ◌+◌, ◌*◌, ◌≤◌, ◌<◌, inl, inr, Bool, true, false, ◌||◌,
  Option, none, some, List, [], ◌∷◌, ◌++◌, Uuid, map, length, concat, contains, contains-append,
  distinct, contains-distinct, All, arith, Bool-cases,
}
use episcience.Base.Results.{Result, ok, err, ◌>>=◌, Yields}
use episcience.Verifier.{
  VerificationReason, VerificationOutcome, VerificationContext, default_citation_rubric, Judges,
  default_citation_rubric-Judges,
}
use package.episcience.Pipeline.{
  Text, SynthesisError, LlmError, Cluster, Texts, Metered, and_then, or_empty,
  call_llm_with_schema_retry,
}
use package.episcience.Pipeline.Calls.{Called, call_llm_with_schema_retry-Called}
use package.episcience.Pipeline.Narration.{citations, check_narration, narrate_cluster, narrate_all}
use package.episcience.Pipeline.Narration.Checks.{check_narration_iff}
use package.episcience.Pipeline.Composition.{
  Capture, get_elem?, named, spliced, splice_compose_placeholders, stage5_compose, write_narrative,
}
use package.episcience.Pipeline.Composition.Splice.{
  uses, summary_of, filled, is_number, Splices, splice_compose_placeholders-Splices,
}

abbrev pub member_ids : List Cluster → List Uuid
member_ids clusters = concat (map (λ c. c.member_claim_ids) clusters)

-- The rubric does not find a member uncited.
abbrev pub FindsAll : VerificationOutcome → Type 0
FindsAll (VerificationOutcome.accept n) = Unit
FindsAll (VerificationOutcome.reject (VerificationReason.uncited_member m)) = ⊥
FindsAll (VerificationOutcome.reject (VerificationReason.hallucinated_citation c)) = Unit
FindsAll (VerificationOutcome.reject r) = ⊥

module _ {V : Type 0} (texts : Texts V) where
  abbrev pub Cites : List Uuid → Text → Type 0
  Cites members t = (a : Uuid) → contains members a ≡ true → contains (citations texts t) a ≡ true

  abbrev pub IsNarrated : Cluster → Type 0
  IsNarrated c = Cites c.member_claim_ids c.summary

  Cites-FindsAll :
      (members : List Uuid) (t : Text)
      → Cites members t
      → FindsAll (
          default_citation_rubric
            (citations texts)
            (record { narrative = t; cluster_member_ids = members }))
  Cites-FindsAll members t h =
      go (default_citation_rubric (citations texts) context)
        (default_citation_rubric-Judges (citations texts) context)
    where
      context : VerificationContext Text
      context = record { narrative = t; cluster_member_ids = members }

      go : (o : VerificationOutcome) → Judges members (distinct (citations texts t)) o → FindsAll o
      go (VerificationOutcome.accept n) j = tt
      go (VerificationOutcome.reject (VerificationReason.uncited_member m)) j =
          absurd (grind (arith, h m j.0, j.1, contains-distinct m (citations texts t)))
      go (VerificationOutcome.reject (VerificationReason.hallucinated_citation c)) j = tt
      go (VerificationOutcome.reject (VerificationReason.kernel_contradiction c)) j = j
      go (VerificationOutcome.reject VerificationReason.skill_rejection) j = j

  module _ (complete : ℕ → Result LlmError V) (cost_budget : ℕ) where
    -- The calls between two counts: at most so many, and not past the budget.
    abbrev pub Spends : ℕ → ℕ → ℕ → Type 0
    Spends most first n = (first ≤ n) × (n ≤ first + most) × (first ≤ cost_budget → n ≤ cost_budget)

    abbrev pub Narrates : Cluster → Cluster → Type 0
    Narrates c d = (d.member_claim_ids ≡ c.member_claim_ids) × IsNarrated d

    narrate_cluster_lem :
        (c : Cluster) (n : ℕ)
        → Spends 2 n (narrate_cluster texts complete cost_budget c n).1
          × Yields (Narrates c) (narrate_cluster texts complete cost_budget c n).0
    unfolding narrate_cluster
    narrate_cluster_lem c n =
        go (call_llm_with_schema_retry complete cost_budget check 1 n)
          (call_llm_with_schema_retry-Called complete cost_budget check 1 n)
      where
        check : V → Result SynthesisError Unit
        check = check_narration texts c.member_claim_ids

        finish : V → ℕ → Metered Cluster
        finish response n = (
          ok (record c {
            title = or_empty (texts.as_str response "title");
            summary = or_empty (texts.as_str response "summary");
          }),
          n,
        )

        go :
            (m : Metered V)
            → Called complete cost_budget check 1 n m
            → Spends 2 n (and_then m finish).1 × Yields (Narrates c) (and_then m finish).0
        go (ok v, n') ((lo, hi, cap), (k, (h0, h1, h2, h3, all))) = (
          (lo, omega arith, cap),
          (refl, (((check_narration_iff texts c.member_claim_ids v).0 h3).1).2),
        )
        go (err e, n') ((lo, hi, cap), h) = ((lo, omega arith, cap), tt)

    narrate_all_lem :
        (clusters : List Cluster) (n : ℕ)
        → Spends (2 * length clusters) n (narrate_all texts complete cost_budget clusters n).1
          × Yields
              (λ ds. (member_ids ds ≡ member_ids clusters) × All IsNarrated ds)
              (narrate_all texts complete cost_budget clusters n).0
    unfolding narrate_all
    narrate_all_lem [] n = ((omega arith, omega arith, λ h. h), (refl, tt))
    narrate_all_lem (c ∷ clusters) n =
        go (narrate_cluster texts complete cost_budget c n) (narrate_cluster_lem c n)
          (narrate_all_lem clusters)
      where
        All_narrated : List Cluster → List Cluster → Type 0
        All_narrated cs ds = (member_ids ds ≡ member_ids cs) × All IsNarrated ds

        rest : ℕ → Metered (List Cluster)
        rest = narrate_all texts complete cost_budget clusters

        Rest : Metered (List Cluster) → ℕ → Type 0
        Rest m n' = Spends (2 * length clusters) n' m.1 × Yields (All_narrated clusters) m.0

        then_rest : Cluster → ℕ → Metered (List Cluster)
        then_rest d n' = and_then (rest n') λ ds n''. (ok (d ∷ ds), n'')

        more :
            (d : Cluster) (n' : ℕ) (r : Metered (List Cluster))
            → Spends 2 n n'
            → Narrates c d
            → Rest r n'
            → Spends (2 * length (c ∷ clusters)) n (and_then r (λ ds n''. (ok (d ∷ ds), n''))).1
              × Yields (All_narrated (c ∷ clusters)) (and_then r (λ ds n''. (ok (d ∷ ds), n''))).0
        more d n' (ok ds, n'') (lo, hi, cap) (same, cites) ((lo', hi', cap'), (ids, all)) =
            ((omega arith, omega arith, λ h. cap' (cap h)), (rw (same, ids) refl, (cites, all)))
        more d n' (err e, n'') (lo, hi, cap) w ((lo', hi', cap'), y) =
            ((omega arith, omega arith, λ h. cap' (cap h)), tt)

        go :
            (m : Metered Cluster)
            → Spends 2 n m.1 × Yields (Narrates c) m.0
            → ((n' : ℕ) → Rest (rest n') n')
            → Spends (2 * length (c ∷ clusters)) n (and_then m then_rest).1
              × Yields (All_narrated (c ∷ clusters)) (and_then m then_rest).0
        go (ok d, n') (s, w) f = more d n' (rest n') s w (f n')
        go (err e, n') ((lo, hi, cap), w) f = ((lo, omega arith, cap), tt)

    module _ (captures_iter : Text → List Capture × Text) where
      stage5_compose_lem :
          (clusters : List Cluster) (n : ℕ)
          → Spends 2 n (stage5_compose texts captures_iter complete cost_budget clusters n).1
            × Yields
                (λ t.
                  (template : List Capture × Text) × Splices clusters template.0 template.1 (ok t))
                (stage5_compose texts captures_iter complete cost_budget clusters n).0
      unfolding stage5_compose spliced
      stage5_compose_lem clusters n =
          go (call_llm_with_schema_retry complete cost_budget check 1 n)
            (call_llm_with_schema_retry-Called complete cost_budget check 1 n)
        where
          template : V → List Capture × Text
          template v = captures_iter (or_empty (texts.as_str v "narrative"))

          splice : V → Result SynthesisError Text
          splice v = splice_compose_placeholders clusters (template v)

          check : V → Result SynthesisError Unit
          check v = splice v >>= λ t. ok tt

          IsSplice : Text → Type 0
          IsSplice t =
              (template : List Capture × Text) × Splices clusters template.0 template.1 (ok t)

          done :
              (p : List Capture × Text) (r : Result SynthesisError Text)
              → Splices clusters p.0 p.1 r
              → Yields IsSplice r
          done p (ok t) h = (p, h)
          done p (err e) h = tt

          go :
              (m : Metered V)
              → Called complete cost_budget check 1 n m
              → Spends 2 n (and_then m (λ v n'. (splice v, n'))).1
                × Yields IsSplice (and_then m (λ v n'. (splice v, n'))).0
          go (ok v, n') ((lo, hi, cap), h) = (
            (lo, omega arith, cap),
            done (template v) (splice v)
                (splice_compose_placeholders-Splices clusters (template v).0 (template v).1),
          )
          go (err e, n') ((lo, hi, cap), h) = ((lo, omega arith, cap), tt)

-- The cluster that has a member, with its position.
member_of :
    (clusters : List Cluster) (a : Uuid)
    → contains (member_ids clusters) a ≡ true
    → (i : ℕ) × (c : Cluster) × ((get_elem? clusters i ≡ some c)
        × (i < length clusters)
        × (contains c.member_claim_ids a ≡ true))
member_of [] a h = absurd (grind (arith, h))
member_of (c ∷ clusters) a h = elim (Bool-cases (contains c.member_claim_ids a)) [
  | inl k ↦ (0, c, (refl, omega arith, k))
  | inr k ↦ later (
      member_of clusters a
        (ground (arith, h, k, contains-append a c.member_claim_ids (member_ids clusters))))
]
  where
    later :
        (i : ℕ) × (d : Cluster) × ((get_elem? clusters i ≡ some d)
            × (i < length clusters)
            × (contains d.member_claim_ids a ≡ true))
        → (i : ℕ) × (d : Cluster) × ((get_elem? (c ∷ clusters) i ≡ some d)
            × (i < length (c ∷ clusters))
            × (contains d.member_claim_ids a ≡ true))
    later (i, d, (h0, h1, h2)) = (suc i, d, (h0, omega arith, h2))

All-get_elem? :
    (P : Cluster → Type 0) (clusters : List Cluster) (i : ℕ) (c : Cluster)
    → All P clusters
    → get_elem? clusters i ≡ some c
    → P c
All-get_elem? P [] i c h e = absurd (grind (arith, e))
All-get_elem? P (d ∷ clusters) zero c h e = subst P (grind (arith, e)) h.0
All-get_elem? P (d ∷ clusters) (suc i) c h e = All-get_elem? P clusters i c h.1 e

module _ {V : Type 0} (texts : Texts V)
    (joins : (s t : Text) (a : Uuid)
      → (contains (citations texts s) a || contains (citations texts t) a) ≡ true
      → contains (citations texts (s ++ t)) a ≡ true) where
  behind :
      (s t : Text) (a : Uuid)
      → contains (citations texts t) a ≡ true
      → contains (citations texts (s ++ t)) a ≡ true
  behind s t a h = joins s t a (go (contains (citations texts s) a))
    where
      go : (b : Bool) → (b || contains (citations texts t) a) ≡ true
      go true = refl
      go false = h

  before :
      (s t : Text) (a : Uuid)
      → contains (citations texts s) a ≡ true
      → contains (citations texts (s ++ t)) a ≡ true
  before s t a h = joins s t a (rw h refl)

  filled-Cites :
      (clusters : List Cluster) (captures : List Capture) (tail : Text) (i : ℕ) (c : Cluster)
      → get_elem? clusters i ≡ some c
      → 1 ≤ uses (suc i) captures
      → IsNarrated texts c
      → Cites texts c.member_claim_ids (filled clusters captures tail)
  filled-Cites clusters [] tail i c g u w a h = absurd (omega (arith, u))
  filled-Cites clusters ((lead, number) ∷ captures) tail i c g u w a h =
      behind lead _ a (
        go (is_number (suc i) number) refl (λ v. filled-Cites clusters captures tail i c g v w a h))
    where
      rest : Text
      rest = filled clusters captures tail

      here :
          (number : Option ℕ)
          → is_number (suc i) number ≡ true
          → summary_of (named clusters number) ≡ c.summary
      here none k = absurd (grind (arith, k))
      here (some zero) k = absurd (ground (arith, k))
      here (some (suc j)) k =
          subst (λ j. summary_of (named clusters (some (suc j))) ≡ c.summary) same
            (rw (g, named, summary_of) refl)
        where
          same : i ≡ j
          same = ground (arith, k)

      go :
          (b : Bool)
          → is_number (suc i) number ≡ b
          → (1 ≤ uses (suc i) captures → contains (citations texts rest) a ≡ true)
          → contains (citations texts (summary_of (named clusters number) ++ rest)) a ≡ true
      go true k f =
          before _ rest a
            (subst (λ t. contains (citations texts t) a ≡ true) (sym (here number k)) (w a h))
      go false k f = behind (summary_of (named clusters number)) rest a (f (ground (arith, k, u)))

  -- For any answers of the model, and a pattern of citations whose matches in two texts stand in the two joined: the
  -- calls of stages 4 and 5 stay within the budget, and are at most two for each cluster and two for the narrative. If
  -- they succeed, the clusters keep their members, every cluster's summary cites each of its members, and the rubric of
  -- stage 6 finds no member uncited in the narrative: it accepts, or names a citation that is no member.
  pub write_narrative_lem :
      (captures_iter : Text → List Capture × Text) (complete : ℕ → Result LlmError V)
      (cost_budget : ℕ) (clusters : List Cluster) (n : ℕ)
      → Spends texts complete cost_budget
          (2 * length clusters + 2)
          n
          (write_narrative texts captures_iter complete cost_budget clusters n).1
        × Yields
            (λ r.
              (member_ids r.0 ≡ member_ids clusters)
              × All (IsNarrated texts) r.0
              × FindsAll (
                  default_citation_rubric
                    (citations texts)
                    (record { narrative = r.1; cluster_member_ids = member_ids r.0 })))
            (write_narrative texts captures_iter complete cost_budget clusters n).0
  unfolding write_narrative
  write_narrative_lem captures_iter complete cost_budget clusters n =
      go (narrate_all texts complete cost_budget clusters n)
        (narrate_all_lem texts complete cost_budget clusters n)
    where
      Spent : ℕ → ℕ → ℕ → Type 0
      Spent = Spends texts complete cost_budget

      Good : List Cluster × Text → Type 0
      Good r =
          (member_ids r.0 ≡ member_ids clusters)
          × All (IsNarrated texts) r.0
          × FindsAll (
              default_citation_rubric (citations texts)
                (record { narrative = r.1; cluster_member_ids = member_ids r.0 }))

      IsSplice : List Cluster → Text → Type 0
      IsSplice ds t = (template : List Capture × Text) × Splices ds template.0 template.1 (ok t)

      cited :
          (ds : List Cluster) (t : Text)
          → All (IsNarrated texts) ds
          → IsSplice ds t
          → Cites texts (member_ids ds) t
      cited ds t all (template, (names, once, text)) a h = at (member_of ds a h)
        where
          at :
              (i : ℕ) × (c : Cluster) × ((get_elem? ds i ≡ some c)
                  × (i < length ds)
                  × (contains c.member_claim_ids a ≡ true))
              → contains (citations texts t) a ≡ true
          at (i, c, (g, l, k)) =
              subst (λ t. contains (citations texts t) a ≡ true) (sym text)
                (filled-Cites ds template.0 template.1 i c g (omega (arith, once i l))
                  (All-get_elem? (IsNarrated texts) ds i c all g) a k)

      paired : List Cluster → Metered Text → Metered (List Cluster × Text)
      paired ds m = and_then m λ t n''. (ok (ds, t), n'')

      composed :
          (ds : List Cluster) (n' : ℕ) (m : Metered Text)
          → Spent (2 * length clusters) n n'
          → member_ids ds ≡ member_ids clusters
          → All (IsNarrated texts) ds
          → Spent 2 n' m.1 × Yields (IsSplice ds) m.0
          → Spent (2 * length clusters + 2) n (paired ds m).1 × Yields Good (paired ds m).0
      composed ds n' (ok t, n'') (lo, hi, cap) same all ((lo', hi', cap'), s) = (
        (omega arith, omega arith, λ h. cap' (cap h)),
        (same, all, Cites-FindsAll texts (member_ids ds) t (cited ds t all s)),
      )
      composed ds n' (err e, n'') (lo, hi, cap) same all ((lo', hi', cap'), s) =
          ((omega arith, omega arith, λ h. cap' (cap h)), tt)

      Last : List Cluster → ℕ → Metered (List Cluster × Text)
      Last ds n' = paired ds (stage5_compose texts captures_iter complete cost_budget ds n')

      go :
          (m : Metered (List Cluster))
          → Spent (2 * length clusters) n m.1
            × Yields (λ ds. (member_ids ds ≡ member_ids clusters) × All (IsNarrated texts) ds) m.0
          → Spent (2 * length clusters + 2) n (and_then m Last).1 × Yields Good (and_then m Last).0
      go (ok ds, n') (s, (same, all)) =
          composed ds n' (stage5_compose texts captures_iter complete cost_budget ds n') s same all
            (stage5_compose_lem texts complete cost_budget captures_iter ds n')
      go (err e, n') ((lo, hi, cap), y) = ((lo, omega arith, cap), tt)
