-- ===== src/Pipeline/Composition/Splice.antt =====
-- What splicing accepts, what it returns, and which cluster it names when it refuses.
use mathlib.Core.List.{append_assoc}
use episcience.Base.{
  ◌≡◌, refl, sym, ◌∙◌, ap, subst, ℕ, zero, suc, ◌+◌, ◌≤◌, ◌<◌, ◌≢◌, ◌⊎◌, inl, inr, Bool, true,
  false, Option, none, some, List, [], ◌∷◌, ◌++◌, ◌==◌, ==_iff, if◌then◌else◌, map, length, All,
  arith,
}
use episcience.Base.Results.{Result, ok, err, ◌>>=◌}
use package.episcience.Pipeline.{Text, SynthesisError, compose_anchor_violation, Cluster}
use package.episcience.Pipeline.Narration.{nil_id}
use package.episcience.Pipeline.Composition.{
  Capture, get_elem?, is_seen, mark, named, splice_loop, first_unseen, finish_splice,
  splice_compose_placeholders,
}

abbrev pub is_number : ℕ → Option ℕ → Bool
is_number n none = false
is_number n (some k) = k == n

-- How often a template uses the placeholder with a number.
abbrev pub uses : ℕ → List Capture → ℕ
uses n [] = 0
uses n ((before, number) ∷ captures) = (if is_number n number then 1 else 0) + uses n captures

abbrev pub summary_of : Option (ℕ × Cluster) → Text
summary_of none = []
summary_of (some (i, c)) = c.summary

-- The template with each placeholder replaced by its cluster's summary.
abbrev pub filled : List Cluster → List Capture → Text → Text
filled clusters [] tail = tail
filled clusters ((before, number) ∷ captures) tail =
    before ++ (summary_of (named clusters number) ++ filled clusters captures tail)

abbrev pub NamesCluster : List Cluster → Capture → Type 0
NamesCluster clusters (before, number) = (p : ℕ × Cluster) × (named clusters number ≡ some p)

-- A capture, somewhere in the template, that names no cluster.
abbrev pub NamesNone : List Cluster → List Capture → Type 0
NamesNone clusters [] = ⊥
NamesNone clusters ((before, number) ∷ captures) =
    (named clusters number ≡ none) ⊎ NamesNone clusters captures

abbrev pub bit : List Bool → ℕ → ℕ
bit seen i = if is_seen seen i then 1 else 0

length-mark : (seen : List Bool) (i : ℕ) → length (mark seen i) ≡ length seen
length-mark [] i = refl
length-mark (b ∷ seen) zero = refl
length-mark (b ∷ seen) (suc i) = omega (arith, length-mark seen i)

bit-mark :
    (seen : List Bool) (i j : ℕ)
    → i < length seen
    → bit (mark seen i) j ≡ (if i == j then 1 else bit seen j)
bit-mark [] i j h = absurd (omega arith)
bit-mark (b ∷ seen) zero zero h = refl
bit-mark (b ∷ seen) zero (suc j) h = ground arith
bit-mark (b ∷ seen) (suc i) zero h = ground arith
bit-mark (b ∷ seen) (suc i) (suc j) h = ground (arith, bit-mark seen i j)

get_elem?-some :
    (clusters : List Cluster) (i : ℕ) (c : Cluster)
    → get_elem? clusters i ≡ some c
    → i < length clusters
get_elem?-some [] i c h = absurd (grind (arith, h))
get_elem?-some (x ∷ clusters) zero c h = omega arith
get_elem?-some (x ∷ clusters) (suc i) c h = omega (arith, get_elem?-some clusters i c h)

-- A number that names a cluster is one more than its position.
named_lem :
    (clusters : List Cluster) (number : Option ℕ) (i : ℕ) (c : Cluster)
    → named clusters number ≡ some (i, c)
    → (number ≡ some (suc i)) × (get_elem? clusters i ≡ some c)
named_lem clusters none i c h = absurd (grind (arith, h))
named_lem clusters (some zero) i c h = absurd (grind (arith, h))
named_lem clusters (some (suc k)) i c h = go (get_elem? clusters k) refl h
  where
    go :
        (o : Option Cluster)
        → get_elem? clusters k ≡ o
        → elim o as (λ o. Option (ℕ × Cluster)) [ none ↦ none | some d ↦ some (k, d) ] ≡ some (i, c)
        → (some (suc k) ≡ some (suc i)) × (get_elem? clusters i ≡ some c)
    go none e g = absurd (grind (arith, g))
    go (some d) e g = (grind (arith, g), grind (arith, e, g))

-- The error names no cluster, as a capture does, or a cluster with another count of uses than one.
abbrev pub Blames : List Cluster → List Capture → (ℕ → ℕ) → (ℕ → Type 0) → SynthesisError → Type 0
Blames clusters captures count Wrong (compose_anchor_violation id) =
    ((id ≡ nil_id) × NamesNone clusters captures)
    ⊎ ((i : ℕ) × (c : Cluster) × ((get_elem? clusters i ≡ some c) × (id ≡ c.id) × Wrong (count i)))
Blames clusters captures count Wrong e = ⊥

LoopEnds :
    List Cluster
    → List Capture
    → List Bool
    → Text
    → Text
    → Result SynthesisError (List Bool × Text)
    → Type 0
LoopEnds clusters captures seen out tail (ok (seen', out')) =
    All (NamesCluster clusters) captures
    × ((i : ℕ) → bit seen' i ≡ bit seen i + uses (suc i) captures)
    × (length seen' ≡ length seen)
    × (out' ++ tail ≡ out ++ filled clusters captures tail)
LoopEnds clusters captures seen out tail (err e) =
    Blames clusters captures (λ i. bit seen i + uses (suc i) captures) (λ n. 2 ≤ n) e

-- The count after a mark, with the use that it stands for.
bit_step :
    (seen : List Bool) (i j : ℕ) (captures : List Capture) (before : Text)
    → i < length seen
    → is_seen seen i ≡ false
    → bit (mark seen i) j + uses (suc j) captures
      ≡ bit seen j + uses (suc j) ((before, some (suc i)) ∷ captures)
bit_step seen i j captures before h k = ground (arith, bit-mark seen i j h, k, ==_iff i j)

refill :
    (out before summary rest : Text)
    → (out ++ before ++ summary) ++ rest ≡ out ++ (before ++ (summary ++ rest))
refill out before summary rest = simp append_assoc

module _ (clusters : List Cluster) (tail : Text) where
  LoopEnds-cons :
      (before : Text) (number : Option ℕ) (captures : List Capture) (seen : List Bool) (out : Text)
      (i : ℕ) (c : Cluster) (r : Result SynthesisError (List Bool × Text))
      → length seen ≡ length clusters
      → named clusters number ≡ some (i, c)
      → is_seen seen i ≡ false
      → LoopEnds clusters captures (mark seen i) (out ++ before ++ c.summary) tail r
      → LoopEnds clusters ((before, number) ∷ captures) seen out tail r
  unfolding LoopEnds
  LoopEnds-cons before number captures seen out i c r l n s e = go r e
    where
      inside : i < length seen
      inside = omega (arith, get_elem?-some clusters i c (named_lem clusters number i c n).1)

      counted :
          (j : ℕ)
          → bit (mark seen i) j + uses (suc j) captures
            ≡ bit seen j + uses (suc j) ((before, number) ∷ captures)
      counted j =
          subst
            (λ k.
              bit (mark seen i) j + uses (suc j) captures
              ≡ bit seen j + uses (suc j) ((before, k) ∷ captures))
            (sym (named_lem clusters number i c n).0) (bit_step seen i j captures before inside s)

      go :
          (r : Result SynthesisError (List Bool × Text))
          → LoopEnds clusters captures (mark seen i) (out ++ before ++ c.summary) tail r
          → LoopEnds clusters ((before, number) ∷ captures) seen out tail r
      go (ok (seen', out')) (all, bits, len, text) = (
        (((i, c), n), all),
        λ j. bits j ∙ counted j,
        omega (arith, len, length-mark seen i),
        text
            ∙ refill out before c.summary (filled clusters captures tail)
            ∙ ap (λ o. out ++ (before ++ (summary_of o ++ filled clusters captures tail))) (sym n),
      )
      go (err (compose_anchor_violation id)) (inl (h, k)) = inl (h, inr k)
      go (err (compose_anchor_violation id)) (inr (j, d, (h, k, w))) =
          inr (j, d, (h, k, omega (arith, w, counted j)))
      go (err SynthesisError.empty_result) h = h
      go (err SynthesisError.subgraph_too_large) h = h
      go (err (SynthesisError.hallucinated_claim_id x)) h = h
      go (err (SynthesisError.uncited_member x)) h = h
      go (err (SynthesisError.abbreviated_citation t x)) h = h
      go (err (SynthesisError.cost_budget_exceeded x)) h = h
      go (err SynthesisError.llm) h = h
      go (err SynthesisError.edge_write) h = h
      go (err SynthesisError.db) h = h
      go (err SynthesisError.validation) h = h

  splice_loop-LoopEnds :
      (captures : List Capture) (seen : List Bool) (out : Text)
      → length seen ≡ length clusters
      → LoopEnds clusters captures seen out tail (splice_loop clusters captures seen out)
  unfolding splice_loop LoopEnds
  splice_loop-LoopEnds [] seen out l = (tt, λ i. omega arith, refl, refl)
  splice_loop-LoopEnds ((before, number) ∷ captures) seen out l =
      go (named clusters number) refl λ i c h.
        splice_loop-LoopEnds captures (mark seen i) (out ++ before ++ c.summary)
          (omega (arith, length-mark seen i))
    where
      Next : ℕ → Cluster → Type 0
      Next i c =
          LoopEnds clusters captures (mark seen i) (out ++ before ++ c.summary) tail
            (splice_loop clusters captures (mark seen i) (out ++ before ++ c.summary))

      Goal : Result SynthesisError (List Bool × Text) → Type 0
      Goal = LoopEnds clusters ((before, number) ∷ captures) seen out tail

      step :
          (i : ℕ) (c : Cluster)
          → named clusters number ≡ some (i, c)
          → Next i c
          → (b : Bool) → is_seen seen i ≡ b
          → Goal (elim b [
            | true ↦ err (compose_anchor_violation c.id)
            | false ↦ splice_loop clusters captures (mark seen i) (out ++ before ++ c.summary)
          ])
      step i c n next true s =
          let at = named_lem clusters number i c n in
          inr (
            i,
            c,
            (
              at.1,
              refl,
              subst (λ k. 2 ≤ bit seen i + uses (suc i) ((before, k) ∷ captures)) (sym at.0)
                  (ground (arith, s)),
            ),
          )
      step i c n next false s = LoopEnds-cons before number captures seen out i c _ l n s next

      go :
          (o : Option (ℕ × Cluster))
          → named clusters number ≡ o
          → ((i : ℕ) (c : Cluster) → ◌≡◌ {A = ℕ} 0 0 → Next i c)
          → Goal (elim o [
            | none ↦ err (compose_anchor_violation nil_id)
            | some (i, c) ↦ elim (is_seen seen i) [
              | true ↦ err (compose_anchor_violation c.id)
              | false ↦ splice_loop clusters captures (mark seen i) (out ++ before ++ c.summary)
            ]
          ])
      go none n next = inl (refl, inl n)
      go (some (i, c)) n next = step i c n (next i c refl) (is_seen seen i) refl

-- What a splice returns. A template is accepted if each cluster has exactly one placeholder and every placeholder a
-- cluster.
abbrev pub Splices : List Cluster → List Capture → Text → Result SynthesisError Text → Type 0
Splices clusters captures tail (ok out) =
    All (NamesCluster clusters) captures
    × ((i : ℕ) → i < length clusters → uses (suc i) captures ≡ 1)
    × (out ≡ filled clusters captures tail)
Splices clusters captures tail (err e) =
    Blames clusters captures (λ i. uses (suc i) captures) (λ n. n ≢ 1) e

-- All clusters are seen, or one is not.
abbrev pub Unseen : List Cluster → List Bool → Option Cluster → Type 0
Unseen clusters seen none = (i : ℕ) → i < length clusters → bit seen i ≡ 1
Unseen clusters seen (some c) = (i : ℕ) × ((get_elem? clusters i ≡ some c) × (bit seen i ≡ 0))

first_unseen-Unseen :
    (clusters : List Cluster) (seen : List Bool)
    → length seen ≡ length clusters
    → Unseen clusters seen (first_unseen seen clusters)
first_unseen-Unseen [] [] l = λ i h. absurd (omega arith)
first_unseen-Unseen [] (b ∷ seen) l = absurd (omega arith)
first_unseen-Unseen (c ∷ clusters) [] l = absurd (omega arith)
first_unseen-Unseen (c ∷ clusters) (false ∷ seen) l = (0, (refl, refl))
first_unseen-Unseen (c ∷ clusters) (true ∷ seen) l =
    go (first_unseen seen clusters) (first_unseen-Unseen clusters seen (omega arith))
  where
    go : (o : Option Cluster) → Unseen clusters seen o → Unseen (c ∷ clusters) (true ∷ seen) o
    go none f = seen_later f
      where
        seen_later : Unseen clusters seen none → Unseen (c ∷ clusters) (true ∷ seen) none
        seen_later f zero h = refl
        seen_later f (suc i) h = f i (omega arith)
    go (some d) (i, (h, k)) = (suc i, (h, k))

bit-unmarked : (clusters : List Cluster) (i : ℕ) → bit (map (λ c. false) clusters) i ≡ 0
bit-unmarked [] i = refl
bit-unmarked (c ∷ clusters) zero = refl
bit-unmarked (c ∷ clusters) (suc i) = bit-unmarked clusters i

length-unmarked : (clusters : List Cluster) → length (map (λ c. false) clusters) ≡ length clusters
length-unmarked [] = refl
length-unmarked (c ∷ clusters) = omega (arith, length-unmarked clusters)

-- An out-of-place error blames the same cluster with the counts that are final.
blame_whole :
    (clusters : List Cluster) (captures : List Capture) (e : SynthesisError)
    → Blames clusters captures
        (λ i. bit (map (λ c. false) clusters) i + uses (suc i) captures)
        (λ n. 2 ≤ n)
        e
    → Blames clusters captures (λ i. uses (suc i) captures) (λ n. n ≢ 1) e
blame_whole clusters captures (compose_anchor_violation id) (inl h) = inl h
blame_whole clusters captures (compose_anchor_violation id) (inr (i, c, (h, k, w))) =
    inr (i, c, (h, k, λ one. absurd (omega (arith, w, one, bit-unmarked clusters i))))
blame_whole clusters captures SynthesisError.empty_result h = h
blame_whole clusters captures SynthesisError.subgraph_too_large h = h
blame_whole clusters captures (SynthesisError.hallucinated_claim_id x) h = h
blame_whole clusters captures (SynthesisError.uncited_member x) h = h
blame_whole clusters captures (SynthesisError.abbreviated_citation t x) h = h
blame_whole clusters captures (SynthesisError.cost_budget_exceeded x) h = h
blame_whole clusters captures SynthesisError.llm h = h
blame_whole clusters captures SynthesisError.edge_write h = h
blame_whole clusters captures SynthesisError.db h = h
blame_whole clusters captures SynthesisError.validation h = h

-- If a splice succeeds, every placeholder of the template names a cluster, each cluster is named exactly once, and the
-- narrative is the template with each placeholder replaced by its cluster's summary, all else unchanged. If it fails, it
-- is for one of two causes: some placeholder names no cluster, and the error carries the nil identifier; or the error
-- names a cluster whose placeholder is missing or repeated.
pub splice_compose_placeholders-Splices :
    (clusters : List Cluster) (captures : List Capture) (tail : Text)
    → Splices clusters captures tail (splice_compose_placeholders clusters (captures, tail))
unfolding splice_compose_placeholders finish_splice LoopEnds
splice_compose_placeholders-Splices clusters captures tail =
    go (splice_loop clusters captures unmarked [])
      (splice_loop-LoopEnds clusters tail captures unmarked [] (length-unmarked clusters))
  where
    unmarked : List Bool
    unmarked = map (λ c. false) clusters

    finished :
        (seen : List Bool) (out : Text)
        → LoopEnds clusters captures unmarked [] tail (ok (seen, out))
        → (o : Option Cluster) → Unseen clusters seen o
        → Splices clusters captures tail
            (elim o [ some c ↦ err (compose_anchor_violation c.id) | none ↦ ok (out ++ tail) ])
    finished seen out (all, bits, len, text) none u =
        (all, λ i h. omega (arith, bits i, u i h, bit-unmarked clusters i), text)
    finished seen out (all, bits, len, text) (some c) (i, (h, k)) =
        inr
          (i, c, (h, refl, λ one. absurd (omega (arith, one, bits i, k, bit-unmarked clusters i))))

    go :
        (r : Result SynthesisError (List Bool × Text))
        → LoopEnds clusters captures unmarked [] tail r
        → Splices clusters captures tail (r >>= finish_splice clusters tail)
    go (ok (seen, out)) h =
        finished seen out h (first_unseen seen clusters)
          (first_unseen-Unseen clusters seen (omega (arith, h.2, length-unmarked clusters)))
    go (err e) h = blame_whole clusters captures e h
