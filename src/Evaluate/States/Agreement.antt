-- ===== src/Evaluate/States/Agreement.antt =====
-- When the facts on an opportunity or a task outcome decide its state.
use mathlib.Core.Path.{subst}
use belay_engine.Prelude.{
  Bool, true, false, ◌&&◌, not, List, [], ◌∷◌, ◌==◌, contains, is_empty, if◌then◌else◌, all, Eq,
  ◌≡◌, refl, sym, ap, ◌∙◌, ◌↔◌, inl, inr, arith, In, Bool-cases, map, contains_iff, all-map,
  is_empty-map,
}
use belay_engine.Evaluate.Types.{Component, GapCode, FactMeta, OpportunityFact, Builder}
use belay_engine.Evaluate.States.{
  evaluate_states, evaluate_opportunity, distinct_states, any_ambiguous, all_evidence, settle,
}
use belay_engine.Experience.Enums.{OpportunityState, opportunity_eq}
use belay_engine.Experience.Model.{EvidenceRef}

module _ {S : Type 0} ⦃e : Eq S⦄ where
  -- Every fact is unambiguous and reports the state.
  abbrev pub agree : S → List (FactMeta × S) → Bool
  agree s facts = all (λ f. not f.0.ambiguous && e.beq f.1 s) facts

  unfoldable add_state : List S → S → List S
  add_state ds t = if contains ds t then ds else t ∷ ds

  add_state-one :
      (x : S) (ds : List S) (t s : S)
      → (add_state (x ∷ ds) t ≡ s ∷ []) ↔ ((x ∷ ds ≡ s ∷ []) × (t ≡ s))
  unfolding add_state
  add_state-one x ds t s = elim (Bool-cases (contains (x ∷ ds) t)) [
    | inl i ↦ rw i (λ h. (h, member ((contains_iff (x ∷ ds) t).0 i) h), λ h. h.0)
    | inr n ↦
        rw n (λ h. cc h, λ h. cc (n, (contains_iff (x ∷ ds) t).1 (inl (h.1 ∙ sym (head h.0)))))
  ]
    where
      head : (x ∷ ds ≡ s ∷ []) → x ≡ s
      head h = cc h

      member : In t (x ∷ ds) → x ∷ ds ≡ s ∷ [] → t ≡ s
      member m h = elim (let g : In t (s ∷ []) = subst (In t) h m in g) [
        | inl q ↦ q
        | inr b ↦ absurd b
      ]

  distinct_states-cons :
      (facts : List (FactMeta × S)) (f : FactMeta × S)
      → (x : S) × (ds : List S) × (distinct_states (f ∷ facts) ≡ x ∷ ds)
  distinct_states-cons [] f = (f.1, [], refl)
  distinct_states-cons (g ∷ facts) f =
      let rest = distinct_states (g ∷ facts) in
      elim (Bool-cases (contains rest f.1)) [
        | inl i ↦ let (x, ds, q) = distinct_states-cons facts g in (x, ds, rw i q)
        | inr n ↦ (f.1, rest, rw n refl)
      ]

  add_state-agree :
      (ds : List S) (x : S) (rest : List S) (t s : S)
      → ds ≡ x ∷ rest
      → (add_state ds t ≡ s ∷ []) ↔ ((ds ≡ s ∷ []) × (t ≡ s))
  add_state-agree ds x rest t s q = rw q (add_state-one x rest t s)

  -- The loop ends with one state exactly if each fact reports it.
  distinct_states-agree :
      (facts : List (FactMeta × S)) (f : FactMeta × S) (s : S)
      → (distinct_states (f ∷ facts) ≡ s ∷ []) ↔ (all (λ g. e.beq g.1 s) (f ∷ facts) ≡ true)
  unfolding add_state
  distinct_states-agree [] f s = (
    λ h. ground (arith, (e.beq_iff f.1 s).1 (cc h)),
    λ h. ap (λ t. t ∷ []) ((e.beq_iff f.1 s).0 (ground (arith, h))),
  )
  distinct_states-agree (g ∷ facts) f s =
      let (x, ds, q) = distinct_states-cons facts g in
      let step = add_state-agree (distinct_states (g ∷ facts)) x ds f.1 s q in
      let rec = distinct_states-agree facts g s in
      (
        λ h. let (same, here) = step.0 h in ground (arith, rec.0 same, (e.beq_iff f.1 s).1 here),
        λ h. step.1 (rec.1 (ground (arith, h)), (e.beq_iff f.1 s).0 (ground (arith, h))),
      )

  settle-decides :
      (component : Component) (unknown : S) (es : List EvidenceRef) (ambiguous : Bool) (ds : List S)
      (b : Builder) (s : S)
      → ¬ (s ≡ unknown)
      → ((settle component unknown es ambiguous ds b).0 ≡ s) ↔ ((ambiguous ≡ false) × (ds ≡ s ∷ []))
  settle-decides component unknown es true [] b s n = (λ h. absurd (n (sym h)), λ h. cc (h.0))
  settle-decides component unknown es true (x ∷ ds) b s n = (λ h. absurd (n (sym h)), λ h. cc (h.0))
  settle-decides component unknown es false [] b s n = (λ h. absurd (n (sym h)), λ h. cc (h.1))
  settle-decides component unknown es false (x ∷ []) b s n =
      (λ h. (refl, ap (λ t. t ∷ []) h), λ h. cc (h.1))
  settle-decides component unknown es false (x ∷ y ∷ ds) b s n =
      (λ h. absurd (n (sym h)), λ h. cc (h.1))

  agree-split :
      (s : S) (facts : List (FactMeta × S))
      → agree s facts ≡ (not (any_ambiguous facts) && all (λ g. e.beq g.1 s) facts)
  agree-split s [] = refl
  agree-split s (f ∷ facts) = ground (arith, agree-split s facts)

  -- A state other than `unknown` is decided exactly if there is a fact, and each fact is unambiguous
  -- and reports this state. The statement is about the loop that the opportunity and the task outcome share.
  evaluate_states-decides :
      (component : Component) (missing : GapCode) (unknown : S) (facts : List (FactMeta × S))
      (b : Builder) (s : S)
      → ¬ (s ≡ unknown)
      → ((evaluate_states component missing unknown facts b).0 ≡ s)
        ↔ ((is_empty facts ≡ false) × (agree s facts ≡ true))
  unfolding evaluate_states
  evaluate_states-decides component missing unknown [] b s n =
      (λ h. absurd (n (sym h)), λ h. cc (h.0))
  evaluate_states-decides component missing unknown (f ∷ facts) b s n =
      let settled =
        settle-decides component unknown (all_evidence (f ∷ facts)) (any_ambiguous (f ∷ facts))
          (distinct_states (f ∷ facts)) b s n in
      let same = distinct_states-agree facts f s in
      let split = agree-split s (f ∷ facts) in
      (
        λ h. let (clear, one) = settled.0 h in (refl, ground (arith, split, clear, same.0 one)),
        λ h. settled.1 (ground (arith, split, h.1), same.1 (ground (arith, split, h.1))),
      )

-- The opportunity is decided, observed or not observed, exactly if there is a fact on it and each such fact
-- is unambiguous and reports this state.
pub evaluate_opportunity-decides :
    (facts : List OpportunityFact) (b : Builder) (s : OpportunityState)
    → ¬ (s ≡ OpportunityState.unknown)
    → ((evaluate_opportunity facts b).0 ≡ s) ↔ (
        (is_empty facts ≡ false)
        × (all (λ (f : OpportunityFact). not f.meta.ambiguous && f.state == s) facts ≡ true))
unfolding evaluate_opportunity
evaluate_opportunity-decides facts b s n =
    let pair : OpportunityFact → FactMeta × OpportunityState = λ f. (f.meta, f.state) in
    rw (← is_empty-map pair facts) (
      rw (← all-map (λ (g : FactMeta × OpportunityState). not g.0.ambiguous && g.1 == s) pair facts)
        (evaluate_states-decides Component.opportunity GapCode.no_opportunity_observation
          OpportunityState.unknown (map pair facts) b s n))
