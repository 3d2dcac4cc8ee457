-- ===== src/Experience/Conflict/Preflight/Cap.antt =====
-- The advisory after the query for active experiences has hit its limit.
use mathlib.Core.Path.{subst}
use belay_engine.Prelude.{
  true, List, [], ◌∷◌, ◌++◌, ok, ◌>>◌, ◌≡◌, ◌≢◌, refl, ap, ◌↔◌, ◌⊎◌, inl, inr, In, Subset,
  Bool-cases, contains_iff, In-append_left, In-append_right, In-sort, >>-eq_ok, ok-injective,
}
use belay_engine.Experience.Conflict.{
  ConflictState, ConflictReasonCode, reason_eq, ConflictAdvisory, reason_ltb,
}
use belay_engine.Experience.Conflict.Preflight.{
  validate_advisory, sorted_reasons, mark_query_cap_reached, capped, validated, raise_no_conflict,
  mark_capped,
}

-- What the marked advisory says.
abbrev pub Capped : ConflictAdvisory → ConflictAdvisory → Type 0
Capped v w =
    (w.state ≢ ConflictState.no_conflict)
    × ((v.state ≡ ConflictState.no_conflict) ⊎ (w.state ≡ v.state))
    × (w.refs ≡ v.refs)
    × In ConflictReasonCode.active_query_cap_reached w.reasons
    × Subset v.reasons w.reasons

raise_no_conflict-ne : (s : ConflictState) → raise_no_conflict s ≢ ConflictState.no_conflict
raise_no_conflict-ne ConflictState.no_conflict h = cc h
raise_no_conflict-ne ConflictState.possible_overlap h = cc h
raise_no_conflict-ne ConflictState.possible_contradiction h = cc h
raise_no_conflict-ne (ConflictState.other x) h = cc h

raise_no_conflict-keeps :
    (s : ConflictState) → (s ≡ ConflictState.no_conflict) ⊎ (raise_no_conflict s ≡ s)
raise_no_conflict-keeps ConflictState.no_conflict = inl refl
raise_no_conflict-keeps ConflictState.possible_overlap = inr refl
raise_no_conflict-keeps ConflictState.possible_contradiction = inr refl
raise_no_conflict-keeps (ConflictState.other x) = inr refl

raise_no_conflict-id : (s : ConflictState) → s ≢ ConflictState.no_conflict → raise_no_conflict s ≡ s
raise_no_conflict-id s n = elim (raise_no_conflict-keeps s) [ inl e ↦ absurd (n e) | inr e ↦ e ]

sorted_reasons-In :
    (rs : List ConflictReasonCode) (r : ConflictReasonCode) → In r (sorted_reasons rs) ↔ In r rs
unfolding sorted_reasons
sorted_reasons-In rs r = In-sort reason_ltb rs r

mark_capped-reasons :
    (v : ConflictAdvisory)
    → In ConflictReasonCode.active_query_cap_reached (mark_capped v).reasons
      × Subset v.reasons (mark_capped v).reasons
mark_capped-reasons v = elim (Bool-cases (capped v)) [
  | inl t ↦
      rw t ((contains_iff v.reasons ConflictReasonCode.active_query_cap_reached).0 t, λ r m. m)
  | inr f ↦
      let more = v.reasons ++ ConflictReasonCode.active_query_cap_reached ∷ [] in
      rw f (
        (sorted_reasons-In more _).1 (In-append_right _ v.reasons _ (inl refl)),
        λ r m. (sorted_reasons-In more r).1 (In-append_left r v.reasons _ m),
      )
]

mark_capped-Capped : (v : ConflictAdvisory) → Capped v (mark_capped v)
mark_capped-Capped v =
    let (cap, kept) = mark_capped-reasons v in
    (raise_no_conflict-ne v.state, raise_no_conflict-keeps v.state, refl, cap, kept)

-- A marked advisory is left alone.
mark_capped-id :
    (w : ConflictAdvisory)
    → w.state ≢ ConflictState.no_conflict
    → capped w ≡ true
    → mark_capped w ≡ w
mark_capped-id w s c = rw c (ap (λ t. record w { state = t }) (raise_no_conflict-id w.state s))

-- If marking an advisory as cut off by the query's limit succeeds, the result does not claim that
-- there is no conflict, keeps any other state, the references and the reasons, gives the limit as a
-- reason, and a second marking returns it unchanged.
pub mark_query_cap_reached-Capped :
    (v w : ConflictAdvisory)
    → mark_query_cap_reached v ≡ ok w
    → Capped v w × (mark_query_cap_reached w ≡ ok w)
unfolding mark_query_cap_reached
mark_query_cap_reached-Capped v w h =
    let (_, rest) = >>-eq_ok (validate_advisory v) (validated (mark_capped v)) h in
    let (valid, same) = >>-eq_ok (validate_advisory (mark_capped v)) (ok (mark_capped v)) rest in
    let e = ok-injective (mark_capped v) w same in
    let facts = subst (Capped v) e (mark_capped-Capped v) in
    (facts, again (subst (λ u. validate_advisory u ≡ ok tt) e valid) facts)
  where
    again :
        validate_advisory w ≡ ok tt
        → Capped v w
        → validate_advisory w >> (validate_advisory (mark_capped w) >> ok (mark_capped w)) ≡ ok w
    again valid (s, _, _, c, _) =
        rw
          (mark_capped-id w s
            ((contains_iff w.reasons ConflictReasonCode.active_query_cap_reached).1 c))
          (rw valid refl)
