-- ===== src/Experience/Approval/Token/Accepted.antt =====
-- Which approval tokens `ApprovalTokenClaims.Validate` accepts.
use mathlib.Core.Path.{subst}
use belay_engine.Prelude.{
  le→ltb_false, String, Text, text, Bool, true, false, ◌||◌, not, List, [], ◌∷◌, ◌==◌, ◌!=◌,
  is_blank, Check, ok, err, fail_if, fail_named, ◌>>◌, each, trim_space, byte_len, valid_string,
  ◌≡◌, refl, sym, ap, ◌∙◌, ◌↔◌, inl, inr, arith, ◌≤◌, ◌<◌, In, text_eq→eq, ltb_false→le, >>-eq_ok,
  not-false, fail_if-eq_ok, list_beq_iff, le→ltb_false, nat_eq, list_eq,
}
use belay_engine.Experience.Model.{Time, is_zero, after}
use belay_engine.Experience.Validate.Fields.{
  max_identifier_bytes, has_control, validate_identifier, valid_sha256,
}
use belay_engine.Experience.Approval.Token.{
  ApprovalTokenClaims, token_identifiers, validate_approval_token,
}

-- What `validateIdentifier` asks of a text, without the name that it puts in its errors.
pub record IsIdentifier (value : Text) : Type 0 where
  pub written : is_blank value ≡ false
  pub trimmed : value ≡ trim_space value
  pub bounded : byte_len value ≤ max_identifier_bytes
  pub valid : valid_string value ≡ true
  pub printable : has_control value ≡ false

pub record IsApprovalToken (v : ApprovalTokenClaims) : Type 0 where
  pub version : v.version ≡ text "belay.experience-approval-token.v1"
  pub candidate_id : IsIdentifier v.candidate_id
  pub proposal_id : IsIdentifier v.proposal_id
  pub project_identity : IsIdentifier v.project_identity
  pub semantic_input_hash : valid_sha256 v.semantic_input_hash ≡ true
  pub proposed_content_hash : valid_sha256 v.proposed_content_hash ≡ true
  pub evidence_generation : valid_sha256 v.evidence_generation ≡ true
  pub issued : 0 < v.issued_at
  pub expires : v.issued_at < v.expires_at

fail_named-eq_ok :
    (b : Bool) (name message : String) → fail_named b name message ≡ ok tt → b ≡ false
fail_named-eq_ok true name message h = cc
fail_named-eq_ok false name message h = refl

fail_named-ok : (b : Bool) (name message : String) → b ≡ false → fail_named b name message ≡ ok tt
fail_named-ok true name message h = cc
fail_named-ok false name message h = refl

fail_if-ok : (b : Bool) (message : String) → b ≡ false → fail_if b message ≡ ok tt
fail_if-ok true message h = cc
fail_if-ok false message h = refl

>>-ok : (m n : Check) → m ≡ ok tt → n ≡ ok tt → (m >> n) ≡ ok tt
>>-ok (err message) n h k = cc
>>-ok (ok tt) n h k = k

-- A guard over a disjunction was passed exactly if each part is false.
or-false_iff : (a b : Bool) → ((a || b) ≡ false) ↔ ((a ≡ false) × (b ≡ false))
or-false_iff true b = (λ h. cc, λ h. cc)
or-false_iff false b = (λ h. (refl, h), λ h. h.1)

true-not : (b : Bool) → b ≡ true → not b ≡ false
true-not true h = refl
true-not false h = cc

eq-ne_false : (s t : Text) → s ≡ t → (s != t) ≡ false
eq-ne_false s t h = true-not (s == t) ((list_beq_iff s t).1 h)

validate_identifier_iff :
    (name : String) (value : Text) → (validate_identifier name value ≡ ok tt) ↔ IsIdentifier value
unfolding validate_identifier
validate_identifier_iff name value = (
  λ h.
      let (written, rest) = >>-eq_ok (fail_named (is_blank value) name " is required") _ h in
      let (rest1, unprintable) =
        (or-false_iff _ _).0 (fail_named-eq_ok _ name " is invalid" rest) in
      let (rest2, invalid) = (or-false_iff _ _).0 rest1 in
      let (untrimmed, unbounded) = (or-false_iff _ _).0 rest2 in
      record {
        written = fail_named-eq_ok _ name " is required" written;
        trimmed = text_eq→eq value (trim_space value) (not-false _ untrimmed);
        bounded = ltb_false→le _ _ unbounded;
        valid = not-false _ invalid;
        printable = unprintable;
      },
  λ h.
      >>-ok (fail_named (is_blank value) name " is required") _
        (fail_named-ok _ name " is required" h.written)
        (fail_named-ok _ name " is invalid" (
          (or-false_iff _ _).1 (
            (or-false_iff _ _).1 (
              (or-false_iff _ _).1 (eq-ne_false value _ h.trimmed, le→ltb_false _ _ h.bounded),
              true-not _ h.valid,
            ),
            h.printable,
          ))),
)

each_iff :
    {A : Type 0} (f : A → Check) (xs : List A)
    → (each f xs ≡ ok tt) ↔ ((x : A) → In x xs → f x ≡ ok tt)
each_iff f [] = (λ h x m. absurd m, λ h. refl)
each_iff f (x ∷ xs) = (
  λ h y m.
      let (here, later) = >>-eq_ok (f x) _ h in
      elim m [ inl p ↦ ap f p ∙ here | inr k ↦ (each_iff f xs).0 later y k ],
  λ h. >>-ok (f x) _ (h x (inl refl)) ((each_iff f xs).1 (λ y k. h y (inr k))),
)

abbrev bad_version : String
bad_version = "experience approval token version is invalid"

abbrev bad_hashes : String
bad_hashes = "experience approval token hashes must be sha256"

abbrev bad_window : String
bad_window = "experience approval token time window is invalid"

hashes_iff :
    (a b c : Bool) → ((not a || not b || not c) ≡ false) ↔ ((a ≡ true) × (b ≡ true) × (c ≡ true))
hashes_iff true true true = (λ h. (refl, refl, refl), λ h. refl)
hashes_iff true true false = (λ h. cc, λ h. cc)
hashes_iff true false c = (λ h. cc, λ h. cc)
hashes_iff false b c = (λ h. cc, λ h. cc)

window_iff :
    (issued expires : Time)
    → ((is_zero issued || is_zero expires || not (after expires issued)) ≡ false)
      ↔ ((0 < issued) × (issued < expires))
window_iff issued expires = (λ h. (ground (arith, h), ground (arith, h)), λ h. ground (arith, h))

module _ (visit : List (String × Text) → List (String × Text))
    (same : (es : List (String × Text)) (e : String × Text) → In e (visit es) ↔ In e es) where
  identifiers_iff :
      (v : ApprovalTokenClaims)
      → (each (λ (e : String × Text). validate_identifier e.0 e.1) (visit (token_identifiers v))
          ≡ ok tt)
        ↔ (IsIdentifier v.candidate_id
            × IsIdentifier v.proposal_id
            × IsIdentifier v.project_identity)
  identifiers_iff v = (
    λ h.
        let identifier = λ (e : String × Text) (m : In e (token_identifiers v)).
          (validate_identifier_iff e.0 e.1).0 (
            (each_iff (λ (e : String × Text). validate_identifier e.0 e.1) _).0 h e
              ((same (token_identifiers v) e).1 m)) in
        (
          identifier _ (inl refl),
          identifier _ (inr (inl refl)),
          identifier _ (inr (inr (inl refl))),
        ),
    λ h.
        let (candidate, proposal, project) = h in
        (each_iff (λ (e : String × Text). validate_identifier e.0 e.1) _).1 (λ e m.
          (validate_identifier_iff e.0 e.1).1 (elim ((same (token_identifiers v) e).0 m) [
            | inl p ↦ subst (λ (e : String × Text). IsIdentifier e.1) (sym p) candidate
            | inr (inl p) ↦ subst (λ (e : String × Text). IsIdentifier e.1) (sym p) proposal
            | inr (inr (inl p)) ↦ subst (λ (e : String × Text). IsIdentifier e.1) (sym p) project
            | inr (inr (inr n)) ↦ absurd n
          ])),
  )

  -- Whatever order Go visits the map of identifiers in, `ApprovalTokenClaims.Validate` accepts exactly
  -- the tokens of the right version with three written, trimmed and bounded identifiers, three sha256
  -- hashes, and a time of issue that is set and before the expiry.
  pub validate_approval_token_iff :
      (v : ApprovalTokenClaims) → (validate_approval_token visit v ≡ ok tt) ↔ IsApprovalToken v
  unfolding validate_approval_token
  validate_approval_token_iff v = (
    λ h.
        let (version, h1) =
          >>-eq_ok (fail_if (v.version != text "belay.experience-approval-token.v1") bad_version) _
            h in
        let (visited, h2) =
          >>-eq_ok
            (each (λ (e : String × Text). validate_identifier e.0 e.1)
              (visit (token_identifiers v)))
            _ h1 in
        let (hashes, h3) =
          >>-eq_ok
            (fail_if
              (not (valid_sha256 v.semantic_input_hash)
                || not (valid_sha256 v.proposed_content_hash)
                || not (valid_sha256 v.evidence_generation))
              bad_hashes)
            _ h2 in
        let (candidate, proposal, project) = (identifiers_iff v).0 visited in
        let (semantic, proposed, generation) =
          (hashes_iff _ _ _).0 (fail_if-eq_ok _ bad_hashes hashes) in
        let (issued, expires) = (window_iff _ _).0 (fail_if-eq_ok _ bad_window h3) in
        record {
          version = text_eq→eq v.version _ (not-false _ (fail_if-eq_ok _ bad_version version));
          candidate_id = candidate;
          proposal_id = proposal;
          project_identity = project;
          semantic_input_hash = semantic;
          proposed_content_hash = proposed;
          evidence_generation = generation;
          issued = issued;
          expires = expires;
        },
    λ h.
        >>-ok (fail_if (v.version != text "belay.experience-approval-token.v1") bad_version) _
          (fail_if-ok _ bad_version (eq-ne_false v.version _ h.version))
          (>>-ok
            (each (λ (e : String × Text). validate_identifier e.0 e.1)
              (visit (token_identifiers v)))
            _ ((identifiers_iff v).1 (h.candidate_id, h.proposal_id, h.project_identity))
            (>>-ok _ _
              (fail_if-ok _ bad_hashes (
                (hashes_iff _ _ _).1
                  (h.semantic_input_hash, h.proposed_content_hash, h.evidence_generation)))
              (fail_if-ok _ bad_window ((window_iff _ _).1 (h.issued, h.expires))))),
  )
