-- ===== src/Lib.antt =====
-- Verification library of belay-engine: the contracts of learned experiences and their deterministic
-- evaluation (internal/experience and internal/experience/evaluate), and the detectors that find issues
-- in the events of a session (internal/detection).
--
-- An experience is advice that was learned from past sessions: where it applies (a scope and
-- conditions), what it says (guidance), and how to tell whether it was followed (a verifier). A model
-- proposes it; the conflict preflight compares the proposal with the active experiences; a user
-- approves it, narrowed or edited; lifecycle actions then move it; once it was delivered to a session,
-- the evaluation decides from facts whether it applied and whether its verifier was satisfied.
--
-- Files, with the code that they model, by paths from the repository's root:
-- - Prelude and its children: tests on numbers, lists, the stable sort, text as code points, results
--   with a chain of messages for Go's wrapped errors, and integers. They model the standard library
--   as far as the code uses it.
-- - Experience/Enums, Experience/Verifier, Experience/Model: internal/experience/enums.go, verifier.go
--   and model.go. An enum has one constructor for each constant and `other` for any other string.
-- - Experience/Validate and its children: internal/experience/validate.go. Fields holds the helpers
--   on identifiers, texts and paths (its child Paths is about relative paths), Records the scope,
--   applicability and guidance, Evidence the evidence and provenance, Verifiers the verifier,
--   Contracts the proposals, the experience and the application, Semantic the decisions and results
--   of a compilation, Tracking the measurements, transitions, evaluations and lifecycle tokens,
--   Candidates the candidates. `X.Validate` is `validate_x`, in the order of the source's tests.
-- - Experience/Lifecycle: internal/experience/lifecycle.go and `ValidLifecycleTransition`; its child
--   Transitions is about sequences of moves.
-- - Experience/PathMatch: internal/experience/pathmatch.go with `path.Match`; its child Relation gives
--   the meaning of a pattern.
-- - Experience/Conflict and its children: internal/experience/conflict.go. Preflight holds the loop
--   over the active experiences, which threads the maps of the source as lists in a record `Scan`;
--   Scopes, Verdicts, Preflight/Gathering, Preflight/Outcome and Preflight/Cap hold the proofs.
-- - Experience/Normalize: the normal forms of internal/experience/hash.go.
-- - Experience/Approval: internal/experience/approval.go, with the token in Token; the children
--   Narrowing and Token/Accepted hold the proofs.
-- - Evaluate/Types: internal/experience/evaluate/types.go. Evaluate/Matching, States, Applicability,
--   Commands, Verdicts, Finish, FactChecks, Inputs and Evaluator: internal/experience/evaluate/
--   evaluate.go, in parts. The result builder of the source is a record that each function takes and
--   returns; an evaluator returns its state beside it. Their children hold the proofs.
-- - Canonical/Event: internal/canonical/model/event.go, the records of an event.
-- - Detection and its children: internal/detection. Types is types.go; Events and Prepare are prepare.go;
--   Coalesce and Merge are coalesce.go; Attempts and Pairing are attempts.go; ToolIdentity, Absence,
--   Reports and Detectors are detectors.go; Validation, Registry and Catalog are catalog.go. Try holds
--   the errors and the context: each loop that asks whether the context is done asks a function of the loop and
--   the index, so that it may be done at any moment. Groups has Go's maps as association lists,
--   Durations the 64-bit arithmetic of `time.Duration`, Decimal the printing of numbers. What the
--   clock and the scheduler decide while a detector runs is a parameter `Timing` for each slot. Their
--   children hold the proofs.
-- - Examples and its children: the properties at concrete inputs.
--
-- A time is a number of nanoseconds, zero for Go's zero time. An integer is the integer that it holds:
-- the code only compares turn indices and subtracts two that validation keeps between 0 and the last
-- turn, so 64 bits do not overflow. Text is a list of code points; lengths in bytes are counted as in
-- UTF-8. Loops are structural recursion, but for the digits of a number, where n + 1 rounds are enough
-- for n; the path matcher recurses on the two lists of segments, and within a segment on code points,
-- where Go tries a star at each byte. `strings.ToLower` leaves capitals beyond ASCII as they are.
--
-- Not modelled: the digests of hash.go and JSON encoding, which are parameters (`Digests`, `Marshal`,
-- and the encoding of a condition); and the rest of the engine: transcript issues, trajectory,
-- candidate compiler, impact, mission packs, storage, servers and commands.
mod Prelude
pub mod Experience
pub mod Evaluate
pub mod Canonical
pub mod Detection
pub mod Examples
