-- ===== src/Detection/Pairing.antt =====
-- internal/detection/attempts.go: the loop of `commandAttempts`.
pub mod Evidence
pub mod Outcomes
pub mod Induction
use belay_engine.Prelude.{
  ℕ, zero, suc, Text, text, Bool, ◌&&◌, ◌||◌, not, List, [], ◌∷◌, ◌++◌, Option, some, none, ltb,
  ◌==◌, ◌!=◌, if◌then◌else◌, length, ◌+◌, nat_beq, get_elem?, ◌-◌, nat_eq, list_eq,
}
use belay_engine.Detection.Try.{Try, ◌>>◌, Poll, Context, context_check, ok, ◌>>=◌}
use belay_engine.Detection.Groups.{lookup, delete}
use belay_engine.Detection.Events.{PreparedEvent, PreparedSession, event_type, event_tool_call_id}
use belay_engine.Detection.Attempts.{
  CommandAttemptTrust, CommandAttempt, ToolCallMultiplicity, Multiplicity, counts_of,
  command_tool_call_multiplicity, result_matches_attempt_identity, adjacent_exec,
  adjacent_exec_without_id, new_attempt, merge_attempt,
}

-- `attempts`, and the map `pending` from tool calls to indices of it.
pub record Pairing : Type 0 where
  pub attempts : List CommandAttempt
  pub pending : List (Text × ℕ)

-- `f(&attempts[index])`
unfoldable pub modify :
    ℕ → (CommandAttempt → CommandAttempt) → List CommandAttempt → List CommandAttempt
modify index f [] = []
modify zero f (attempt ∷ attempts) = f attempt ∷ attempts
modify (suc index) f (attempt ∷ attempts) = attempt ∷ modify index f attempts

abbrev pub unique_call : ToolCallMultiplicity → Bool
unique_call counts = nat_beq counts.execs 1 && nat_beq counts.results 1

abbrev pub target_if :
    (CommandAttempt → Bool)
    → CommandAttemptTrust
    → ℕ
    → Option CommandAttempt
    → Option (ℕ × CommandAttemptTrust)
target_if test trust index none = none
target_if test trust index (some attempt) = if test attempt then some (index, trust) else none

-- The attempt of the only execution with the result's tool call.
unfoldable pub pending_target :
    Multiplicity → Pairing → Text → PreparedEvent → Option (ℕ × CommandAttemptTrust)
unfolding counts_of lookup result_matches_attempt_identity
pending_target m st call item =
    if unique_call (counts_of call m)
    then elim (lookup call st.pending) [
      | none ↦ none
      | some index ↦
          target_if (result_matches_attempt_identity item) CommandAttemptTrust.tool_call_pair index
            (get_elem? st.attempts index)
    ]
    else none

-- The last attempt, if it ends with the execution directly before the result.
unfoldable pub adjacent_target :
    Option PreparedEvent → Pairing → ℕ → PreparedEvent → Option (ℕ × CommandAttemptTrust)
unfolding adjacent_exec result_matches_attempt_identity
adjacent_target previous st position item =
    let index = length st.attempts - 1 in
    target_if
      (λ candidate.
        adjacent_exec_without_id previous item
        && candidate.last_pos + 1 == position
        && result_matches_attempt_identity item candidate)
      CommandAttemptTrust.adjacent_pair index (get_elem? st.attempts index)

-- The attempt that a result is merged into.
unfoldable pub merge_target :
    Multiplicity
    → Option PreparedEvent
    → Pairing
    → ℕ
    → PreparedEvent
    → Option (ℕ × CommandAttemptTrust)
unfolding pending_target adjacent_target event_tool_call_id
merge_target m previous st position item =
    let call = event_tool_call_id item.event in
    if event_type item != text "command.result"
    then none
    else if call != []
    then pending_target m st call item
    else adjacent_target previous st position item

-- A result is not counted as a repetition where an execution may belong to it.
unfoldable pub eligible : Multiplicity → Option PreparedEvent → PreparedEvent → Bool
unfolding counts_of event_tool_call_id adjacent_exec
eligible m previous item =
    let call = event_tool_call_id item.event in
    not (
      event_type item == text "command.result"
      && (call != [] && ltb 0 (counts_of call m).execs || adjacent_exec_without_id previous item))

-- `attempts = append(attempts, newAttempt(…))` with the tests behind it.
unfoldable pub append_attempt :
    Multiplicity → Option PreparedEvent → ℕ → PreparedEvent → Pairing → Pairing
unfolding eligible new_attempt
append_attempt m previous position item st =
    let call = event_tool_call_id item.event in
    let index = length st.attempts in
    record st {
      attempts =
          st.attempts
          ++ record (new_attempt item position) { repetition_eligible = eligible m previous item }
            ∷ [];
      pending =
          if event_type item == text "command.exec" && call != [] && unique_call (counts_of call m)
          then (call, index) ∷ st.pending
          else st.pending;
    }

abbrev pub is_command : PreparedEvent → Bool
is_command item = event_type item == text "command.exec" || event_type item == text "command.result"

-- `mergeAttempt` at the target, and for a tool call `delete(pending, toolCallID)`.
unfoldable pub merge_at : PreparedEvent → ℕ → Pairing → ℕ → CommandAttemptTrust → Pairing
unfolding modify merge_attempt delete event_tool_call_id
merge_at item position st index trust =
    let call = event_tool_call_id item.event in
    record st {
      attempts = modify index (merge_attempt item position trust) st.attempts;
      pending = if call == [] then st.pending else delete call st.pending;
    }

-- One round of the loop.
unfoldable pub pair_step :
    Multiplicity → Option PreparedEvent → ℕ → PreparedEvent → Pairing → Pairing
unfolding merge_target merge_at append_attempt
pair_step m previous position item st =
    if not (is_command item) then st else elim (merge_target m previous st position item) [
      | some (index, trust) ↦ merge_at item position st index trust
      | none ↦
          if item.enrichment.command_signature_id == []
          then st
          else append_attempt m previous position item st
    ]

unfoldable pub pair_events :
    Context → Multiplicity → Option PreparedEvent → ℕ → List PreparedEvent → Pairing → Try Pairing
unfolding pair_step context_check
pair_events ctx m previous position [] st = ok st
pair_events ctx m previous position (item ∷ items) st =
    context_check ctx Poll.attempting position
    >> pair_events ctx m (some item) (suc position) items (pair_step m previous position item st)

unfoldable pub command_attempts : Context → PreparedSession → Try (List CommandAttempt)
unfolding command_tool_call_multiplicity pair_events
command_attempts ctx session = do
  m ← command_tool_call_multiplicity ctx 0 [] session.events
  paired ← pair_events ctx m none 0 session.events (record { attempts = []; pending = [] })
  ok paired.attempts
