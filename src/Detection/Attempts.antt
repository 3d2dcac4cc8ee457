-- ===== src/Detection/Attempts.antt =====
-- internal/detection/attempts.go: the attempts of commands, each an execution with its result.
use belay_engine.Prelude.{
  ℕ, suc, Text, text, Bool, true, false, ◌&&◌, ◌||◌, List, [], ◌∷◌, ◌++◌, Option, some, none, ◌==◌,
  ◌!=◌, ℤ, pos, contains, if◌then◌else◌, ◌+◌, trim_space, to_lower, Eq, ◌≡◌, ◌↔◌, arith, ◌*◌,
  nat_eq, list_eq, int_eq,
}
use belay_engine.Detection.Try.{Try, ◌>>◌, Poll, Context, context_check, ok}
use belay_engine.Detection.Groups.{lookup}
use belay_engine.Detection.Durations.{second, within}
use belay_engine.Detection.Events.{PreparedEvent, event_type, event_tool_call_id, earlier, later}
use belay_engine.Experience.Model.{Time}

abbrev adjacent_pair_window : ℕ
adjacent_pair_window = 5 * second

pub data ExplicitOutcome : Type 0 where
  unknown succeeded failed : ExplicitOutcome

abbrev pub outcome_beq : ExplicitOutcome → ExplicitOutcome → Bool
outcome_beq ExplicitOutcome.unknown ExplicitOutcome.unknown = true
outcome_beq ExplicitOutcome.succeeded ExplicitOutcome.succeeded = true
outcome_beq ExplicitOutcome.failed ExplicitOutcome.failed = true
outcome_beq _ _ = false

pub outcome_beq_iff : (a b : ExplicitOutcome) → (outcome_beq a b ≡ true) ↔ (a ≡ b)
outcome_beq_iff a b = (λ h. ground arith, λ h. ground arith)

instance abbrev pub outcome_eq : Eq ExplicitOutcome
outcome_eq = record { beq = outcome_beq; beq_iff = outcome_beq_iff }

pub data CommandAttemptTrust : Type 0 where
  unpaired_result exec_observation adjacent_pair tool_call_pair : CommandAttemptTrust

-- `paired`, and `trustworthyPair`, which calls it.
abbrev pub is_paired : CommandAttemptTrust → Bool
is_paired CommandAttemptTrust.adjacent_pair = true
is_paired CommandAttemptTrust.tool_call_pair = true
is_paired _ = false

abbrev pub failure_confidence : CommandAttemptTrust → Text
failure_confidence CommandAttemptTrust.unpaired_result = text "low"
failure_confidence _ = text "high"

pub record CommandAttempt : Type 0 where
  pub signature : Text
  pub class : Text
  pub events : List PreparedEvent
  pub first : Time
  pub last : Time
  pub first_pos : ℕ
  pub last_pos : ℕ
  pub outcome : ExplicitOutcome
  pub conflict : Bool
  pub trust : CommandAttemptTrust
  pub repetition_eligible : Bool
  pub class_conflict : Bool

abbrev pub from_code : Option ℤ → ExplicitOutcome
from_code none = ExplicitOutcome.unknown
from_code (some code) = if code == pos 0 then ExplicitOutcome.succeeded else ExplicitOutcome.failed

abbrev pub from_value : Text → ExplicitOutcome
unfolding to_lower trim_space
from_value value =
    let word = to_lower (trim_space value) in
    if word == text "succeeded"
    then ExplicitOutcome.succeeded
    else if word == text "failed"
    then ExplicitOutcome.failed
    else ExplicitOutcome.unknown

-- What `explicitEventOutcomeDetails` makes of the outcomes by exit code and by value.
abbrev pub combine : ExplicitOutcome → ExplicitOutcome → ExplicitOutcome × Bool
combine ExplicitOutcome.unknown value = (value, false)
combine ExplicitOutcome.succeeded ExplicitOutcome.failed = (ExplicitOutcome.unknown, true)
combine ExplicitOutcome.succeeded _ = (ExplicitOutcome.succeeded, false)
combine ExplicitOutcome.failed ExplicitOutcome.succeeded = (ExplicitOutcome.unknown, true)
combine ExplicitOutcome.failed _ = (ExplicitOutcome.failed, false)

unfoldable pub explicit_event_outcome_details : Option ℤ → Text → ExplicitOutcome × Bool
explicit_event_outcome_details exit_code value = combine (from_code exit_code) (from_value value)

abbrev pub event_outcome : PreparedEvent → ExplicitOutcome × Bool
event_outcome item =
    explicit_event_outcome_details item.event.observation.exit_code item.event.observation.outcome

unfoldable pub normalized_command_class : Text → Text
unfolding to_lower trim_space
normalized_command_class value =
    let word = to_lower (trim_space value) in
    if contains
      (text "test"
        ∷ text "build"
        ∷ text "typecheck"
        ∷ text "lint"
        ∷ text "format_check"
        ∷ text "other"
        ∷ [])
      word
    then word
    else text "unknown"

pub record ToolCallMultiplicity : Type 0 where
  pub execs : ℕ
  pub results : ℕ

abbrev pub Multiplicity : Type 0
Multiplicity = List (Text × ToolCallMultiplicity)

abbrev pub no_calls : ToolCallMultiplicity
no_calls = record { execs = 0; results = 0 }

-- `multiplicity[toolCallID]`
unfoldable pub counts_of : Text → Multiplicity → ToolCallMultiplicity
unfolding lookup
counts_of id m = elim (lookup id m) [ none ↦ no_calls | some counts ↦ counts ]

unfoldable pub count_one : Multiplicity → PreparedEvent → Multiplicity
unfolding event_tool_call_id counts_of
count_one m item =
    let id = event_tool_call_id item.event in
    let counts = counts_of id m in
    if id == []
    then m
    else if event_type item == text "command.exec"
    then (id, record counts { execs = counts.execs + 1 }) ∷ m
    else if event_type item == text "command.result"
    then (id, record counts { results = counts.results + 1 }) ∷ m
    else m

unfoldable pub command_tool_call_multiplicity :
    Context → ℕ → Multiplicity → List PreparedEvent → Try Multiplicity
unfolding count_one context_check
command_tool_call_multiplicity ctx index m [] = ok m
command_tool_call_multiplicity ctx index m (item ∷ items) =
    context_check ctx Poll.counting index
    >> command_tool_call_multiplicity ctx (suc index) (count_one m item) items

unfoldable pub result_matches_attempt_identity : PreparedEvent → CommandAttempt → Bool
result_matches_attempt_identity item attempt =
    let result_signature = item.enrichment.command_signature_id in
    attempt.signature != [] && (result_signature == [] || result_signature == attempt.signature)

-- An execution without an identifier, close to the item.
unfoldable pub adjacent_exec : PreparedEvent → PreparedEvent → Bool
unfolding event_tool_call_id within
adjacent_exec previous item =
    event_type previous == text "command.exec"
    && event_tool_call_id previous.event == []
    && within adjacent_pair_window item.event.occurred_at previous.event.occurred_at

abbrev pub adjacent_exec_without_id : Option PreparedEvent → PreparedEvent → Bool
adjacent_exec_without_id none item = false
adjacent_exec_without_id (some previous) item = adjacent_exec previous item

unfoldable pub new_attempt : PreparedEvent → ℕ → CommandAttempt
unfolding explicit_event_outcome_details normalized_command_class
new_attempt item position = record {
  signature = item.enrichment.command_signature_id;
  class = normalized_command_class item.enrichment.command_class;
  events = item ∷ [];
  first = item.event.occurred_at;
  last = item.event.occurred_at;
  first_pos = position;
  last_pos = position;
  outcome = (event_outcome item).0;
  conflict = (event_outcome item).1;
  trust =
      if event_type item == text "command.exec"
      then CommandAttemptTrust.exec_observation
      else CommandAttemptTrust.unpaired_result;
  repetition_eligible = true;
  class_conflict = false;
}

-- The outcome and the conflict of an attempt after an event with the given ones.
abbrev pub merge_outcome : ExplicitOutcome × Bool → ExplicitOutcome × Bool → ExplicitOutcome × Bool
merge_outcome (was, conflicted) (outcome, conflict) =
    if conflict
    then (ExplicitOutcome.unknown, true)
    else if outcome == ExplicitOutcome.unknown
    then (was, conflicted)
    else if conflicted
    then (ExplicitOutcome.unknown, true)
    else if was == ExplicitOutcome.unknown
    then (outcome, conflicted)
    else if was != outcome
    then (ExplicitOutcome.unknown, true)
    else (was, conflicted)

-- The class and its conflict after an event of the given class.
abbrev pub merge_class : Text × Bool → Text → Text × Bool
merge_class (class, conflict) incoming =
    if conflict
    then (text "unknown", true)
    else if class == text "unknown"
    then (incoming, false)
    else if incoming != text "unknown" && incoming != class
    then (text "unknown", true)
    else (class, false)

unfoldable pub merge_attempt :
    PreparedEvent → ℕ → CommandAttemptTrust → CommandAttempt → CommandAttempt
unfolding explicit_event_outcome_details normalized_command_class
merge_attempt item position trust attempt =
    let outcome = merge_outcome (attempt.outcome, attempt.conflict) (event_outcome item) in
    let class =
      if item.enrichment.command_signature_id == []
      then (attempt.class, attempt.class_conflict)
      else merge_class (attempt.class, attempt.class_conflict)
          (normalized_command_class item.enrichment.command_class) in
    record attempt {
      events = attempt.events ++ item ∷ [];
      first = earlier attempt.first item.event.occurred_at;
      last = later attempt.last item.event.occurred_at;
      last_pos = position;
      trust = trust;
      outcome = outcome.0;
      conflict = outcome.1;
      class = class.0;
      class_conflict = class.1;
    }
