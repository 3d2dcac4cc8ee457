-- ===== src/Evaluate/Types.antt =====
-- internal/experience/evaluate/types.go, and the result builder of evaluate.go.
use native.Mathlib.Decide.{ℕ_discrete}
use belay_engine.Prelude.{
  Text, Bool, true, false, List, [], ◌∷◌, ◌++◌, Option, some, none, ℤ, Eq, eq_of_discrete, map,
}
use belay_engine.Experience.Enums.{
  Harness, DeterministicConditionKind, OpportunityState, ApplicabilityState, VerifierState,
  TaskOutcomeState,
}
use belay_engine.Experience.Verifier.{CoverageRequirement}
use belay_engine.Experience.Model.{Time, EvidenceRef, Experience, Application}

pub data Component : Type 0 where
  opportunity applicability verifier task_outcome : Component

unfoldable pub Component-discrete : Discrete Component
Component-discrete = hlevel

instance abbrev pub component_eq : Eq Component
component_eq = eq_of_discrete Component-discrete

pub data GapCode : Type 0 where
  coverage_missing coverage_not_declared facts_incomplete ambiguous_match : GapCode
  unsupported_match no_opportunity_observation no_applicable_observation : GapCode
  semantic_exclusion no_edit_observed no_task_outcome_observation : GapCode
  observation_only evidence_truncated : GapCode

pub record Gap : Type 0 where
  pub component : Component
  pub code : GapCode
  pub coverage : Option CoverageRequirement
  pub condition_kind : Option DeterministicConditionKind

-- A gap with no further detail; with the coverage that it lacks; with a condition's kind.
abbrev pub gap : Component → GapCode → Gap
gap component code = record {
  component = component;
  code = code;
  coverage = none;
  condition_kind = none;
}

abbrev pub coverage_gap : Component → GapCode → CoverageRequirement → Gap
coverage_gap component code requirement = record {
  component = component;
  code = code;
  coverage = some requirement;
  condition_kind = none;
}

abbrev pub condition_gap : Component → GapCode → DeterministicConditionKind → Gap
condition_gap component code kind = record {
  component = component;
  code = code;
  coverage = none;
  condition_kind = some kind;
}

pub record CoverageEvidence : Type 0 where
  pub requirement : CoverageRequirement
  pub evidence : List EvidenceRef

pub record Coverage : Type 0 where
  pub transcript_complete : Bool
  pub canonical_events_complete : Bool
  pub workspace_state_captured : Bool
  pub outcome_observations_complete : Bool
  pub evidence : List CoverageEvidence

-- `Coverage.Complete`
abbrev pub complete : Coverage → CoverageRequirement → Bool
complete c CoverageRequirement.transcript_complete = c.transcript_complete
complete c CoverageRequirement.canonical_complete = c.canonical_events_complete
complete c CoverageRequirement.workspace_captured = c.workspace_state_captured
complete c CoverageRequirement.outcomes_complete = c.outcome_observations_complete
complete c (CoverageRequirement.other _) = false

pub record CoverageStatus : Type 0 where
  pub requirement : CoverageRequirement
  pub complete : Bool

pub record Context : Type 0 where
  pub project_identity : Text
  pub session_key : Text
  pub harness : Harness
  pub model : Text
  pub task_families : List Text
  pub repository_paths : List Text
  pub complete_condition_kinds : List DeterministicConditionKind
  pub last_turn_index : Option ℤ
  pub as_of : Time
  pub evidence : List EvidenceRef

pub record NormalizedVerifier : Type 0 where
  pub declared_command : Text
  pub command_signature : Text
  pub command_scrubbing_version : Text

pub data FactResult : Type 0 where
  unknown succeeded failed : FactResult
  other : Text → FactResult

unfoldable pub FactResult-discrete : Discrete FactResult
FactResult-discrete = hlevel ℕ_discrete

instance abbrev pub fact_result_eq : Eq FactResult
fact_result_eq = eq_of_discrete FactResult-discrete

abbrev pub fact_result_valid : FactResult → Bool
fact_result_valid (FactResult.other _) = false
fact_result_valid _ = true

pub record FactMeta : Type 0 where
  pub order : ℤ
  pub ambiguous : Bool
  pub evidence : List EvidenceRef

pub record OpportunityFact : Type 0 where
  pub meta : FactMeta
  pub state : OpportunityState

pub record ConditionFact : Type 0 where
  pub meta : FactMeta
  pub kind : DeterministicConditionKind
  pub values : List Text

pub record CommandFact : Type 0 where
  pub meta : FactMeta
  pub signature : Text
  pub class : Text
  pub result : FactResult

pub record FileChangeFact : Type 0 where
  pub meta : FactMeta
  pub path : Text

pub record VerificationFact : Type 0 where
  pub meta : FactMeta
  pub command_class : Text
  pub result : FactResult

pub record FailureFact : Type 0 where
  pub meta : FactMeta
  pub command_class : Text
  pub normalized_pattern : Text

pub record CorrectionFact : Type 0 where
  pub meta : FactMeta
  pub marker_family : Text

pub record TaskOutcomeFact : Type 0 where
  pub meta : FactMeta
  pub state : TaskOutcomeState

pub record Facts : Type 0 where
  pub opportunities : List OpportunityFact
  pub conditions : List ConditionFact
  pub commands : List CommandFact
  pub file_changes : List FileChangeFact
  pub verifications : List VerificationFact
  pub failures : List FailureFact
  pub corrections : List CorrectionFact
  pub task_outcomes : List TaskOutcomeFact

pub record Input : Type 0 where
  pub application : Application
  pub experience : Experience
  pub context : Context
  pub coverage : Coverage
  pub normalized_verifier : NormalizedVerifier
  pub facts : Facts

pub record CitedEvidence : Type 0 where
  pub component : Component
  pub ref : EvidenceRef

-- The lists that the builder collects while the states are decided.
pub record Builder : Type 0 where
  pub gaps : List Gap
  pub evidence : List CitedEvidence

abbrev pub cite : Component → EvidenceRef → CitedEvidence
cite component ref = record { component = component; ref = ref }

-- `addGap` and `addEvidence`
abbrev pub add_gap : Gap → Builder → Builder
add_gap g b = record b { gaps = b.gaps ++ g ∷ [] }

abbrev pub add_evidence : Component → List EvidenceRef → Builder → Builder
add_evidence component refs b = record b { evidence = b.evidence ++ map (cite component) refs }

-- `Result`
pub record Outcome : Type 0 where
  pub derivation_version : Text
  pub opportunity_state : OpportunityState
  pub applicability_state : ApplicabilityState
  pub verifier_state : VerifierState
  pub task_outcome_state : TaskOutcomeState
  pub coverage : List CoverageStatus
  pub gaps : List Gap
  pub evidence : List CitedEvidence
