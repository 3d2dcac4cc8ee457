-- ===== src/Detection/Coalesce.antt =====
-- internal/detection/coalesce.go: the historical and the live record of one event become one.
use belay_engine.Prelude.{
  ℕ, String, Text, text, Bool, true, false, ◌&&◌, ◌||◌, not, List, [], ◌∷◌, ◌++◌, Option, some,
  none, ltb, ◌==◌, ◌!=◌, ℤ, pos, negsuc, contains, if◌then◌else◌, length, ◌+◌, trim_space, to_lower,
  Eq, nat_beq, ◌≡◌, ◌↔◌, arith, nat_eq, list_eq,
}
use belay_engine.Canonical.Event.{Resource, Event}
use belay_engine.Detection.Durations.{second, within}
use belay_engine.Detection.Events.{PreparedEvent, event_tool_call_id}
use belay_engine.Experience.Model.{Time}
use belay_engine.Detection.ToolIdentity.{safe_tool_identity}
use belay_engine.Detection.Decimal.{decimal}

abbrev coalesce_window : ℕ
coalesce_window = second

abbrev max_coalesce_group : ℕ
max_coalesce_group = 256

pub data SourceKind : Type 0 where
  historical live : SourceKind

abbrev pub source_beq : SourceKind → SourceKind → Bool
source_beq SourceKind.historical SourceKind.historical = true
source_beq SourceKind.live SourceKind.live = true
source_beq _ _ = false

pub source_beq_iff : (a b : SourceKind) → (source_beq a b ≡ true) ↔ (a ≡ b)
source_beq_iff a b = (λ h. ground arith, λ h. ground arith)

instance abbrev pub source_eq : Eq SourceKind
source_eq = record { beq = source_beq; beq_iff = source_beq_iff }

pub record CoalesceCandidate : Type 0 where
  pub index : ℕ
  pub source_kind : SourceKind
  pub tool_call_id : Text
  pub command_signature : Text
  pub at : Time

unfoldable pub coalesce_source : PreparedEvent → Option SourceKind
coalesce_source item =
    if item.event.source.kind == text "artifact"
    then some SourceKind.historical
    else if item.event.source.kind == text "hook"
    then some SourceKind.live
    else none

-- `strconv.Itoa`
unfoldable pub itoa : ℤ → Text
unfolding decimal
itoa (pos n) = decimal n
itoa (negsuc n) = b'-' ∷ decimal (n + 1)

unfoldable pub coalesce_exit_code : Event → Text
unfolding itoa
coalesce_exit_code item = elim item.observation.exit_code [
  | none ↦ text "exit:none"
  | some code ↦ text "exit:" ++ itoa code
]

-- `strings.Join(parts, "\x00")`
abbrev pub join_nul : List Text → Text
join_nul [] = []
join_nul (part ∷ []) = part
join_nul (part ∷ next ∷ parts) = part ++ 0 ∷ join_nul (next ∷ parts)

unfoldable pub identity_base : PreparedEvent → Text
unfolding coalesce_exit_code to_lower trim_space
identity_base item =
    let event = item.event in
    join_nul (
      event.session.key
      ∷ event.observation.type
      ∷ event.observation.actor
      ∷ to_lower (trim_space event.observation.outcome)
      ∷ coalesce_exit_code event
      ∷ [])

-- `base + "\x00" + label + "\x00" + key`, and no identity without a key.
abbrev pub labelled : Text → String → Text → Text
labelled base label key = if key == [] then [] else base ++ 0 ∷ text label ++ 0 ∷ key

abbrev pub resource_key : Text → Option Resource → Text
resource_key base none = []
resource_key base (some resource) =
    if resource.kind == [] || resource.name == []
    then []
    else base ++ 0 ∷ text "resource" ++ 0 ∷ resource.kind ++ 0 ∷ resource.name

unfoldable pub coalesce_identity : PreparedEvent → Text
unfolding safe_tool_identity event_tool_call_id identity_base
coalesce_identity item =
    let base = identity_base item in
    let type = item.event.observation.type in
    let call = event_tool_call_id item.event in
    if type == text "command.exec"
    then labelled base "command" item.enrichment.command_signature_id
    else if type == text "command.result"
    then if call != []
      then base ++ 0 ∷ text "command-result-tool-call" ++ 0 ∷ call
      else labelled base "command" item.enrichment.command_signature_id
    else if contains
        (text "permission.requested" ∷ text "permission.approved" ∷ text "permission.denied" ∷ [])
        type
    then labelled base "permission" item.enrichment.permission_class
    else if contains (text "file.read" ∷ text "file.write" ∷ text "file.delete" ∷ []) type
    then resource_key base item.event.observation.resource
    else if type == text "tool.result"
    then labelled base "tool-result" (safe_tool_identity item.event)
    else []

-- What `uniqueOppositeCandidates` does not skip.
unfoldable pub opposed : CoalesceCandidate → CoalesceCandidate → Bool
unfolding within
opposed candidate other =
    other.index != candidate.index
    && other.source_kind != candidate.source_kind
    && within coalesce_window other.at candidate.at
    && not (
        candidate.tool_call_id != []
        && other.tool_call_id != []
        && candidate.tool_call_id != other.tool_call_id)
    && not (
        candidate.command_signature != []
        && other.command_signature != []
        && candidate.command_signature != other.command_signature)

-- The loop of `uniqueOppositeCandidates`, which returns at the second one found.
unfoldable pub opposites_onto :
    CoalesceCandidate → List CoalesceCandidate → List CoalesceCandidate → List CoalesceCandidate
unfolding opposed
opposites_onto candidate result [] = result
opposites_onto candidate result (other ∷ rest) =
    let skip = opposites_onto candidate result rest in
    let next = opposites_onto candidate (result ++ other ∷ []) rest in
    if not (opposed candidate other)
    then skip
    else if ltb 1 (length (result ++ other ∷ []))
    then result ++ other ∷ []
    else next

unfoldable pub unique_opposite_candidates :
    CoalesceCandidate → List CoalesceCandidate → List CoalesceCandidate
unfolding opposites_onto
unique_opposite_candidates candidate candidates = opposites_onto candidate [] candidates

-- The map `paired`, the last write first.
abbrev pub Paired : Type 0
Paired = List (ℕ × ℕ)

abbrev pub partner : ℕ → Paired → Option ℕ
partner index [] = none
partner index ((i, j) ∷ rest) = if i == index then some j else partner index rest

-- One round of the loop over a group.
unfoldable pub pair_one : List CoalesceCandidate → Paired → CoalesceCandidate → Paired
unfolding unique_opposite_candidates
pair_one candidates paired candidate = elim (partner candidate.index paired) [
  | some _ ↦ paired
  | none ↦ elim (unique_opposite_candidates candidate candidates) [
    | opposite ∷ [] ↦
        if nat_beq (length (unique_opposite_candidates opposite candidates)) 1
        then (candidate.index, opposite.index) ∷ (opposite.index, candidate.index) ∷ paired
        else paired
    | _ ↦ paired
  ]
]

unfoldable pub pair_all : List CoalesceCandidate → Paired → List CoalesceCandidate → Paired
unfolding pair_one
pair_all candidates paired [] = paired
pair_all candidates paired (candidate ∷ rest) =
    pair_all candidates (pair_one candidates paired candidate) rest

-- The loop over the groups. They share no index, so that the order of the map does not matter.
unfoldable pub pair_groups : Paired → List (Text × List CoalesceCandidate) → Paired
unfolding pair_all
pair_groups paired [] = paired
pair_groups paired ((_, candidates) ∷ groups) =
    pair_groups
      (if ltb max_coalesce_group (length candidates)
        then paired
        else pair_all candidates paired candidates)
      groups
