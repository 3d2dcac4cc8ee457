-- ===== src/Detection/ToolIdentity.antt =====
-- The identities of tools of internal/detection/detectors.go.
use belay_engine.Prelude.{
  ℕ, Text, text, Bool, false, ◌&&◌, ◌||◌, List, [], ◌∷◌, ◌++◌, Option, some, none, leb, ◌==◌,
  contains, if◌then◌else◌, length, all, trim_space, to_lower, split, nat_eq, list_eq,
}
use belay_engine.Canonical.Event.{Resource, Details, Event}

-- `safeToolIdentityComponent.MatchString` for `^[a-z0-9][a-z0-9_.-]{0,63}$`
abbrev pub identity_start : ℕ → Bool
identity_start c = leb b'a' c && leb c b'z' || leb b'0' c && leb c b'9'

abbrev pub identity_character : ℕ → Bool
identity_character c = identity_start c || contains (b'_' ∷ b'.' ∷ b'-' ∷ []) c

abbrev pub safe_component : Text → Bool
safe_component [] = false
safe_component (c ∷ cs) = identity_start c && all identity_character cs && leb (length cs) 63

unfoldable pub normalize_tool_identity_component : Text → Text × Bool
unfolding to_lower trim_space
normalize_tool_identity_component value =
    let normalized = to_lower (trim_space value) in (normalized, safe_component normalized)

-- The identity of a server and a tool, if both are safe.
unfoldable pub mcp_identity : Text → Text → Option Text
unfolding normalize_tool_identity_component
mcp_identity server tool =
    let (s, server_ok) = normalize_tool_identity_component server in
    let (t, tool_ok) = normalize_tool_identity_component tool in
    if server_ok && tool_ok then some (text "mcp:" ++ s ++ text "/" ++ t) else none

abbrev pub two_parts : List Text → Option Text
unfolding mcp_identity
two_parts (server ∷ tool ∷ []) = mcp_identity server tool
two_parts _ = none

abbrev pub tool_name : Text × Bool → Text
tool_name (name, name_ok) = if name_ok then text "tool:" ++ name else []

abbrev pub resource_identity : Option Resource → Text
unfolding to_lower trim_space split
resource_identity none = []
resource_identity (some resource) =
    let kind = to_lower (trim_space resource.kind) in
    if kind == text "mcp"
    then elim (two_parts (split b'/' resource.name)) [ none ↦ [] | some identity ↦ identity ]
    else if kind == text "tool"
    then tool_name (normalize_tool_identity_component resource.name)
    else []

abbrev pub details_identity : Option Details → Option Text
details_identity none = none
details_identity (some details) = mcp_identity details.mcp_server details.mcp_tool

-- `safeToolIdentity` of internal/detection/detectors.go
unfoldable pub safe_tool_identity : Event → Text
safe_tool_identity event = elim (details_identity event.observation.details) [
  | some identity ↦ identity
  | none ↦ resource_identity event.observation.resource
]
