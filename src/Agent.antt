-- ===== src/Agent.antt =====
-- domain/execution/services/agent_runtime/: the runs of agents. This file is types.py and
-- tool_grant.py; identifiers are the texts of their UUIDs.
pub mod Dispatcher
pub mod Loop
pub mod Grants
pub mod Service
pub mod Effects
mod Examples
use agent_orchestration_core.Common.{
  ℕ, String, Bool, true, false, not, ◌&&◌, ◌||◌, Option, none, some, List, [], ◌∷◌, has, str_eq,
  domain, Result, ok, err, ◌>>=◌, if◌then◌else◌,
}
use agent_orchestration_core.Value.{Value, Fields}

-- `AgentToolBinding`
pub record ToolBinding : Type 0 where
  pub function_name : String
  pub tool_config_id : String
  pub request_schema : Value

-- `AgentDefinition`, the part that the grant reads
pub record AgentDefinition : Type 0 where
  pub agent_id : String
  pub tools : List ToolBinding

-- `AgentRunToolGrant`: what the caller asks for
pub record RequestedGrant : Type 0 where
  pub allowed_tool_names : Option (List String)
  pub allow_agent_delegation : Bool
  pub delegate_agent_ids : List String

pub record ResolvedToolGrant : Type 0 where
  pub tools : List ToolBinding
  pub allow_agent_delegation : Bool
  pub delegate_agent_ids : List String

-- `binding_for`
unfoldable pub binding_in : List ToolBinding → String → Option ToolBinding
binding_in [] name = none
binding_in (b ∷ bs) name = if str_eq b.function_name name then some b else binding_in bs name

-- `available[name]`: of two tools with one name the dictionary keeps the later.
unfoldable pub available : List ToolBinding → String → Option ToolBinding
available [] name = none
available (b ∷ bs) name =
    let later = available bs name in
    elim later [ some c ↦ some c | none ↦ if str_eq b.function_name name then some b else none ]

-- `is_delegation_allowed_for`
abbrev pub is_delegation_allowed_for : ResolvedToolGrant → String → Bool
is_delegation_allowed_for grant agent_id =
    grant.allow_agent_delegation && has grant.delegate_agent_ids agent_id

-- `dict.fromkeys`: each name once, where it comes first
unfoldable pub from_keys : List String → List String → List String
unfolding has
from_keys seen [] = []
from_keys seen (x ∷ xs) =
    let rest = from_keys (x ∷ seen) xs in
    let again = from_keys seen xs in if has seen x then again else x ∷ rest

-- The tools of the names, or the error for a name that has none.
unfoldable pub granted : List ToolBinding → List String → Result (List ToolBinding)
unfolding available
granted tools [] = ok []
granted tools (name ∷ names) = elim (available tools name) [
  | none ↦ err (domain "tool_not_bound_to_agent_version")
  | some b ↦ (granted tools names >>= λ bs. ok (b ∷ bs))
]

-- The agents to delegate to: not the agent itself, and known in the tenant. `tenant_of` reads the
-- repository of agents.
unfoldable pub delegates :
    (String → Option String) → String → String → List String → Result (List String)
delegates tenant_of tenant agent_id [] = ok []
delegates tenant_of tenant agent_id (d ∷ ds) =
    if str_eq d agent_id
    then err (domain "agent_cannot_delegate_to_itself")
    else elim (tenant_of d) [
      | none ↦ err (domain "delegate_agent_not_found")
      | some t ↦
          let rest = delegates tenant_of tenant agent_id ds in
          if str_eq t tenant
          then (rest >>= λ more. ok (d ∷ more))
          else err (domain "delegate_agent_not_found")
    ]

requested_tools : List ToolBinding → Option (List String) → Result (List ToolBinding)
unfolding granted from_keys
requested_tools tools none = ok tools
requested_tools tools (some names) = granted tools (from_keys [] names)

requested_delegates :
    (String → Option String) → String → String → RequestedGrant → Result (List String)
unfolding delegates from_keys
requested_delegates tenant_of tenant agent_id requested =
    if requested.allow_agent_delegation
    then delegates tenant_of tenant agent_id (from_keys [] requested.delegate_agent_ids)
    else ok []

-- `ToolGrantResolver.resolve`
unfoldable pub resolve_grant :
    (String → Option String) → String → AgentDefinition → RequestedGrant → Result ResolvedToolGrant
unfolding requested_tools requested_delegates
resolve_grant tenant_of tenant definition requested = do
  tools ← requested_tools definition.tools requested.allowed_tool_names
  agents ← requested_delegates tenant_of tenant definition.agent_id requested
  ok (record {
    tools = tools;
    allow_agent_delegation = requested.allow_agent_delegation;
    delegate_agent_ids = agents;
  })

-- `AgentToolCallStatus`
pub data CallStatus : Type 0 where
  success denied invalid_arguments error : CallStatus

-- `ToolCallOutcome`, without the outputs that only the transcript shows
pub record ToolCallOutcome : Type 0 where
  pub tool_call_id : String
  pub function_name : String
  pub status : CallStatus
  pub result_text : String
  pub tool_run_id : Option ℕ
  pub a2a_task_id : Option ℕ

-- `AgentRunScope`, the part that the dispatcher reads
pub record AgentRunScope : Type 0 where
  pub delegation_depth : ℕ
