-- ===== src/Lifecycle.antt =====
-- domain/execution/services/state_machine.py: the statuses of runs, and the changes that the two
-- state machines accept.
pub mod Sweep
pub mod Histories
pub mod Canonical
mod Examples
use Prim.{Unit, tt}
use agent_orchestration_core.Common.{
  String, Bool, true, false, has, Option, none, some, List, [], ◌∷◌, map, Dict, get, raised, Result,
  ok, err, if◌then◌else◌,
}
use agent_orchestration_core.Runtime.Types.{RunStatus, FlowRunStatus, NodeRunStatus}

pub data AgentRunStatus : Type 0 where
  created running completed failed cancelled : AgentRunStatus

pub data ToolRunStatus : Type 0 where
  created executing success error timeout : ToolRunStatus

-- The values of the `StrEnum`s, by which Python compares their members.
abbrev pub run_value : RunStatus → String
run_value RunStatus.created = "CREATED"
run_value RunStatus.queued = "QUEUED"
run_value RunStatus.running = "RUNNING"
run_value RunStatus.waiting_input = "WAITING_INPUT"
run_value RunStatus.completed = "COMPLETED"
run_value RunStatus.failed = "FAILED"
run_value RunStatus.cancelled = "CANCELLED"

abbrev pub flow_value : FlowRunStatus → String
flow_value FlowRunStatus.created = "CREATED"
flow_value FlowRunStatus.running = "RUNNING"
flow_value FlowRunStatus.waiting = "WAITING"
flow_value FlowRunStatus.completed = "COMPLETED"
flow_value FlowRunStatus.failed = "FAILED"
flow_value FlowRunStatus.escalated = "ESCALATED"

abbrev pub node_value : NodeRunStatus → String
node_value NodeRunStatus.pending = "PENDING"
node_value NodeRunStatus.running = "RUNNING"
node_value NodeRunStatus.skipped = "SKIPPED"
node_value NodeRunStatus.completed = "COMPLETED"
node_value NodeRunStatus.failed = "FAILED"

abbrev pub agent_value : AgentRunStatus → String
agent_value AgentRunStatus.created = "CREATED"
agent_value AgentRunStatus.running = "RUNNING"
agent_value AgentRunStatus.completed = "COMPLETED"
agent_value AgentRunStatus.failed = "FAILED"
agent_value AgentRunStatus.cancelled = "CANCELLED"

abbrev pub tool_value : ToolRunStatus → String
tool_value ToolRunStatus.created = "CREATED"
tool_value ToolRunStatus.executing = "EXECUTING"
tool_value ToolRunStatus.success = "SUCCESS"
tool_value ToolRunStatus.error = "ERROR"
tool_value ToolRunStatus.timeout = "TIMEOUT"

-- A change that is not listed raises `InvalidTransitionException`.
unfoldable pub accept_listed : List String → String → Result {0} Unit
unfolding has
accept_listed allowed target =
    if has allowed target then ok tt else err (raised "InvalidTransitionException")

-- `ALLOWED_TRANSITIONS`
abbrev pub allowed_transitions : Dict (List String)
allowed_transitions =
    ("CREATED", "QUEUED" ∷ "CANCELLED" ∷ "FAILED" ∷ [])
    ∷ ("QUEUED", "RUNNING" ∷ "CANCELLED" ∷ "FAILED" ∷ [])
    ∷ ("RUNNING", "WAITING_INPUT" ∷ "COMPLETED" ∷ "FAILED" ∷ "CANCELLED" ∷ [])
    ∷ ("WAITING_INPUT", "RUNNING" ∷ "CANCELLED" ∷ "FAILED" ∷ [])
    ∷ ("COMPLETED", [])
    ∷ ("FAILED", [])
    ∷ ("CANCELLED", [])
    ∷ []

or_empty : Option (List String) → List String
or_empty none = []
or_empty (some allowed) = allowed

-- `ExecutionStateMachine.validate_transition`
unfoldable pub validate_transition : String → String → Result {0} Unit
unfolding accept_listed or_empty get
validate_transition current target =
    accept_listed (or_empty (get allowed_transitions current)) target

abbrev pub flow_transitions : FlowRunStatus → List FlowRunStatus
flow_transitions FlowRunStatus.created = FlowRunStatus.running ∷ FlowRunStatus.failed ∷ []
flow_transitions FlowRunStatus.running =
    FlowRunStatus.waiting ∷ FlowRunStatus.completed ∷ FlowRunStatus.failed ∷ FlowRunStatus.escalated
    ∷ []
flow_transitions FlowRunStatus.waiting =
    FlowRunStatus.running ∷ FlowRunStatus.failed ∷ FlowRunStatus.escalated ∷ []
flow_transitions _ = []

abbrev pub node_transitions : NodeRunStatus → List NodeRunStatus
node_transitions NodeRunStatus.pending = NodeRunStatus.running ∷ NodeRunStatus.skipped ∷ []
node_transitions NodeRunStatus.running = NodeRunStatus.completed ∷ NodeRunStatus.failed ∷ []
node_transitions _ = []

abbrev pub agent_transitions : AgentRunStatus → List AgentRunStatus
agent_transitions AgentRunStatus.created =
    AgentRunStatus.running ∷ AgentRunStatus.failed ∷ AgentRunStatus.cancelled ∷ []
agent_transitions AgentRunStatus.running =
    AgentRunStatus.completed ∷ AgentRunStatus.failed ∷ AgentRunStatus.cancelled ∷ []
agent_transitions _ = []

abbrev pub tool_transitions : ToolRunStatus → List ToolRunStatus
tool_transitions ToolRunStatus.created =
    ToolRunStatus.executing ∷ ToolRunStatus.error ∷ ToolRunStatus.timeout ∷ []
tool_transitions ToolRunStatus.executing =
    ToolRunStatus.success ∷ ToolRunStatus.error ∷ ToolRunStatus.timeout ∷ []
tool_transitions _ = []

-- `RunLifecycleStateMachine.validate_flow` and the others
unfoldable pub validate_flow : FlowRunStatus → FlowRunStatus → Result {0} Unit
unfolding accept_listed
validate_flow current target =
    accept_listed (map flow_value (flow_transitions current)) (flow_value target)

unfoldable pub validate_node : NodeRunStatus → NodeRunStatus → Result {0} Unit
unfolding accept_listed
validate_node current target =
    accept_listed (map node_value (node_transitions current)) (node_value target)

unfoldable pub validate_agent : AgentRunStatus → AgentRunStatus → Result {0} Unit
unfolding accept_listed
validate_agent current target =
    accept_listed (map agent_value (agent_transitions current)) (agent_value target)

unfoldable pub validate_tool : ToolRunStatus → ToolRunStatus → Result {0} Unit
unfolding accept_listed
validate_tool current target =
    accept_listed (map tool_value (tool_transitions current)) (tool_value target)

abbrev pub accepted : Result {0} Unit → Bool
accepted (ok u) = true
accepted (err e) = false
