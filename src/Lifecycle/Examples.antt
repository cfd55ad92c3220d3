-- ===== src/Lifecycle/Examples.antt =====
-- Runs of the state machines.
use Prim.{tt}
use agent_orchestration_core.Common.{◌≡◌, refl, ◌⊎◌, ok, ◌≤◌}
use agent_orchestration_core.Runtime.Types.{RunStatus, NodeRunStatus}
use agent_orchestration_core.Lifecycle.{
  AgentRunStatus, ToolRunStatus, flow_value, validate_flow, validate_transition, validate_node,
  validate_agent, validate_tool,
}
use agent_orchestration_core.Lifecycle.Histories.{unchanged, changed, History-bounds}
use agent_orchestration_core.Lifecycle.Canonical.{canonical, canonical-Simulates}

canonical-Simulates_example :
    (flow_value (canonical RunStatus.waiting_input) ≡ flow_value (canonical RunStatus.cancelled))
    ⊎ (validate_flow (canonical RunStatus.waiting_input) (canonical RunStatus.cancelled) ≡ ok tt)
unfolding validate_transition
canonical-Simulates_example = canonical-Simulates RunStatus.waiting_input RunStatus.cancelled refl

History-bounds_example : (2 ≤ 2) × ((1 ≤ 2) × (2 ≤ 2))
unfolding validate_node validate_agent validate_tool
History-bounds_example =
    History-bounds
      (changed NodeRunStatus.pending NodeRunStatus.running NodeRunStatus.failed _ refl (
        changed NodeRunStatus.running NodeRunStatus.failed NodeRunStatus.failed _ refl
          (unchanged NodeRunStatus.failed)))
      (changed AgentRunStatus.created AgentRunStatus.cancelled AgentRunStatus.cancelled _ refl
        (unchanged AgentRunStatus.cancelled))
      (changed ToolRunStatus.created ToolRunStatus.executing ToolRunStatus.success _ refl (
        changed ToolRunStatus.executing ToolRunStatus.success ToolRunStatus.success _ refl
          (unchanged ToolRunStatus.success)))
