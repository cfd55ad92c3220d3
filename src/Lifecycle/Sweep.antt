-- ===== src/Lifecycle/Sweep.antt =====
-- state_machine.py: what a table decides for every status.
use Prim.{Unit, tt}
use agent_orchestration_core.Common.{◌≡◌, Bool, true, not, ◌&&◌, ◌||◌, Result, ok, arith}
use agent_orchestration_core.Runtime.Types.{RunStatus, NodeRunStatus}
use agent_orchestration_core.Lifecycle.{AgentRunStatus, ToolRunStatus, accepted}

pub implied :
    (r : Result {0} Unit) (b : Bool) → (not (accepted r) || b) ≡ true → r ≡ ok tt → b ≡ true
implied r b h e = ground arith

abbrev pub every_node : (NodeRunStatus → Bool) → Bool
every_node p =
    p NodeRunStatus.pending
    && (p NodeRunStatus.running
        && (p NodeRunStatus.skipped && (p NodeRunStatus.completed && p NodeRunStatus.failed)))

pub every_node-each :
    (p : NodeRunStatus → Bool) → every_node p ≡ true → (s : NodeRunStatus) → p s ≡ true
every_node-each p h NodeRunStatus.pending = ground arith
every_node-each p h NodeRunStatus.running = ground arith
every_node-each p h NodeRunStatus.skipped = ground arith
every_node-each p h NodeRunStatus.completed = ground arith
every_node-each p h NodeRunStatus.failed = ground arith

abbrev pub every_agent : (AgentRunStatus → Bool) → Bool
every_agent p =
    p AgentRunStatus.created
    && (p AgentRunStatus.running
        && (p AgentRunStatus.completed && (p AgentRunStatus.failed && p AgentRunStatus.cancelled)))

pub every_agent-each :
    (p : AgentRunStatus → Bool) → every_agent p ≡ true → (s : AgentRunStatus) → p s ≡ true
every_agent-each p h AgentRunStatus.created = ground arith
every_agent-each p h AgentRunStatus.running = ground arith
every_agent-each p h AgentRunStatus.completed = ground arith
every_agent-each p h AgentRunStatus.failed = ground arith
every_agent-each p h AgentRunStatus.cancelled = ground arith

abbrev pub every_tool : (ToolRunStatus → Bool) → Bool
every_tool p =
    p ToolRunStatus.created
    && (p ToolRunStatus.executing
        && (p ToolRunStatus.success && (p ToolRunStatus.error && p ToolRunStatus.timeout)))

pub every_tool-each :
    (p : ToolRunStatus → Bool) → every_tool p ≡ true → (s : ToolRunStatus) → p s ≡ true
every_tool-each p h ToolRunStatus.created = ground arith
every_tool-each p h ToolRunStatus.executing = ground arith
every_tool-each p h ToolRunStatus.success = ground arith
every_tool-each p h ToolRunStatus.error = ground arith
every_tool-each p h ToolRunStatus.timeout = ground arith

abbrev pub every_run : (RunStatus → Bool) → Bool
every_run p =
    p RunStatus.created
    && (p RunStatus.queued
        && (p RunStatus.running
            && (p RunStatus.waiting_input
                && (p RunStatus.completed && (p RunStatus.failed && p RunStatus.cancelled)))))

pub every_run-each : (p : RunStatus → Bool) → every_run p ≡ true → (s : RunStatus) → p s ≡ true
every_run-each p h RunStatus.created = ground arith
every_run-each p h RunStatus.queued = ground arith
every_run-each p h RunStatus.running = ground arith
every_run-each p h RunStatus.waiting_input = ground arith
every_run-each p h RunStatus.completed = ground arith
every_run-each p h RunStatus.failed = ground arith
every_run-each p h RunStatus.cancelled = ground arith
