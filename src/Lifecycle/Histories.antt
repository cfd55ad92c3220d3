-- ===== src/Lifecycle/Histories.antt =====
-- state_machine.py: sequences of accepted changes.
use Prim.{Unit, tt}
use agent_orchestration_core.Common.{
  ℕ, suc, ◌+◌, ◌≤◌, ◌<◌, ◌≡◌, refl, Result, ok, arith, not, ◌||◌, ltb, ltb→lt,
}
use agent_orchestration_core.Runtime.Types.{NodeRunStatus}
use agent_orchestration_core.Lifecycle.{
  AgentRunStatus, ToolRunStatus, validate_node, validate_agent, validate_tool, accepted,
}
use agent_orchestration_core.Lifecycle.Sweep.{
  implied, every_node, every_node-each, every_agent, every_agent-each, every_tool, every_tool-each,
}

-- A run that has gone through `n` accepted changes of status.
pub data History {S : Type 0} (validate : S → S → Result {0} Unit) : S → S → ℕ → Type 0 where
  unchanged : (s : S) → History validate s s 0
  changed :
      (a b c : S) (n : ℕ)
      → validate a b ≡ ok tt
      → History validate b c n
      → History validate a c (suc n)

-- With a rank that every accepted change lowers, a history is no longer than its start's rank.
History-bounded :
    {S : Type 0} (validate : S → S → Result {0} Unit) (rank : S → ℕ)
    → ((a b : S) → validate a b ≡ ok tt → rank b < rank a)
    → {a c : S} {n : ℕ} → History validate a c n
    → n + rank c ≤ rank a
History-bounded validate rank lower (unchanged s) = omega arith
History-bounded validate rank lower (changed a b c m e h) =
    omega (arith, lower a b e, History-bounded validate rank lower h)

abbrev node_rank : NodeRunStatus → ℕ
node_rank NodeRunStatus.pending = 2
node_rank NodeRunStatus.running = 1
node_rank _ = 0

node_lower : (a b : NodeRunStatus) → validate_node a b ≡ ok tt → node_rank b < node_rank a
unfolding validate_node
node_lower a b e =
    let lowers = λ (x y : NodeRunStatus).
      not (accepted (validate_node x y)) || ltb (node_rank y) (node_rank x) in
    ltb→lt (node_rank b) (node_rank a) (
      implied (validate_node a b) _
        (every_node-each (λ y. lowers a y)
          (every_node-each (λ x. every_node (λ y. lowers x y)) refl a) b)
        e)

node_rank-bound : (s : NodeRunStatus) → node_rank s ≤ 2
node_rank-bound s = ground arith

abbrev agent_rank : AgentRunStatus → ℕ
agent_rank AgentRunStatus.created = 2
agent_rank AgentRunStatus.running = 1
agent_rank _ = 0

agent_lower : (a b : AgentRunStatus) → validate_agent a b ≡ ok tt → agent_rank b < agent_rank a
unfolding validate_agent
agent_lower a b e =
    let lowers = λ (x y : AgentRunStatus).
      not (accepted (validate_agent x y)) || ltb (agent_rank y) (agent_rank x) in
    ltb→lt (agent_rank b) (agent_rank a) (
      implied (validate_agent a b) _
        (every_agent-each (λ y. lowers a y)
          (every_agent-each (λ x. every_agent (λ y. lowers x y)) refl a) b)
        e)

agent_rank-bound : (s : AgentRunStatus) → agent_rank s ≤ 2
agent_rank-bound s = ground arith

abbrev tool_rank : ToolRunStatus → ℕ
tool_rank ToolRunStatus.created = 2
tool_rank ToolRunStatus.executing = 1
tool_rank _ = 0

tool_lower : (a b : ToolRunStatus) → validate_tool a b ≡ ok tt → tool_rank b < tool_rank a
unfolding validate_tool
tool_lower a b e =
    let lowers = λ (x y : ToolRunStatus).
      not (accepted (validate_tool x y)) || ltb (tool_rank y) (tool_rank x) in
    ltb→lt (tool_rank b) (tool_rank a) (
      implied (validate_tool a b) _
        (every_tool-each (λ y. lowers a y)
          (every_tool-each (λ x. every_tool (λ y. lowers x y)) refl a) b)
        e)

tool_rank-bound : (s : ToolRunStatus) → tool_rank s ≤ 2
tool_rank-bound s = ground arith

-- No run of a node, of an agent or of a tool goes through more than two accepted changes of status.
pub History-bounds :
    {a c : NodeRunStatus} {d f : AgentRunStatus} {g i : ToolRunStatus} {n m l : ℕ}
    → History validate_node a c n
    → History validate_agent d f m
    → History validate_tool g i l
    → (n ≤ 2) × ((m ≤ 2) × (l ≤ 2))
History-bounds {a = a} {d = d} {g = g} node_run agent_run tool_run = (
  omega (arith, History-bounded validate_node node_rank node_lower node_run, node_rank-bound a),
  (
    omega (
      arith,
      History-bounded validate_agent agent_rank agent_lower agent_run,
      agent_rank-bound d,
    ),
    omega (arith, History-bounded validate_tool tool_rank tool_lower tool_run, tool_rank-bound g),
  ),
)
