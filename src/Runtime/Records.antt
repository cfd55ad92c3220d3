-- ===== src/Runtime/Records.antt =====
-- node_step_runner.py: what a step writes when its node has returned a result.
use agent_orchestration_core.Common.{
  Bool, true, not, ℕ, String, Option, none, some, List, ◌∷◌, str_eq, if◌then◌else◌,
}
use agent_orchestration_core.Value.{Value, truthy, str, obj, Fields, field}
use agent_orchestration_core.Value.Access.{lookup, store, sub_dict}
use agent_orchestration_core.Runtime.Types.{
  NodeExecutionStatus, NodeRunStatus, ExecutionContext, LlmUsage, NodeResult, Checkpoint,
  node_run_updated, agent_run_recorded, usage_recorded, node_completed, graph_state_saved,
  Repository, emit,
}

abbrev pub node_outputs_key : String
node_outputs_key = "_node_outputs_by_node_id"

unfoldable pub map_status : NodeExecutionStatus → NodeRunStatus
map_status NodeExecutionStatus.success = NodeRunStatus.completed
map_status NodeExecutionStatus.error = NodeRunStatus.failed
map_status NodeExecutionStatus.needs_input = NodeRunStatus.pending

-- `_record_usage`: an agent run when an agent governed the node, and always a ledger row. That a
-- failure of these writes is logged and swallowed is not modelled: no write fails here.
record_usage : ℕ → Option LlmUsage → Repository → Repository
record_usage run_id none repository = repository
record_usage run_id (some usage) repository =
    emit (usage_recorded run_id usage) (elim usage.agent_version_id [
      | none ↦ repository
      | some agent ↦ emit (agent_run_recorded run_id usage) repository
    ])

-- `node_result.next_state or context.state`: an empty dictionary counts as none
unfoldable pub state_after : Option Fields → Fields → Fields
state_after (some (field k v fs)) old = field k v fs
state_after _ old = old

memory_after : Option (List Value) → List Value → List Value
memory_after none old = old
memory_after (some new) old = new

-- The state with the node's output filed under its id.
unfoldable pub new_state : ExecutionContext → NodeResult → Fields
unfolding state_after
new_state context result =
    let state = state_after result.next_state context.state in
    store state node_outputs_key (
      obj (
        store (sub_dict (lookup state node_outputs_key)) context.current_node_id
          (obj result.output)))

unfoldable pub new_memory : ExecutionContext → NodeResult → List Value
unfolding memory_after
new_memory context result = memory_after result.memory context.memory

-- `config.get("resume_to_node_id") or context.current_node_id`, of a result that needs input
resume_target : Option Value → String → String
resume_target (some (str s)) current = if str_eq s "" then current else s
resume_target _ current = current

resume_to : NodeExecutionStatus → Fields → String → Option String
unfolding resume_target
resume_to NodeExecutionStatus.needs_input config current =
    some (resume_target (lookup config "resume_to_node_id") current)
resume_to _ config current = none

unfoldable pub checkpoint : ExecutionContext → Fields → NodeResult → Checkpoint
unfolding resume_to
checkpoint context config result = record {
  current_node_id = context.current_node_id;
  state = new_state context result;
  memory = new_memory context result;
  resume_to_node_id = resume_to result.status config context.current_node_id;
  metadata = context.metadata;
}

-- What `dict(v or {})` takes. A list of pairs, which it would take too, counts as not taken.
unfoldable pub is_dict_like : Option Value → Bool
is_dict_like none = true
is_dict_like (some (obj fs)) = true
is_dict_like (some v) = not (truthy v)

-- Whether the outputs by node can be read from a state.
abbrev pub readable_outputs : Fields → Bool
readable_outputs state = is_dict_like (lookup state node_outputs_key)

-- The writes up to the reading of these outputs.
unfoldable pub account_result : ℕ → NodeResult → Repository → Repository
unfolding record_usage map_status
account_result run_id result repository =
    let updated =
      emit (node_run_updated run_id result (map_status result.status))
        (record repository { node_outputs = (run_id, result.output) ∷ repository.node_outputs }) in
    record_usage run_id result.usage updated

-- The writes after a node has returned its result, in their order.
unfoldable pub record_result : ℕ → ExecutionContext → Fields → NodeResult → Repository → Repository
unfolding account_result
record_result run_id context config result repository =
    let saved = checkpoint context config result in
    emit (graph_state_saved (some run_id) saved)
      (record (emit (node_completed context.current_node_id result)
        (account_result run_id result repository)) { graph_state = some saved })
