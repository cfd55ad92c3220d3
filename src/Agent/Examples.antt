-- ===== src/Agent/Examples.antt =====
-- agent_loop.py: a model that asks for a tool of its grant, for one that is not, and for a task of
-- another agent.
use agent_orchestration_core.Common.{
  ℕ, String, true, ◌≡◌, refl, Option, none, some, List, [], ◌∷◌, has, Result, ok,
}
use agent_orchestration_core.Value.{str, end, field}
use agent_orchestration_core.Runtime.Types.{RunStatus}
use agent_orchestration_core.Lifecycle.{AgentRunStatus}
use agent_orchestration_core.Agent.{
  AgentDefinition, RequestedGrant, ResolvedToolGrant, AgentRunScope, resolve_grant, granted,
  available, from_keys, delegates,
}
use agent_orchestration_core.Agent.Grants.{
  distinct, names_of, snapshot, grant_request_from_snapshot, resolve_grant-snapshot,
}
use agent_orchestration_core.Agent.Service.{
  AgentRunRow, RunStore, Setting, row_of, prepare, execute, finished, cancel_agent_run, finalize,
  update_row,
}
use agent_orchestration_core.Agent.Service.Settling.{
  IsSettled, execute-IsSettled, execute-authorized,
}
use agent_orchestration_core.Agent.Dispatcher.{ToolCall, AgentStore, Outside, TaskState}
use agent_orchestration_core.Agent.Loop.{FinishReason, LoopResult, Message, Completion, run_agent}
use agent_orchestration_core.Agent.Effects.{all_authorized, left_with, run_agent-authorized}

abbrev outside : Outside
outside = record {
  schema_error = λ schema arguments. none;
  run_tool = λ run arguments. ok end;
  run_task = λ task target depth instruction.
      ok (record { state = TaskState.completed; output_text = "done" });
  uuid = λ t. some t;
  json_text = λ r. "{}";
  task_text = λ task r. r.output_text;
  error_text = λ e. e;
  plain = λ v. "writer";
}

abbrev scope : AgentRunScope
scope = record { delegation_depth = 1 }

abbrev grant : ResolvedToolGrant
grant = record {
  tools =
      record { function_name = "search"; tool_config_id = "t1"; request_schema = str "any" } ∷ [];
  allow_agent_delegation = true;
  delegate_agent_ids = "writer" ∷ [];
}

abbrev ask : String → ToolCall
ask name = record {
  call_id = name;
  name = name;
  arguments = field "agent_id" (str "writer") (field "instruction" (str "draft") end);
}

abbrev model : ℕ → List Message → Result Completion
model i messages = ok (record {
  text = "";
  tool_calls = ask "search" ∷ ask "remove" ∷ ask "delegate_to_agent" ∷ [];
  input_tokens = 1;
  output_tokens = 1;
})

abbrev empty : AgentStore
empty = record { log = []; next_tool_run = 0; next_task = 0 }

run_agent-authorized_example :
    all_authorized scope grant
      (left_with scope grant outside model
        (run_agent outside model scope grant [] 2 empty)).store.log
    ≡ true
run_agent-authorized_example = run_agent-authorized scope grant outside model [] 2 empty refl

abbrev definition : AgentDefinition
definition = record { agent_id = "planner"; tools = grant.tools }

abbrev requested : RequestedGrant
requested = record {
  allowed_tool_names = none;
  allow_agent_delegation = true;
  delegate_agent_ids = "writer" ∷ "writer" ∷ [];
}

abbrev tenant_of : String → Option String
tenant_of agent = some "t"

resolve_grant-snapshot_example :
    resolve_grant tenant_of "t" definition (grant_request_from_snapshot (snapshot grant)) ≡ ok grant
unfolding distinct resolve_grant from_keys delegates has
resolve_grant-snapshot_example =
    resolve_grant-snapshot tenant_of "t" definition requested grant refl refl

abbrev stored : AgentRunRow
unfolding snapshot
stored = record {
  agent_run_id = 3;
  tenant_id = "t";
  agent_id = "planner";
  tool_grant = snapshot grant;
  max_iterations = 2;
  delegation_depth = 1;
  instruction = "draft";
  status = RunStatus.created;
  canonical_status = AgentRunStatus.created;
  finish_reason = none;
  iterations_used = 0;
  output_text = "";
}

abbrev runs : RunStore
unfolding snapshot
runs = record { rows = stored ∷ []; writes = []; agent = empty }

abbrev setting : Setting
setting = record {
  resolve_definition = λ tenant agent. ok definition;
  tenant_of = tenant_of;
  prompt = λ definition grant row. [];
  complete = model;
  default_max_iterations = 5;
}

execute-IsSettled_example :
    (after : AgentRunRow) × (row_of "t" 3 (execute outside setting "t" 3 runs).1.rows ≡ some after)
    × IsSettled 2 stored (execute outside setting "t" 3 runs).0 after
unfolding snapshot row_of prepare resolve_grant grant_request_from_snapshot granted available
    from_keys delegates has
execute-IsSettled_example =
    execute-IsSettled outside setting "t" 3 runs stored refl definition grant refl

execute-authorized_example :
    (all_authorized scope grant (execute outside setting "t" 3 runs).1.agent.log ≡ true)
    × (names_of grant.tools ≡ from_keys [] ("search" ∷ []))
    × (grant.delegate_agent_ids ≡ from_keys [] ("writer" ∷ []))
unfolding snapshot row_of prepare resolve_grant grant_request_from_snapshot granted available
    from_keys delegates has
execute-authorized_example =
    execute-authorized outside setting "t" 3 runs stored refl definition grant refl refl

abbrev final : LoopResult
final = record {
  finish_reason = FinishReason.final_output;
  output_text = "done";
  iterations_used = 1;
  input_tokens = 1;
  output_tokens = 1;
  tool_call_count = 0;
}

-- A run that is cancelled while its worker is at the model is completed when the worker ends.
overwritten :
    row_of "t" 3 (finalize 3 final (cancel_agent_run "t" 3 runs).1).rows
    ≡ some (
        finished RunStatus.completed AgentRunStatus.completed FinishReason.final_output 1 "done"
          stored)
unfolding snapshot row_of update_row cancel_agent_run finalize
overwritten = refl
