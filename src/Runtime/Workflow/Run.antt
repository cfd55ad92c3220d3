-- ===== src/Runtime/Workflow/Run.antt =====
-- `prepare_flow_run` of activities.py and the whole of `FlowRunWorkflow.run`.
use agent_orchestration_core.Common.{ℕ, String, Option, none, some, [], raised, Result, ok, err}
use agent_orchestration_core.Value.{end}
use agent_orchestration_core.Runtime.Types.{
  RunStatus, FlowRunStatus, structural_error, ExecutionPlan, Checkpoint, graph_state_saved,
  Repository, emit, flow_status_set, Nodes,
}
use agent_orchestration_core.Runtime.Executor.{
  RunRequest, initial_context, loop_limit_of, max_steps_of,
}
use agent_orchestration_core.Runtime.Workflow.{WorkflowResult, finalize, interpret}
use agent_orchestration_core.Runtime.Workflow.Activities.{failed}

-- The part of `FlowRunPlanSummary` that the traversal reads.
pub record PlanSummary : Type 0 where
  pub start_node_id : String
  pub max_steps : ℕ
  pub loop_limit : ℕ

-- The activity builds its own context: a run starts with no state and no memory.
fresh_request : RunRequest → RunRequest
fresh_request request = record request { initial_state = end; initial_memory = [] }

first_checkpoint : ExecutionPlan → RunRequest → Checkpoint
unfolding initial_context fresh_request
first_checkpoint plan request =
    let context = initial_context plan (fresh_request request) in
    record {
      current_node_id = context.current_node_id;
      state = context.state;
      memory = context.memory;
      resume_to_node_id = none;
      metadata = context.metadata;
    }

-- A state that an earlier turn saved is kept.
save_first : Option Checkpoint → Checkpoint → Repository → Repository
save_first (some saved) first repository = repository
save_first none first repository =
    emit (graph_state_saved none first) (record repository { graph_state = some first })

-- `prepare_flow_run`; without the row of the run or its graph snapshot it raises.
unfoldable pub prepare_flow_run :
    Option ExecutionPlan → RunRequest → Repository → Result (PlanSummary × Repository)
unfolding first_checkpoint save_first initial_context loop_limit_of max_steps_of
prepare_flow_run none request repository = err (raised "ApplicationError")
prepare_flow_run (some plan) request repository =
    let loop_limit = loop_limit_of request.max_loop_iterations in
    ok (
      record {
        start_node_id = (initial_context plan request).current_node_id;
        max_steps = max_steps_of plan loop_limit;
        loop_limit = loop_limit;
      },
      emit (flow_status_set RunStatus.running FlowRunStatus.running)
          (save_first repository.graph_state (first_checkpoint plan request) repository),
    )

interpret_summary :
    Nodes
    → Option ExecutionPlan
    → Option String
    → Result (PlanSummary × Repository)
    → Repository
    → Result (Repository × WorkflowResult)
unfolding interpret finalize
interpret_summary nodes (some plan) key (ok (summary, prepared)) before =
    interpret nodes plan summary.loop_limit key summary.max_steps summary.start_node_id 0 []
      prepared
-- No node has run: `last_node_id` is None, and a failed run does not read it.
interpret_summary nodes _ key _ before =
    ok (finalize key failed (some structural_error) "" none 0 before)

-- `FlowRunWorkflow.run`
unfoldable pub run_workflow :
    Nodes
    → Option ExecutionPlan
    → Option String
    → RunRequest
    → Repository
    → Result (Repository × WorkflowResult)
unfolding interpret_summary prepare_flow_run
run_workflow nodes plan key request repository =
    interpret_summary nodes plan key (prepare_flow_run plan request repository) repository
