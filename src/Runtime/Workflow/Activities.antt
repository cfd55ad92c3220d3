-- ===== src/Runtime/Workflow/Activities.antt =====
-- adapters/temporal/activities.py: `prepare_flow_run`, `execute_node` and `finalize_flow_run`.
use agent_orchestration_core.Common.{
  ℕ, String, Bool, true, false, Option, none, some, List, [], ◌∷◌, raised, Result, ok, err, ◌==◌,
  if◌then◌else◌,
}
use agent_orchestration_core.Value.{Fields, end}
use agent_orchestration_core.Runtime.Types.{
  RunStatus, FlowRunStatus, FlowFailureReason, structural_error, ExecutionPlan, ExecutionContext,
  Checkpoint, Repository, emit, flow_status_set, idempotency_result_set, NodeStepStatus,
  NodeStepOutcome, Nodes,
}
use agent_orchestration_core.Runtime.Step.{run_step}
use agent_orchestration_core.Runtime.Executor.{fail_flow, complete_flow, suspend_flow}

pub data ActivityStatus : Type 0 where
  success error needs_input : ActivityStatus

pub record ExecuteNodeOutput : Type 0 where
  pub node_run_id : Option ℕ
  pub status : ActivityStatus
  pub terminal : Bool
  pub next_node_id : Option String
  pub resume_to_node_id : Option String
  pub loop_edge_keys : List String
  pub failure_reason : Option FlowFailureReason

-- `OutcomeLiteral`
pub data Outcome : Type 0 where
  completed waiting failed cancelled : Outcome

-- The context of a step, from the checkpoint that the last step saved.
unfoldable pub restored_context : String → Checkpoint → ExecutionContext
restored_context node_id saved = record {
  current_node_id = node_id;
  current_node_run_id = none;
  state = saved.state;
  memory = saved.memory;
  metadata = saved.metadata;
  node_output = end;
}

abbrev pub reason_or_structural : Option FlowFailureReason → FlowFailureReason
reason_or_structural none = structural_error
reason_or_structural (some reason) = reason

unfoldable pub node_output : NodeStepOutcome → ExecuteNodeOutput
node_output outcome = elim outcome.status [
  | NodeStepStatus.failed ↦ record {
    node_run_id = outcome.node_run_id;
    status = ActivityStatus.error;
    terminal = false;
    next_node_id = none;
    resume_to_node_id = none;
    loop_edge_keys = outcome.loop_edge_keys;
    failure_reason = some (reason_or_structural outcome.failure_reason);
  }
  | NodeStepStatus.needs_input ↦ record {
    node_run_id = outcome.node_run_id;
    status = ActivityStatus.needs_input;
    terminal = false;
    next_node_id = none;
    resume_to_node_id = outcome.resume_to_node_id;
    loop_edge_keys = [];
    failure_reason = none;
  }
  | NodeStepStatus.terminal ↦ record {
    node_run_id = outcome.node_run_id;
    status = ActivityStatus.success;
    terminal = true;
    next_node_id = none;
    resume_to_node_id = none;
    loop_edge_keys = [];
    failure_reason = none;
  }
  | NodeStepStatus.advance ↦ record {
    node_run_id = outcome.node_run_id;
    status = ActivityStatus.success;
    terminal = false;
    next_node_id = outcome.next_node_id;
    resume_to_node_id = none;
    loop_edge_keys = outcome.loop_edge_keys;
    failure_reason = none;
  }
]

module _ (nodes : Nodes) (plan : ExecutionPlan) (loop_limit : ℕ) where
  -- `execute_node`: one step with fresh loop counters. The rows of the flow run and of its graph
  -- snapshot are there; without a graph state the activity raises.
  unfoldable pub execute_node : String → Repository → Result (ExecuteNodeOutput × Repository)
  unfolding node_output restored_context
  execute_node node_id repository = elim repository.graph_state [
    | none ↦ err (raised "ApplicationError")
    | some saved ↦
        let step = run_step nodes plan loop_limit (restored_context node_id saved) [] repository in
        elim step.escapes [ some x ↦ err x | none ↦ ok (node_output step.outcome, step.repository) ]
  ]

output_of_run : List (ℕ × Fields) → ℕ → Fields
output_of_run [] id = end
output_of_run ((i, output) ∷ rest) id = if i == id then output else output_of_run rest id

-- `_last_node_output`
unfoldable pub last_node_output : Option ℕ → Repository → Fields
unfolding output_of_run
last_node_output none repository = end
last_node_output (some id) repository = output_of_run repository.node_outputs id

-- `_release_idempotency`
unfoldable pub release_idempotency : Option String → Repository → Repository
release_idempotency none repository = repository
release_idempotency (some key) repository = emit (idempotency_result_set key) repository

-- `finalize_flow_run`
unfoldable pub finalize_flow_run :
    Option String → Outcome → Option FlowFailureReason → String → Option ℕ → Repository → Repository
unfolding release_idempotency last_node_output fail_flow complete_flow suspend_flow
finalize_flow_run idempotency_key outcome reason last_node_id last_node_run_id repository =
    let output = last_node_output last_node_run_id repository in
    release_idempotency idempotency_key (elim outcome [
      | completed ↦ complete_flow last_node_id last_node_run_id output repository
      | waiting ↦ suspend_flow last_node_run_id output repository
      | cancelled ↦ emit (flow_status_set RunStatus.cancelled FlowRunStatus.failed) repository
      | failed ↦ fail_flow (reason_or_structural reason) (raised "ApplicationError") repository
    ])
