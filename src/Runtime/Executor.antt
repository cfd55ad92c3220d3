-- ===== src/Runtime/Executor.antt =====
-- domain/execution/services/graph_runtime/executor.py: the in-process traversal of a plan.
pub mod Gate
use agent_orchestration_core.Common.{
  ℕ, zero, suc, ◌+◌, ◌*◌, max, String, Bool, Option, none, some, List, [], ◌∷◌, length, Dict,
  domain, Exn, str_eq, Result, ok, err, ltb, if◌then◌else◌,
}
use agent_orchestration_core.Value.{ℤ, pos, negsuc, Value, Fields, end}
use agent_orchestration_core.Runtime.Types.{
  RunStatus, FlowRunStatus, FlowFailureReason, policy_violation, timeout, circuit_breaker_open,
  missing_graph, node_not_found, unknown_node_type, no_matching_edge, edge_evaluation_error,
  multiple_matching_edges, max_steps_exceeded, structural_error, CompiledEdge, ExecutionPlan,
  ExecutionContext, Repository, emit, flow_output_set, interaction_result_set, flow_status_set,
  flow_run_completed, flow_run_failed, flow_completed_event, flow_failed_event, NodeStepStatus,
  NodeStepOutcome, Nodes,
}
use agent_orchestration_core.Runtime.Step.{run_step}
use agent_orchestration_core.Runtime.Executor.Gate.{open_gate}

-- `limits.max_loop_iterations`, when it is there and at least 1; else the default of 10
unfoldable pub loop_limit_of : Option ℤ → ℕ
loop_limit_of none = 10
loop_limit_of (some (pos zero)) = 10
loop_limit_of (some (pos (suc n))) = suc n
loop_limit_of (some (negsuc n)) = 10

edge_count : Dict (List CompiledEdge) → ℕ
edge_count [] = 0
edge_count ((id, edges) ∷ rest) = length edges + edge_count rest

or_one : ℕ → ℕ
or_one zero = 1
or_one (suc n) = suc n

-- The step bound, from the size of the plan and the loop limit.
unfoldable pub max_steps_of : ExecutionPlan → ℕ → ℕ
unfolding edge_count or_one
max_steps_of plan loop_limit =
    max (length plan.ordered_nodes + or_one (edge_count plan.adjacency_map) + 2)
      (loop_limit * max (length plan.adjacency_map) 1 + 2)

abbrev pub reason_text : FlowFailureReason → String
reason_text policy_violation = "POLICY_VIOLATION"
reason_text timeout = "TIMEOUT"
reason_text structural_error = "STRUCTURAL_ERROR"
reason_text circuit_breaker_open = "CIRCUIT_BREAKER_OPEN"
reason_text missing_graph = "MISSING_GRAPH"
reason_text max_steps_exceeded = "MAX_STEPS_EXCEEDED"
reason_text node_not_found = "NODE_NOT_FOUND"
reason_text unknown_node_type = "UNKNOWN_NODE_TYPE"
reason_text no_matching_edge = "NO_MATCHING_EDGE"
reason_text edge_evaluation_error = "EDGE_EVALUATION_ERROR"
reason_text multiple_matching_edges = "MULTIPLE_MATCHING_EDGES"

-- `DomainValidationException(message=reason.value)`, without an exception
abbrev pub error_of : FlowFailureReason → Option Exn → Exn
error_of reason none = domain (reason_text reason)
error_of reason (some x) = x

-- `_fail_flow`, with the exception that it formats
unfoldable pub fail_flow : FlowFailureReason → Exn → Repository → Repository
fail_flow reason x repository =
    emit (flow_failed_event reason) (emit (flow_run_failed reason x) repository)

-- `_complete_flow`. The memory extraction settings in the event's payload are constant in a run and
-- left out.
unfoldable pub complete_flow : String → Option ℕ → Fields → Repository → Repository
complete_flow terminated_at node_run_id output repository =
    emit (flow_completed_event terminated_at output) (
      emit (interaction_result_set output node_run_id)
        (emit (flow_run_completed output) repository))

-- What is written when a node waits for input.
unfoldable pub suspend_flow : Option ℕ → Fields → Repository → Repository
suspend_flow node_run_id output repository =
    emit (flow_status_set RunStatus.waiting_input FlowRunStatus.waiting)
      (emit (interaction_result_set output node_run_id) (emit (flow_output_set output) repository))

unfoldable pub reason_of : Option FlowFailureReason → FlowFailureReason
reason_of none = structural_error
reason_of (some reason) = reason

unfoldable pub moved_to : Option String → ExecutionContext → ExecutionContext
moved_to none context = context
moved_to (some next) context = record context { current_node_id = next }

module _ (nodes : Nodes) (plan : ExecutionPlan) (loop_limit : ℕ) where
  -- The `for` loop of `run`, with the rounds that are left.
  unfoldable pub traverse : ℕ → ExecutionContext → Dict ℕ → Repository → Repository
  unfolding fail_flow complete_flow suspend_flow reason_of moved_to
  traverse zero context counters repository =
      fail_flow max_steps_exceeded (error_of max_steps_exceeded none) repository
  traverse (suc rounds) context counters repository =
      let step = run_step nodes plan loop_limit context counters repository in
      elim step.escapes [
        | some x ↦ record step.repository { escaped = some x }
        | none ↦ elim step.outcome.status [
          | NodeStepStatus.failed ↦
              let reason = reason_of step.outcome.failure_reason in
              fail_flow reason (error_of reason step.outcome.failure_exception) step.repository
          | NodeStepStatus.needs_input ↦
              suspend_flow step.outcome.node_run_id step.outcome.node_data step.repository
          | NodeStepStatus.terminal ↦
              complete_flow step.outcome.context.current_node_id step.outcome.node_run_id
                step.outcome.node_data step.repository
          | NodeStepStatus.advance ↦
              traverse rounds (moved_to step.outcome.next_node_id step.outcome.context)
                step.counters step.repository
        ]
      ]

-- What `run` is called with.
pub record RunRequest : Type 0 where
  pub trace_user_id : Option String
  pub start_node_id : Option String
  pub initial_state : Fields
  pub initial_memory : List Value
  pub definition : Fields  -- the dumped runtime policy, empty without one
  pub max_loop_iterations : Option ℤ

-- `start_node_id or plan.start_node_id`
start_of : Option String → ExecutionPlan → String
start_of none plan = plan.start_node_id
start_of (some id) plan = if str_eq id "" then plan.start_node_id else id

policy_metadata : Fields → Fields
policy_metadata end = end
policy_metadata (Fields.field k v fs) =
    Fields.field "runtime_policy" (Value.obj (Fields.field k v fs)) end

unfoldable pub initial_context : ExecutionPlan → RunRequest → ExecutionContext
unfolding start_of policy_metadata open_gate
initial_context plan request = record {
  current_node_id = start_of request.start_node_id plan;
  current_node_run_id = none;
  state = open_gate request.definition request.initial_state;
  memory = request.initial_memory;
  metadata = policy_metadata request.definition;
  node_output = end;
}

-- `RuntimeExecutor.run`
unfoldable pub run : Nodes → ExecutionPlan → RunRequest → Repository → Result Repository
unfolding initial_context max_steps_of loop_limit_of traverse
run nodes plan request repository = elim request.trace_user_id [
  | none ↦ err (domain "user_id_required")
  | some user ↦
      let loop_limit = loop_limit_of request.max_loop_iterations in
      let after =
        traverse nodes plan loop_limit (max_steps_of plan loop_limit) (initial_context plan request)
          [] repository in
      elim after.escaped [ some x ↦ err x | none ↦ ok after ]
]
