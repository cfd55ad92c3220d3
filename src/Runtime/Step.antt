-- ===== src/Runtime/Step.antt =====
-- domain/execution/services/graph_runtime/node_step_runner.py: one node, and the choice of the next.
use agent_orchestration_core.Common.{
  ℕ, suc, String, Bool, true, false, ◌||◌, Option, none, some, List, [], ◌∷◌, Dict, get, str_eq,
  if◌then◌else◌, Exn, raised, ok, err,
}
use agent_orchestration_core.Value.{str, Fields, end}
use agent_orchestration_core.Value.Access.{store}
use agent_orchestration_core.Runtime.Types.{
  CompiledEdge, NodeSpec, ExecutionPlan, NodeExecutionStatus, FlowFailureReason, structural_error,
  node_not_found, unknown_node_type, no_matching_edge, edge_evaluation_error,
  multiple_matching_edges, ExecutionContext, NodeResult, node_run_created, node_started, Repository,
  emit, NodeStepStatus, NodeStepOutcome, Nodes,
}
use agent_orchestration_core.Runtime.Edges.{EdgeStep, go, stop, evaluate_edges}
use agent_orchestration_core.Runtime.Records.{
  state_after, readable_outputs, account_result, new_state, new_memory, checkpoint, record_result,
}
use agent_orchestration_core.Runtime.Fallback.{resolve_fallback_reason, reason_value}

-- flow_graph_validator.py, `TERMINAL_NODE_TYPES`
unfoldable pub is_terminal_type : String → Bool
is_terminal_type t = str_eq t "ResponseBuilder" || str_eq t "HumanFallback"

-- What `run_step` returns, with the loop counters and the repository that it changes, or the
-- exception that leaves it, with which the outcome means nothing.
pub record StepResult : Type 0 where
  pub outcome : NodeStepOutcome
  pub counters : Dict ℕ
  pub repository : Repository
  pub escapes : Option Exn

abbrev blank_outcome : NodeStepStatus → ExecutionContext → NodeStepOutcome
blank_outcome status context = record {
  status = status;
  node_run_id = none;
  node_data = end;
  context = context;
  next_node_id = none;
  resume_to_node_id = none;
  loop_edge_keys = [];
  failure_reason = none;
  failure_exception = none;
}

abbrev failed_before_run : FlowFailureReason → Option Exn → ExecutionContext → NodeStepOutcome
failed_before_run reason x context = record (blank_outcome NodeStepStatus.failed context) {
  failure_reason = some reason;
  failure_exception = x;
}

-- The metadata of the next step: on the way to a human fallback, why and from where.
unfoldable pub next_metadata : Option NodeSpec → String → ExecutionContext → Fields → Fields
unfolding resolve_fallback_reason
next_metadata none node_type context output = context.metadata
next_metadata (some spec) node_type context output =
    if str_eq spec.node_type "HumanFallback"
    then store (store context.metadata "fallback_source_node" (str context.current_node_id))
        "fallback_reason" (str (reason_value (resolve_fallback_reason node_type output)))
    else context.metadata

abbrev after_run : NodeStepStatus → ℕ → Fields → ExecutionContext → NodeStepOutcome
after_run status run_id output context = record (blank_outcome status context) {
  node_run_id = some run_id;
  node_data = output;
}

module _ (plan : ExecutionPlan) (node_type : String) (run_id : ℕ) where
  unfoldable pub next_context : ExecutionContext → NodeResult → String → ExecutionContext
  unfolding next_metadata
  next_context context result next = record context {
    current_node_id = next;
    state = new_state context result;
    memory = new_memory context result;
    metadata = next_metadata (get plan.nodes next) node_type context result.output;
    node_output = result.output;
  }

  -- Exactly one edge must hold.
  unfoldable pub choose :
      ExecutionContext → NodeResult → List String → List String → NodeStepOutcome
  unfolding next_context
  choose context result keys [] =
      record (after_run NodeStepStatus.failed run_id result.output context) {
        loop_edge_keys = keys;
        failure_reason = some no_matching_edge;
      }
  choose context result keys (next ∷ []) =
      record (after_run NodeStepStatus.advance run_id result.output
        (next_context context result next)) { next_node_id = some next; loop_edge_keys = keys }
  choose context result keys (next ∷ other ∷ more) =
      record (after_run NodeStepStatus.failed run_id result.output context) {
        loop_edge_keys = keys;
        failure_reason = some multiple_matching_edges;
      }

  -- `is_true` and the loop limit raise domain exceptions only, which the step catches.
  unfoldable pub leave_node : ExecutionContext → NodeResult → EdgeStep → StepResult
  unfolding choose
  leave_node context result (go scan) = record {
    outcome = choose context result scan.loop_edge_keys scan.candidates;
    counters = scan.counters;
    repository = scan.repository;
    escapes = none;
  }
  leave_node context result (stop x scan) = record {
    outcome = record (after_run NodeStepStatus.failed run_id result.output context) {
      loop_edge_keys = scan.loop_edge_keys;
      failure_reason = some edge_evaluation_error;
      failure_exception = some x;
    };
    counters = scan.counters;
    repository = scan.repository;
    escapes = none;
  }

-- An exception leaves the step.
abbrev pub escape : Exn → ExecutionContext → Dict ℕ → Repository → StepResult
escape x context counters repository = record {
  outcome = failed_before_run structural_error (some x) context;
  counters = counters;
  repository = repository;
  escapes = some x;
}

abbrev pub edges_of : ExecutionPlan → String → List CompiledEdge
edges_of plan id = elim (get plan.adjacency_map id) [ none ↦ [] | some edges ↦ edges ]

unfoldable pub is_needs_input : NodeExecutionStatus → Bool
is_needs_input NodeExecutionStatus.needs_input = true
is_needs_input _ = false

module _ (nodes : Nodes) (plan : ExecutionPlan) (limit : ℕ) where
  -- After a result that needs no input, of a node that is not terminal.
  unfoldable pub advance_from :
      String → ℕ → ExecutionContext → NodeResult → Dict ℕ → Repository → StepResult
  advance_from node_type run_id context result counters repository =
      leave_node plan node_type run_id context result (
        evaluate_edges nodes limit context.current_node_id result.output
          (edges_of plan context.current_node_id)
          (record {
            counters = counters;
            loop_edge_keys = [];
            candidates = [];
            repository = repository;
          }))

  -- From what is recorded to the outcome of the step.
  unfoldable pub settle_step :
      NodeSpec → ℕ → ExecutionContext → NodeResult → Dict ℕ → Repository → StepResult
  unfolding is_needs_input
  settle_step spec run_id context result counters repository =
      let returned = record context { node_output = result.output } in
      let recorded = record_result run_id returned spec.config result repository in
      if is_needs_input result.status
      then record {
        outcome = record (after_run NodeStepStatus.needs_input run_id result.output returned) {
          resume_to_node_id = (checkpoint returned spec.config result).resume_to_node_id;
        };
        counters = counters;
        repository = recorded;
        escapes = none;
      }
      else if is_terminal_type spec.node_type
      then record {
        outcome = after_run NodeStepStatus.terminal run_id result.output returned;
        counters = counters;
        repository = recorded;
        escapes = none;
      }
      else advance_from spec.node_type run_id returned result counters recorded

  -- From the result of the node on: the outputs by node are read once the result is accounted for.
  unfoldable pub conclude :
      NodeSpec → ℕ → ExecutionContext → NodeResult → Dict ℕ → Repository → StepResult
  unfolding settle_step
  conclude spec run_id context result counters repository =
      if readable_outputs (state_after result.next_state context.state)
      then settle_step spec run_id context result counters repository
      else escape (raised "TypeError") (record context { node_output = result.output }) counters
          (account_result run_id result repository)

  unfoldable pub run_node : NodeSpec → ExecutionContext → Dict ℕ → Repository → StepResult
  run_node spec context counters repository =
      let run_id = repository.next_run_id in
      let created =
        emit
          (node_run_created run_id context.current_node_id context.state context.memory
            context.metadata)
          (record repository { next_run_id = suc run_id }) in
      let running = record context { current_node_run_id = some run_id } in
      let started = emit (node_started context.current_node_id) created in
      elim (nodes.execute spec.node_type running spec.config) [
        | ok result ↦ conclude spec run_id running result counters started
        | err x ↦ record {
          outcome = record (after_run NodeStepStatus.failed run_id end running) {
            failure_reason = some structural_error;
            failure_exception = some x;
          };
          counters = counters;
          repository = started;
          escapes = none;
        }
      ]

  -- From the creation of the node run on, which wants a UUID.
  unfoldable pub execute_node : NodeSpec → ExecutionContext → Dict ℕ → Repository → StepResult
  unfolding run_node
  execute_node spec context counters repository =
      if nodes.is_uuid context.current_node_id
      then run_node spec context counters repository
      else escape (raised "ValueError") context counters repository

  abbrev refuse : NodeStepOutcome → Dict ℕ → Repository → StepResult
  refuse outcome counters repository = record {
    outcome = outcome;
    counters = counters;
    repository = repository;
    escapes = none;
  }

  unfoldable pub enter_node : NodeSpec → ExecutionContext → Dict ℕ → Repository → StepResult
  enter_node spec context counters repository =
      if nodes.resolves spec.node_type
      then (let entered = record context {
        metadata = store context.metadata "current_node_type" (str spec.node_type);
      } in
          elim (nodes.construction_error spec.node_type) [
            | none ↦ execute_node spec entered counters repository
            | some x ↦
                refuse (failed_before_run structural_error (some x) entered) counters repository
          ])
      else refuse (failed_before_run unknown_node_type none context) counters repository

  -- `NodeStepRunner.run_step`
  unfoldable pub run_step : ExecutionContext → Dict ℕ → Repository → StepResult
  run_step context counters repository = elim (get plan.nodes context.current_node_id) [
    | none ↦ refuse (failed_before_run node_not_found none context) counters repository
    | some spec ↦ enter_node spec context counters repository
  ]
