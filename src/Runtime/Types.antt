-- ===== src/Runtime/Types.antt =====
-- The data of the graph runtime: execution_plan.py, types.py, and the writes of the execution
-- repository, which are kept as a log.
use agent_orchestration_core.Common.{
  ℕ, String, Bool, Option, List, ◌∷◌, Dict, Exn, Result, ◌≡◌, refl,
}
use agent_orchestration_core.Value.{Value, Fields}
use agent_orchestration_core.EdgeEvaluator.Paths.{PythonObjects}

-- domain/flows/schemas/graph.py
pub data EdgeKind : Type 0 where
  normal loop : EdgeKind

pub record CompiledEdge : Type 0 where
  pub from_node : String
  pub to_node : String
  pub edge_kind : EdgeKind
  pub compiled_condition : Value
  pub order : ℕ

-- `spec["type"]` and `spec["config"]` of a node; a missing config is the empty dictionary
pub record NodeSpec : Type 0 where
  pub node_type : String
  pub config : Fields

pub record ExecutionPlan : Type 0 where
  pub start_node_id : String
  pub ordered_nodes : List String
  pub adjacency_map : Dict (List CompiledEdge)
  pub terminal_nodes : List String
  pub nodes : Dict NodeSpec

pub data NodeExecutionStatus : Type 0 where
  success error needs_input : NodeExecutionStatus

-- state_machine.py
pub data RunStatus : Type 0 where
  created queued running waiting_input completed failed cancelled : RunStatus

pub data FlowRunStatus : Type 0 where
  created running waiting completed failed escalated : FlowRunStatus

pub data NodeRunStatus : Type 0 where
  pending running skipped completed failed : NodeRunStatus

-- domain/execution/schemas/execution.py
pub data FlowFailureReason : Type 0 where
  policy_violation timeout structural_error circuit_breaker_open missing_graph : FlowFailureReason
  max_steps_exceeded node_not_found unknown_node_type no_matching_edge : FlowFailureReason
  edge_evaluation_error multiple_matching_edges : FlowFailureReason

-- The fields of a step's context that change during a run. Tenant, session, flow and correlation
-- identifiers are constant in a run and left out.
pub record ExecutionContext : Type 0 where
  pub current_node_id : String
  pub current_node_run_id : Option ℕ
  pub state : Fields
  pub memory : List Value
  pub metadata : Fields
  pub node_output : Fields

pub record LlmUsage : Type 0 where
  pub agent_version_id : Option String
  pub input_tokens : ℕ
  pub output_tokens : ℕ

pub record NodeResult : Type 0 where
  pub status : NodeExecutionStatus
  pub output : Fields  -- `data`
  pub next_state : Option Fields
  pub memory : Option (List Value)
  pub usage : Option LlmUsage

-- What `upsert_graph_state` saves.
pub record Checkpoint : Type 0 where
  pub current_node_id : String
  pub state : Fields
  pub memory : List Value
  pub resume_to_node_id : Option String
  pub metadata : Fields

-- The writes of a run, node by node and for the flow as a whole. An event goes through the hook or
-- straight to the repository, which is the same write here.
pub data Write : Type 0 where
  node_run_created : ℕ → String → Fields → List Value → Fields → Write
  node_started : String → Write
  node_run_updated : ℕ → NodeResult → NodeRunStatus → Write
  agent_run_recorded : ℕ → LlmUsage → Write
  usage_recorded : ℕ → LlmUsage → Write
  node_completed : String → NodeResult → Write
  graph_state_saved : Option ℕ → Checkpoint → Write
  edge_evaluated : String → String → Bool → Write
  flow_output_set : Fields → Write
  interaction_result_set : Fields → Option ℕ → Write
  flow_status_set : RunStatus → FlowRunStatus → Write
  flow_run_completed : Fields → Write
  flow_run_failed : FlowFailureReason → Exn → Write  -- with the exception of its `error`
  flow_completed_event : String → Fields → Write
  flow_failed_event : FlowFailureReason → Write
  idempotency_result_set : String → Write

-- The rows that the runtime reads back, and the log of its writes, latest first. Identifiers of
-- node runs are numbered as they are created. `escaped` is no row: it is the exception that has left the
-- traversal, if one has.
pub record Repository : Type 0 where
  pub log : List Write
  pub next_run_id : ℕ
  pub graph_state : Option Checkpoint
  pub node_outputs : List (ℕ × Fields)
  pub escaped : Option Exn

abbrev pub emit : Write → Repository → Repository
emit w r = record r { log = w ∷ r.log }

pub data NodeStepStatus : Type 0 where
  advance terminal needs_input failed : NodeStepStatus

-- To split on a status and keep the equation.
pub data StatusCase (s : NodeStepStatus) : Type 0 where
  advances : s ≡ NodeStepStatus.advance → StatusCase s
  terminates : s ≡ NodeStepStatus.terminal → StatusCase s
  waits : s ≡ NodeStepStatus.needs_input → StatusCase s
  fails : s ≡ NodeStepStatus.failed → StatusCase s

pub status_case : (s : NodeStepStatus) → StatusCase s
status_case NodeStepStatus.advance = advances refl
status_case NodeStepStatus.terminal = terminates refl
status_case NodeStepStatus.needs_input = waits refl
status_case NodeStepStatus.failed = fails refl

pub record NodeStepOutcome : Type 0 where
  pub status : NodeStepStatus
  pub node_run_id : Option ℕ
  pub node_data : Fields
  pub context : ExecutionContext
  pub next_node_id : Option String
  pub resume_to_node_id : Option String
  pub loop_edge_keys : List String
  pub failure_reason : Option FlowFailureReason
  pub failure_exception : Option Exn

-- The node registry and the node classes, which are not part of the step runner: which types
-- resolve, what constructing a node raises, and what executing one returns or raises. The execution
-- reads the context, and so may answer differently at every node run. `is_uuid` says which texts
-- Python's UUID takes.
pub record Nodes : Type 0 where
  pub resolves : String → Bool
  pub construction_error : String → Option Exn
  pub execute : String → ExecutionContext → Fields → Result NodeResult
  pub objects : PythonObjects
  pub is_uuid : String → Bool
