-- ===== src/FlowStart.antt =====
-- ExecutionService.create_flow_run of domain/execution/services/execution_service.py: what it reads
-- and writes.
pub mod Choices
pub mod Writes
pub mod Triples
pub mod Service
pub mod Growth
pub mod Once
pub mod Owners
pub mod Tenancy
mod Examples
use agent_orchestration_core.Common.{
  ℕ, ◌+◌, String, Bool, true, false, not, ◌&&◌, ◌||◌, Option, none, some, List, [], ◌∷◌, ◌==◌,
  str_eq, strip, Unit, tt, domain, raised, Result, ok, err, ◌>>=◌, find_row, if◌then◌else◌,
}
use agent_orchestration_core.Value.{Value, Fields, end, field, null, str}
use agent_orchestration_core.Runtime.Types.{RunStatus, FlowRunStatus}

-- `FlowRunCreate`, without the metadata, which only the interaction takes
pub record FlowRunCreate : Type 0 where
  pub flow_id : Option ℕ
  pub flow_version_id : Option ℕ
  pub session_id : ℕ
  pub user_id : String
  pub origin_flow_run_id : Option ℕ
  pub correlation_id : Option ℕ
  pub input : Value
  pub input_parts : List Value

pub data VersionStatus : Type 0 where
  draft validated published deprecated disabled : VersionStatus

pub record FlowVersion : Type 0 where
  pub flow_id : ℕ
  pub status : VersionStatus

pub record SessionRow : Type 0 where
  pub session_id : ℕ
  pub tenant_id : ℕ
  pub user_id : String

pub record Interaction : Type 0 where
  pub interaction_id : ℕ
  pub session_id : ℕ
  pub flow_run_id : Option ℕ

-- `GraphStateSnapshot`, without its metadata
pub record GraphStateSnapshot : Type 0 where
  pub current_node_id : Option String
  pub resume_to_node_id : Option String
  pub state : Fields
  pub memory : List Value

pub record GraphSnapshot : Type 0 where
  pub flow_graph_snapshot_id : ℕ
  pub graph_hash : String

pub record Deployment : Type 0 where
  pub flow_deployment_id : ℕ
  pub flow_snapshot_id : ℕ

-- A row of flow_snapshot; the first two fields are keys of its `snapshot`.
pub record FlowSnapshot : Type 0 where
  pub flow_graph_snapshot_id : Option String
  pub graph_hash : Option String
  pub flow_snapshot_id : ℕ
  pub snapshot : Fields
  pub runtime_policy : Fields
  pub tool_catalog : Fields
  pub llm_provider_config_hash : Option String

-- The columns of a flow run that the snapshots give: its `runtime_contract`.
pub record Contract : Type 0 where
  pub flow_graph_snapshot_id : ℕ
  pub flow_snapshot_id : Option ℕ
  pub flow_deployment_id : Option ℕ
  pub execution_plan_hash : String
  pub runtime_policy_hash : String
  pub tool_catalog_hash : String
  pub llm_provider_config_hash : Option String

-- A flow run's row, and the response of the service, which has the same fields.
pub record FlowRun : Type 0 where
  pub id : ℕ
  pub session_id : ℕ
  pub flow_version_id : ℕ
  pub correlation_id : ℕ
  pub origin_flow_run_id : Option ℕ
  pub user_id : String
  pub input : Value
  pub interaction_id : ℕ
  pub contract : Contract
  pub trace_id : ℕ
  pub status : RunStatus
  pub canonical_status : FlowRunStatus
  pub temporal_workflow_id : Option String

-- The tables that the service writes, the later rows first, and the identifier that comes next.
pub record Db : Type 0 where
  pub users : List (ℕ × String)
  pub sessions : List SessionRow
  pub interactions : List Interaction
  pub flow_runs : List FlowRun
  pub locks : List ℕ
  pub started : List ℕ  -- the flow runs whose FlowStarted has been appended
  pub next_id : ℕ

-- What an origin gives a run to start with.
pub record Origin : Type 0 where
  pub origin_flow_run_id : Option ℕ
  pub start_node_id : Option String
  pub initial_state : Option Fields
  pub initial_memory : Option (List Value)

-- The rows that the service only reads, the validation and the hashes of JSON, the settings, and
-- the services that it calls. `starts` and `awaits` are the workflow engine's; `awaits` and `runs`, a
-- run in the process, say whether they raise and in which statuses they leave the row.
pub record Surroundings : Type 0 where
  pub flow_version : ℕ → Option FlowVersion
  pub tenant_of_flow : ℕ → Option ℕ
  pub active_flow_version_id : ℕ → Option ℕ
  pub active_flow_deployment : ℕ → Option Deployment
  pub flow_snapshot_by_id : ℕ → Option FlowSnapshot
  pub flow_snapshot_by_flow_version : ℕ → Option FlowSnapshot
  pub graph_snapshot_by_flow_version : ℕ → Option GraphSnapshot
  pub graph_snapshot : ℕ → Option GraphSnapshot
  pub graph_state : ℕ → Option Fields
  pub validate_graph_state : Fields → Option GraphStateSnapshot
  pub validate_policy : Fields → Result Fields
  pub resolve_policy : ℕ → ℕ → Result Fields
  pub hash_dict : Fields → String
  pub uuid_of : String → Option ℕ
  pub uuid_text : ℕ → String
  pub normalizer : Option (ℕ → Value → List Value → Result Value)
  pub legacy_contract_enabled : Bool
  pub temporal_enabled : Bool
  pub starts : Option (FlowRun → Option String → Result String)
  pub awaits : String → Result {0} Unit × (RunStatus × FlowRunStatus)
  pub runs : FlowRun → Origin → Result {0} Unit × (RunStatus × FlowRunStatus)
  pub dump : FlowRun → Fields
  pub validate : Value → Result FlowRun
