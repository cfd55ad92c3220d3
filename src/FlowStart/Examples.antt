-- ===== src/FlowStart/Examples.antt =====
-- Starts of flow runs by execution_service.py, on a server in memory.
use agent_orchestration_core.Common.{
  ℕ, ◌≤◌, Bool, ◌≡◌, refl, true, false, some, none, List, [], ◌∷◌, tt, arith, ok, err, raised,
  length, strip, find_row, update_rows,
}
use agent_orchestration_core.Value.{obj, end, field, str, truthy}
use agent_orchestration_core.Value.Access.{lookup}
use agent_orchestration_core.Runtime.Types.{RunStatus, FlowRunStatus}
use agent_orchestration_core.Redis.Adapter.{Call, set_if_not_exists, get}
use agent_orchestration_core.Redis.Memory.{memory, Entries}
use agent_orchestration_core.Limits.Idempotency.{try_acquire}
use agent_orchestration_core.FlowStart.{Surroundings, Db, Contract, FlowRun}
use agent_orchestration_core.FlowStart.Choices.{
  choose_contract, dumped_input, select_version, choose_flow, check_user, check_tenant,
  check_active, normalize_input, choose_origin,
}
use agent_orchestration_core.FlowStart.Service.{StartRequest, create_flow_run, begin}
use agent_orchestration_core.FlowStart.Owners.{Owned}
use agent_orchestration_core.FlowStart.Tenancy.{begin-Owned}
use agent_orchestration_core.FlowStart.Once.{Event, starts, serve, serve-once}

abbrev at : ℕ → Call
at t = record { now = t; reaches = true; reaches_again = true }

-- Tenant 1 has flow 2, whose active version is 3. There is no flow snapshot, and runs are in the
-- process. What is not asked for raises.
abbrev outside : Bool → Surroundings
outside legacy = record {
  flow_version = λ id. none;
  tenant_of_flow = λ id. some 1;
  active_flow_version_id = λ id. some 3;
  active_flow_deployment = λ id. none;
  flow_snapshot_by_id = λ id. none;
  flow_snapshot_by_flow_version = λ id. none;
  graph_snapshot_by_flow_version =
      λ id. some (record { flow_graph_snapshot_id = 4; graph_hash = "g" });
  graph_snapshot = λ id. none;
  graph_state = λ id. none;
  validate_graph_state = λ fields. none;
  validate_policy = λ fields. ok fields;
  resolve_policy = λ tenant flow. ok end;
  hash_dict = λ fields. "h";
  uuid_of = λ text. none;
  uuid_text = λ id. "u";
  normalizer = none;
  legacy_contract_enabled = legacy;
  temporal_enabled = false;
  starts = none;
  awaits = λ workflow. (ok tt, (RunStatus.running, FlowRunStatus.running));
  runs = λ run origin. (ok tt, (RunStatus.completed, FlowRunStatus.completed));
  dump = λ run. field "status" (str "COMPLETED") end;
  validate = λ v. err (raised "ValidationError");
}

abbrev request : StartRequest
request = record {
  tenant_id = 1;
  body = record {
    flow_id = some 2;
    flow_version_id = none;
    session_id = 7;
    user_id = "ana";
    origin_flow_run_id = none;
    correlation_id = none;
    input = obj end;
    input_parts = [];
  };
  wait = false;
  trace_id = none;
}

abbrev empty : Db
empty = record {
  users = [];
  sessions = [];
  interactions = [];
  flow_runs = [];
  locks = [];
  started = [];
  next_id = 0;
}

abbrev twice : List Event
twice = starts (at 5) (at 5) request ∷ starts (at 6) (at 6) request ∷ []

serve-once_example :
    length (serve memory false 60 (outside true) "k" twice (empty, [])).0.flow_runs ≤ 1
unfolding select_version choose_flow check_user check_tenant check_active strip
serve-once_example =
    serve-once memory false 60 (outside true) "k" 5 twice empty [] (omega arith, (omega arith, tt))
      (omega arith, (omega arith, tt))

-- The first of the two creates a flow run.
creates_one : length (serve memory false 60 (outside true) "k" twice (empty, [])).0.flow_runs ≡ 1
unfolding serve begin select_version strip try_acquire set_if_not_exists truthy find_row
    normalize_input choose_origin choose_contract dumped_input update_rows
creates_one = refl

-- A request that fails once it has the key leaves the key to itself: a second one is told that the
-- first is in progress, though nothing is.
abbrev after_failure : Db × Entries
after_failure =
    (create_flow_run memory false 3600 (outside false) "k" (at 5) (at 5) (at 5) request
      (empty, [])).1

key_is_kept :
    (create_flow_run memory false 3600
      (outside true)
      "k"
      (at 60)
      (at 60)
      (at 60)
      request
      after_failure).0
    ≡ err (raised "IdempotencyInProgressException")
unfolding create_flow_run select_version strip try_acquire set_if_not_exists truthy find_row
    normalize_input choose_origin choose_contract dumped_input get lookup
key_is_kept = refl

abbrev contract_of_four : Contract
contract_of_four = record {
  flow_graph_snapshot_id = 4;
  flow_snapshot_id = none;
  flow_deployment_id = none;
  execution_plan_hash = "g";
  runtime_policy_hash = "h";
  tool_catalog_hash = "h";
  llm_provider_config_hash = none;
}

abbrev earlier_run : FlowRun
earlier_run = record {
  id = 9;
  session_id = 7;
  flow_version_id = 3;
  correlation_id = 8;
  origin_flow_run_id = none;
  user_id = "ana";
  input = obj end;
  interaction_id = 6;
  contract = contract_of_four;
  trace_id = 5;
  status = RunStatus.completed;
  canonical_status = FlowRunStatus.completed;
  temporal_workflow_id = none;
}

abbrev with_earlier : Db
with_earlier = record empty {
  sessions = record { session_id = 7; tenant_id = 1; user_id = "ana" } ∷ [];
  flow_runs = earlier_run ∷ [];
  next_id = 10;
}

begin-Owned_example :
    Owned
      (outside true)
      (begin memory false 60 (outside true) "k" (at 5) (at 5) request (with_earlier, [])).1.0
unfolding find_row
begin-Owned_example =
    begin-Owned memory false 60 (outside true) "k" (at 5) (at 5) request with_earlier []
      ((record { session_id = 7; tenant_id = 1; user_id = "ana" }, 2, refl, refl, refl, refl), tt)
