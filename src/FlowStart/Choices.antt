-- ===== src/FlowStart/Choices.antt =====
-- The choices that ExecutionService.create_flow_run of domain/execution/services/execution_service.py
-- makes before it creates a flow run.
use agent_orchestration_core.Common.{
  ℕ, String, Bool, true, false, ◌&&◌, Option, none, some, List, [], ◌∷◌, ◌==◌, str_eq, strip, Unit,
  tt, domain, raised, Result, ok, err, ◌>>=◌, find_row, if◌then◌else◌,
}
use agent_orchestration_core.Value.{null, Value, end, field, str}
use agent_orchestration_core.Runtime.Types.{RunStatus, FlowRunStatus}
use agent_orchestration_core.FlowStart.{
  FlowRunCreate, VersionStatus, GraphSnapshot, Deployment, FlowSnapshot, Contract, FlowRun, Origin,
  Surroundings,
}

abbrev pub is_published : VersionStatus → Bool
is_published VersionStatus.published = true
is_published _ = false

-- The flow of a request.
unfoldable pub choose_flow : Surroundings → Option ℕ → Option ℕ → Result ℕ
choose_flow o none none = err (domain "flow_id_or_flow_version_id_required")
choose_flow o (some flow_id) none = ok flow_id
choose_flow o flow_id (some version_id) = elim (o.flow_version version_id) [
  | none ↦ err (raised "NotFoundServiceException")
  | some version ↦
      if is_published version.status
      then ok version.flow_id
      else err (raised "ResourceBlockedServiceException")
]

-- `flow is None or flow.tenant_id != tenant_id`
unfoldable pub check_tenant : Option ℕ → ℕ → Result {0} Unit
check_tenant none tenant_id = err (raised "NotFoundServiceException")
check_tenant (some t) tenant_id =
    if t == tenant_id then ok tt else err (raised "NotFoundServiceException")

-- The active version, which is the one that is asked for if one is.
unfoldable pub check_active : Option ℕ → Option ℕ → Result ℕ
check_active none asked = err (raised "ResourceBlockedServiceException")
check_active (some active) none = ok active
check_active (some active) (some version_id) =
    if active == version_id then ok active else err (raised "ResourceBlockedServiceException")

unfoldable pub check_user : String → Result {0} Unit
check_user user_id = if str_eq (strip user_id) "" then err (domain "user_id_required") else ok tt

-- The flow and the version that a request of a tenant starts.
unfoldable pub select_version : Surroundings → ℕ → FlowRunCreate → Result (ℕ × ℕ)
unfolding choose_flow check_user check_tenant check_active
select_version o tenant_id c = choose_flow o c.flow_id c.flow_version_id >>= λ flow_id.
    check_user c.user_id >>= λ _. check_tenant (o.tenant_of_flow flow_id) tenant_id >>= λ _.
    check_active (o.active_flow_version_id flow_id) c.flow_version_id >>= λ version_id.
    ok (flow_id, version_id)

-- `_normalize_flow_run_input`
unfoldable pub normalize_input : Surroundings → ℕ → FlowRunCreate → Result Value
normalize_input o tenant_id c = elim c.input_parts [
  | [] ↦ ok c.input
  | part ∷ parts ↦ elim o.normalizer [
    | none ↦ err (domain "user_input_normalizer_required")
    | some normalize ↦ normalize tenant_id c.input c.input_parts
  ]
]

-- `input_payload.model_dump`, of which None has none
unfoldable pub dumped_input : Value → Result Value
dumped_input null = err (raised "AttributeError")
dumped_input v = ok v

-- `snapshot.resume_to_node_id or snapshot.current_node_id`
unfoldable pub resume_node : Option String → Option String → Option String
resume_node none current = current
resume_node (some node) current = if str_eq node "" then current else some node

abbrev pub no_origin : Origin
no_origin = record {
  origin_flow_run_id = none;
  start_node_id = none;
  initial_state = none;
  initial_memory = none;
}

abbrev pub is_waiting : FlowRun → Bool
is_waiting run = elim run.status [
  | RunStatus.waiting_input ↦ true
  | _ ↦ elim run.canonical_status [ FlowRunStatus.waiting ↦ true | _ ↦ false ]
]

-- What the graph state of a waiting run gives.
unfoldable pub origin_of : Surroundings → ℕ → Result Origin
unfolding resume_node
origin_of o id = elim (o.graph_state id) [
  | none ↦ ok no_origin
  | some fields ↦ elim (o.validate_graph_state fields) [
    | none ↦ err (domain "invalid_graph_state")
    | some s ↦ ok (record {
      origin_flow_run_id = some id;
      start_node_id = resume_node s.resume_to_node_id s.current_node_id;
      initial_state = some s.state;
      initial_memory = some s.memory;
    })
  ]
]

-- `get_latest_waiting_flow_run_id`
abbrev pub fits_request : FlowRunCreate → ℕ → ℕ → FlowRun → Bool
fits_request c correlation_id version_id run =
    run.session_id == c.session_id
    && run.correlation_id == correlation_id
    && run.flow_version_id == version_id
    && str_eq run.user_id c.user_id
    && is_waiting run

abbrev latest_waiting : FlowRunCreate → ℕ → ℕ → List FlowRun → Option ℕ
latest_waiting c correlation_id version_id rows =
    elim (find_row (fits_request c correlation_id version_id) rows) [
      | none ↦ none
      | some run ↦ some run.id
    ]

-- The run that a request goes on from, before it is looked at.
unfoldable pub origin_candidate : FlowRunCreate → ℕ → List FlowRun → Option ℕ
origin_candidate c version_id rows = elim c.origin_flow_run_id [
  | some id ↦ some id
  | none ↦ elim c.correlation_id [
    | none ↦ none
    | some correlation_id ↦ latest_waiting c correlation_id version_id rows
  ]
]

abbrev pub is_flow_run : ℕ → FlowRun → Bool
is_flow_run id run = run.id == id

-- A run has had a lock since it was created, and the foreign key refuses a lock of no run.
unfoldable pub choose_origin : Surroundings → Option ℕ → List FlowRun → Result Origin
unfolding origin_of
choose_origin o none rows = ok no_origin
choose_origin o (some id) rows = elim (find_row (is_flow_run id) rows) [
  | none ↦ err (raised "IntegrityError")
  | some run ↦ if is_waiting run then origin_of o id else ok no_origin
]

-- `flow_deployment` and `flow_snapshot`
unfoldable pub deployed_snapshot : Surroundings → Option Deployment → Option FlowSnapshot
deployed_snapshot o none = none
deployed_snapshot o (some d) = o.flow_snapshot_by_id d.flow_snapshot_id

abbrev pub or_else : Option FlowSnapshot → Option FlowSnapshot → Option FlowSnapshot
or_else none b = b
or_else (some a) b = some a

-- The graph that a flow snapshot names, or else the one of the version.
unfoldable pub choose_graph :
    Surroundings → Option String → Option GraphSnapshot → Result (Option GraphSnapshot)
choose_graph o none of_version = ok of_version
choose_graph o (some text) of_version =
    if str_eq text "" then ok of_version else elim (o.uuid_of text) [
      | none ↦ err (raised "ValueError")
      | some id ↦ ok (o.graph_snapshot id)
    ]

abbrev pub present : Option GraphSnapshot → Result GraphSnapshot
present none = err (raised "ResourceBlockedServiceException")
present (some g) = ok g

abbrev deployment_id : Option Deployment → Option ℕ
deployment_id none = none
deployment_id (some d) = some d.flow_deployment_id

-- `str(flow_snapshot.snapshot.get("graph_hash") or self._hash_dict(flow_snapshot.snapshot))`
abbrev plan_hash : Surroundings → FlowSnapshot → String
plan_hash o s = elim s.graph_hash [
  | none ↦ o.hash_dict s.snapshot
  | some h ↦ if str_eq h "" then o.hash_dict s.snapshot else h
]

-- The contract of a run of a flow that has a snapshot.
unfoldable pub snapshot_contract :
    Surroundings → Option Deployment → FlowSnapshot → Option GraphSnapshot → Result Contract
unfolding choose_graph
snapshot_contract o deployment s of_version =
    choose_graph o s.flow_graph_snapshot_id of_version >>= λ found.
    o.validate_policy s.runtime_policy >>= λ policy. present found >>= λ graph. ok (record {
      flow_graph_snapshot_id = graph.flow_graph_snapshot_id;
      flow_snapshot_id = some s.flow_snapshot_id;
      flow_deployment_id = deployment_id deployment;
      execution_plan_hash = plan_hash o s;
      runtime_policy_hash = o.hash_dict s.runtime_policy;
      tool_catalog_hash = o.hash_dict s.tool_catalog;
      llm_provider_config_hash = s.llm_provider_config_hash;
    })

-- The contract of a run of a flow that has none.
unfoldable pub legacy_contract :
    Surroundings → ℕ → ℕ → Option Deployment → Option GraphSnapshot → Result Contract
legacy_contract o tenant_id flow_id deployment of_version =
    if o.legacy_contract_enabled
    then (present of_version >>= λ graph. o.resolve_policy tenant_id flow_id >>= λ policy.
        ok (record {
          flow_graph_snapshot_id = graph.flow_graph_snapshot_id;
          flow_snapshot_id = none;
          flow_deployment_id = deployment_id deployment;
          execution_plan_hash = graph.graph_hash;
          runtime_policy_hash = o.hash_dict policy;
          tool_catalog_hash = o.hash_dict (
              field "graph" (str graph.graph_hash)
                (field "runtime_policy" (str (o.hash_dict policy)) end));
          llm_provider_config_hash = none;
        }))
    else err (raised "ResourceBlockedServiceException")

unfoldable pub choose_contract : Surroundings → ℕ → ℕ → ℕ → Result Contract
unfolding snapshot_contract legacy_contract deployed_snapshot
choose_contract o tenant_id flow_id version_id =
    let deployment = o.active_flow_deployment flow_id in
    let of_version = o.graph_snapshot_by_flow_version version_id in
    elim (or_else (deployed_snapshot o deployment) (o.flow_snapshot_by_flow_version version_id)) [
      | some s ↦ snapshot_contract o deployment s of_version
      | none ↦ legacy_contract o tenant_id flow_id deployment of_version
    ]
