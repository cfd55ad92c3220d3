-- ===== src/FlowStart/Service.antt =====
-- ExecutionService.create_flow_run and _dispatch_flow_run of
-- domain/execution/services/execution_service.py.
use agent_orchestration_core.Common.{
  ℕ, String, Bool, true, false, Option, none, some, raised, Result, ok, err, if◌then◌else◌,
}
use agent_orchestration_core.Value.{Value, Fields, end, field, str, obj, truthy}
use agent_orchestration_core.Value.Access.{lookup}
use agent_orchestration_core.Runtime.Types.{RunStatus, FlowRunStatus}
use agent_orchestration_core.Redis.{Redis}
use agent_orchestration_core.Redis.Adapter.{Call, get}
use agent_orchestration_core.Limits.Idempotency.{try_acquire, set_result}
use agent_orchestration_core.FlowStart.{FlowRunCreate, Contract, FlowRun, Db, Origin, Surroundings}
use agent_orchestration_core.FlowStart.Choices.{
  select_version, normalize_input, choose_contract, dumped_input,
}
use agent_orchestration_core.FlowStart.Writes.{
  Act, ◌>=>◌, given, open_session, trace_uuid, create_interaction, correlation_of, find_origin,
  insert_flow_run, announce, launch, response_of,
}

abbrev pub new_run : FlowRunCreate → ℕ → Origin → Contract → Value → ℕ → ℕ → ℕ → FlowRun
new_run c version_id origin contract input interaction_id correlation_id trace_id = record {
  id = 0;
  session_id = c.session_id;
  flow_version_id = version_id;
  correlation_id = correlation_id;
  origin_flow_run_id = origin.origin_flow_run_id;
  user_id = c.user_id;
  input = input;
  interaction_id = interaction_id;
  contract = contract;
  trace_id = trace_id;
  status = RunStatus.created;
  canonical_status = FlowRunStatus.created;
  temporal_workflow_id = none;
}

-- The row that a request creates, which is the last that it reads or writes before the run exists.
unfoldable pub create_row :
    Surroundings → ℕ → FlowRunCreate → Option String → ℕ → ℕ → Act (FlowRun × Origin)
unfolding trace_uuid open_session create_interaction correlation_of find_origin insert_flow_run
create_row o tenant_id c trace_id flow_id version_id = trace_uuid o trace_id >=> λ trace.
    open_session tenant_id c >=> λ _. given (normalize_input o tenant_id c) >=> λ input.
    create_interaction c.session_id >=> λ interaction_id.
    correlation_of c.correlation_id >=> λ correlation_id. find_origin o c version_id >=> λ origin.
    given (choose_contract o tenant_id flow_id version_id) >=> λ contract.
    given (dumped_input input) >=> λ dumped.
    insert_flow_run
      (new_run c version_id origin contract dumped interaction_id correlation_id trace)
    >=> λ run. given (ok (run, origin))

-- What a request does once the key is its own, up to the response.
unfoldable pub attempt :
    Surroundings → Bool → ℕ → FlowRunCreate → Option String → ℕ → ℕ → Act FlowRun
unfolding create_row announce launch response_of
attempt o wait tenant_id c trace_id flow_id version_id =
    create_row o tenant_id c trace_id flow_id version_id >=> λ (run, origin).
    announce run >=> λ _. launch o wait run origin >=> λ _. response_of run

abbrev in_progress : Result FlowRun
in_progress = err (raised "IdempotencyInProgressException")

-- The result of a request whose key another holds. A reply that is no dictionary is None or False.
unfoldable pub replay : Surroundings → Result Value → Result FlowRun
replay o (err x) = err x
replay o (ok (obj fields)) = elim (lookup fields "response") [
  | none ↦ in_progress
  | some response ↦ o.validate response
]
replay o (ok v) = if truthy v then err (raised "TypeError") else in_progress

-- What a request comes to before it stores its response: nothing more, or a response to store.
pub data Begun : Type 0 where
  ended : Result FlowRun → Begun
  to_store : FlowRun → Begun

-- A request, with its `tenant_id`, `wait` and `trace_id`.
pub record StartRequest : Type 0 where
  pub tenant_id : ℕ
  pub body : FlowRunCreate
  pub wait : Bool
  pub trace_id : Option String

unfoldable pub begun : Result FlowRun → Begun
begun (err x) = ended (err x)
begun (ok run) = to_store run

-- The result of a request whose response is stored, or not.
unfoldable pub after_storing : FlowRun → Result Value → Result FlowRun
after_storing run (err x) = err x
after_storing run (ok v) = ok run

-- The dictionary that is stored.
abbrev pub stored_fields : Surroundings → FlowRun → Fields
stored_fields o run =
    field "flow_run_id" (str (o.uuid_text run.id)) (field "response" (obj (o.dump run)) end)

module _ (r : Redis) (silent : Bool) (ttl : ℕ) (o : Surroundings) (key : String) where
  open r use {Store}

  -- What follows the answer of try_acquire.
  unfoldable pub with_reply :
      Call → StartRequest → ℕ → ℕ → Db → Store → Result Bool → Begun × (Db × Store)
  unfolding attempt replay begun
  with_reply reads q flow_id version_id db s (err x) = (ended (err x), (db, s))
  with_reply reads q flow_id version_id db s (ok false) =
      (ended (replay o (get r silent reads key s)), (db, s))
  with_reply reads q flow_id version_id db s (ok true) =
      let (result, written) =
        attempt o q.wait q.tenant_id q.body q.trace_id flow_id version_id db in
      (begun result, (written, s))

  -- `create_flow_run` from the key on
  unfoldable pub with_key : Call → Call → StartRequest → ℕ → ℕ → Db × Store → Begun × (Db × Store)
  unfolding with_reply
  with_key acquires reads q flow_id version_id (db, s) =
      let (reply, after) = try_acquire r silent ttl key acquires s in
      with_reply reads q flow_id version_id db after reply

  -- What follows the choice of a flow and a version.
  unfoldable pub begin_with :
      Call → Call → StartRequest → Db × Store → Result (ℕ × ℕ) → Begun × (Db × Store)
  unfolding with_key
  begin_with acquires reads q w (err x) = (ended (err x), w)
  begin_with acquires reads q w (ok (flow_id, version_id)) =
      with_key acquires reads q flow_id version_id w

  -- `create_flow_run` up to set_result
  unfoldable pub begin : Call → Call → StartRequest → Db × Store → Begun × (Db × Store)
  unfolding begin_with
  begin acquires reads q w = begin_with acquires reads q w (select_version o q.tenant_id q.body)

  unfoldable pub finish_with : Call → FlowRun → Store → Result FlowRun × Store
  unfolding after_storing
  finish_with c run s =
      let (reply, after) = set_result r silent ttl key c (stored_fields o run) s in
      (after_storing run reply, after)

  -- `create_flow_run`
  unfoldable pub create_flow_run :
      Call → Call → Call → StartRequest → Db × Store → Result FlowRun × (Db × Store)
  unfolding begin finish_with
  create_flow_run acquires reads stores q w =
      let (b, (db, s)) = begin acquires reads q w in
      elim b [
        | ended result ↦ (result, (db, s))
        | to_store run ↦ let (result, after) = finish_with stores run s in (result, (db, after))
      ]
