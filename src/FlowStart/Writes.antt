-- ===== src/FlowStart/Writes.antt =====
-- What ExecutionService.create_flow_run and _dispatch_flow_run of
-- domain/execution/services/execution_service.py write.
use agent_orchestration_core.Common.{
  ℕ, ◌+◌, String, Bool, ◌&&◌, Option, none, some, List, ◌∷◌, ◌==◌, str_eq, Unit, tt, domain, raised,
  Result, ok, err, find_row, update_rows, if◌then◌else◌,
}
use agent_orchestration_core.Runtime.Types.{RunStatus, FlowRunStatus}
use agent_orchestration_core.FlowStart.{
  FlowRunCreate, SessionRow, Interaction, FlowRun, Db, Origin, Surroundings,
}
use agent_orchestration_core.FlowStart.Choices.{origin_candidate, choose_origin, is_flow_run}

-- A statement that may raise: its result, and the tables after it.
abbrev pub Act : Type 0 → Type 0
Act A = Db → Result A × Db

abbrev pub and_then : {A B : Type 0} → (A → Act B) → Result A × Db → Result B × Db
and_then k (err x, db) = (err x, db)
and_then k (ok a, db) = k a db

infixl 5 ◌>=>◌
abbrev pub ◌>=>◌ : {A B : Type 0} → Act A → (A → Act B) → Act B
(m >=> k) db = and_then k (m db)

-- A call that writes no table.
abbrev pub given : {A : Type 0} → Result A → Act A
given result db = (result, db)

abbrev pub has_session : ℕ → SessionRow → Bool
has_session id s = s.session_id == id

abbrev pub has_user : ℕ → String → ℕ × String → Bool
has_user tenant_id user_id (t, u) = t == tenant_id && str_eq u user_id

abbrev pub with_user : ℕ → String → List (ℕ × String) → List (ℕ × String)
with_user tenant_id user_id users = elim (find_row (has_user tenant_id user_id) users) [
  | none ↦ (tenant_id, user_id) ∷ users
  | some u ↦ users
]

-- The session of a request, which `create_session` adds if there is none.
unfoldable pub open_session : ℕ → FlowRunCreate → Act Unit
open_session tenant_id c db = elim (find_row (has_session c.session_id) db.sessions) [
  | none ↦ (
    ok tt,
    record db {
      users = with_user tenant_id c.user_id db.users;
      sessions =
          record { session_id = c.session_id; tenant_id = tenant_id; user_id = c.user_id }
          ∷ db.sessions;
    },
  )
  | some s ↦ (
    if s.tenant_id == tenant_id && str_eq s.user_id c.user_id
        then ok tt
        else err (raised "DomainConflictException"),
    db,
  )
]

-- `uuid4`
unfoldable pub fresh_id : Act ℕ
fresh_id db = (ok db.next_id, record db { next_id = db.next_id + 1 })

-- `trace_uuid`
unfoldable pub trace_uuid : Surroundings → Option String → Act ℕ
unfolding fresh_id
trace_uuid o none = fresh_id
trace_uuid o (some text) = elim (o.uuid_of text) [
  | none ↦ given (err (domain "invalid_trace_id"))
  | some id ↦ given (ok id)
]

-- `create_interaction`
unfoldable pub create_interaction : ℕ → Act ℕ
create_interaction session_id db = (
  ok db.next_id,
  record db {
    interactions =
        record { interaction_id = db.next_id; session_id = session_id; flow_run_id = none }
        ∷ db.interactions;
    next_id = db.next_id + 1;
  },
)

-- `flow_run.correlation_id or uuid4()`
unfoldable pub correlation_of : Option ℕ → Act ℕ
unfolding fresh_id
correlation_of none = fresh_id
correlation_of (some id) = given (ok id)

unfoldable pub find_origin : Surroundings → FlowRunCreate → ℕ → Act Origin
unfolding origin_candidate
find_origin o c version_id db =
    (choose_origin o (origin_candidate c version_id db.flow_runs) db.flow_runs, db)

-- `create_flow_run` of the repository, with the columns' defaults for the statuses
unfoldable pub insert_flow_run : FlowRun → Act FlowRun
insert_flow_run run db =
    let row = record run { id = db.next_id } in
    (
      ok row,
      record db {
        flow_runs = row ∷ db.flow_runs;
        locks = db.next_id ∷ db.locks;
        next_id = db.next_id + 1;
      },
    )

abbrev pub is_interaction : ℕ → Interaction → Bool
is_interaction id i = i.interaction_id == id

-- `link_interaction_to_flow_run`, then the hook's FlowStarted
unfoldable pub announce : FlowRun → Act Unit
announce run db = (
  ok tt,
  record db {
    interactions =
        update_rows (is_interaction run.interaction_id)
          (λ i. record i { flow_run_id = some run.id }) db.interactions;
    started = run.id ∷ db.started;
  },
)

abbrev pub left_in : RunStatus → FlowRunStatus → FlowRun → FlowRun
left_in status canonical run = record run { status = status; canonical_status = canonical }

-- The run's row, whose statuses something else has set.
abbrev pub set_statuses : ℕ → Result {0} Unit × (RunStatus × FlowRunStatus) → Act Unit
set_statuses id (result, (status, canonical)) db = (
  result,
  record db { flow_runs = update_rows (is_flow_run id) (left_in status canonical) db.flow_runs },
)

-- `set_flow_run_dispatch`
abbrev pub dispatched : String → FlowRun → FlowRun
dispatched workflow run = record run {
  status = RunStatus.queued;
  canonical_status = FlowRunStatus.created;
  temporal_workflow_id = some workflow;
}

abbrev pub set_dispatch : ℕ → String → Act Unit
set_dispatch id workflow db = (
  ok tt,
  record db { flow_runs = update_rows (is_flow_run id) (dispatched workflow) db.flow_runs },
)

-- `_dispatch_flow_run` of a first turn
unfoldable pub dispatch_by :
    Surroundings
    → Bool
    → FlowRun
    → Option String
    → Option (FlowRun → Option String → Result String)
    → Act Unit
dispatch_by o wait run start_node_id none = given (err (domain "workflow_engine_unavailable"))
dispatch_by o wait run start_node_id (some start) = given (start run start_node_id) >=> λ workflow.
    set_dispatch run.id workflow >=> λ _.
    if wait then set_statuses run.id (o.awaits workflow) else given (ok tt)

unfoldable pub dispatch_flow_run : Surroundings → Bool → FlowRun → Option String → Act Unit
unfolding dispatch_by
dispatch_flow_run o wait run start_node_id = dispatch_by o wait run start_node_id o.starts

-- The compilation and the run in the process, as far as they write the flow run's row.
unfoldable pub run_here : Surroundings → FlowRun → Origin → Act Unit
run_here o run origin = set_statuses run.id (o.runs run origin)

unfoldable pub launch : Surroundings → Bool → FlowRun → Origin → Act Unit
unfolding dispatch_flow_run run_here
launch o wait run origin =
    if o.temporal_enabled
    then dispatch_flow_run o wait run origin.start_node_id
    else run_here o run origin

-- `_merge_flow_run_result`, with the row as it is then
abbrev pub merged : FlowRun → Option FlowRun → FlowRun
merged response none = response
merged response (some row) = record response {
  status = row.status;
  canonical_status = row.canonical_status;
  temporal_workflow_id = row.temporal_workflow_id;
}

unfoldable pub response_of : FlowRun → Act FlowRun
response_of run db = (ok (merged run (find_row (is_flow_run run.id) db.flow_runs)), db)
