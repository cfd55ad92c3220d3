-- ===== src/Agent/Service.antt =====
-- domain/execution/services/agent_run_service.py on the rows of
-- domain/execution/repositories/agent_run_repository.py: how a run is executed, finished and cancelled.
-- A delegated run is a call of Outside, so the rows here are those of the other runs.
pub mod Settling
use agent_orchestration_core.Common.{
  zero, suc, ℕ, suc, String, Bool, true, false, ◌&&◌, find_row, update_rows, Option, none, some,
  List, [], ◌∷◌, str_eq, ◌==◌, Exn, domain, raised, Result, ok, err, ◌>>=◌, if◌then◌else◌,
}
use agent_orchestration_core.Runtime.Types.{RunStatus}
use agent_orchestration_core.Lifecycle.{AgentRunStatus}
use agent_orchestration_core.Agent.{
  AgentDefinition, RequestedGrant, ResolvedToolGrant, AgentRunScope, resolve_grant,
}
use agent_orchestration_core.Agent.Dispatcher.{AgentStore, Outside, TaskState}
use agent_orchestration_core.Agent.Loop.{
  Message, Completion, FinishReason, LoopResult, LoopState, LoopEnd, returned, raised_out,
  run_agent,
}
use agent_orchestration_core.Agent.Grants.{GrantSnapshot, grant_request_from_snapshot}

-- A row of agent_run.
pub record AgentRunRow : Type 0 where
  pub agent_run_id : ℕ
  pub tenant_id : String
  pub agent_id : String
  pub tool_grant : GrantSnapshot
  pub max_iterations : ℕ  -- 0 for NULL too
  pub delegation_depth : ℕ
  pub instruction : String
  pub status : RunStatus
  pub canonical_status : AgentRunStatus
  pub finish_reason : Option FinishReason
  pub iterations_used : ℕ
  pub output_text : String

pub data RunEvent : Type 0 where
  run_completed run_failed run_aborted : RunEvent

-- What the service writes besides the rows: artifacts and events.
pub data RunWrite : Type 0 where
  artifact : ℕ → String → RunWrite
  event : ℕ → RunEvent → RunWrite

pub record RunStore : Type 0 where
  pub rows : List AgentRunRow
  pub writes : List RunWrite
  pub agent : AgentStore

abbrev pub is_run : ℕ → AgentRunRow → Bool
is_run id r = r.agent_run_id == id

abbrev pub is_run_of : String → ℕ → AgentRunRow → Bool
is_run_of tenant id r = r.agent_run_id == id && str_eq r.tenant_id tenant

-- `get_agent_run`
unfoldable pub row_of : String → ℕ → List AgentRunRow → Option AgentRunRow
unfolding find_row
row_of tenant id rows = find_row (is_run_of tenant id) rows

-- `session.get(AgentRunModel, id)` and the assignments that follow
unfoldable pub update_row : ℕ → (AgentRunRow → AgentRunRow) → List AgentRunRow → List AgentRunRow
unfolding update_rows
update_row id change rows = update_rows (is_run id) change rows

abbrev pub running : AgentRunRow → AgentRunRow
running r = record r { status = RunStatus.running; canonical_status = AgentRunStatus.running }

-- `finish_agent_run`
abbrev pub finished :
    RunStatus → AgentRunStatus → FinishReason → ℕ → String → AgentRunRow → AgentRunRow
finished status canonical reason used text r = record r {
  status = status;
  canonical_status = canonical;
  finish_reason = some reason;
  iterations_used = used;
  output_text = text;
}

unfoldable pub is_final : FinishReason → Bool
is_final FinishReason.final_output = true
is_final _ = false

-- `_finalize`
unfoldable pub finalize : ℕ → LoopResult → RunStore → RunStore
unfolding is_final
finalize id result s =
    let succeeded = is_final result.finish_reason in
    let noted =
      if succeeded
      then (if str_eq result.output_text ""
          then s.writes
          else artifact id result.output_text ∷ s.writes)
      else s.writes in
    record s {
      rows =
          update_row id
            (finished (if succeeded then RunStatus.completed else RunStatus.failed)
              (if succeeded then AgentRunStatus.completed else AgentRunStatus.failed)
              result.finish_reason result.iterations_used result.output_text)
            s.rows;
      writes = event id (if succeeded then run_completed else run_failed) ∷ noted;
    }

-- `_finalize_failure`
unfoldable pub finalize_failure : ℕ → RunStore → RunStore
finalize_failure id s = record s {
  rows =
      update_row id (finished RunStatus.failed AgentRunStatus.failed FinishReason.llm_error 0 "")
        s.rows;
  writes = event id run_failed ∷ s.writes;
}

-- The end of the loop, with the store that it leaves.
unfoldable pub conclude_run : ℕ → LoopEnd → RunStore → Result LoopResult × RunStore
unfolding finalize finalize_failure
conclude_run id (returned result l) s =
    (ok result, finalize id result (record s { agent = l.store }))
conclude_run id (raised_out x l) s = (err x, finalize_failure id (record s { agent = l.store }))

-- What an execution is given: the rows of agents, the prompt, and the model.
pub record Setting : Type 0 where
  pub resolve_definition : String → String → Result AgentDefinition
  pub tenant_of : String → Option String
  pub prompt : AgentDefinition → ResolvedToolGrant → AgentRunRow → List Message
  pub complete : ℕ → List Message → Result Completion
  pub default_max_iterations : ℕ

-- The definition and the grant that a row is executed with.
unfoldable pub prepare : Setting → AgentRunRow → Result (AgentDefinition × ResolvedToolGrant)
prepare set r = do
  definition ← set.resolve_definition r.tenant_id r.agent_id
  grant ←
      resolve_grant set.tenant_of r.tenant_id definition (grant_request_from_snapshot r.tool_grant)
  ok (definition, grant)

-- `int(model.max_iterations or self.default_max_iterations)`
abbrev pub iterations_limit : ℕ → ℕ → ℕ
iterations_limit default zero = default
iterations_limit default (suc n) = suc n

abbrev pub loop_of :
    Outside → Setting → AgentRunRow → AgentDefinition → ResolvedToolGrant → AgentStore → LoopEnd
loop_of o set r definition grant store =
    run_agent o set.complete (record { delegation_depth = r.delegation_depth }) grant
      (set.prompt definition grant r) (iterations_limit set.default_max_iterations r.max_iterations)
      store

-- `_execute`
unfoldable pub execute : Outside → Setting → String → ℕ → RunStore → Result LoopResult × RunStore
unfolding conclude_run
execute o set tenant id s = elim (row_of tenant id s.rows) [
  | none ↦ (err (raised "NotFoundServiceException"), s)
  | some r ↦ elim (prepare set r) [
    | err x ↦ (err x, s)
    | ok (definition, grant) ↦
        conclude_run id (loop_of o set r definition grant s.agent)
          (record s { rows = update_row id running s.rows })
  ]
]

unfoldable pub is_terminal : AgentRunStatus → Bool
is_terminal AgentRunStatus.completed = true
is_terminal AgentRunStatus.failed = true
is_terminal AgentRunStatus.cancelled = true
is_terminal _ = false

-- `cancel_agent_run`, without the task of this process
unfoldable pub cancel_agent_run : String → ℕ → RunStore → Result AgentRunRow × RunStore
unfolding is_terminal
cancel_agent_run tenant id s = elim (row_of tenant id s.rows) [
  | none ↦ (err (raised "NotFoundServiceException"), s)
  | some r ↦
      if is_terminal r.canonical_status
      then (err (raised "ResourceBlockedServiceException"), s)
      else (let after = record s {
        rows =
            update_row id
              (finished RunStatus.cancelled AgentRunStatus.cancelled FinishReason.cancelled
                r.iterations_used "")
              s.rows;
        writes = event id run_aborted ∷ s.writes;
      } in
          (
            elim (row_of tenant id after.rows) [
              | none ↦ err (raised "NotFoundServiceException")
              | some row ↦ ok row
            ],
            after,
          ))
]
