-- ===== src/Agent/Service/Settling.antt =====
-- agent_run_service.py: an execution ends in a terminal status, within its iterations, and keeps to the
-- grant that the row was created with.
use Prim.{tt}
use agent_orchestration_core.Common.{
  ℕ, zero, suc, ◌+◌, ◌≤◌, String, ◌≡◌, refl, sym, ap, Bool, true, false, some, List, [], str_eq,
  domain, raised, Result, ok, err, arith, has, Bool-cases, Result-cases, inl, inr, if◌then◌else◌,
  find_row-update_rows, >>=-eq-ok, ok_inj, and_left,
}
use agent_orchestration_core.Runtime.Types.{RunStatus}
use agent_orchestration_core.Lifecycle.{AgentRunStatus, validate_agent}
use agent_orchestration_core.Agent.{
  AgentDefinition, ResolvedToolGrant, AgentRunScope, from_keys, resolve_grant,
}
use agent_orchestration_core.Agent.Dispatcher.{Outside}
use agent_orchestration_core.Agent.Loop.{
  Message, Completion, FinishReason, LoopResult, LoopState, LoopEnd, returned, raised_out,
  result_of, turn_failed, run_turns, run_agent, has_calls,
}
use agent_orchestration_core.Agent.Grants.{names_of, snapshot-names, grant_request_from_snapshot}
use agent_orchestration_core.Agent.Effects.{all_authorized, left_with, run_agent-authorized}
use agent_orchestration_core.Agent.Service.{
  AgentRunRow, RunStore, is_run, is_run_of, row_of, update_row, running, finished, is_final,
  finalize, finalize_failure, conclude_run, Setting, prepare, loop_of, iterations_limit, execute,
  is_terminal,
}

-- The iterations that the end of a loop reports.
unfoldable pub iterations_of : LoopEnd → ℕ
iterations_of (returned result l) = result.iterations_used
iterations_of (raised_out x l) = 0

module _ (o : Outside) (complete : ℕ → List Message → Result Completion) (scope : AgentRunScope)
    (grant : ResolvedToolGrant) where
  run_turns-le :
      (n done : ℕ) (s : LoopState)
      → iterations_of (run_turns o complete scope grant n done s) ≤ done + n
  unfolding run_turns iterations_of result_of turn_failed
  run_turns-le zero done s = omega arith
  run_turns-le (suc n) done s = elim (Result-cases (complete (suc done) s.messages)) [
    | inr (domain m, e) ↦ rw (e, iterations_of, run_turns) (omega arith)
    | inr (raised x, e) ↦ rw (e, iterations_of, run_turns) (omega arith)
    | inl (c, e) ↦
        rw (e, iterations_of, run_turns)
          (elim (Bool-cases (has_calls o complete scope grant c.tool_calls)) [
            | inr f ↦ rw (f, iterations_of, run_turns) (omega arith)
            | inl f ↦ rw (f, iterations_of, run_turns) (omega (arith, run_turns-le n (suc done) _))
          ])
  ]

unfoldable pub is_success : Result LoopResult → Bool
unfolding is_final
is_success (ok result) = is_final result.finish_reason
is_success (err x) = false

unfoldable pub is_completed : AgentRunStatus → Bool
is_completed AgentRunStatus.completed = true
is_completed _ = false

-- How a row stands after an execution that replies so.
pub record IsSettled (limit : ℕ) (r : AgentRunRow) (reply : Result LoopResult) (after : AgentRunRow)
    : Type 0 where
  pub accepted : validate_agent AgentRunStatus.running after.canonical_status ≡ ok tt
  pub terminal : is_terminal after.canonical_status ≡ true
  pub answers : is_completed after.canonical_status ≡ is_success reply
  pub within : after.iterations_used ≤ limit
  pub frozen : after.tool_grant ≡ r.tool_grant

module _ (tenant : String) (id : ℕ) where
  row_of-update_row :
      (change : AgentRunRow → AgentRunRow) (rows : List AgentRunRow) (r : AgentRunRow)
      → ((x : AgentRunRow) → is_run_of tenant id (change x) ≡ is_run_of tenant id x)
      → row_of tenant id rows ≡ some r
      → row_of tenant id (update_row id change rows) ≡ some (change r)
  unfolding row_of update_row
  row_of-update_row change rows r keeps h =
      find_row-update_rows (is_run_of tenant id) (is_run id) change rows r keeps
        (λ x e. and_left (is_run id x) (str_eq x.tenant_id tenant) e) h

  -- The row after the end of a loop that has kept to its iterations.
  conclude_run-IsSettled :
      (limit : ℕ) (r : AgentRunRow) (end : LoopEnd) (s : RunStore)
      → row_of tenant id s.rows ≡ some (running r)
      → iterations_of end ≤ limit
      → (after : AgentRunRow) × (row_of tenant id (conclude_run id end s).1.rows ≡ some after)
        × IsSettled limit r (conclude_run id end s).0 after
  unfolding conclude_run iterations_of is_success is_completed is_terminal validate_agent has
  conclude_run-IsSettled limit r (raised_out x l) s h k = (
    finished RunStatus.failed AgentRunStatus.failed FinishReason.llm_error 0 "" (running r),
    row_of-update_row (finished RunStatus.failed AgentRunStatus.failed FinishReason.llm_error 0 "")
        s.rows (running r) (λ x. refl) h,
    record {
      accepted = refl;
      terminal = refl;
      answers = refl;
      within = omega arith;
      frozen = refl;
    },
  )
  conclude_run-IsSettled limit r (returned result l) s h k =
      elim (Bool-cases (is_final result.finish_reason)) [
        | inl e ↦
            rw (e, conclude_run)
              (
                finished RunStatus.completed AgentRunStatus.completed result.finish_reason
                    result.iterations_used result.output_text (running r),
                row_of-update_row
                    (finished RunStatus.completed AgentRunStatus.completed result.finish_reason
                      result.iterations_used result.output_text)
                    s.rows (running r) (λ x. refl) h,
                record {
                  accepted = refl;
                  terminal = refl;
                  answers = sym e;
                  within = k;
                  frozen = refl;
                },
              )
        | inr e ↦
            rw (e, conclude_run)
              (
                finished RunStatus.failed AgentRunStatus.failed result.finish_reason
                    result.iterations_used result.output_text (running r),
                row_of-update_row
                    (finished RunStatus.failed AgentRunStatus.failed result.finish_reason
                      result.iterations_used result.output_text)
                    s.rows (running r) (λ x. refl) h,
                record {
                  accepted = refl;
                  terminal = refl;
                  answers = sym e;
                  within = k;
                  frozen = refl;
                },
              )
      ]

module _ (o : Outside) (set : Setting) (tenant : String) (id : ℕ) (s : RunStore) (r : AgentRunRow)
    (present : row_of tenant id s.rows ≡ some r) (definition : AgentDefinition)
    (grant : ResolvedToolGrant) (prepared : prepare set r ≡ ok (definition, grant)) where
  execute-conclude_run :
      execute o set tenant id s
      ≡ conclude_run id
          (loop_of o set r definition grant s.agent)
          (record s { rows = update_row id running s.rows })
  unfolding execute
  execute-conclude_run = simp (execute, present, prepared)

  -- An execution of a run whose definition and grant can be resolved leaves its row in a status that
  -- is terminal and that the state machine accepts from RUNNING, COMPLETED exactly if the reply is a
  -- final output, with no more iterations than the row allows, or than the default if the row has none
  -- or 0, and with the grant as it was.
  pub execute-IsSettled :
      (after : AgentRunRow) × (row_of tenant id (execute o set tenant id s).1.rows ≡ some after)
      × IsSettled
          (iterations_limit set.default_max_iterations r.max_iterations)
          r
          (execute o set tenant id s).0
          after
  unfolding run_agent
  execute-IsSettled =
      let within : iterations_of (loop_of o set r definition grant s.agent)
          ≤ iterations_limit set.default_max_iterations r.max_iterations =
        omega (
          arith,
          run_turns-le o set.complete (record { delegation_depth = r.delegation_depth }) grant
              (iterations_limit set.default_max_iterations r.max_iterations) 0 _,
        ) in
      rw (execute-conclude_run) (
        conclude_run-IsSettled tenant id
          (iterations_limit set.default_max_iterations r.max_iterations) r
          (loop_of o set r definition grant s.agent)
          (record s { rows = update_row id running s.rows })
          (row_of-update_row tenant id running s.rows r (λ x. refl) present) within)

  conclude_run-agent :
      (end : LoopEnd) (t : RunStore)
      → (conclude_run id end t).1.agent
        ≡ (left_with
            (record { delegation_depth = r.delegation_depth })
            grant
            o
            set.complete
            end).store
  unfolding conclude_run finalize finalize_failure
  conclude_run-agent (returned result l) t = refl
  conclude_run-agent (raised_out x l) t = refl

  -- Whatever has been published since the run was created, an execution runs only tools whose names
  -- are in the grant that the row holds, and delegates only to the agents in it, one level below the
  -- run and at most three deep; so does its log, if it did before.
  pub execute-authorized :
      all_authorized (record { delegation_depth = r.delegation_depth }) grant s.agent.log ≡ true
      → (all_authorized
            (record { delegation_depth = r.delegation_depth })
            grant
            (execute o set tenant id s).1.agent.log
          ≡ true)
        × (names_of grant.tools ≡ from_keys [] r.tool_grant.function_names)
        × (grant.delegate_agent_ids ≡ (
            if r.tool_grant.allow_agent_delegation
            then from_keys [] r.tool_grant.delegate_agent_ids
            else []))
  unfolding prepare
  execute-authorized before =
      let (d, found, rest) = >>=-eq-ok (set.resolve_definition r.tenant_id r.agent_id) _ prepared in
      let (g, resolved, made) =
        >>=-eq-ok
          (resolve_grant set.tenant_of r.tenant_id d (grant_request_from_snapshot r.tool_grant)) _
          rest in
      let same : g ≡ grant = ap (λ x. x.1) (ok_inj _ _ made) in
      let (names, allowed, agents) =
        snapshot-names set.tenant_of r.tenant_id d r.tool_grant grant (rw (← same) resolved) in
      (
        rw (execute-conclude_run, conclude_run-agent)
            (run_agent-authorized (record { delegation_depth = r.delegation_depth }) grant o
              set.complete (set.prompt definition grant r)
              (iterations_limit set.default_max_iterations r.max_iterations) s.agent before),
        names,
        agents,
      )
