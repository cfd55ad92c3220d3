-- ===== src/Lifecycle/Canonical.antt =====
-- state_machine.py: the statuses of a flow run against their canonical statuses.
use Prim.{Unit, tt}
use agent_orchestration_core.Common.{
  ◌≡◌, refl, ◌⊎◌, true, Result, ok, arith, String, Bool, not, ◌||◌, str_eq, eq_iff,
}
use agent_orchestration_core.Lifecycle.Sweep.{implied, every_run, every_run-each}
use agent_orchestration_core.Runtime.Types.{RunStatus, FlowRunStatus}
use agent_orchestration_core.Lifecycle.{
  flow_value, accepted, run_value, validate_transition, validate_flow,
}

-- The canonical status that is written with a status of the flow run: the executor, the workflow
-- and its cancellation write these pairs.
abbrev pub canonical : RunStatus → FlowRunStatus
canonical RunStatus.created = FlowRunStatus.created
canonical RunStatus.queued = FlowRunStatus.created
canonical RunStatus.running = FlowRunStatus.running
canonical RunStatus.waiting_input = FlowRunStatus.waiting
canonical RunStatus.completed = FlowRunStatus.completed
canonical RunStatus.failed = FlowRunStatus.failed
canonical RunStatus.cancelled = FlowRunStatus.failed

same_status : (c t : RunStatus) → Bool
same_status c t = str_eq (flow_value (canonical c)) (flow_value (canonical t))

either_way :
    (a b : String) (r : Result {0} Unit) → (str_eq a b || accepted r) ≡ true → (a ≡ b) ⊎ (r ≡ ok tt)
either_way a b r h = ground (arith, eq_iff a b)

-- Every change of status that `ExecutionStateMachine` accepts is, on the canonical statuses, no
-- change or one that `RunLifecycleStateMachine` accepts.
pub canonical-Simulates :
    (c t : RunStatus)
    → validate_transition (run_value c) (run_value t) ≡ ok tt
    → (flow_value (canonical c) ≡ flow_value (canonical t))
      ⊎ (validate_flow (canonical c) (canonical t) ≡ ok tt)
unfolding validate_transition validate_flow same_status
canonical-Simulates c t e =
    let follows = λ (x y : RunStatus).
      not (accepted (validate_transition (run_value x) (run_value y)))
      || (same_status x y || accepted (validate_flow (canonical x) (canonical y))) in
    either_way _ _ (validate_flow (canonical c) (canonical t)) (
      implied (validate_transition (run_value c) (run_value t)) _
        (every_run-each (λ y. follows c y)
          (every_run-each (λ x. every_run (λ y. follows x y)) refl c) t)
        e)
