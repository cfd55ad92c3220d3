-- ===== src/Runtime/Workflow.antt =====
-- adapters/temporal/workflow.py and activities.py: the same traversal as a durable workflow, whose
-- activities read the graph state back from the repository at every step.
pub mod Activities
pub mod Run
use agent_orchestration_core.Common.{
  ℕ, zero, suc, ◌+◌, String, Bool, true, false, Option, none, some, List, [], ◌∷◌, Dict, get, put,
  raised, Result, ok, err, ◌>>=◌, ltb, if◌then◌else◌,
}
use agent_orchestration_core.Runtime.Types.{
  FlowFailureReason, edge_evaluation_error, max_steps_exceeded, structural_error, ExecutionPlan,
  Repository, Nodes,
}
use agent_orchestration_core.Runtime.Workflow.Activities.{
  ExecuteNodeOutput, ActivityStatus, Outcome, waiting, completed, failed, execute_node,
  finalize_flow_run,
}

-- `counters.get(key, 0) + 1`
unfoldable pub next_count : Option ℕ → ℕ
next_count none = 1
next_count (some n) = n + 1

-- The loop over `step.loop_edge_keys`: the counters, and whether one went past the limit.
unfoldable pub count_keys : ℕ → List String → Dict ℕ → Dict ℕ × Bool
unfolding next_count
count_keys limit [] counters = (counters, false)
count_keys limit (key ∷ keys) counters =
    let count = next_count (get counters key) in
    let counted = put counters key count in
    let rest = count_keys limit keys counted in if ltb limit count then (counted, true) else rest

pub record WorkflowResult : Type 0 where
  pub outcome : Outcome
  pub failure_reason : Option FlowFailureReason
  pub steps_executed : ℕ

-- `_finalize`
unfoldable pub finalize :
    Option String
    → Outcome
    → Option FlowFailureReason
    → String
    → Option ℕ
    → ℕ
    → Repository
    → Repository × WorkflowResult
unfolding finalize_flow_run
finalize idempotency_key outcome reason last_node_id last_node_run_id step_index repository = (
  finalize_flow_run idempotency_key outcome reason last_node_id last_node_run_id repository,
  record { outcome = outcome; failure_reason = reason; steps_executed = step_index },
)

-- What the workflow does with the output of `execute_node`: it finalizes, or goes on to a node.
pub data Next : Type 0 where
  done : Repository × WorkflowResult → Next
  move : String → Next

or_structural : Option FlowFailureReason → FlowFailureReason
or_structural none = structural_error
or_structural (some reason) = reason

module _ (nodes : Nodes) (plan : ExecutionPlan) (loop_limit : ℕ)
    (idempotency_key : Option String) where
  leave : ExecuteNodeOutput → String → ℕ → Repository → Next
  unfolding or_structural finalize
  leave step executed step_index repository = elim step.status [
    | ActivityStatus.needs_input ↦
        done (finalize idempotency_key waiting none executed step.node_run_id step_index repository)
    | ActivityStatus.error ↦
        if step.terminal
        then done (
            finalize idempotency_key completed none executed step.node_run_id step_index repository)
        else done (
            finalize idempotency_key failed (some (or_structural step.failure_reason)) executed
              step.node_run_id step_index repository)
    | ActivityStatus.success ↦
        if step.terminal
        then done (
            finalize idempotency_key completed none executed step.node_run_id step_index repository)
        else elim step.next_node_id [
          | some next ↦ move next
          | none ↦ done (
              finalize idempotency_key failed (some (or_structural step.failure_reason)) executed
                step.node_run_id step_index repository)
        ]
  ]

  unfoldable pub after_node : ExecuteNodeOutput → String → ℕ → Dict ℕ × Bool → Repository → Next
  unfolding leave
  after_node step executed step_index (counters, exceeded) repository =
      if exceeded
      then done (
          finalize idempotency_key failed (some edge_evaluation_error) executed step.node_run_id
            step_index repository)
      else leave step executed step_index repository

  -- The `for` loop of `run`, with the rounds that are left. An activity that raises ends the
  -- workflow with its exception.
  unfoldable pub interpret :
      ℕ → String → ℕ → Dict ℕ → Repository → Result (Repository × WorkflowResult)
  unfolding after_node count_keys execute_node
  interpret zero current step_index counters repository =
      ok (
        finalize idempotency_key failed (some max_steps_exceeded) current none step_index
          repository)
  interpret (suc rounds) current step_index counters repository =
      elim (execute_node nodes plan loop_limit current repository) [
        | err x ↦ err x
        | ok (step, after) ↦
            let counted = count_keys loop_limit step.loop_edge_keys counters in
            elim (after_node step current (suc step_index) counted after) [
              | done result ↦ ok result
              | move next ↦ interpret rounds next (suc step_index) counted.0 after
            ]
      ]
