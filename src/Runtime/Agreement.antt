-- ===== src/Runtime/Agreement.antt =====
-- executor.py against workflow.py and activities.py: one step, taken with the counters and the
-- context of the executor, and with those that the activity restores.
pub mod Steps
pub mod Run
use agent_orchestration_core.Common.{
  ℕ, suc, ◌+◌, String, ◌≡◌, refl, ap, ◌∙◌, sym, Bool, true, false, not, Option, none, some, List,
  [], ◌∷◌, Dict, get, Result, ok, err, Exn, raised, arith, Bool-cases, Option-cases, Result-cases,
  inl, inr, str_eq, ◌==◌,
}
use agent_orchestration_core.Value.{Fields, str, end}
use agent_orchestration_core.Value.Access.{store}
use agent_orchestration_core.Runtime.Types.{
  NodeSpec, CompiledEdge, ExecutionPlan, ExecutionContext, NodeResult, Checkpoint, Write,
  edge_evaluated, flow_run_failed, Repository, emit, Nodes, NodeStepStatus, NodeStepOutcome,
  FlowFailureReason, structural_error, unknown_node_type, node_not_found, no_matching_edge,
  multiple_matching_edges, edge_evaluation_error, NodeExecutionStatus,
}
use agent_orchestration_core.Runtime.Edges.{EdgeScan, EdgeStep, go, stop, edge_step, evaluate_edges}
use agent_orchestration_core.Runtime.Records.{record_result, checkpoint}
use agent_orchestration_core.Runtime.Step.{
  StepResult, edges_of, choose, next_context, leave_node, advance_from, conclude, execute_node,
  enter_node, run_step,
}
use agent_orchestration_core.Runtime.Scan.{repository_of, scan_induction}
use agent_orchestration_core.Runtime.Executor.{moved_to, reason_of}
use agent_orchestration_core.Runtime.Workflow.{Next, done, move, after_node, count_keys, finalize}
use agent_orchestration_core.Runtime.Workflow.Activities.{
  node_output, last_node_output, restored_context, waiting, completed, failed,
}
use agent_orchestration_core.Runtime.Counters.{
  Beside, Joint, together, apart, Doomed, evaluate_edges-Joint,
}

-- The log without the evaluations of edges and the exception of a failure. Past the loop limit the executor stops in the middle
-- of a node's edges, and the activity goes on to their end.
abbrev pub is_judgement : Write → Bool
is_judgement (edge_evaluated a b r) = true
is_judgement _ = false

abbrev pub unless : Bool → Write → List Write → List Write
unless true w ws = ws
unless false w ws = w ∷ ws

-- The exception that a failed run is stored with: the executor's own, or the activity's
-- ApplicationError.
abbrev pub plain : Write → Write
plain (flow_run_failed reason x) = flow_run_failed reason (raised "")
plain w = w

abbrev pub main_log : List Write → List Write
main_log [] = []
main_log (w ∷ ws) = unless (is_judgement w) (plain w) (main_log ws)

-- The context that an activity restores in the place of `c`.
abbrev pub blank : ExecutionContext → ExecutionContext
blank c = record c { current_node_run_id = none; node_output = end }

module _ (nodes : Nodes) (plan : ExecutionPlan) (limit : ℕ) (k : Dict ℕ) (current : String) where
  -- What the workflow does after the step `s0` of the activity.
  abbrev pub leaving : StepResult → ℕ → Next
  leaving s0 i =
      after_node nodes plan limit none (node_output s0.outcome) current i
        (count_keys limit (node_output s0.outcome).loop_edge_keys k) s0.repository

  -- The two steps end the run alike, or go on to the same node in the same state.
  pub data Agrees (s s0 : StepResult) : Type 0 where
    fail_alike :
        (reason : FlowFailureReason) (run : Option ℕ)
        → s.outcome.status ≡ NodeStepStatus.failed
        → reason_of s.outcome.failure_reason ≡ reason
        → ((i : ℕ)
            → leaving s0 i ≡ done (finalize none failed (some reason) current run i s0.repository))
        → main_log s.repository.log ≡ main_log s0.repository.log
        → Agrees s s0
    wait_alike :
        s.outcome.status ≡ NodeStepStatus.needs_input
        → ((i : ℕ)
            → leaving s0 i
              ≡ done (finalize none waiting none current s.outcome.node_run_id i s0.repository))
        → last_node_output s.outcome.node_run_id s0.repository ≡ s.outcome.node_data
        → s.repository ≡ s0.repository
        → Agrees s s0
    complete_alike :
        s.outcome.status ≡ NodeStepStatus.terminal
        → ((i : ℕ)
            → leaving s0 i
              ≡ done (finalize none completed none current s.outcome.node_run_id i s0.repository))
        → last_node_output s.outcome.node_run_id s0.repository ≡ s.outcome.node_data
        → s.outcome.context.current_node_id ≡ current
        → s.repository ≡ s0.repository
        → Agrees s s0
    move_alike :
        (next : String) (saved : Checkpoint)
        → s.outcome.status ≡ NodeStepStatus.advance
        → s.outcome.next_node_id ≡ some next
        → ((i : ℕ) → leaving s0 i ≡ move next)
        → (count_keys limit (node_output s0.outcome).loop_edge_keys k).0 ≡ s.counters
        → s.repository ≡ s0.repository
        → s.repository.graph_state ≡ some saved
        → restored_context next saved ≡ blank (moved_to (some next) s.outcome.context)
        → Agrees s s0

  -- A step that fails before any edge is scanned.
  fail_early :
      (s s0 : StepResult) (reason : FlowFailureReason)
      → s.outcome.status ≡ NodeStepStatus.failed
      → s.outcome.failure_reason ≡ some reason
      → s0.outcome.status ≡ NodeStepStatus.failed
      → s0.outcome.failure_reason ≡ some reason
      → s0.outcome.loop_edge_keys ≡ []
      → s.repository ≡ s0.repository
      → Agrees s s0
  unfolding node_output after_node count_keys reason_of
  fail_early s s0 reason e r e0 r0 l same =
      fail_alike reason s0.outcome.node_run_id e (rw (r, reason_of))
        (λ i. rw (e0, r0, l, node_output, after_node, count_keys))
        (ap (λ repository. main_log repository.log) same)

  abbrev leaving_with : NodeStepOutcome → Dict ℕ → Repository → StepResult
  leaving_with outcome counters repository = record {
    outcome = outcome;
    counters = counters;
    repository = repository;
    escapes = none;
  }

  module _ (node_type : String) (run_id : ℕ) (context : ExecutionContext)
      (result : NodeResult) where
    abbrev chosen : List String → List String → NodeStepOutcome
    chosen keys cs = choose plan node_type run_id context result keys cs

    -- The same candidates, with loop keys that are not too many.
    choose-Agrees :
        (cs keys : List String) (counters c0 : Dict ℕ) (repository : Repository)
        (saved : Checkpoint)
        → context.current_node_id ≡ current
        → count_keys limit keys k ≡ (counters, false)
        → repository.graph_state ≡ some saved
        → ((next : String)
            → restored_context next saved
              ≡ blank
                  (moved_to (some next) (next_context plan node_type run_id context result next)))
        → Agrees
            (leaving_with (chosen keys cs) counters repository)
            (leaving_with (chosen keys cs) c0 repository)
    unfolding node_output after_node reason_of choose
    choose-Agrees [] keys counters c0 repository saved here counted gs restored =
        fail_alike no_matching_edge (some run_id) refl refl (λ i. rw counted) refl
    choose-Agrees (next ∷ []) keys counters c0 repository saved here counted gs restored =
        move_alike next saved refl refl (λ i. rw counted) (ap (λ p. p.0) counted) refl gs
          (restored next)
    choose-Agrees (next ∷ other ∷ more) keys counters c0 repository saved here counted gs restored =
        fail_alike multiple_matching_edges (some run_id) refl refl (λ i. rw counted) refl

    -- Keys that are too many end the workflow, whichever edges hold.
    over_leaving :
        (cs keys : List String) (c0 : Dict ℕ) (repository : Repository)
        → (count_keys limit keys k).1 ≡ true
        → (i : ℕ)
        → leaving (leaving_with (chosen keys cs) c0 repository) i
          ≡ done
              (finalize none failed (some edge_evaluation_error) current (some run_id) i repository)
    unfolding node_output after_node choose
    over_leaving [] keys c0 repository d i = rw d
    over_leaving (next ∷ []) keys c0 repository d i = rw d
    over_leaving (next ∷ other ∷ more) keys c0 repository d i = rw d

    -- A scan that the executor leaves by an exception.
    abandon-Agrees :
        (x : Exn) (scan : EdgeScan) (r0 : EdgeStep)
        → Doomed limit k r0
        → main_log scan.repository.log ≡ main_log (repository_of r0).log
        → Agrees
            (leave_node plan node_type run_id context result (stop x scan))
            (leave_node plan node_type run_id context result r0)
    unfolding leave_node node_output after_node reason_of choose
    abandon-Agrees x scan (stop x0 s0) d logs =
        fail_alike edge_evaluation_error (some run_id) refl refl (λ i. ground arith) logs
    abandon-Agrees x scan (go s0) d logs =
        fail_alike edge_evaluation_error (some run_id) refl refl
          (over_leaving s0.candidates s0.loop_edge_keys s0.counters s0.repository d) logs

    leave-Agrees :
        (r r0 : EdgeStep) (saved : Checkpoint)
        → context.current_node_id ≡ current
        → Joint limit k r r0
        → main_log (repository_of r).log ≡ main_log (repository_of r0).log
        → (repository_of r).graph_state ≡ some saved
        → ((next : String)
            → restored_context next saved
              ≡ blank
                  (moved_to (some next) (next_context plan node_type run_id context result next)))
        → Agrees
            (leave_node plan node_type run_id context result r)
            (leave_node plan node_type run_id context result r0)
    unfolding leave_node
    leave-Agrees r r0 saved here (together {s = s} {s0 = s0} b) logs gs restored =
        rw (← b.candidates, ← b.keys, ← b.repository)
          (choose-Agrees s.candidates s.loop_edge_keys s.counters s0.counters s.repository saved
            here b.counted gs restored)
    leave-Agrees r r0 saved here (apart {s = s} x d) logs gs restored = abandon-Agrees x s r0 d logs

-- What the scan of the edges keeps of the repository.
record Judged (before after : Repository) : Type 0 where
  main_same : main_log after.log ≡ main_log before.log
  state_same : after.graph_state ≡ before.graph_state
  outputs_same : after.node_outputs ≡ before.node_outputs

Judged-trans : (a b c : Repository) → Judged a b → Judged b c → Judged a c
Judged-trans a b c p q = record {
  main_same = q.main_same ∙ p.main_same;
  state_same = q.state_same ∙ p.state_same;
  outputs_same = q.outputs_same ∙ p.outputs_same;
}

module _ (nodes : Nodes) (limit : ℕ) (current : String) (output : Fields) where
  edge_step-Judged :
      (e : CompiledEdge) (scan : EdgeScan)
      → Judged scan.repository (repository_of (edge_step nodes limit current output e scan))
  unfolding edge_step
  edge_step-Judged e scan = ground arith

  evaluate_edges-Judged :
      (es : List CompiledEdge) (scan : EdgeScan)
      → Judged scan.repository (repository_of (evaluate_edges nodes limit current output es scan))
  evaluate_edges-Judged =
      scan_induction nodes limit current output Judged
        (λ r. record { main_same = refl; state_same = refl; outputs_same = refl }) Judged-trans
        edge_step-Judged
