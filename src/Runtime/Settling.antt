-- ===== src/Runtime/Settling.antt =====
-- node_step_runner.py and executor.py: a step never settles the flow, and a traversal settles it
-- exactly once, unless an exception leaves it.
use agent_orchestration_core.Common.{
  ℕ, suc, ◌+◌, ◌≤◌, String, ◌≡◌, refl, ◌∙◌, Bool, true, false, ◌&&◌, some, Bool-cases, List, [],
  ◌∷◌, Dict, arith, get, Option-cases, Result-cases, inl, inr,
}
use agent_orchestration_core.Value.{Fields, str}
use agent_orchestration_core.Value.Access.{store}
use agent_orchestration_core.Runtime.Types.{
  NodeSpec, ExecutionPlan, ExecutionContext, NodeResult, Write, flow_status_set, flow_run_completed,
  flow_run_failed, Repository, Nodes, CompiledEdge, emit, RunStatus, FlowRunStatus,
  node_run_created, node_started,
}
use agent_orchestration_core.Lifecycle.{accepted, run_value, validate_transition, validate_flow}
use agent_orchestration_core.Runtime.Edges.{EdgeScan, EdgeStep, go, stop, edge_step, evaluate_edges}
use agent_orchestration_core.Runtime.Scan.{repository_of, scan_induction}
use agent_orchestration_core.Runtime.Records.{
  record_result, account_result, state_after, readable_outputs,
}
use agent_orchestration_core.Runtime.Step.{
  leave_node, advance_from, settle_step, conclude, run_node, execute_node, enter_node, run_step,
  edges_of,
}

-- The writes that give the flow run a new status.
abbrev pub settles : Write → Bool
settles (flow_status_set s c) = true
settles (flow_run_completed o) = true
settles (flow_run_failed r x) = true
settles _ = false

-- The statuses that such a write gives are accepted from RUNNING by both state machines.
abbrev pub follows_running : RunStatus → FlowRunStatus → Bool
follows_running s c =
    accepted (validate_transition "RUNNING" (run_value s))
    && accepted (validate_flow FlowRunStatus.running c)

abbrev pub is_accepted : Write → Bool
is_accepted (flow_status_set s c) = follows_running s c
is_accepted (flow_run_completed o) = follows_running RunStatus.completed FlowRunStatus.completed
is_accepted (flow_run_failed r x) = follows_running RunStatus.failed FlowRunStatus.failed
is_accepted _ = false

abbrev pub keep_if : Bool → Write → List Write → List Write
keep_if true w ws = w ∷ ws
keep_if false w ws = ws

abbrev pub settling : List Write → List Write
settling [] = []
settling (w ∷ ws) = keep_if (settles w) w (settling ws)

-- What a step may do to the repository: no status of the flow, and at most one node run.
pub record Keeps (before after : Repository) : Type 0 where
  pub settling_same : settling after.log ≡ settling before.log
  pub one_run : after.next_run_id ≤ before.next_run_id + 1
  pub calm : after.escaped ≡ before.escaped

pub record Same (before after : Repository) : Type 0 where
  pub settling_same : settling after.log ≡ settling before.log
  pub no_run : after.next_run_id ≡ before.next_run_id
  pub calm : after.escaped ≡ before.escaped

Same-trans : {a b c : Repository} → Same a b → Same b c → Same a c
Same-trans s t = record {
  settling_same = t.settling_same ∙ s.settling_same;
  no_run = t.no_run ∙ s.no_run;
  calm = t.calm ∙ s.calm;
}

module _ (nodes : Nodes) (limit : ℕ) (current : String) (output : Fields) where
  edge_step-Same :
      (e : CompiledEdge) (scan : EdgeScan)
      → Same scan.repository (repository_of (edge_step nodes limit current output e scan))
  unfolding edge_step
  edge_step-Same e scan = ground arith

  evaluate_edges-Same :
      (es : List CompiledEdge) (scan : EdgeScan)
      → Same scan.repository (repository_of (evaluate_edges nodes limit current output es scan))
  evaluate_edges-Same =
      scan_induction nodes limit current output Same
        (λ r. record { settling_same = refl; no_run = refl; calm = refl })
        (λ a b c p q. Same-trans p q) edge_step-Same

module _ (plan : ExecutionPlan) (node_type : String) (run_id : ℕ) where
  repository-leave_node :
      (context : ExecutionContext) (result : NodeResult) (r : EdgeStep)
      → (leave_node plan node_type run_id context result r).repository ≡ repository_of r
  unfolding leave_node
  repository-leave_node context result (go scan) = refl
  repository-leave_node context result (stop x scan) = refl

account_result-Same :
    (run_id : ℕ) (result : NodeResult) (repository : Repository)
    → Same repository (account_result run_id result repository)
unfolding account_result
account_result-Same run_id result repository = ground arith

record_result-Same :
    (run_id : ℕ) (context : ExecutionContext) (config : Fields) (result : NodeResult)
    (repository : Repository)
    → Same repository (record_result run_id context config result repository)
unfolding record_result account_result
record_result-Same run_id context config result repository = ground arith

module _ (nodes : Nodes) (plan : ExecutionPlan) (limit : ℕ) where
  advance_from-Same :
      (node_type : String) (run_id : ℕ) (context : ExecutionContext) (result : NodeResult)
      (counters : Dict ℕ) (repository : Repository)
      → Same repository
          ((advance_from nodes plan limit node_type run_id context result counters
            repository)).repository
  unfolding advance_from
  advance_from-Same node_type run_id context result counters repository =
      let scan : EdgeScan = record {
        counters = counters;
        loop_edge_keys = [];
        candidates = [];
        repository = repository;
      } in
      rw
        (repository-leave_node plan node_type run_id context result (
          evaluate_edges nodes limit context.current_node_id result.output
            (edges_of plan context.current_node_id) scan))
        (evaluate_edges-Same nodes limit context.current_node_id result.output
          (edges_of plan context.current_node_id) scan)

  settle_step-Same :
      (spec : NodeSpec) (run_id : ℕ) (context : ExecutionContext) (result : NodeResult)
      (counters : Dict ℕ) (repository : Repository)
      → Same repository
          (settle_step nodes plan limit spec run_id context result counters repository).repository
  unfolding settle_step
  settle_step-Same spec run_id context result counters repository =
      let returned : ExecutionContext = record context { node_output = result.output } in
      let recorded : Repository = record_result run_id returned spec.config result repository in
      ground (
        arith,
        record_result-Same run_id returned spec.config result repository,
        advance_from-Same spec.node_type run_id returned result counters recorded,
      )

  conclude-Same :
      (spec : NodeSpec) (run_id : ℕ) (context : ExecutionContext) (result : NodeResult)
      (counters : Dict ℕ) (repository : Repository)
      → Same repository
          (conclude nodes plan limit spec run_id context result counters repository).repository
  unfolding conclude
  conclude-Same spec run_id context result counters repository =
      elim (Bool-cases (readable_outputs (state_after result.next_state context.state))) [
        | inl fine ↦
            rw (fine, conclude) (settle_step-Same spec run_id context result counters repository)
        | inr bad ↦ rw (bad, conclude) (account_result-Same run_id result repository)
      ]

  -- A node run is created, and what follows creates none.
  run_node-Keeps :
      (spec : NodeSpec) (context : ExecutionContext) (counters : Dict ℕ) (repository : Repository)
      → Keeps repository (run_node nodes plan limit spec context counters repository).repository
  unfolding run_node
  run_node-Keeps spec context counters repository =
      let run_id = repository.next_run_id in
      let created =
        emit
          (node_run_created run_id context.current_node_id context.state context.memory
            context.metadata)
          (record repository { next_run_id = suc run_id }) in
      let running : ExecutionContext = record context { current_node_run_id = some run_id } in
      let started = emit (node_started context.current_node_id) created in
      elim (Result-cases (nodes.execute spec.node_type running spec.config)) [
        | inl (result, e) ↦
            let s = conclude-Same spec run_id running result counters started in
            rw (e, run_node)
              (record {
                settling_same = s.settling_same;
                one_run = omega (arith, s.no_run);
                calm = s.calm;
              })
        | inr (x, e) ↦
            rw (e, run_node) (record { settling_same = refl; one_run = omega arith; calm = refl })
      ]

  execute_node-Keeps :
      (spec : NodeSpec) (context : ExecutionContext) (counters : Dict ℕ) (repository : Repository)
      → Keeps repository (execute_node nodes plan limit spec context counters repository).repository
  unfolding execute_node
  execute_node-Keeps spec context counters repository =
      elim (Bool-cases (nodes.is_uuid context.current_node_id)) [
        | inl uuid ↦ rw (uuid, execute_node) (run_node-Keeps spec context counters repository)
        | inr other ↦
            rw (other, execute_node)
              (record { settling_same = refl; one_run = omega arith; calm = refl })
      ]

  enter_node-Keeps :
      (spec : NodeSpec) (context : ExecutionContext) (counters : Dict ℕ) (repository : Repository)
      → Keeps repository (enter_node nodes plan limit spec context counters repository).repository
  unfolding enter_node
  enter_node-Keeps spec context counters repository =
      let entered : ExecutionContext = record context {
        metadata = store context.metadata "current_node_type" (str spec.node_type);
      } in
      ground (arith, execute_node-Keeps spec entered counters repository)

  -- One step settles nothing, and creates at most one node run.
  pub run_step-Keeps :
      (context : ExecutionContext) (counters : Dict ℕ) (repository : Repository)
      → Keeps repository (run_step nodes plan limit context counters repository).repository
  unfolding run_step
  run_step-Keeps context counters repository =
      elim (Option-cases (get plan.nodes context.current_node_id)) [
        | inl e ↦
            rw (e, run_step) (record { settling_same = refl; one_run = omega arith; calm = refl })
        | inr (spec, e) ↦ rw (e, run_step) (enter_node-Keeps spec context counters repository)
      ]

module _ (nodes : Nodes) (plan : ExecutionPlan) (limit : ℕ) where
  -- The run of the loop from here on: the status writes that it adds, and the node runs.
  pub record Ends (rounds : ℕ) (before after : Repository) : Type 0 where
    pub last : Write
    pub last_settles : settles last ≡ true
    pub last_accepted : is_accepted last ≡ true
    pub settling_once : settling after.log ≡ last ∷ settling before.log
    pub runs_bounded : after.next_run_id ≤ before.next_run_id + rounds
