-- ===== src/Compiler/Bound.antt =====
-- graph_compiler.py and executor.py: a step goes on along an edge of the plan.
pub mod Rounds
use agent_orchestration_core.Common.{
  ℕ, zero, suc, ◌+◌, ◌≤◌, ◌<◌, String, ◌≡◌, refl, sym, ◌∙◌, ap, ◌⊎◌, inl, inr, Bool, true, false,
  Option, none, some, List, [], ◌∷◌, ◌++◌, Dict, get, has, Exn, ok, err, arith, eq_iff, Bool-cases,
  Option-cases, Result-cases,
}
use agent_orchestration_core.Value.{Fields, str}
use agent_orchestration_core.Value.Access.{store}
use agent_orchestration_core.Runtime.Types.{
  CompiledEdge, ExecutionPlan, ExecutionContext, NodeSpec, NodeResult, Repository, Nodes,
  NodeStepStatus, FlowFailureReason, max_steps_exceeded, emit, node_run_created, node_started,
}
use agent_orchestration_core.Runtime.Edges.{EdgeScan, EdgeStep, go, stop, edge_step, evaluate_edges}
use agent_orchestration_core.Runtime.Records.{record_result, state_after, readable_outputs}
use agent_orchestration_core.Runtime.Step.{
  StepResult, edges_of, choose, leave_node, advance_from, settle_step, conclude, run_node,
  execute_node, enter_node, run_step, is_needs_input, is_terminal_type,
}
use agent_orchestration_core.Runtime.Executor.{reason_of}
use agent_orchestration_core.Graph.Reach.{Has, Has-head, Has-later, Has-nil}
use agent_orchestration_core.Compiler.{to_nodes}

Has-append-one : (xs : List String) (x y : String) → Has (xs ++ x ∷ []) y → Has xs y ⊎ (x ≡ y)
unfolding has
Has-append-one [] x y h = ground (arith, eq_iff x y)
Has-append-one (z ∷ xs) x y h = ground (arith, Has-append-one xs x y)

abbrev candidates_of : EdgeStep → List String
candidates_of (go scan) = scan.candidates
candidates_of (stop x scan) = scan.candidates

module _ (nodes : Nodes) (limit : ℕ) (current : String) (output : Fields) where
  step_candidates :
      (e : CompiledEdge) (scan : EdgeScan) (y : String)
      → Has (candidates_of (edge_step nodes limit current output e scan)) y
      → Has scan.candidates y ⊎ (e.to_node ≡ y)
  unfolding edge_step
  step_candidates e scan y h = ground (arith, Has-append-one scan.candidates e.to_node y)

  abbrev EndsOf : List CompiledEdge → List String → EdgeStep → Type 0
  EndsOf es base r = (y : String) → Has (candidates_of r) y → Has base y ⊎ Has (to_nodes es) y

  resume_candidates :
      (e : CompiledEdge) (es : List CompiledEdge) (base : List String) (r : EdgeStep)
      → ((y : String) → Has (candidates_of r) y → Has base y ⊎ (e.to_node ≡ y))
      → ((scan : EdgeScan)
          → EndsOf es scan.candidates (evaluate_edges nodes limit current output es scan))
      → EndsOf (e ∷ es) base (elim r [
        | go scan ↦ evaluate_edges nodes limit current output es scan
        | stop x scan ↦ stop x scan
      ])
  unfolding to_nodes
  resume_candidates e es base r step rest y = at r (step y) (λ scan. rest scan y)
    where
      widen : Has base y ⊎ (e.to_node ≡ y) → Has base y ⊎ Has (e.to_node ∷ to_nodes es) y
      widen (inl k) = inl k
      widen (inr k) = inr (rw (← k) (Has-head e.to_node (to_nodes es)))

      settle :
          (scan : EdgeScan)
          → (Has scan.candidates y → Has base y ⊎ (e.to_node ≡ y))
          → Has scan.candidates y ⊎ Has (to_nodes es) y
          → Has base y ⊎ Has (e.to_node ∷ to_nodes es) y
      settle scan first (inl k) = widen (first k)
      settle scan first (inr k) = inr (Has-later e.to_node (to_nodes es) y k)

      at :
          (q : EdgeStep)
          → (Has (candidates_of q) y → Has base y ⊎ (e.to_node ≡ y))
          → ((scan : EdgeScan)
              → Has (candidates_of (evaluate_edges nodes limit current output es scan)) y
              → Has scan.candidates y ⊎ Has (to_nodes es) y)
          → Has
              (candidates_of (elim q [
                | go scan ↦ evaluate_edges nodes limit current output es scan
                | stop x scan ↦ stop x scan
              ]))
              y
          → Has base y ⊎ Has (e.to_node ∷ to_nodes es) y
      at (go scan) first ih h = settle scan first (ih scan h)
      at (stop x scan) first ih h = widen (first h)

  -- The candidates are ends of the edges.
  scan_candidates :
      (es : List CompiledEdge) (scan : EdgeScan)
      → EndsOf es scan.candidates (evaluate_edges nodes limit current output es scan)
  unfolding evaluate_edges
  scan_candidates [] scan = λ y h. inl h
  scan_candidates (e ∷ es) scan =
      resume_candidates e es scan.candidates (edge_step nodes limit current output e scan)
        (step_candidates e scan) (scan_candidates es)

abbrev is_advance : NodeStepStatus → Bool
is_advance NodeStepStatus.advance = true
is_advance _ = false

abbrev pub is_exhausted : Option FlowFailureReason → Bool
is_exhausted (some max_steps_exceeded) = true
is_exhausted _ = false

-- A step goes on to the end of one of the edges, and it is not what counts the steps.
pub record Proceeds (ends : List String) (s : StepResult) : Type 0 where
  pub onward :
      s.outcome.status ≡ NodeStepStatus.advance
      → (next : String) × (s.outcome.next_node_id ≡ some next) × Has ends next
  pub uncounted : is_exhausted s.outcome.failure_reason ≡ false

stops :
    (ends : List String) (s : StepResult)
    → is_advance s.outcome.status ≡ false
    → is_exhausted s.outcome.failure_reason ≡ false
    → Proceeds ends s
stops ends s h k = record { onward = λ e. cc; uncounted = k }

module _ (plan : ExecutionPlan) (node_type : String) (run_id : ℕ) (context : ExecutionContext)
    (result : NodeResult) (ends : List String) where
  choose-Proceeds :
      (keys cs : List String) (counters : Dict ℕ) (repository : Repository)
      → ((y : String) → Has cs y → Has ends y)
      → Proceeds ends (record {
        outcome = choose plan node_type run_id context result keys cs;
        counters = counters;
        repository = repository;
        escapes = none;
      })
  unfolding choose
  choose-Proceeds keys [] counters repository h = stops ends _ refl refl
  choose-Proceeds keys (next ∷ []) counters repository h = record {
    onward = λ e. (next, refl, h next (Has-head next []));
    uncounted = refl;
  }
  choose-Proceeds keys (next ∷ other ∷ more) counters repository h = stops ends _ refl refl

  leave-Proceeds :
      (r : EdgeStep)
      → ((y : String) → Has (candidates_of r) y → Has ends y)
      → Proceeds ends (leave_node plan node_type run_id context result r)
  unfolding leave_node
  leave-Proceeds (go scan) h =
      choose-Proceeds scan.loop_edge_keys scan.candidates scan.counters scan.repository h
  leave-Proceeds (stop x scan) h = stops ends _ refl refl

module _ (nodes : Nodes) (plan : ExecutionPlan) (limit : ℕ) where
  abbrev pub ends_at : String → List String
  ends_at id = to_nodes (edges_of plan id)

  advance-Proceeds :
      (node_type : String) (run_id : ℕ) (context : ExecutionContext) (result : NodeResult)
      (counters : Dict ℕ) (repository : Repository)
      → Proceeds
          (ends_at context.current_node_id)
          (advance_from nodes plan limit node_type run_id context result counters repository)
  unfolding advance_from
  advance-Proceeds node_type run_id context result counters repository =
      let scan : EdgeScan = record {
        counters = counters;
        loop_edge_keys = [];
        candidates = [];
        repository = repository;
      } in
      let es = edges_of plan context.current_node_id in
      leave-Proceeds plan node_type run_id context result (to_nodes es)
        (evaluate_edges nodes limit context.current_node_id result.output es scan)
        (λ y h.
          inner y (scan_candidates nodes limit context.current_node_id result.output es scan y h))
    where
      inner :
          (y : String)
          → Has [] y ⊎ Has (ends_at context.current_node_id) y
          → Has (ends_at context.current_node_id) y
      inner y (inl h) = absurd (Has-nil y h)
      inner y (inr h) = h

  settle_step-Proceeds :
      (spec : NodeSpec) (run_id : ℕ) (context : ExecutionContext) (result : NodeResult)
      (counters : Dict ℕ) (repository : Repository)
      → Proceeds
          (ends_at context.current_node_id)
          (settle_step nodes plan limit spec run_id context result counters repository)
  unfolding settle_step
  settle_step-Proceeds spec run_id context result counters repository =
      let returned : ExecutionContext = record context { node_output = result.output } in
      let recorded = record_result run_id returned spec.config result repository in
      elim (Bool-cases (is_needs_input result.status)) [
        | inl needs ↦ rw (needs, settle_step) (stops _ _ refl refl)
        | inr goes ↦ elim (Bool-cases (is_terminal_type spec.node_type)) [
          | inl ends ↦ rw (goes, ends, settle_step) (stops _ _ refl refl)
          | inr leaves ↦
              rw (goes, leaves, settle_step)
                (advance-Proceeds spec.node_type run_id returned result counters recorded)
        ]
      ]

  conclude-Proceeds :
      (spec : NodeSpec) (run_id : ℕ) (context : ExecutionContext) (result : NodeResult)
      (counters : Dict ℕ) (repository : Repository)
      → Proceeds
          (ends_at context.current_node_id)
          (conclude nodes plan limit spec run_id context result counters repository)
  unfolding conclude
  conclude-Proceeds spec run_id context result counters repository =
      elim (Bool-cases (readable_outputs (state_after result.next_state context.state))) [
        | inl fine ↦
            rw (fine, conclude)
              (settle_step-Proceeds spec run_id context result counters repository)
        | inr bad ↦ rw (bad, conclude) (stops _ _ refl refl)
      ]

  run_node-Proceeds :
      (spec : NodeSpec) (context : ExecutionContext) (counters : Dict ℕ) (repository : Repository)
      → Proceeds
          (ends_at context.current_node_id)
          (run_node nodes plan limit spec context counters repository)
  unfolding run_node
  run_node-Proceeds spec context counters repository =
      let run_id = repository.next_run_id in
      let running : ExecutionContext = record context { current_node_run_id = some run_id } in
      elim (Result-cases (nodes.execute spec.node_type running spec.config)) [
        | inl (result, e) ↦
            rw (e, run_node) (conclude-Proceeds spec run_id running result counters _)
        | inr (x, e) ↦ rw (e, run_node) (stops _ _ refl refl)
      ]

  execute-Proceeds :
      (spec : NodeSpec) (context : ExecutionContext) (counters : Dict ℕ) (repository : Repository)
      → Proceeds
          (ends_at context.current_node_id)
          (execute_node nodes plan limit spec context counters repository)
  unfolding execute_node
  execute-Proceeds spec context counters repository =
      elim (Bool-cases (nodes.is_uuid context.current_node_id)) [
        | inl uuid ↦ rw (uuid, execute_node) (run_node-Proceeds spec context counters repository)
        | inr other ↦ rw (other, execute_node) (stops _ _ refl refl)
      ]

  enter-Proceeds :
      (spec : NodeSpec) (context : ExecutionContext) (counters : Dict ℕ) (repository : Repository)
      → Proceeds
          (ends_at context.current_node_id)
          (enter_node nodes plan limit spec context counters repository)
  unfolding enter_node
  enter-Proceeds spec context counters repository =
      elim (Bool-cases (nodes.resolves spec.node_type)) [
        | inr unknown ↦ rw (unknown, enter_node) (stops _ _ refl refl)
        | inl known ↦ elim (Option-cases (nodes.construction_error spec.node_type)) [
          | inl fine ↦
              rw (known, fine, enter_node)
                (execute-Proceeds spec
                  (record context {
                    metadata = store context.metadata "current_node_type" (str spec.node_type);
                  })
                  counters repository)
          | inr (x, broken) ↦ rw (known, broken, enter_node) (stops _ _ refl refl)
        ]
      ]

  pub run_step-Proceeds :
      (context : ExecutionContext) (counters : Dict ℕ) (repository : Repository)
      → Proceeds
          (ends_at context.current_node_id)
          (run_step nodes plan limit context counters repository)
  unfolding run_step
  run_step-Proceeds context counters repository =
      elim (Option-cases (get plan.nodes context.current_node_id)) [
        | inl gone ↦ rw (gone, run_step) (stops _ _ refl refl)
        | inr (spec, found) ↦ rw (found, run_step) (enter-Proceeds spec context counters repository)
      ]
