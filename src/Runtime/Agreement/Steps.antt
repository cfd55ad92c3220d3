-- ===== src/Runtime/Agreement/Steps.antt =====
-- One step of the two engines, from the entry of the node to its outcome.
use agent_orchestration_core.Common.{
  ℕ, suc, ◌≤◌, String, ◌≡◌, refl, ◌∙◌, sym, false, Option, none, some, [], Dict, get, arith,
  Bool-cases, Option-cases, Result-cases, inl, inr, str_eq,
}
use agent_orchestration_core.Value.{Fields, str, end}
use agent_orchestration_core.Value.Access.{store}
use agent_orchestration_core.Runtime.Types.{
  NodeSpec, ExecutionPlan, ExecutionContext, NodeResult, Repository, emit, Nodes, structural_error,
  unknown_node_type, node_not_found, node_run_created, node_started,
}
use agent_orchestration_core.Runtime.Edges.{EdgeScan, evaluate_edges}
use agent_orchestration_core.Runtime.Records.{
  record_result, account_result, state_after, readable_outputs, checkpoint,
}
use agent_orchestration_core.Runtime.Step.{
  edges_of, next_context, next_metadata, advance_from, is_needs_input, is_terminal_type,
  settle_step, conclude, run_node, execute_node, enter_node, run_step,
}
use agent_orchestration_core.Runtime.Executor.{moved_to}
use agent_orchestration_core.Runtime.Workflow.{after_node, count_keys}
use agent_orchestration_core.Runtime.Workflow.Activities.{
  node_output, last_node_output, restored_context,
}
use agent_orchestration_core.Runtime.Counters.{count_in, evaluate_edges-Joint}
use agent_orchestration_core.Runtime.Agreement.{
  blank, Agrees, fail_early, wait_alike, complete_alike, leave-Agrees, evaluate_edges-Judged,
}

-- No node of the plan is a human fallback.
abbrev pub HasNoFallback : ExecutionPlan → Type 0
HasNoFallback plan =
    (id : String) (spec : NodeSpec)
    → get plan.nodes id ≡ some spec
    → str_eq spec.node_type "HumanFallback" ≡ false

-- Executing a node does not read the output of the node before it.
abbrev pub IsOblivious : Nodes → Type 0
IsOblivious nodes =
    (t : String) (c : ExecutionContext) (config : Fields)
    → nodes.execute t c config ≡ nodes.execute t (record c { node_output = end }) config

nothing_counted : (k : Dict ℕ) (key : String) → count_in [] key ≤ count_in k key
unfolding get
nothing_counted k key = ground arith

output_of-record :
    (run_id : ℕ) (context : ExecutionContext) (config : Fields) (result : NodeResult)
    (repository : Repository)
    → last_node_output (some run_id) (record_result run_id context config result repository)
      ≡ result.output
unfolding record_result account_result last_node_output
output_of-record run_id context config result repository = ground arith

state_of-record :
    (run_id : ℕ) (context : ExecutionContext) (config : Fields) (result : NodeResult)
    (repository : Repository)
    → (record_result run_id context config result repository).graph_state
      ≡ some (checkpoint context config result)
unfolding record_result
state_of-record run_id context config result repository = refl

module _ (nodes : Nodes) (plan : ExecutionPlan) (limit : ℕ) (k : Dict ℕ) (current : String)
    (no_fallback : HasNoFallback plan) where
  metadata_kept :
      (o : Option NodeSpec) (node_type : String) (context : ExecutionContext) (output : Fields)
      → ((spec : NodeSpec) → o ≡ some spec → str_eq spec.node_type "HumanFallback" ≡ false)
      → next_metadata o node_type context output ≡ context.metadata
  unfolding next_metadata
  metadata_kept none node_type context output h = refl
  metadata_kept (some spec) node_type context output h = rw (h spec refl)

  restored-next :
      (node_type : String) (run_id : ℕ) (context : ExecutionContext) (config : Fields)
      (result : NodeResult) (next : String)
      → restored_context next (checkpoint context config result)
        ≡ blank (moved_to (some next) (next_context plan node_type run_id context result next))
  unfolding restored_context checkpoint moved_to next_context
  restored-next node_type run_id context config result next =
      rw (metadata_kept (get plan.nodes next) node_type context result.output (no_fallback next))

  advance-Agrees :
      (spec : NodeSpec) (run_id : ℕ) (context : ExecutionContext) (result : NodeResult)
      (repository : Repository)
      → context.current_node_id ≡ current
      → let recorded = record_result run_id context spec.config result repository in
        Agrees nodes plan limit k current
          (advance_from nodes plan limit spec.node_type run_id context result k recorded)
          (advance_from nodes plan limit spec.node_type run_id context result [] recorded)
  unfolding advance_from count_keys
  advance-Agrees spec run_id context result repository here =
      let recorded = record_result run_id context spec.config result repository in
      let edges = edges_of plan context.current_node_id in
      let from : Dict ℕ → EdgeScan =
        λ c. record { counters = c; loop_edge_keys = []; candidates = []; repository = recorded } in
      let judged = λ (c : Dict ℕ).
        evaluate_edges-Judged nodes limit context.current_node_id result.output edges (from c) in
      leave-Agrees nodes plan limit k current spec.node_type run_id context result
        (evaluate_edges nodes limit context.current_node_id result.output edges (from k))
        (evaluate_edges nodes limit context.current_node_id result.output edges (from []))
        (checkpoint context spec.config result) here
        (evaluate_edges-Joint nodes limit k context.current_node_id result.output edges (from k)
          (from [])
          (record {
            candidates = refl;
            keys = refl;
            repository = refl;
            counted = refl;
            below = nothing_counted k;
          }))
        ((judged k).main_same ∙ sym (judged []).main_same)
        ((judged k).state_same ∙ state_of-record run_id context spec.config result repository)
        (restored-next spec.node_type run_id context spec.config result)

  settle_step-Agrees :
      (spec : NodeSpec) (run_id : ℕ) (context : ExecutionContext) (result : NodeResult)
      (repository : Repository)
      → context.current_node_id ≡ current
      → Agrees nodes plan limit k current
          (settle_step nodes plan limit spec run_id context result k repository)
          (settle_step nodes plan limit spec run_id context result [] repository)
  unfolding settle_step node_output after_node count_keys
  settle_step-Agrees spec run_id context result repository here =
      let returned : ExecutionContext = record context { node_output = result.output } in
      let output = output_of-record run_id returned spec.config result repository in
      elim (Bool-cases (is_needs_input result.status)) [
        | inl needs ↦ rw (needs, settle_step) (wait_alike refl (λ i. refl) output refl)
        | inr goes ↦ elim (Bool-cases (is_terminal_type spec.node_type)) [
          | inl ends ↦
              rw (goes, ends, settle_step) (complete_alike refl (λ i. refl) output here refl)
          | inr leaves ↦
              rw (goes, leaves, settle_step)
                (advance-Agrees spec run_id returned result repository here)
        ]
      ]

  conclude-Agrees :
      (spec : NodeSpec) (run_id : ℕ) (context : ExecutionContext) (result : NodeResult)
      (repository : Repository)
      → context.current_node_id ≡ current
      → Agrees nodes plan limit k current
          (conclude nodes plan limit spec run_id context result k repository)
          (conclude nodes plan limit spec run_id context result [] repository)
  unfolding conclude
  conclude-Agrees spec run_id context result repository here =
      elim (Bool-cases (readable_outputs (state_after result.next_state context.state))) [
        | inl fine ↦
            rw (fine, conclude) (settle_step-Agrees spec run_id context result repository here)
        | inr bad ↦
            rw (bad, conclude)
              (fail_early nodes plan limit k current _ _ structural_error refl refl refl refl refl
                refl)
      ]

module _ (nodes : Nodes) (plan : ExecutionPlan) (limit : ℕ) (k : Dict ℕ)
    (no_fallback : HasNoFallback plan) (oblivious : IsOblivious nodes) where
  -- The contexts differ in what the node may not read.
  run_node-Agrees :
      (spec : NodeSpec) (context : ExecutionContext) (repository : Repository)
      → Agrees nodes plan limit k context.current_node_id
          (run_node nodes plan limit spec context k repository)
          (run_node nodes plan limit spec (blank context) [] repository)
  unfolding run_node conclude settle_step
  run_node-Agrees spec context repository =
      let run_id = repository.next_run_id in
      let created =
        emit
          (node_run_created run_id context.current_node_id context.state context.memory
            context.metadata)
          (record repository { next_run_id = suc run_id }) in
      let started = emit (node_started context.current_node_id) created in
      let running : ExecutionContext = record context { current_node_run_id = some run_id } in
      let same = oblivious spec.node_type running spec.config in
      elim (Result-cases (nodes.execute spec.node_type running spec.config)) [
        | inl (result, e) ↦
            rw (sym same ∙ e, e, run_node)
              (conclude-Agrees nodes plan limit k context.current_node_id no_fallback spec run_id
                running result started refl)
        | inr (x, e) ↦
            rw (sym same ∙ e, e, run_node)
              (fail_early nodes plan limit k context.current_node_id _ _ structural_error refl refl
                refl refl refl refl)
      ]

  execute_node-Agrees :
      (spec : NodeSpec) (context : ExecutionContext) (repository : Repository)
      → Agrees nodes plan limit k context.current_node_id
          (execute_node nodes plan limit spec context k repository)
          (execute_node nodes plan limit spec (blank context) [] repository)
  unfolding execute_node
  execute_node-Agrees spec context repository =
      elim (Bool-cases (nodes.is_uuid context.current_node_id)) [
        | inl uuid ↦ rw (uuid, execute_node) (run_node-Agrees spec context repository)
        | inr other ↦
            rw (other, execute_node)
              (fail_early nodes plan limit k context.current_node_id _ _ structural_error refl refl
                refl refl refl refl)
      ]

  enter_node-Agrees :
      (spec : NodeSpec) (context : ExecutionContext) (repository : Repository)
      → Agrees nodes plan limit k context.current_node_id
          (enter_node nodes plan limit spec context k repository)
          (enter_node nodes plan limit spec (blank context) [] repository)
  unfolding enter_node
  enter_node-Agrees spec context repository =
      let entered : ExecutionContext = record context {
        metadata = store context.metadata "current_node_type" (str spec.node_type);
      } in
      elim (Bool-cases (nodes.resolves spec.node_type)) [
        | inr unknown ↦
            rw (unknown, enter_node)
              (fail_early nodes plan limit k context.current_node_id _ _ unknown_node_type refl refl
                refl refl refl refl)
        | inl known ↦ elim (Option-cases (nodes.construction_error spec.node_type)) [
          | inl fine ↦ rw (known, fine, enter_node) (execute_node-Agrees spec entered repository)
          | inr (x, broken) ↦
              rw (known, broken, enter_node)
                (fail_early nodes plan limit k context.current_node_id _ _ structural_error refl
                  refl refl refl refl refl)
        ]
      ]

  -- One step of the executor, and the same step from the restored context with fresh counters.
  pub run_step-Agrees :
      (context : ExecutionContext) (repository : Repository)
      → Agrees nodes plan limit k context.current_node_id
          (run_step nodes plan limit context k repository)
          (run_step nodes plan limit (blank context) [] repository)
  unfolding run_step
  run_step-Agrees context repository =
      elim (Option-cases (get plan.nodes context.current_node_id)) [
        | inl missing ↦
            rw (missing, run_step)
              (fail_early nodes plan limit k context.current_node_id _ _ node_not_found refl refl
                refl refl refl refl)
        | inr (spec, found) ↦ rw (found, run_step) (enter_node-Agrees spec context repository)
      ]
