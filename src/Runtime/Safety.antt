-- ===== src/Runtime/Safety.antt =====
-- node_step_runner.py: no exception leaves a step, where node ids are UUIDs and nodes leave the outputs
-- by node in the state as a dictionary.
use agent_orchestration_core.Common.{
  ℕ, String, ◌≡◌, refl, Bool, true, Option, none, some, List, [], ◌∷◌, Dict, get, Bool-cases,
  Option-cases, Result-cases, inl, inr, ok,
}
use agent_orchestration_core.Value.{Fields, str, obj, end, field}
use agent_orchestration_core.Value.Access.{lookup, store, sub_dict, lookup-store}
use agent_orchestration_core.Runtime.Types.{
  NodeSpec, ExecutionPlan, ExecutionContext, NodeResult, Repository, Nodes,
}
use agent_orchestration_core.Runtime.Edges.{EdgeStep, go, stop}
use agent_orchestration_core.Runtime.Records.{
  node_outputs_key, is_dict_like, readable_outputs, state_after, new_state,
}
use agent_orchestration_core.Runtime.Step.{
  StepResult, choose, next_context, leave_node, advance_from, settle_step, conclude, run_node,
  execute_node, enter_node, run_step, is_needs_input, is_terminal_type,
}
use agent_orchestration_core.Runtime.Executor.{moved_to}

abbrev pub readable_next : Option Fields → Bool
readable_next none = true
readable_next (some state) = readable_outputs state

-- The ids of the plan's nodes are UUIDs, and no node returns a state whose entry for the outputs by
-- node is no dictionary.
pub record IsSafe (nodes : Nodes) (plan : ExecutionPlan) : Type 0 where
  pub ids :
      (id : String) (spec : NodeSpec) → get plan.nodes id ≡ some spec → nodes.is_uuid id ≡ true
  pub states :
      (t : String) (c : ExecutionContext) (config : Fields) (result : NodeResult)
      → nodes.execute t c config ≡ ok result
      → readable_next result.next_state ≡ true

-- No exception leaves the step, and the outputs by node can be read after it.
pub record Stays (s : StepResult) : Type 0 where
  pub inside : s.escapes ≡ none
  pub readable : readable_outputs s.outcome.context.state ≡ true

state_after-readable :
    (next : Option Fields) (old : Fields)
    → readable_next next ≡ true
    → readable_outputs old ≡ true
    → readable_outputs (state_after next old) ≡ true
unfolding state_after
state_after-readable none old h k = k
state_after-readable (some end) old h k = k
state_after-readable (some (field i v fs)) old h k = h

new_state-readable :
    (context : ExecutionContext) (result : NodeResult)
    → readable_outputs (new_state context result) ≡ true
unfolding new_state is_dict_like
new_state-readable context result =
    let state = state_after result.next_state context.state in
    let outputs = obj (
      store (sub_dict (lookup state node_outputs_key)) context.current_node_id
        (obj result.output)) in
    let found : lookup (store state node_outputs_key outputs) node_outputs_key ≡ some outputs =
      lookup-store state node_outputs_key outputs node_outputs_key in
    rw (found) refl

module _ (plan : ExecutionPlan) (node_type : String) (run_id : ℕ) (context : ExecutionContext)
    (result : NodeResult) (h : readable_outputs context.state ≡ true) where
  choose-readable :
      (keys cs : List String)
      → readable_outputs (choose plan node_type run_id context result keys cs).context.state ≡ true
  unfolding choose next_context
  choose-readable keys [] = h
  choose-readable keys (next ∷ []) = new_state-readable context result
  choose-readable keys (next ∷ other ∷ more) = h

  leave_node-Stays : (r : EdgeStep) → Stays (leave_node plan node_type run_id context result r)
  unfolding leave_node
  leave_node-Stays (go scan) = record {
    inside = refl;
    readable = choose-readable scan.loop_edge_keys scan.candidates;
  }
  leave_node-Stays (stop x scan) = record { inside = refl; readable = h }

module _ (nodes : Nodes) (plan : ExecutionPlan) (limit : ℕ) (safe : IsSafe nodes plan) where
  settle_step-Stays :
      (spec : NodeSpec) (run_id : ℕ) (context : ExecutionContext) (result : NodeResult)
      (counters : Dict ℕ) (repository : Repository)
      → readable_outputs context.state ≡ true
      → Stays (settle_step nodes plan limit spec run_id context result counters repository)
  unfolding settle_step advance_from
  settle_step-Stays spec run_id context result counters repository h =
      elim (Bool-cases (is_needs_input result.status)) [
        | inl needs ↦ rw (needs, settle_step) (record { inside = refl; readable = h })
        | inr goes ↦ elim (Bool-cases (is_terminal_type spec.node_type)) [
          | inl ends ↦ rw (goes, ends, settle_step) (record { inside = refl; readable = h })
          | inr leaves ↦
              rw (goes, leaves, settle_step)
                (leave_node-Stays plan spec.node_type run_id
                  (record context { node_output = result.output }) result h _)
        ]
      ]

  run_node-Stays :
      (spec : NodeSpec) (context : ExecutionContext) (counters : Dict ℕ) (repository : Repository)
      → readable_outputs context.state ≡ true
      → Stays (run_node nodes plan limit spec context counters repository)
  unfolding run_node conclude
  run_node-Stays spec context counters repository h =
      let run_id = repository.next_run_id in
      let running : ExecutionContext = record context { current_node_run_id = some run_id } in
      elim (Result-cases (nodes.execute spec.node_type running spec.config)) [
        | inr (x, e) ↦ rw (e, run_node) (record { inside = refl; readable = h })
        | inl (result, e) ↦
            let fine =
              state_after-readable result.next_state context.state
                (safe.states spec.node_type running spec.config result e) h in
            rw (e, fine, run_node) (settle_step-Stays spec run_id running result counters _ h)
      ]

  enter_node-Stays :
      (spec : NodeSpec) (context : ExecutionContext) (counters : Dict ℕ) (repository : Repository)
      → nodes.is_uuid context.current_node_id ≡ true
      → readable_outputs context.state ≡ true
      → Stays (enter_node nodes plan limit spec context counters repository)
  unfolding enter_node execute_node
  enter_node-Stays spec context counters repository uuid h =
      let entered : ExecutionContext = record context {
        metadata = store context.metadata "current_node_type" (str spec.node_type);
      } in
      elim (Bool-cases (nodes.resolves spec.node_type)) [
        | inr unknown ↦ rw (unknown, enter_node) (record { inside = refl; readable = h })
        | inl known ↦ elim (Option-cases (nodes.construction_error spec.node_type)) [
          | inr (x, broken) ↦
              rw (known, broken, enter_node) (record { inside = refl; readable = h })
          | inl fine ↦
              rw (known, fine, uuid, enter_node) (run_node-Stays spec entered counters repository h)
        ]
      ]

  pub run_step-Stays :
      (context : ExecutionContext) (counters : Dict ℕ) (repository : Repository)
      → readable_outputs context.state ≡ true
      → Stays (run_step nodes plan limit context counters repository)
  unfolding run_step
  run_step-Stays context counters repository h =
      elim (Option-cases (get plan.nodes context.current_node_id)) [
        | inl gone ↦ rw (gone, run_step) (record { inside = refl; readable = h })
        | inr (spec, found) ↦
            rw (found, run_step)
              (enter_node-Stays spec context counters repository
                (safe.ids context.current_node_id spec found) h)
      ]

pub readable-moved_to :
    (next : Option String) (context : ExecutionContext)
    → readable_outputs context.state ≡ true
    → readable_outputs (moved_to next context).state ≡ true
unfolding moved_to
readable-moved_to none context h = h
readable-moved_to (some next) context h = h
