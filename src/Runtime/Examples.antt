-- ===== src/Runtime/Examples.antt =====
-- A plan of two nodes, traversed.
use agent_orchestration_core.Common.{
  Bool, Option, str_eq, refl, some, true, ok_inj, false, none, [], ◌∷◌, ok,
}
use agent_orchestration_core.Value.{Value, bool, str, arr, obj, nil, cons, end, field}
use agent_orchestration_core.Runtime.Types.{
  NodeSpec, normal, ExecutionPlan, ExecutionContext, NodeExecutionStatus, NodeResult, Repository,
  Nodes,
}
use agent_orchestration_core.Runtime.Safety.{IsSafe}

-- Every node succeeds with the output `{"done": True}`.
abbrev pub done_result : NodeResult
done_result = record {
  status = NodeExecutionStatus.success;
  output = field "done" (bool true) end;
  next_state = none;
  memory = none;
  usage = none;
}

abbrev pub agreeable : Nodes
agreeable = record {
  resolves = λ t. true;
  construction_error = λ t. none;
  execute = λ t c config. ok done_result;
  objects = record { attribute = λ v name. none; identical = λ v w. false };
  is_uuid = λ id. true;
}

-- `done == True`
abbrev pub is_done : Value
is_done = arr (
    cons
      (obj (
        field "__type__" (str "path")
          (field "segments" (arr (cons (arr (cons (str "done") nil)) nil)) end)))
      (cons (str "==") (cons (bool true) nil)))

abbrev two_nodes : ExecutionPlan
two_nodes = record {
  start_node_id = "a0000000-0000-4000-8000-000000000000";
  ordered_nodes =
      "a0000000-0000-4000-8000-000000000000" ∷ "b0000000-0000-4000-8000-000000000000" ∷ [];
  adjacency_map =
      (
        "a0000000-0000-4000-8000-000000000000",
        record {
          from_node = "a0000000-0000-4000-8000-000000000000";
          to_node = "b0000000-0000-4000-8000-000000000000";
          edge_kind = normal;
          compiled_condition = is_done;
          order = 0;
        }
            ∷ [],
      )
      ∷ [];
  terminal_nodes = "b0000000-0000-4000-8000-000000000000" ∷ [];
  nodes =
      (
        "a0000000-0000-4000-8000-000000000000",
        record { node_type = "IntentClassifier"; config = end },
      )
      ∷ (
        "b0000000-0000-4000-8000-000000000000",
        record { node_type = "ResponseBuilder"; config = end },
      )
      ∷ [];
}

abbrev at_start : ExecutionContext
at_start = record {
  current_node_id = "a0000000-0000-4000-8000-000000000000";
  current_node_run_id = none;
  state = end;
  memory = [];
  metadata = end;
  node_output = end;
}

abbrev pub untouched : Repository
untouched = record {
  log = [];
  next_run_id = 0;
  graph_state = none;
  node_outputs = [];
  escaped = none;
}

pub agreeable-IsSafe : (plan : ExecutionPlan) → IsSafe agreeable plan
agreeable-IsSafe plan = record {
  ids = λ id spec found. refl;
  states = λ t c config result e. rw (← (ok_inj done_result result e)) refl;
}

-- What the executor's start leaves in the repository of the workflow.
abbrev prepared : Repository
prepared = record untouched {
  graph_state = some (record {
    current_node_id = "a0000000-0000-4000-8000-000000000000";
    state = end;
    memory = [];
    resume_to_node_id = none;
    metadata = end;
  });
}

abbrev is_human : Option NodeSpec → Bool
is_human none = false
is_human (some spec) = str_eq spec.node_type "HumanFallback"
