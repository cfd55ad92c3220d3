-- ===== src/Compiler/Examples.antt =====
-- Snapshots of flow graphs, compiled and run.
use agent_orchestration_core.Common.{
  String, ◌≡◌, refl, Option, none, some, List, [], ◌∷◌, has, domain, ok, err,
}
use agent_orchestration_core.Value.{end}
use agent_orchestration_core.Runtime.Types.{ExecutionPlan, CompiledEdge, NodeSpec, normal}
use agent_orchestration_core.Runtime.Executor.{RunRequest}
use agent_orchestration_core.Runtime.Examples.{is_done}
use agent_orchestration_core.Graph.{visit, explore}
use agent_orchestration_core.Graph.Reach.{Reaches}
use agent_orchestration_core.Graph.Loops.{strict_targets}
use agent_orchestration_core.Compiler.{
  as_list, SnapshotEdge, Snapshot, compile, validated, validate_reachability, validate_loops,
  compile_edges, sorted_edges, start_in, terminal_ids, node_ids, arcs_at,
}
use agent_orchestration_core.Compiler.Plans.{
  Verdict, compile-Verdict, compile-acyclic, strict_successors,
}

abbrev edge : String → String → Option String → SnapshotEdge
edge a b kind = record {
  from_node = a;
  to_node = b;
  condition = some "done == True";
  edge_kind = kind;
  compiled_condition = some is_done;
}

abbrev ask : NodeSpec
ask = record { node_type = "IntentClassifier"; config = end }

abbrev answer : NodeSpec
answer = record { node_type = "ResponseBuilder"; config = end }

abbrev question : List SnapshotEdge → Snapshot
question edges = record {
  start_node = some "a0000000-0000-4000-8000-000000000000";
  nodes =
      ("a0000000-0000-4000-8000-000000000000", ask)
      ∷ ("b0000000-0000-4000-8000-000000000000", ask)
      ∷ ("c0000000-0000-4000-8000-000000000000", answer)
      ∷ [];
  edges = edges;
}

abbrev straight : Snapshot
straight = question (
    edge "b0000000-0000-4000-8000-000000000000" "c0000000-0000-4000-8000-000000000000" none
    ∷ edge "a0000000-0000-4000-8000-000000000000" "b0000000-0000-4000-8000-000000000000"
        (some "NORMAL")
    ∷ [])

abbrev arc : String → String → CompiledEdge
arc a b = record {
  from_node = a;
  to_node = b;
  edge_kind = normal;
  compiled_condition = is_done;
  order = 0;
}

abbrev straight_plan : ExecutionPlan
straight_plan = record {
  start_node_id = "a0000000-0000-4000-8000-000000000000";
  ordered_nodes =
      "a0000000-0000-4000-8000-000000000000" ∷ "b0000000-0000-4000-8000-000000000000"
      ∷ "c0000000-0000-4000-8000-000000000000" ∷ [];
  adjacency_map =
      (
        "a0000000-0000-4000-8000-000000000000",
        arc "a0000000-0000-4000-8000-000000000000" "b0000000-0000-4000-8000-000000000000" ∷ [],
      )
      ∷ (
        "b0000000-0000-4000-8000-000000000000",
        record (arc "b0000000-0000-4000-8000-000000000000" "c0000000-0000-4000-8000-000000000000") {
          order = 1;
        }
            ∷ [],
      )
      ∷ [];
  terminal_nodes = "c0000000-0000-4000-8000-000000000000" ∷ [];
  nodes = straight.nodes;
}

straight_compiles : compile straight ≡ ok straight_plan
unfolding compile start_in compile_edges as_list sorted_edges terminal_ids validated
    validate_reachability validate_loops visit explore node_ids
straight_compiles = refl

back_refused :
    compile (
      question (
        edge "b0000000-0000-4000-8000-000000000000" "c0000000-0000-4000-8000-000000000000" none
        ∷ edge "a0000000-0000-4000-8000-000000000000" "b0000000-0000-4000-8000-000000000000" none
        ∷ edge "b0000000-0000-4000-8000-000000000000" "a0000000-0000-4000-8000-000000000000" none
        ∷ []))
    ≡ err (domain "cycle_not_marked_loop")
unfolding compile start_in compile_edges as_list sorted_edges terminal_ids validated
    validate_reachability validate_loops visit explore node_ids
back_refused = refl

apart_refused :
    compile (
      question (
        edge "a0000000-0000-4000-8000-000000000000" "c0000000-0000-4000-8000-000000000000" none
        ∷ []))
    ≡ err (domain "unreachable_nodes")
unfolding compile start_in compile_edges as_list sorted_edges terminal_ids validated
    validate_reachability visit node_ids
apart_refused = refl

compile-Verdict_example : Verdict straight (compile straight)
compile-Verdict_example = compile-Verdict straight

compile-acyclic_example : ¬ (
    Reaches
      (strict_successors straight_plan)
      "b0000000-0000-4000-8000-000000000000"
      "a0000000-0000-4000-8000-000000000000")
unfolding has strict_targets arcs_at
compile-acyclic_example =
    compile-acyclic straight straight_plan "a0000000-0000-4000-8000-000000000000"
      "b0000000-0000-4000-8000-000000000000" straight_compiles refl refl

abbrev asked : RunRequest
asked = record {
  trace_user_id = some "u";
  start_node_id = none;
  initial_state = end;
  initial_memory = [];
  definition = end;
  max_loop_iterations = none;
}
