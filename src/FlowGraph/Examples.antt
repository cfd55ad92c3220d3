-- ===== src/FlowGraph/Examples.antt =====
-- Flow graphs, validated and compiled.
use agent_orchestration_core.Common.{
  String, ◌≡◌, refl, ◌⊎◌, true, false, some, [], ◌∷◌, ok, err, domain, tt, ◌>>=◌,
}
use agent_orchestration_core.Value.{end}
use agent_orchestration_core.Value.Access.{lookup}
use agent_orchestration_core.Runtime.Types.{EdgeKind, normal, loop, NodeSpec, ExecutionPlan}
use agent_orchestration_core.Runtime.Examples.{is_done}
use agent_orchestration_core.Graph.{visit, explore, includes}
use agent_orchestration_core.Compiler.{
  Snapshot, compile, validated, start_in, compile_edges, sorted_edges, terminal_ids, node_ids,
  validate_reachability, validate_loops, is_empty,
}
use agent_orchestration_core.Compiler.Plans.{IsWellFormed}
use agent_orchestration_core.FlowGraph.{
  FlowGraphEdge, FlowGraphDefinition, validate, validate_searches, has_terminal_path, configs_fit,
}
use agent_orchestration_core.FlowGraph.Draft.{
  Libraries, validate_draft, validate_cycles, validate_mutual_exclusion,
}
use agent_orchestration_core.FlowGraph.Snapshots.{snapshot_of}
use agent_orchestration_core.FlowGraph.Searches.{SearchVerdict, validate_searches_verdict}
use agent_orchestration_core.FlowGraph.Published.Plans.{validated-compiles}

abbrev permissive : Libraries
permissive = record {
  config_fits = λ t c. true;
  compile_condition = λ s. ok is_done;
  always_true = λ s. false;
}

abbrev line : String → String → String → EdgeKind → FlowGraphEdge
line a b c kind = record { from_node = a; to_node = b; condition = c; edge_kind = kind }

abbrev ask : NodeSpec
ask = record { node_type = "IntentClassifier"; config = end }

abbrev answer : NodeSpec
answer = record { node_type = "ResponseBuilder"; config = end }

-- The nodes a and b lead to each other, by a normal edge from b and by a loop edge from a.
abbrev mutual_graph : FlowGraphDefinition
mutual_graph = record {
  start_node = "s";
  nodes = ("s", ask) ∷ ("a", ask) ∷ ("b", ask) ∷ ("t", answer) ∷ [];
  edges =
      line "s" "b" "x == 1" normal
      ∷ line "s" "a" "x == 2" normal
      ∷ line "b" "a" "x == 3" normal
      ∷ line "a" "b" "x == 4" loop
      ∷ line "a" "t" "x == 5" normal
      ∷ [];
}

-- The draft validator meets b first, and accepts.
mutual_accepted : validate_draft permissive mutual_graph ≡ ok tt
unfolding validate_draft validate validate_searches visit has_terminal_path terminal_ids configs_fit
    validate_mutual_exclusion validate_cycles explore includes is_empty lookup
mutual_accepted = refl

-- The compiler sorts the edges, meets a first, and refuses.
mutual_refused :
    (snapshot_of permissive mutual_graph >>= λ s. compile s) ≡ err (domain "cycle_not_marked_loop")
unfolding snapshot_of compile start_in compile_edges sorted_edges terminal_ids validated
    validate_reachability validate_loops visit explore node_ids
mutual_refused = refl

-- A single node that answers at once.
abbrev single : FlowGraphDefinition
single = record { start_node = "t"; nodes = ("t", answer) ∷ []; edges = [] }

single_accepted : validate_draft permissive single ≡ ok tt
unfolding validate_draft validate validate_searches visit has_terminal_path terminal_ids configs_fit
    validate_mutual_exclusion validate_cycles explore includes is_empty lookup
single_accepted = refl

single_refused : (snapshot_of permissive single >>= λ s. compile s) ≡ err (domain "edges_required")
unfolding snapshot_of compile start_in node_ids
single_refused = refl

validate_searches_verdict_example : SearchVerdict mutual_graph (validate_searches mutual_graph)
validate_searches_verdict_example = validate_searches_verdict mutual_graph

abbrev short : FlowGraphDefinition
short = record {
  start_node = "s";
  nodes = ("s", ask) ∷ ("t", answer) ∷ [];
  edges = line "s" "t" "x == 1" normal ∷ [];
}

short_accepted : validate short ≡ ok tt
unfolding validate validate_searches visit has_terminal_path terminal_ids configs_fit includes
    is_empty lookup
short_accepted = refl

abbrev short_snapshot : Snapshot
short_snapshot = record {
  start_node = some "s";
  nodes = short.nodes;
  edges =
      record {
        from_node = "s";
        to_node = "t";
        condition = some "x == 1";
        edge_kind = some "NORMAL";
        compiled_condition = some is_done;
      }
      ∷ [];
}

validated-compiles_example :
    ((plan : ExecutionPlan) × (compile short_snapshot ≡ ok plan) × IsWellFormed plan)
    ⊎ (compile short_snapshot ≡ err (domain "cycle_not_marked_loop"))
unfolding snapshot_of
validated-compiles_example =
    validated-compiles permissive short short_snapshot short_accepted (λ e. cc) refl refl
      ((_, refl), tt)
