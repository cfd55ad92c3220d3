-- ===== src/Compiler.antt =====
-- domain/execution/services/graph_runtime/graph_compiler.py: a flow graph snapshot becomes an
-- execution plan. The snapshot is the one that flow_graph_compiler.py makes: its edges have both
-- ends.
pub mod Checks
pub mod Plans
pub mod Bound
mod Examples
use Prim.Native.String.{compare as compare_text}
use agent_orchestration_core.Common.{
  ℕ, zero, suc, ◌+◌, String, Bool, true, false, not, ◌&&◌, Option, none, some, List, [], ◌∷◌, ◌++◌,
  length, Dict, get, put, has, str_eq, domain, raised, Result, ok, err, ◌>>=◌, if◌then◌else◌,
  Ordering, Unit, tt,
}
use agent_orchestration_core.Value.{Value, null, arr}
use agent_orchestration_core.Runtime.Types.{
  EdgeKind, normal, loop, CompiledEdge, NodeSpec, ExecutionPlan,
}
use agent_orchestration_core.Runtime.Step.{is_terminal_type}
use agent_orchestration_core.Graph.{Arc, Search, visit, explore, includes}

-- An edge of the snapshot, with the keys that it may lack.
pub record SnapshotEdge : Type 0 where
  pub from_node : String
  pub to_node : String
  pub condition : Option String
  pub edge_kind : Option String
  pub compiled_condition : Option Value

pub record Snapshot : Type 0 where
  pub start_node : Option String
  pub nodes : Dict NodeSpec
  pub edges : List SnapshotEdge

-- The order of Python's tuples, on the key `(from_node, to_node, condition or "")`.
lexicographic : Ordering → Bool → Bool
lexicographic Ordering.lt rest = true
lexicographic Ordering.eq rest = rest
lexicographic Ordering.gt rest = false

text_or_empty : Option String → String
text_or_empty none = ""
text_or_empty (some s) = s

unfoldable pub key_le : SnapshotEdge → SnapshotEdge → Bool
unfolding lexicographic text_or_empty
key_le a b = lexicographic (compare_text a.from_node b.from_node) (
    lexicographic (compare_text a.to_node b.to_node)
      (lexicographic (compare_text (text_or_empty a.condition) (text_or_empty b.condition)) true))

-- `sorted`, which is stable.
unfoldable pub insert_edge : SnapshotEdge → List SnapshotEdge → List SnapshotEdge
unfolding key_le
insert_edge e [] = e ∷ []
insert_edge e (x ∷ xs) = if key_le e x then e ∷ x ∷ xs else x ∷ insert_edge e xs

unfoldable pub sorted_edges : List SnapshotEdge → List SnapshotEdge
unfolding insert_edge
sorted_edges [] = []
sorted_edges (e ∷ es) = insert_edge e (sorted_edges es)

unfoldable pub kind_of : Option String → Result EdgeKind
kind_of none = ok normal
kind_of (some s) =
    if str_eq s "NORMAL"
    then ok normal
    else if str_eq s "LOOP"
    then ok loop
    else err (raised "ValueError")

unfoldable pub condition_of : Option Value → Result Value
condition_of none = err (domain "compiled_condition_missing")
condition_of (some null) = err (domain "compiled_condition_missing")
condition_of (some v) = ok v

-- `CompiledEdge.compiled_condition : list`, which pydantic validates
unfoldable pub as_list : Value → Result Value
as_list (arr items) = ok (arr items)
as_list v = err (raised "ValidationError")

unfoldable pub compile_edge : ℕ → SnapshotEdge → Result CompiledEdge
unfolding kind_of condition_of as_list
compile_edge order e = do
  compiled ← condition_of e.compiled_condition
  kind ← kind_of e.edge_kind
  listed ← as_list compiled
  ok (record {
    from_node = e.from_node;
    to_node = e.to_node;
    edge_kind = kind;
    compiled_condition = listed;
    order = order;
  })

-- `adjacency.get(node_id, [])`
unfoldable pub edges_at : Dict (List CompiledEdge) → String → List CompiledEdge
unfolding get
edges_at adjacency id = elim (get adjacency id) [ none ↦ [] | some edges ↦ edges ]

-- `adjacency[ce.from_node].append(ce)`
unfoldable pub attach : Dict (List CompiledEdge) → CompiledEdge → Dict (List CompiledEdge)
unfolding put edges_at
attach adjacency e = put adjacency e.from_node (edges_at adjacency e.from_node ++ e ∷ [])

unfoldable pub compile_edges :
    ℕ → List SnapshotEdge → Dict (List CompiledEdge) → Result (Dict (List CompiledEdge))
unfolding compile_edge attach
compile_edges order [] adjacency = ok adjacency
compile_edges order (e ∷ es) adjacency =
    compile_edge order e >>= λ c. compile_edges (suc order) es (attach adjacency c)

unfoldable pub is_marked : EdgeKind → Bool
is_marked normal = false
is_marked loop = true

unfoldable pub arcs : List CompiledEdge → List Arc
unfolding is_marked
arcs [] = []
arcs (e ∷ es) = record { target = e.to_node; is_loop = is_marked e.edge_kind } ∷ arcs es

unfoldable pub to_nodes : List CompiledEdge → List String
to_nodes [] = []
to_nodes (e ∷ es) = e.to_node ∷ to_nodes es

unfoldable pub arcs_at : Dict (List CompiledEdge) → String → List Arc
unfolding arcs edges_at
arcs_at adjacency id = arcs (edges_at adjacency id)

unfoldable pub successors : Dict (List CompiledEdge) → String → List String
unfolding to_nodes edges_at
successors adjacency id = to_nodes (edges_at adjacency id)

-- All nodes that a search can meet: their number bounds its depth.
unfoldable pub all_targets : Dict (List CompiledEdge) → List String
unfolding to_nodes
all_targets [] = []
all_targets ((id, edges) ∷ rest) = to_nodes edges ++ all_targets rest

abbrev pub universe : String → Dict (List CompiledEdge) → List String
universe start adjacency = start ∷ all_targets adjacency

abbrev pub check : Bool → String → Result {0} Unit
check true message = ok tt
check false message = err (domain message)

-- `_validate_reachability`
unfoldable pub validate_reachability :
    String → Dict (List CompiledEdge) → List String → Result {0} Unit
unfolding successors all_targets includes
validate_reachability start adjacency ids = do
  visited ← visit (successors adjacency) (suc (length (universe start adjacency))) [] start
  check (includes ids visited && includes visited ids) "unreachable_nodes"

-- `_validate_loops`
unfoldable pub validate_loops : String → Dict (List CompiledEdge) → Result Search
unfolding arcs_at all_targets
validate_loops start adjacency =
    explore (arcs_at adjacency) (suc (length (universe start adjacency)))
      (record { visiting = []; visited = [] }) start

unfoldable pub node_ids : Dict NodeSpec → List String
node_ids [] = []
node_ids ((id, spec) ∷ rest) = id ∷ node_ids rest

unfoldable pub terminal_ids : Dict NodeSpec → List String
unfolding is_terminal_type
terminal_ids [] = []
terminal_ids ((id, spec) ∷ rest) =
    let others = terminal_ids rest in
    if is_terminal_type spec.node_type then id ∷ others else others

-- `not start_node or start_node not in nodes`
unfoldable pub start_in : Option String → Dict NodeSpec → Result String
unfolding has node_ids
start_in none nodes = err (domain "start_node_not_found")
start_in (some id) nodes =
    if str_eq id ""
    then err (domain "start_node_not_found")
    else if has (node_ids nodes) id
    then ok id
    else err (domain "start_node_not_found")

unfoldable pub is_empty {ℓ} : {A : Type ℓ} → List A → Bool
is_empty [] = true
is_empty (x ∷ xs) = false

-- From the compiled edges to the plan: the two checks of the structure.
unfoldable pub validated : Snapshot → String → Dict (List CompiledEdge) → Result ExecutionPlan
validated snapshot start adjacency = do
  _ ← validate_reachability start adjacency (node_ids snapshot.nodes)
  _ ← validate_loops start adjacency
  ok (record {
    start_node_id = start;
    ordered_nodes = node_ids snapshot.nodes;
    adjacency_map = adjacency;
    terminal_nodes = terminal_ids snapshot.nodes;
    nodes = snapshot.nodes;
  })

-- `GraphCompiler.compile`
unfoldable pub compile : Snapshot → Result ExecutionPlan
unfolding is_empty
compile snapshot = do
  start ← start_in snapshot.start_node snapshot.nodes
  _ ← check (not (is_empty snapshot.edges)) "edges_required"
  _ ← check (not (is_empty (terminal_ids snapshot.nodes))) "no_terminal_nodes"
  adjacency ← compile_edges 0 (sorted_edges snapshot.edges) []
  validated snapshot start adjacency
