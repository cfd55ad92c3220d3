-- ===== src/FlowGraph/Snapshots.antt =====
-- domain/flows/services/flow_graph_compiler.py: the snapshot of a validated graph, without its hash.
use agent_orchestration_core.Common.{
  String, none, some, List, [], ◌∷◌, Result, ok, ◌>>=◌, if◌then◌else◌,
}
use agent_orchestration_core.Runtime.Types.{EdgeKind, normal, loop}
use agent_orchestration_core.Compiler.{SnapshotEdge, Snapshot, key_le}
use agent_orchestration_core.FlowGraph.{FlowGraphEdge, FlowGraphDefinition}
use agent_orchestration_core.FlowGraph.Draft.{Libraries}

unfoldable pub kind_value : EdgeKind → String
kind_value normal = "NORMAL"
kind_value loop = "LOOP"

-- The edge as a dictionary, its condition still to be compiled.
unfoldable pub dumped : FlowGraphEdge → SnapshotEdge
unfolding kind_value
dumped e = record {
  from_node = e.from_node;
  to_node = e.to_node;
  condition = some e.condition;
  edge_kind = some (kind_value e.edge_kind);
  compiled_condition = none;
}

-- `sorted`, by the ends and the condition
unfoldable pub insert_drawn : FlowGraphEdge → List FlowGraphEdge → List FlowGraphEdge
unfolding key_le dumped
insert_drawn e [] = e ∷ []
insert_drawn e (x ∷ xs) = if key_le (dumped e) (dumped x) then e ∷ x ∷ xs else x ∷ insert_drawn e xs

unfoldable pub sorted_drawn : List FlowGraphEdge → List FlowGraphEdge
unfolding insert_drawn
sorted_drawn [] = []
sorted_drawn (e ∷ es) = insert_drawn e (sorted_drawn es)

module _ (l : Libraries) where
  -- `_compile_edges`
  unfoldable pub compile_drawn : List FlowGraphEdge → Result (List SnapshotEdge)
  unfolding dumped
  compile_drawn [] = ok []
  compile_drawn (e ∷ es) = do
    v ← l.compile_condition e.condition
    rest ← compile_drawn es
    ok (record (dumped e) { compiled_condition = some v } ∷ rest)

  -- `FlowGraphCompiler.compile`
  unfoldable pub snapshot_of : FlowGraphDefinition → Result Snapshot
  unfolding compile_drawn sorted_drawn
  snapshot_of d = do
    edges ← compile_drawn (sorted_drawn d.edges)
    ok (record { start_node = some d.start_node; nodes = d.nodes; edges = edges })
