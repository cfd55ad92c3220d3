-- ===== src/FlowGraph/Searches.antt =====
-- flow_graph_validator.py: what the searches of the structure decide.
use agent_orchestration_core.Common.{
  suc, ◌<◌, String, ◌≡◌, ◌≢◌, refl, true, List, [], ◌∷◌, length, Dict, has, domain, Result, ok, err,
  arith, Unit, tt,
}
use agent_orchestration_core.Runtime.Types.{NodeSpec}
use agent_orchestration_core.Graph.{visit}
use agent_orchestration_core.Graph.Reach.{Has, missing, Has-head, Has-later}
use agent_orchestration_core.Graph.Rank.{missing_all}
use agent_orchestration_core.Graph.Cover.{Connects, Covered, covers, misses, visit-Covered}
use agent_orchestration_core.Compiler.{node_ids, terminal_ids, is_empty}
use agent_orchestration_core.FlowGraph.{
  FlowGraphEdge, FlowGraphDefinition, targets_from, to_ends, has_terminal_path, validate_searches,
}
use agent_orchestration_core.FlowGraph.Walks.{has_terminal_path_finds, Walk-of_Reaches}

targets_from-ends :
    (es : List FlowGraphEdge) (x y : String) → Has (targets_from es x) y → Has (to_ends es) y
unfolding targets_from to_ends has
targets_from-ends [] x y h = h
targets_from-ends (e ∷ es) x y h = ground (arith, targets_from-ends es x y)

terminal-node :
    (nodes : Dict NodeSpec) (x : String) → Has (terminal_ids nodes) x → Has (node_ids nodes) x
unfolding terminal_ids node_ids has
terminal-node [] x h = h
terminal-node ((id, spec) ∷ rest) x h = ground (arith, terminal-node rest x)

length-to_ends : (es : List FlowGraphEdge) → length (to_ends es) ≡ length es
unfolding to_ends
length-to_ends [] = refl
length-to_ends (e ∷ es) = omega (arith, length-to_ends es)

-- A graph is accepted.
abbrev pub IsSearchable : FlowGraphDefinition → Type 0
IsSearchable d =
    Connects (targets_from d.edges) d.start_node (node_ids d.nodes) × (terminal_ids d.nodes ≢ [])

pub data SearchVerdict (d : FlowGraphDefinition) (r : Result {0} Unit) : Type 0 where
  accepted : r ≡ ok tt → IsSearchable d → SearchVerdict d r
  unreachable :
      r ≡ err (domain "unreachable_nodes")
      → ¬ (Connects (targets_from d.edges) d.start_node (node_ids d.nodes))
      → SearchVerdict d r
  endless : r ≡ err (domain "no_terminal_nodes") → terminal_ids d.nodes ≡ [] → SearchVerdict d r

module _ (d : FlowGraphDefinition) where
  abbrev ends : List String
  ends = d.start_node ∷ to_ends d.edges

  ends_closed : (x y : String) → Has ends x → Has (targets_from d.edges x) y → Has ends y
  ends_closed x y h e = Has-later d.start_node (to_ends d.edges) y (targets_from-ends d.edges x y e)

  enough_fuel : missing ends [] < suc (suc (length d.edges))
  enough_fuel = omega (arith, missing_all ends, length-to_ends d.edges)

  terminal_path_found :
      (ts : List String)
      → terminal_ids d.nodes ≡ ts
      → ts ≢ []
      → Connects (targets_from d.edges) d.start_node (node_ids d.nodes)
      → has_terminal_path
          (targets_from d.edges)
          (terminal_ids d.nodes)
          (suc (suc (length d.edges)))
          d.start_node
          []
        ≡ ok true
  terminal_path_found [] e full c = absurd (full refl)
  terminal_path_found (t ∷ ts) e full c =
      let known : Has (terminal_ids d.nodes) t = rw e (Has-head t ts) in
      let (k, w) =
        Walk-of_Reaches (targets_from d.edges) (terminal_ids d.nodes) d.start_node t
          ((c t).0 (terminal-node d.nodes t known)) known in
      has_terminal_path_finds (targets_from d.edges) (terminal_ids d.nodes) ends ends_closed _ k
        d.start_node [] (Has-head d.start_node (to_ends d.edges)) enough_fuel w

  -- The searches accept the graphs whose nodes are those that can be reached from the start, with a
  -- terminal node among them, and no others; when some nodes are terminal and all can be reached,
  -- the search for a path to a terminal node finds one.
  pub validate_searches_verdict : SearchVerdict d (validate_searches d)
  unfolding validate_searches is_empty
  validate_searches_verdict = decide (terminal_ids d.nodes) refl (
      visit-Covered (targets_from d.edges) d.start_node ends _ (node_ids d.nodes) ends_closed
        (Has-head d.start_node (to_ends d.edges)) enough_fuel)
    where
      decide :
          (ts : List String)
          → terminal_ids d.nodes ≡ ts
          → Covered
              (targets_from d.edges)
              d.start_node
              (visit (targets_from d.edges) (suc (suc (length d.edges))) [] d.start_node)
              (node_ids d.nodes)
          → SearchVerdict d (validate_searches d)
      decide ts t (misses visited e partial c) = unreachable (rw (e, partial, validate_searches)) c
      decide [] t (covers visited e full c) = endless (rw (e, full, t, validate_searches)) t
      decide (x ∷ ts) t (covers visited e full c) =
          accepted (rw (e, full, terminal_path_found (x ∷ ts) t (λ k. cc) c, t, validate_searches))
            (c, λ k. cc)
