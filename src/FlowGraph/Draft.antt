-- ===== src/FlowGraph/Draft.antt =====
-- domain/flows/services/flow_graph_draft_validator.py: the checks between a draft and a validated
-- graph.
use agent_orchestration_core.Common.{
  suc, String, Bool, true, false, not, ◌&&◌, Option, none, some, List, [], ◌∷◌, ◌++◌, length, Dict,
  get, put, has, str_eq, ltb, Result, ok, ◌>>=◌, if◌then◌else◌, Unit, tt,
}
use agent_orchestration_core.Value.{Value, Fields}
use agent_orchestration_core.Runtime.Types.{EdgeKind, NodeSpec}
use agent_orchestration_core.Graph.{Arc, Search, explore}
use agent_orchestration_core.Compiler.{check, is_marked}
use agent_orchestration_core.FlowGraph.{
  FlowGraphEdge, FlowGraphDefinition, each_of, validate, targets_from,
}

-- The code that is not the repository's: pydantic's validation of a configuration, the parser of
-- conditions, and Python's own parser, by which a condition is seen to be true always.
pub record Libraries : Type 0 where
  pub config_fits : String → Fields → Bool
  pub compile_condition : String → Result Value
  pub always_true : String → Bool

-- `edge_kind_map`: the last edge between two nodes gives the kind of them all.
kind_between : List FlowGraphEdge → String → String → Option EdgeKind → Option EdgeKind
kind_between [] a b found = found
kind_between (e ∷ es) a b found =
    kind_between es a b
      (if str_eq e.from_node a && str_eq e.to_node b then some e.edge_kind else found)

is_loop_kind : Option EdgeKind → Bool
unfolding is_marked
is_loop_kind none = false
is_loop_kind (some k) = is_marked k

arcs_to : List FlowGraphEdge → String → List String → List Arc
unfolding kind_between is_loop_kind
arcs_to es id [] = []
arcs_to es id (n ∷ ns) =
    record { target = n; is_loop = is_loop_kind (kind_between es id n none) } ∷ arcs_to es id ns

unfoldable pub draft_arcs : List FlowGraphEdge → String → List Arc
unfolding arcs_to targets_from
draft_arcs es id = arcs_to es id (targets_from es id)

-- `_validate_cycles`
unfoldable pub validate_cycles : FlowGraphDefinition → Result Search
unfolding draft_arcs
validate_cycles d =
    explore (draft_arcs d.edges) (suc (suc (length d.edges)))
      (record { visiting = []; visited = [] }) d.start_node

-- `by_from`
edges_of_node : Option (List FlowGraphEdge) → List FlowGraphEdge
edges_of_node none = []
edges_of_node (some es) = es

by_from : List FlowGraphEdge → Dict (List FlowGraphEdge) → Dict (List FlowGraphEdge)
unfolding edges_of_node put get
by_from [] groups = groups
by_from (e ∷ es) groups =
    by_from es (put groups e.from_node (edges_of_node (get groups e.from_node) ++ e ∷ []))

different_conditions : List FlowGraphEdge → List String → Result {0} Unit
unfolding has
different_conditions [] seen = ok tt
different_conditions (e ∷ es) seen =
    check (not (has seen e.condition)) "edge_condition_duplicate" >>= λ u.
    different_conditions es (e.condition ∷ seen)

module _ (l : Libraries) where
  -- `_validate_node_configs`
  config_fits_node : String × NodeSpec → Result {0} Unit
  config_fits_node (id, spec) =
      check (l.config_fits spec.node_type spec.config) "node_config_invalid"

  -- `_validate_edge_syntax`
  edge_compiles : FlowGraphEdge → Result {0} Unit
  edge_compiles e = l.compile_condition e.condition >>= λ v. ok tt

  -- `_has_always_true`
  any_always_true : List FlowGraphEdge → Bool
  any_always_true [] = false
  any_always_true (e ∷ es) = if l.always_true e.condition then true else any_always_true es

  exclusive : String × List FlowGraphEdge → Result {0} Unit
  unfolding different_conditions any_always_true
  exclusive (id, es) =
      if ltb (length es) 2
      then ok tt
      else (different_conditions es [] >>= λ u.
          check (not (any_always_true es)) "edge_condition_not_mutually_exclusive")

  -- `_validate_mutual_exclusion`
  unfoldable pub validate_mutual_exclusion : List FlowGraphEdge → Result {0} Unit
  unfolding each_of exclusive by_from
  validate_mutual_exclusion es = each_of exclusive (by_from es [])

  -- `FlowGraphDraftValidator.validate`
  unfoldable pub validate_draft : FlowGraphDefinition → Result {0} Unit
  unfolding each_of config_fits_node edge_compiles
  validate_draft d = do
    _ ← validate d
    _ ← each_of config_fits_node d.nodes
    _ ← each_of edge_compiles d.edges
    _ ← validate_mutual_exclusion d.edges
    _ ← validate_cycles d
    ok tt
