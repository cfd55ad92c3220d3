-- ===== src/Runtime/Edges.antt =====
-- node_step_runner.py, `_evaluate_edges`: the loop over the edges of a node.
use Prim.Native.String.{◌++◌ as string_append}
use agent_orchestration_core.Common.{
  ℕ, ◌+◌, String, Bool, Option, none, some, List, [], ◌∷◌, ◌++◌, Dict, get, put, str_eq,
  if◌then◌else◌, ltb, Exn, domain, Result, ok, err,
}
use agent_orchestration_core.Value.{obj, Fields}
use agent_orchestration_core.EdgeEvaluator.{is_true}
use agent_orchestration_core.Runtime.Types.{
  EdgeKind, normal, loop, CompiledEdge, edge_evaluated, Repository, emit, Nodes,
}

-- `f"{edge.from_node}->{edge.to_node}"`
unfoldable pub edge_key : CompiledEdge → String
edge_key e = string_append e.from_node (string_append "->" e.to_node)

-- The variables of the loop in `_evaluate_edges`.
pub record EdgeScan : Type 0 where
  pub counters : Dict ℕ
  pub loop_edge_keys : List String
  pub candidates : List String
  pub repository : Repository

-- One round of the loop: it goes on, or an exception leaves it.
pub data EdgeStep : Type 0 where
  go : EdgeScan → EdgeStep
  stop : Exn → EdgeScan → EdgeStep

count_of : Option ℕ → ℕ
count_of none = 0
count_of (some n) = n

-- The loop counter of the edge's key, raised by one before it is held against the limit.
unfoldable pub count_edge : ℕ → String → EdgeScan → EdgeStep
unfolding count_of
count_edge limit key scan =
    let count = count_of (get scan.counters key) + 1 in
    let counted = record scan {
      counters = put scan.counters key count;
      loop_edge_keys = scan.loop_edge_keys ++ key ∷ [];
    } in
    if ltb limit count then stop (domain "loop_iteration_limit_exceeded") counted else go counted

unfoldable pub enter_edge : ℕ → EdgeKind → String → EdgeScan → EdgeStep
unfolding count_edge
enter_edge limit normal key scan = go scan
enter_edge limit loop key scan = count_edge limit key scan

-- The condition of an edge, read in the output of the node.
unfoldable pub judge : Result Bool → CompiledEdge → EdgeScan → EdgeStep
judge (ok holds) e scan = go (record scan {
  candidates = if holds then scan.candidates ++ e.to_node ∷ [] else scan.candidates;
  repository = emit (edge_evaluated e.from_node e.to_node holds) scan.repository;
})
judge (err x) e scan = stop x scan

unfoldable pub judge_entered : Result Bool → CompiledEdge → EdgeStep → EdgeStep
unfolding judge
judge_entered r e (go scan) = judge r e scan
judge_entered r e (stop x scan) = stop x scan

module _ (nodes : Nodes) (limit : ℕ) (current_node_id : String) (output : Fields) where
  unfoldable pub edge_step : CompiledEdge → EdgeScan → EdgeStep
  unfolding enter_edge judge_entered edge_key
  edge_step e scan =
      if str_eq e.from_node current_node_id
      then judge_entered (is_true nodes.objects e.compiled_condition (obj output)) e
          (enter_edge limit e.edge_kind (edge_key e) scan)
      else go scan

  -- `_evaluate_edges`; `candidates` is its result
  unfoldable pub evaluate_edges : List CompiledEdge → EdgeScan → EdgeStep
  evaluate_edges [] scan = go scan
  evaluate_edges (e ∷ es) scan = elim (edge_step e scan) [
    | go scan' ↦ evaluate_edges es scan'
    | stop x scan' ↦ stop x scan'
  ]
