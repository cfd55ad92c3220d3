-- ===== src/Runtime/Scan.antt =====
-- The loop of `_evaluate_edges`: what each round keeps, the loop keeps.
use agent_orchestration_core.Common.{ℕ, String, List, [], ◌∷◌}
use agent_orchestration_core.Value.{Fields}
use agent_orchestration_core.Runtime.Types.{Repository, CompiledEdge, Nodes}
use agent_orchestration_core.Runtime.Edges.{EdgeScan, EdgeStep, go, stop, edge_step, evaluate_edges}

abbrev pub repository_of : EdgeStep → Repository
repository_of (go scan) = scan.repository
repository_of (stop x scan) = scan.repository

-- A relation between the repository before and after.
module _ (nodes : Nodes) (limit : ℕ) (current : String) (output : Fields)
    (P : Repository → Repository → Type 0) (same : (r : Repository) → P r r)
    (chain : (a b c : Repository) → P a b → P b c → P a c)
    (round : (e : CompiledEdge) (scan : EdgeScan)
      → P scan.repository (repository_of (edge_step nodes limit current output e scan))) where
  resume :
      (es : List CompiledEdge) (before : Repository) (r : EdgeStep)
      → ((scan : EdgeScan)
          → P scan.repository (repository_of (evaluate_edges nodes limit current output es scan)))
      → P before (repository_of r)
      → P before (
          repository_of (elim r [
            | go scan ↦ evaluate_edges nodes limit current output es scan
            | stop x scan ↦ stop x scan
          ]))
  resume es before (go scan) ih p =
      chain before scan.repository
        (repository_of (evaluate_edges nodes limit current output es scan)) p (ih scan)
  resume es before (stop x scan) ih p = p

  pub scan_induction :
      (es : List CompiledEdge) (scan : EdgeScan)
      → P scan.repository (repository_of (evaluate_edges nodes limit current output es scan))
  unfolding evaluate_edges
  scan_induction [] scan = same scan.repository
  scan_induction (e ∷ es) scan =
      resume es scan.repository (edge_step nodes limit current output e scan)
        (λ scan'. scan_induction es scan') (round e scan)
