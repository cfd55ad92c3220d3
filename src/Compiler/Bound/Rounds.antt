-- ===== src/Compiler/Bound/Rounds.antt =====
-- graph_compiler.py and executor.py: without loop edges the step bound is never reached.
use agent_orchestration_core.Common.{String, ◌≡◌, Bool, false, ◌||◌, some, List, [], ◌∷◌}
use agent_orchestration_core.Runtime.Types.{
  CompiledEdge, ExecutionPlan, Repository, Write, flow_run_failed,
}
use agent_orchestration_core.Runtime.Settling.{settling}
use agent_orchestration_core.Compiler.{edges_at, is_marked}
use agent_orchestration_core.Compiler.Bound.{is_exhausted}

unfoldable pub any_loop : List CompiledEdge → Bool
unfolding is_marked
any_loop [] = false
any_loop (e ∷ es) = is_marked e.edge_kind || any_loop es

-- No edge of the plan is marked as a loop.
abbrev pub HasNoLoop : ExecutionPlan → Type 0
HasNoLoop plan = (id : String) → any_loop (edges_at plan.adjacency_map id) ≡ false

-- The last status that a write gives is not that of a run whose steps were used up.
abbrev pub exhausts : Write → Bool
exhausts (flow_run_failed r x) = is_exhausted (some r)
exhausts _ = false

pub record EndsItself (before after : Repository) : Type 0 where
  pub last : Write
  pub settling_once : settling after.log ≡ last ∷ settling before.log
  pub own_end : exhausts last ≡ false
  pub calm : after.escaped ≡ before.escaped
