-- ===== src/Runtime/Agreement/Run.antt =====
-- The whole traversal by the two engines.
use agent_orchestration_core.Common.{ℕ, ◌≡◌, none, Dict, Result, ok}
use agent_orchestration_core.Runtime.Types.{ExecutionPlan, ExecutionContext, Repository, Nodes}
use agent_orchestration_core.Runtime.Step.{StepResult, run_step}
use agent_orchestration_core.Runtime.Workflow.{WorkflowResult}
use agent_orchestration_core.Runtime.Agreement.{main_log}

-- The workflow returns, and its log is that of the executor but for the evaluations of edges and the
-- exception of a failure.
pub record SameRun (r : Result (Repository × WorkflowResult)) (after : Repository) : Type 0 where
  pub final : Repository
  pub result : WorkflowResult
  pub returns : r ≡ ok (final, result)
  pub same_log : main_log final.log ≡ main_log after.log

module _ (nodes : Nodes) (plan : ExecutionPlan) (limit : ℕ) where
  module _ (rounds : ℕ) (context : ExecutionContext) (k : Dict ℕ) (repository : Repository)
      (inside : (run_step nodes plan limit context k repository).escapes ≡ none) where
    abbrev stepped : StepResult
    stepped = run_step nodes plan limit context k repository
