-- ===== src/Reconciler/Examples.antt =====
-- Runs of the reconciler of flow_run_reconciler.py.
use agent_orchestration_core.Common.{
  ℕ, ◌≡◌, refl, Option, some, none, List, [], ◌∷◌, Result, ok, if◌then◌else◌, ◌==◌, arith,
}
use agent_orchestration_core.Runtime.Types.{RunStatus, FlowRunStatus}
use agent_orchestration_core.Reconciler.{
  FlowRunRow, FlowRunOutcome, Clock, reconcile_once, reconcile, list_stale, limit_rows, sorted_rows,
  stale_rows, is_still_running, run_passes,
}
use agent_orchestration_core.Reconciler.Counts.{count}
use agent_orchestration_core.Reconciler.Draining.{is_stranded, run_passes-stranded}

abbrev running_row : ℕ → ℕ → FlowRunRow
running_row id since = record {
  flow_run_id = id;
  status = RunStatus.running;
  canonical_status = FlowRunStatus.running;
  updated_at = since;
  temporal_workflow_id = none;
}

-- The workflow of run 1 goes on, and that of no other.
abbrev only_first : FlowRunRow → Result (Option (Option FlowRunOutcome))
only_first r = if r.flow_run_id == 1 then ok (some none) else ok none

abbrev two_runs : List FlowRunRow
two_runs = running_row 1 10 ∷ running_row 2 20 ∷ []

abbrev session_of : ℕ → Result ℕ
session_of id = ok 1

abbrev at_second : ℕ → Clock
at_second now = record { now = now; fails_at = λ n. now }

-- The older run goes on; the younger is lost, and is failed.
run_passes-stranded_example :
    count
      (is_stranded (some only_first) 30)
      (run_passes (some only_first) session_of 60 2 (at_second 90 ∷ []) two_runs)
    ≡ 0
unfolding count is_still_running
run_passes-stranded_example =
    run_passes-stranded (some only_first) session_of 60 2 30 (at_second 90 ∷ []) two_runs
      (omega arith, _) (omega arith) (omega arith)

-- With batches of one run, the older run, which goes on, is all that a pass looks at.
one_row_batch :
    run_passes
      (some only_first)
      session_of
      60
      1
      (at_second 90 ∷ at_second 100 ∷ at_second 110 ∷ [])
      two_runs
    ≡ two_runs
unfolding run_passes reconcile_once reconcile list_stale limit_rows sorted_rows stale_rows
    is_still_running
one_row_batch = refl
