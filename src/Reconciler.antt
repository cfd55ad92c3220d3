-- ===== src/Reconciler.antt =====
-- FlowRunReconciler of domain/execution/services/flow_run_reconciler.py, on the rows of flow_run.
pub mod Counts
pub mod Draining
mod Examples
use agent_orchestration_core.Common.{
  ℕ, zero, suc, ◌+◌, ◌-◌, String, Bool, true, false, not, ◌&&◌, ◌||◌, Option, none, some, List, [],
  ◌∷◌, ltb, ◌==◌, Result, ok, err, update_rows, if◌then◌else◌,
}
use agent_orchestration_core.Runtime.Types.{RunStatus, FlowRunStatus}

-- A row of flow_run.
pub record FlowRunRow : Type 0 where
  pub flow_run_id : ℕ
  pub status : RunStatus
  pub canonical_status : FlowRunStatus
  pub updated_at : ℕ
  pub temporal_workflow_id : Option String

-- `FlowRunOutcome`
pub data FlowRunOutcome : Type 0 where
  completed waiting failed cancelled : FlowRunOutcome

-- What describe_flow_run answers of a run: nothing, or its outcome if it has one.
abbrev pub Engine : Type 0
Engine = FlowRunRow → Result (Option (Option FlowRunOutcome))

abbrev pub is_unfinished : RunStatus → Bool
is_unfinished RunStatus.queued = true
is_unfinished RunStatus.running = true
is_unfinished _ = false

abbrev pub is_stale : ℕ → FlowRunRow → Bool
is_stale older_than r = is_unfinished r.status && ltb r.updated_at older_than

unfoldable pub stale_rows : ℕ → List FlowRunRow → List FlowRunRow
stale_rows older_than [] = []
stale_rows older_than (r ∷ rows) =
    let rest = stale_rows older_than rows in if is_stale older_than r then r ∷ rest else rest

-- ORDER BY updated_at
unfoldable pub insert_row : FlowRunRow → List FlowRunRow → List FlowRunRow
insert_row r [] = r ∷ []
insert_row r (q ∷ qs) = if ltb q.updated_at r.updated_at then q ∷ insert_row r qs else r ∷ q ∷ qs

unfoldable pub sorted_rows : List FlowRunRow → List FlowRunRow
unfolding insert_row
sorted_rows [] = []
sorted_rows (r ∷ rows) = insert_row r (sorted_rows rows)

-- LIMIT
unfoldable pub limit_rows : ℕ → List FlowRunRow → List FlowRunRow
limit_rows zero rows = []
limit_rows (suc n) [] = []
limit_rows (suc n) (r ∷ rows) = r ∷ limit_rows n rows

-- `list_stale_running_flow_runs`
unfoldable pub list_stale : ℕ → ℕ → List FlowRunRow → List FlowRunRow
list_stale older_than limit rows = limit_rows limit (sorted_rows (stale_rows older_than rows))

-- `status.outcome is None or status.outcome is FlowRunOutcome.WAITING`
unfoldable pub goes_on : Option FlowRunOutcome → Bool
goes_on none = true
goes_on (some FlowRunOutcome.waiting) = true
goes_on (some _) = false

unfoldable pub reads_as_running : Result (Option (Option FlowRunOutcome)) → Bool
unfolding goes_on
reads_as_running (err x) = true
reads_as_running (ok none) = false
reads_as_running (ok (some outcome)) = goes_on outcome

-- `_is_still_running`
unfoldable pub is_still_running : Option Engine → FlowRunRow → Bool
unfolding reads_as_running
is_still_running none r = false
is_still_running (some describe) r = reads_as_running (describe r)

abbrev pub failed_row : ℕ → FlowRunRow → FlowRunRow
failed_row now r = record r {
  status = RunStatus.failed;
  canonical_status = FlowRunStatus.failed;
  updated_at = now;
}

abbrev pub has_id : ℕ → FlowRunRow → Bool
has_id id r = r.flow_run_id == id

-- `fail_flow_run`
unfoldable pub fail_flow_run : ℕ → ℕ → List FlowRunRow → List FlowRunRow
unfolding update_rows
fail_flow_run now id rows = update_rows (has_id id) (failed_row now) rows

-- What a pass leaves: its count or the exception that ends it, the rows, and the runs of which it
-- has appended FlowFailed.
pub record Pass : Type 0 where
  pub reply : Result ℕ
  pub rows : List FlowRunRow
  pub events : List ℕ

-- When a pass begins, and when it fails a run after so many others.
pub record Clock : Type 0 where
  pub now : ℕ
  pub fails_at : ℕ → ℕ

-- The loop over the batch. `context` is get_flow_context, which may find no session and raise.
module _ (engine : Option Engine) (context : ℕ → Result ℕ) where
  unfoldable pub reconcile : Clock → List FlowRunRow → ℕ → List FlowRunRow → List ℕ → Pass
  reconcile t [] count rows events = record { reply = ok count; rows = rows; events = events }
  reconcile t (r ∷ batch) count rows events = elim (is_still_running engine r) [
    | true ↦ reconcile t batch count rows events
    | false ↦
        let failed = fail_flow_run (t.fails_at count) r.flow_run_id rows in
        elim (context r.flow_run_id) [
          | err x ↦ record { reply = err x; rows = failed; events = events }
          | ok session ↦ reconcile t batch (count + 1) failed (r.flow_run_id ∷ events)
        ]
  ]

  module _ (stale_after batch_size : ℕ) where
    abbrev pub cutoff : Clock → ℕ
    cutoff t = t.now - stale_after

    -- `reconcile_once`
    unfoldable pub reconcile_once : Clock → List FlowRunRow → Pass
    reconcile_once t rows = reconcile t (list_stale (cutoff t) batch_size rows) 0 rows []

    -- `run_forever`, for some passes: an exception is logged, and the next pass begins.
    unfoldable pub run_passes : List Clock → List FlowRunRow → List FlowRunRow
    run_passes [] rows = rows
    run_passes (t ∷ ts) rows = run_passes ts (reconcile_once t rows).rows
