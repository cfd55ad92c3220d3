-- ===== src/Reconciler/Draining.antt =====
-- flow_run_reconciler.py: passes of the reconciler leave no stranded run, unless runs that go on fill
-- every batch.
use Prim.{Unit}
use agent_orchestration_core.Common.{
  ℕ, ◌+◌, ◌-◌, ◌≤◌, ◌<◌, ◌≡◌, refl, ◌∙◌, Bool, false, not, ◌&&◌, Option, none, some, List, [], ◌∷◌,
  ltb, arith, Result, length, Bool-cases, Result-cases, inl, inr, if◌then◌else◌,
}
use agent_orchestration_core.Reconciler.{
  FlowRunRow, Engine, Clock, is_stale, is_unfinished, stale_rows, sorted_rows, list_stale,
  is_still_running, failed_row, has_id, fail_flow_run, reconcile, cutoff, reconcile_once,
  run_passes,
}
use agent_orchestration_core.Reconciler.Counts.{
  count, count-le, count-sorted_rows, count-limit_rows, length-limit_rows, count-stale_rows,
}

module _ (engine : Option Engine) where
  -- An unfinished run whose workflow is not found to go on.
  abbrev pub is_lost : FlowRunRow → Bool
  is_lost r = is_unfinished r.status && not (is_still_running engine r)

  -- An unfinished run whose workflow is found to go on.
  abbrev pub is_going : FlowRunRow → Bool
  is_going r = is_unfinished r.status && is_still_running engine r

  -- A lost run that has not been updated since a second.
  abbrev pub is_stranded : ℕ → FlowRunRow → Bool
  is_stranded older_than r = is_stale older_than r && not (is_still_running engine r)

  abbrev is_lost_as : ℕ → FlowRunRow → Bool
  is_lost_as id r = is_lost r && has_id id r

  -- Failing a run loses no other, and takes off one that is lost.
  fail_flow_run-le :
      (now id : ℕ) (rows : List FlowRunRow)
      → count is_lost (fail_flow_run now id rows) + count (is_lost_as id) rows ≤ count is_lost rows
  unfolding count fail_flow_run
  fail_flow_run-le now id [] = omega arith
  fail_flow_run-le now id (r ∷ rows) = elim (Bool-cases (has_id id r)) [
    | inl here ↦ rw (here) (ground (arith, fail_flow_run-le now id rows))
    | inr there ↦ rw (there) (ground (arith, fail_flow_run-le now id rows))
  ]

  -- No pass adds to the runs with a property that no failed run has.
  module _ (p : FlowRunRow → Bool)
      (none_failed : (now : ℕ) (r : FlowRunRow) → p (failed_row now r) ≡ false) where
    fail_count-le :
        (now id : ℕ) (rows : List FlowRunRow) → count p (fail_flow_run now id rows) ≤ count p rows
    unfolding count fail_flow_run
    fail_count-le now id [] = omega arith
    fail_count-le now id (r ∷ rows) = elim (Bool-cases (has_id id r)) [
      | inl here ↦ rw (here, none_failed now r) (omega (arith, fail_count-le now id rows))
      | inr there ↦ rw (there) (omega (arith, fail_count-le now id rows))
    ]

    reconcile-le :
        (context : ℕ → Result ℕ) (t : Clock) (batch : List FlowRunRow) (n : ℕ)
        (rows : List FlowRunRow) (events : List ℕ)
        → count p (reconcile engine context t batch n rows events).rows ≤ count p rows
    unfolding reconcile
    reconcile-le context t [] n rows events = omega arith
    reconcile-le context t (r ∷ batch) n rows events =
        elim (Bool-cases (is_still_running engine r)) [
          | inl on ↦ rw (on, reconcile) (reconcile-le context t batch n rows events)
          | inr off ↦
              let failed = fail_count-le (t.fails_at n) r.flow_run_id rows in
              elim (Result-cases (context r.flow_run_id)) [
                | inr (x, e) ↦ rw (off, e, reconcile) failed
                | inl (session, e) ↦
                    rw (off, e, reconcile)
                      (omega (
                        arith,
                        reconcile-le context t batch (n + 1)
                            (fail_flow_run (t.fails_at n) r.flow_run_id rows)
                            (r.flow_run_id ∷ events),
                      ))
              ]
        ]

    run_passes-le :
        (context : ℕ → Result ℕ) (stale_after batch_size : ℕ) (ts : List Clock)
        (rows : List FlowRunRow)
        → count p (run_passes engine context stale_after batch_size ts rows) ≤ count p rows
    unfolding run_passes reconcile_once
    run_passes-le context stale_after batch_size [] rows = omega arith
    run_passes-le context stale_after batch_size (t ∷ ts) rows =
        let limit = t.now - stale_after in
        let once = reconcile-le context t (list_stale limit batch_size rows) 0 rows [] in
        let later =
          run_passes-le context stale_after batch_size ts
            (reconcile_once engine context stale_after batch_size t rows).rows in
        omega arith

  first_lost : List FlowRunRow → Option ℕ
  first_lost [] = none
  first_lost (r ∷ rows) = if is_still_running engine r then first_lost rows else some r.flow_run_id

  module _ (context : ℕ → Result ℕ) (t : Clock) where
    reconcile-lt :
        (batch : List FlowRunRow) (n : ℕ) (rows : List FlowRunRow) (events : List ℕ) (id : ℕ)
        → first_lost batch ≡ some id
        → 0 < count (is_lost_as id) rows
        → count is_lost (reconcile engine context t batch n rows events).rows < count is_lost rows
    unfolding reconcile first_lost
    reconcile-lt [] n rows events id f h = cc
    reconcile-lt (r ∷ batch) n rows events id f h = elim (Bool-cases (is_still_running engine r)) [
      | inl on ↦
          rw (on, reconcile) (reconcile-lt batch n rows events id (rw (on, first_lost) at f) h)
      | inr off ↦
          let same : r.flow_run_id ≡ id =
            let e : some r.flow_run_id ≡ some id = rw (off, first_lost) at f in cc in
          let failed = fail_flow_run-le (t.fails_at n) r.flow_run_id rows in
          let there : 0 < count (is_lost_as r.flow_run_id) rows = rw (same) h in
          elim (Result-cases (context r.flow_run_id)) [
            | inr (x, e) ↦ rw (off, e, reconcile) (omega arith)
            | inl (session, e) ↦
                rw (off, e, reconcile)
                  (omega (
                    arith,
                    reconcile-le is_lost (λ now q. refl) context t batch (n + 1)
                        (fail_flow_run (t.fails_at n) r.flow_run_id rows) (r.flow_run_id ∷ events),
                  ))
          ]
    ]

  -- A batch with a lost run has a first, which is counted among the lost ones of its identifier.
  first_lost-some :
      (batch : List FlowRunRow)
      → 0 < count (λ r. not (is_still_running engine r)) batch
      → (id : ℕ) × (first_lost batch ≡ some id)
        × (0 < count (λ r. not (is_still_running engine r) && has_id id r) batch)
  unfolding count first_lost
  first_lost-some [] h = absurd (omega arith)
  first_lost-some (r ∷ batch) h = elim (Bool-cases (is_still_running engine r)) [
    | inr off ↦ (r.flow_run_id, rw (off) refl, ground arith)
    | inl on ↦
        let (id, first, there) = first_lost-some batch (ground arith) in
        (id, rw (on) first, rw (on) (ground arith))
  ]

  -- What a batch has is counted among the stale rows.
  count-list_stale :
      (older_than : ℕ) (p : FlowRunRow → Bool) (limit : ℕ) (rows : List FlowRunRow)
      → count p (list_stale older_than limit rows) ≤ count (λ r. is_stale older_than r && p r) rows
  unfolding list_stale
  count-list_stale older_than p limit rows =
      let kept = count-limit_rows p limit (sorted_rows (stale_rows older_than rows)) in
      let sorted = count-sorted_rows p (stale_rows older_than rows) in
      omega (arith, count-stale_rows p older_than rows)

  -- With fewer runs that go on than a batch holds, the batch has a lost run if a run is stranded.
  list_stale-some :
      (older_than batch_size : ℕ) (rows : List FlowRunRow)
      → count is_going rows < batch_size
      → 0 < count (is_stranded older_than) rows
      → 0 < count (λ r. not (is_still_running engine r)) (list_stale older_than batch_size rows)
  unfolding list_stale
  list_stale-some older_than batch_size rows few stranded =
      let lost : FlowRunRow → Bool = λ r. not (is_still_running engine r) in
      let stale = stale_rows older_than rows in
      let going_sorted =
        count-sorted_rows (λ r. not (lost r)) stale
        ∙ count-stale_rows (λ r. not (lost r)) older_than rows in
      let lost_sorted = count-sorted_rows lost stale ∙ count-stale_rows lost older_than rows in
      let going =
        count-le (λ r. is_stale older_than r && not (lost r)) is_going (λ r h. ground arith) rows in
      length-limit_rows lost batch_size (sorted_rows stale) (omega arith) (omega arith)

  module _ (context : ℕ → Result ℕ) (stale_after batch_size : ℕ) where
    reconcile_once-lt :
        (t : Clock) (rows : List FlowRunRow)
        → count is_going rows < batch_size
        → 0 < count (is_stranded (cutoff engine context stale_after batch_size t)) rows
        → count is_lost (reconcile_once engine context stale_after batch_size t rows).rows
          < count is_lost rows
    unfolding reconcile_once
    reconcile_once-lt t rows few stranded =
        let limit = t.now - stale_after in
        let (id, first, there) =
          first_lost-some (list_stale limit batch_size rows)
            (list_stale-some limit batch_size rows few stranded) in
        let among =
          count-list_stale limit (λ r. not (is_still_running engine r) && has_id id r) batch_size
            rows in
        let as_lost =
          count-le (λ r. is_stale limit r && (not (is_still_running engine r) && has_id id r))
            (is_lost_as id) (λ r h. ground arith) rows in
        reconcile-lt context t (list_stale limit batch_size rows) 0 rows [] id first (omega arith)

    -- Passes whose cutoff is no earlier than a second.
    abbrev pub AllSince : ℕ → List Clock → Type 0
    AllSince first [] = Unit
    AllSince first (t ∷ ts) = (first ≤ t.now - stale_after) × AllSince first ts

    -- If fewer unfinished runs than a batch holds are found to go on, then after as many passes as
    -- there are unfinished runs that are not, none of these is left that is stale by the cutoff of
    -- every pass. A pass may also end by an exception. Between the passes no other part writes the
    -- rows, and the engine's answer for a row stays the same.
    pub run_passes-stranded :
        (older_than : ℕ) (ts : List Clock) (rows : List FlowRunRow)
        → AllSince older_than ts
        → count is_going rows < batch_size
        → count is_lost rows ≤ length ts
        → count (is_stranded older_than) (run_passes engine context stale_after batch_size ts rows)
          ≡ 0
    unfolding run_passes reconcile_once
    run_passes-stranded older_than [] rows late few h =
        let lost = count-le (is_stranded older_than) is_lost (λ r k. ground arith) rows in
        omega arith
    run_passes-stranded older_than (t ∷ ts) rows late few h =
        let limit = t.now - stale_after in
        let fewer =
          reconcile-le is_going (λ now r. refl) context t (list_stale limit batch_size rows) 0 rows
            [] in
        let still =
          reconcile-le is_lost (λ now r. refl) context t (list_stale limit batch_size rows) 0 rows
            [] in
        elim (Bool-cases (ltb 0 (count (is_stranded limit) rows))) [
          | inl more ↦
              let progress = reconcile_once-lt t rows few (ground arith) in
              run_passes-stranded older_than ts _ late.1 (omega arith) (omega arith)
          | inr none_left ↦
              let later =
                run_passes-le (is_stranded older_than) (λ now r. refl) context stale_after
                  batch_size (t ∷ ts) rows in
              let older =
                count-le (is_stranded older_than) (is_stranded limit) (λ r k. ground arith) rows in
              ground arith
        ]
