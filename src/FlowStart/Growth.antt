-- ===== src/FlowStart/Growth.antt =====
-- execution_service.py: the statements of create_flow_run add at most one flow run.
use agent_orchestration_core.Common.{
  ℕ, ◌≤◌, String, Bool, true, false, Option, none, some, List, [], ◌∷◌, ◌≡◌, refl, arith, Unit, tt,
  domain, Result, ok, err, length, update_rows, find_row, ◌&&◌, ◌==◌, str_eq, suc, Bool-cases,
  Option-cases, inl, inr, if◌then◌else◌,
}
use agent_orchestration_core.Runtime.Types.{RunStatus, FlowRunStatus}
use agent_orchestration_core.FlowStart.{FlowRunCreate, FlowRun, Db, Surroundings, Origin}
use agent_orchestration_core.FlowStart.Choices.{
  is_flow_run, choose_contract, dumped_input, normalize_input, choose_origin, origin_candidate,
}
use agent_orchestration_core.FlowStart.Triples.{After, Leads, >=>-Leads, given-Leads}
use agent_orchestration_core.FlowStart.Writes.{
  Act, ◌>=>◌, has_session, given, open_session, trace_uuid, fresh_id, create_interaction,
  correlation_of, find_origin, insert_flow_run, announce, launch, dispatch_flow_run, dispatch_by,
  run_here, set_statuses, left_in, set_dispatch, dispatched, response_of,
}
use agent_orchestration_core.FlowStart.Service.{new_run, create_row, attempt}

length-update_rows :
    {A : Type 0} (fits : A → Bool) (change : A → A) (xs : List A)
    → length (update_rows fits change xs) ≡ length xs
unfolding update_rows
length-update_rows fits change [] = refl
length-update_rows fits change (x ∷ xs) = omega (arith, length-update_rows fits change xs)

abbrev pub AtMost : ℕ → Db → Type 0
AtMost n db = length db.flow_runs ≤ n

module _ (o : Surroundings) (n : ℕ) where
  Few : {A : Type 0} → Act A → Type 0
  Few m = Leads (AtMost n) m (λ a. AtMost n) (AtMost (suc n))

  open_session-Few : (tenant_id : ℕ) (c : FlowRunCreate) → Few (open_session tenant_id c)
  unfolding Few open_session
  open_session-Few tenant_id c db h =
      elim (Option-cases (find_row (has_session c.session_id) db.sessions)) [
        | inl e ↦ rw (e, After, open_session) h
        | inr (s, e) ↦ elim (Bool-cases (s.tenant_id == tenant_id && str_eq s.user_id c.user_id)) [
          | inl same ↦ rw (e, same, After, open_session) h
          | inr other ↦ rw (e, other, After, open_session) (omega arith)
        ]
      ]

  trace_uuid-Few : (text : Option String) → Few (trace_uuid o text)
  unfolding Few trace_uuid fresh_id
  trace_uuid-Few none db h = h
  trace_uuid-Few (some text) db h = elim (Option-cases (o.uuid_of text)) [
    | inl e ↦ rw (e, After, trace_uuid) (omega arith)
    | inr (id, e) ↦ rw (e, After, trace_uuid) h
  ]

  given-Few : {A : Type 0} (result : Result A) → Few (given result)
  unfolding Few
  given-Few result = given-Leads (AtMost n) (AtMost (suc n)) result (λ db h. omega arith)

  correlation_of-Few : (id : Option ℕ) → Few (correlation_of id)
  unfolding Few correlation_of fresh_id
  correlation_of-Few none db h = h
  correlation_of-Few (some id) db h = h

  find_origin-Few : (c : FlowRunCreate) (version_id : ℕ) → Few (find_origin o c version_id)
  unfolding Few find_origin
  find_origin-Few c version_id db h =
      given-Leads (AtMost n) (AtMost (suc n))
        (choose_origin o (origin_candidate c version_id db.flow_runs) db.flow_runs)
        (λ db h. omega arith) db h

  create_interaction-Few : (session_id : ℕ) → Few (create_interaction session_id)
  unfolding Few create_interaction
  create_interaction-Few session_id db h = h

  unfoldable pub Grows : {A : Type 0} → Act A → Type 0
  Grows m = Leads (AtMost n) m (λ a. AtMost (suc n)) (AtMost (suc n))

  >=>-Few-Grows :
      {A B : Type 0} (m : Act A) (f : A → Act B) → Few m → ((a : A) → Grows (f a)) → Grows (m >=> f)
  unfolding Few Grows
  >=>-Few-Grows m f first later =
      >=>-Leads (λ a. AtMost n) (λ b. AtMost (suc n)) (AtMost (suc n)) f (AtMost n) m first later

  Stays : {A : Type 0} → Act A → Type 0
  Stays m = Leads (AtMost (suc n)) m (λ a. AtMost (suc n)) (AtMost (suc n))

  >=>-Grows-Stays :
      {A B : Type 0} (m : Act A) (f : A → Act B)
      → Grows m
      → ((a : A) → Stays (f a))
      → Grows (m >=> f)
  unfolding Stays Grows
  >=>-Grows-Stays m f first later =
      >=>-Leads (λ a. AtMost (suc n)) (λ b. AtMost (suc n)) (AtMost (suc n)) f (AtMost n) m first
        later

  >=>-Stays :
      {A B : Type 0} (m : Act A) (f : A → Act B)
      → Stays m
      → ((a : A) → Stays (f a))
      → Stays (m >=> f)
  unfolding Stays
  >=>-Stays m f first later =
      >=>-Leads (λ a. AtMost (suc n)) (λ b. AtMost (suc n)) (AtMost (suc n)) f (AtMost (suc n)) m
        first later

  insert_flow_run-Grows : (run : FlowRun) → Grows (insert_flow_run run)
  unfolding Grows insert_flow_run
  insert_flow_run-Grows run db h = omega (arith, h)

  given-Stays : {A : Type 0} (result : Result A) → Stays (given result)
  unfolding Stays
  given-Stays result = given-Leads (AtMost (suc n)) (AtMost (suc n)) result (λ db h. h)

  announce-Stays : (run : FlowRun) → Stays (announce run)
  unfolding Stays announce
  announce-Stays run db h = h

  response_of-Stays : (run : FlowRun) → Stays (response_of run)
  unfolding Stays response_of
  response_of-Stays run db h = h

  set_statuses-Stays :
      (id : ℕ) (t : Result {0} Unit × (RunStatus × FlowRunStatus)) → Stays (set_statuses id t)
  unfolding Stays
  set_statuses-Stays id (ok a, (status, canonical)) db h =
      omega (arith, h, length-update_rows (is_flow_run id) (left_in status canonical) db.flow_runs)
  set_statuses-Stays id (err x, (status, canonical)) db h =
      omega (arith, h, length-update_rows (is_flow_run id) (left_in status canonical) db.flow_runs)

  set_dispatch-Stays : (id : ℕ) (workflow : String) → Stays (set_dispatch id workflow)
  unfolding Stays
  set_dispatch-Stays id workflow db h =
      omega (arith, h, length-update_rows (is_flow_run id) (dispatched workflow) db.flow_runs)

  if-Stays :
      {A : Type 0} (test : Bool) (m k : Act A) → Stays m → Stays k → Stays (if test then m else k)
  if-Stays true m k h j = h
  if-Stays false m k h j = j

  dispatch_by-Stays :
      (wait : Bool) (run : FlowRun) (start_node_id : Option String)
      (start : Option (FlowRun → Option String → Result String))
      → Stays (dispatch_by o wait run start_node_id start)
  unfolding dispatch_by
  dispatch_by-Stays wait run start_node_id none =
      given-Stays (err (domain "workflow_engine_unavailable"))
  dispatch_by-Stays wait run start_node_id (some start) =
      >=>-Stays _ _ (given-Stays (start run start_node_id)) (λ workflow.
        >=>-Stays _ _ (set_dispatch-Stays run.id workflow) (λ told.
          if-Stays wait _ _ (set_statuses-Stays run.id (o.awaits workflow)) (given-Stays (ok tt))))

  launch-Stays : (wait : Bool) (run : FlowRun) (origin : Origin) → Stays (launch o wait run origin)
  unfolding launch dispatch_flow_run run_here
  launch-Stays wait run origin =
      if-Stays o.temporal_enabled _ _ (dispatch_by-Stays wait run origin.start_node_id o.starts)
        (set_statuses-Stays run.id (o.runs run origin))

  create_row-Grows :
      (tenant_id : ℕ) (c : FlowRunCreate) (trace_id : Option String) (flow_id version_id : ℕ)
      → Grows (create_row o tenant_id c trace_id flow_id version_id)
  unfolding create_row
  create_row-Grows tenant_id c trace_id flow_id version_id =
      >=>-Few-Grows _ _ (trace_uuid-Few trace_id) (λ trace.
        >=>-Few-Grows _ _ (open_session-Few tenant_id c) (λ opened.
          >=>-Few-Grows _ _ (given-Few (normalize_input o tenant_id c)) (λ input.
            >=>-Few-Grows _ _ (create_interaction-Few c.session_id) (λ interaction_id.
              >=>-Few-Grows _ _ (correlation_of-Few c.correlation_id) (λ correlation_id.
                >=>-Few-Grows _ _ (find_origin-Few c version_id) (λ origin.
                  >=>-Few-Grows _ _ (given-Few (choose_contract o tenant_id flow_id version_id))
                    (λ contract. >=>-Few-Grows _ _ (given-Few (dumped_input input)) (λ dumped.
                      >=>-Grows-Stays _ _
                        (insert_flow_run-Grows (
                          new_run c version_id origin contract dumped interaction_id correlation_id
                            trace))
                        (λ run. given-Stays (ok (run, origin)))))))))))

  pub attempt-Grows :
      (wait : Bool) (tenant_id : ℕ) (c : FlowRunCreate) (trace_id : Option String)
      (flow_id version_id : ℕ)
      → Grows (attempt o wait tenant_id c trace_id flow_id version_id)
  unfolding attempt
  attempt-Grows wait tenant_id c trace_id flow_id version_id =
      >=>-Grows-Stays _ _ (create_row-Grows tenant_id c trace_id flow_id version_id)
        (λ (run, origin). >=>-Stays _ _ (announce-Stays run) (λ told.
          >=>-Stays _ _ (launch-Stays wait run origin) (λ launched. response_of-Stays run)))

pub count-After :
    {A : Type 0} (n : ℕ) (t : Result A × Db)
    → After (λ a. AtMost n) (AtMost n) t
    → length t.1.flow_runs ≤ n
count-After n (ok a, db) h = h
count-After n (err x, db) h = h
