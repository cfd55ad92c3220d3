-- ===== src/FlowStart/Owners.antt =====
-- create_flow_run of execution_service.py: whose sessions the flow runs belong to, and which versions
-- they are of.
use agent_orchestration_core.Common.{
  ℕ, String, Bool, true, false, ◌&&◌, Option, none, some, List, [], ◌∷◌, ◌==◌, ◌≡◌, refl, sym, ◌∙◌,
  arith, Unit, tt, Result, ok, err, domain, find_row, update_rows, str_eq, eq_iff, Bool-cases,
  Option-cases, inl, inr, if◌then◌else◌,
}
use agent_orchestration_core.FlowStart.{
  FlowRunCreate, FlowRun, SessionRow, Db, Surroundings, Origin,
}
use agent_orchestration_core.Runtime.Types.{RunStatus, FlowRunStatus}
use agent_orchestration_core.FlowStart.Choices.{
  is_flow_run, normalize_input, choose_contract, dumped_input, choose_origin, origin_candidate,
}
use agent_orchestration_core.FlowStart.Writes.{
  Act, ◌>=>◌, given, has_session, open_session, set_statuses, left_in, set_dispatch, dispatched,
  dispatch_by, dispatch_flow_run, launch, run_here, trace_uuid, fresh_id, create_interaction,
  correlation_of, find_origin, insert_flow_run, announce, response_of,
}
use agent_orchestration_core.FlowStart.Service.{new_run, create_row, attempt}
use agent_orchestration_core.FlowStart.Triples.{After, Leads, >=>-Leads, given-Leads}

module _ (o : Surroundings) where
  -- The session of a run is its user's, in the tenant that has the flow whose active version it is of.
  abbrev pub IsOwned : List SessionRow → FlowRun → Type 0
  IsOwned sessions run =
      (s : SessionRow) × (flow_id : ℕ) × (find_row (has_session run.session_id) sessions ≡ some s)
      × (s.user_id ≡ run.user_id)
      × (o.tenant_of_flow flow_id ≡ some s.tenant_id)
      × (o.active_flow_version_id flow_id ≡ some run.flow_version_id)

  abbrev pub AllOwned : List SessionRow → List FlowRun → Type 0
  AllOwned sessions [] = Unit
  AllOwned sessions (run ∷ rows) = IsOwned sessions run × AllOwned sessions rows

  abbrev pub Owned : Db → Type 0
  Owned db = AllOwned db.sessions db.flow_runs

  -- A session that is added where there was none is no other run's.
  AllOwned-add :
      (new : SessionRow) (sessions : List SessionRow) (rows : List FlowRun)
      → find_row (has_session new.session_id) sessions ≡ none
      → AllOwned sessions rows
      → AllOwned (new ∷ sessions) rows
  unfolding find_row
  AllOwned-add new sessions [] absent h = h
  AllOwned-add new sessions (run ∷ rows) absent ((s, flow_id, found, user, tenant, active), h) =
      let other : new.session_id == run.session_id ≡ false =
        elim (Bool-cases (new.session_id == run.session_id)) [
          | inr differs ↦ differs
          | inl equal ↦
              let same : new.session_id ≡ run.session_id = ground arith in
              let there : find_row (has_session new.session_id) sessions ≡ some s =
                rw (same) found in
              absurd cc
        ] in
      (
        (s, flow_id, rw (other, find_row) found, user, tenant, active),
        AllOwned-add new sessions rows absent h,
      )

  AllOwned-update :
      (sessions : List SessionRow) (fits : FlowRun → Bool) (change : FlowRun → FlowRun)
      (rows : List FlowRun)
      → ((run : FlowRun) → IsOwned sessions run → IsOwned sessions (change run))
      → AllOwned sessions rows
      → AllOwned sessions (update_rows fits change rows)
  unfolding update_rows
  AllOwned-update sessions fits change [] keeps h = h
  AllOwned-update sessions fits change (run ∷ rows) keeps (own, h) =
      let rest = AllOwned-update sessions fits change rows keeps h in
      elim (Bool-cases (fits run)) [
        | inl e ↦ rw (e) (keeps run own, rest)
        | inr e ↦ rw (e) (own, rest)
      ]

  unfoldable pub Keeps : {A : Type 0} → (Db → Type 0) → Act A → Type 0
  Keeps P m = Leads P m (λ a. P) Owned

  given-Keeps : {A : Type 0} (result : Result A) → Keeps Owned (given result)
  unfolding Keeps
  given-Keeps result = given-Leads Owned Owned result (λ db h. h)

  >=>-Keeps :
      {A B : Type 0} (m : Act A) (f : A → Act B)
      → Keeps Owned m
      → ((a : A) → Keeps Owned (f a))
      → Keeps Owned (m >=> f)
  unfolding Keeps
  >=>-Keeps m f first later = >=>-Leads (λ a. Owned) (λ b. Owned) Owned f Owned m first later

  set_statuses-Keeps :
      (id : ℕ) (t : Result {0} Unit × (RunStatus × FlowRunStatus)) → Keeps Owned (set_statuses id t)
  unfolding Keeps
  set_statuses-Keeps id (ok a, (status, canonical)) db h =
      AllOwned-update db.sessions (is_flow_run id) (left_in status canonical) db.flow_runs
        (λ run own. own) h
  set_statuses-Keeps id (err x, (status, canonical)) db h =
      AllOwned-update db.sessions (is_flow_run id) (left_in status canonical) db.flow_runs
        (λ run own. own) h

  set_dispatch-Keeps : (id : ℕ) (workflow : String) → Keeps Owned (set_dispatch id workflow)
  unfolding Keeps
  set_dispatch-Keeps id workflow db h =
      AllOwned-update db.sessions (is_flow_run id) (dispatched workflow) db.flow_runs
        (λ run own. own) h

  if-Keeps :
      {A : Type 0} (test : Bool) (m k : Act A)
      → Keeps Owned m
      → Keeps Owned k
      → Keeps Owned (if test then m else k)
  if-Keeps true m k h j = h
  if-Keeps false m k h j = j

  dispatch_by-Keeps :
      (wait : Bool) (run : FlowRun) (start_node_id : Option String)
      (start : Option (FlowRun → Option String → Result String))
      → Keeps Owned (dispatch_by o wait run start_node_id start)
  unfolding dispatch_by
  dispatch_by-Keeps wait run start_node_id none =
      given-Keeps (err (domain "workflow_engine_unavailable"))
  dispatch_by-Keeps wait run start_node_id (some start) =
      >=>-Keeps _ _ (given-Keeps (start run start_node_id)) (λ workflow.
        >=>-Keeps _ _ (set_dispatch-Keeps run.id workflow) (λ told.
          if-Keeps wait _ _ (set_statuses-Keeps run.id (o.awaits workflow)) (given-Keeps (ok tt))))

  launch-Keeps :
      (wait : Bool) (run : FlowRun) (origin : Origin) → Keeps Owned (launch o wait run origin)
  unfolding launch dispatch_flow_run run_here
  launch-Keeps wait run origin =
      if-Keeps o.temporal_enabled _ _ (dispatch_by-Keeps wait run origin.start_node_id o.starts)
        (set_statuses-Keeps run.id (o.runs run origin))

  module _ (tenant_id : ℕ) (c : FlowRunCreate) (flow_id version_id : ℕ)
      (of_tenant : o.tenant_of_flow flow_id ≡ some tenant_id)
      (is_active : o.active_flow_version_id flow_id ≡ some version_id) where
    -- The session of the request is its user's.
    abbrev Ready : Db → Type 0
    Ready db =
        Owned db
        × ((s : SessionRow) × (find_row (has_session c.session_id) db.sessions ≡ some s)
            × (s.user_id ≡ c.user_id)
            × (s.tenant_id ≡ tenant_id))

    open_session-Ready : Leads Owned (open_session tenant_id c) (λ a. Ready) Owned
    unfolding open_session find_row
    open_session-Ready db h =
        elim (Option-cases (find_row (has_session c.session_id) db.sessions)) [
          | inl e ↦
              let new : SessionRow = record {
                session_id = c.session_id;
                tenant_id = tenant_id;
                user_id = c.user_id;
              } in
              let self : c.session_id == c.session_id ≡ true = ground arith in
              rw (e, After, open_session)
                (AllOwned-add new db.sessions db.flow_runs e h, (new, rw (self) refl, refl, refl))
          | inr (s, e) ↦
              elim (Bool-cases (s.tenant_id == tenant_id && str_eq s.user_id c.user_id)) [
                | inr differs ↦ rw (e, differs, After, open_session) h
                | inl equal ↦
                    rw (e, equal, After, open_session)
                      (h, (s, e, (eq_iff s.user_id c.user_id).0 (ground arith), ground arith))
              ]
        ]

    Readies : {A : Type 0} → Act A → Type 0
    Readies m = Leads Ready m (λ a. Ready) Owned

    Finishes : {A : Type 0} → Act A → Type 0
    Finishes m = Leads Ready m (λ b. Owned) Owned

    >=>-Readies-Finishes :
        {A B : Type 0} (m : Act A) (f : A → Act B)
        → Readies m
        → ((a : A) → Finishes (f a))
        → Finishes (m >=> f)
    unfolding Readies Finishes
    >=>-Readies-Finishes m f first later =
        >=>-Leads (λ a. Ready) (λ b. Owned) Owned f Ready m first later

    >=>-Finishes-Keeps :
        {A B : Type 0} (m : Act A) (f : A → Act B)
        → Finishes m
        → ((a : A) → Keeps Owned (f a))
        → Finishes (m >=> f)
    unfolding Finishes Keeps
    >=>-Finishes-Keeps m f first later =
        >=>-Leads (λ a. Owned) (λ b. Owned) Owned f Ready m first later

    open_session->=>-Keeps :
        {B : Type 0} (f : Unit → Act B)
        → ((a : Unit) → Finishes (f a))
        → Keeps Owned (open_session tenant_id c >=> f)
    unfolding Finishes Keeps
    open_session->=>-Keeps f later =
        >=>-Leads (λ a. Ready) (λ b. Owned) Owned f Owned (open_session tenant_id c)
          open_session-Ready later

    given-Readies : {A : Type 0} (result : Result A) → Readies (given result)
    unfolding Readies
    given-Readies result = given-Leads Ready Owned result (λ db h. h.0)

    correlation_of-Readies : (id : Option ℕ) → Readies (correlation_of id)
    unfolding Readies correlation_of fresh_id
    correlation_of-Readies none db h = h
    correlation_of-Readies (some id) db h = h

    find_origin-Readies : Readies (find_origin o c version_id)
    unfolding Readies find_origin
    find_origin-Readies db h =
        given-Readies (choose_origin o (origin_candidate c version_id db.flow_runs) db.flow_runs) db
          h

    create_interaction-Readies : Readies (create_interaction c.session_id)
    unfolding Readies create_interaction
    create_interaction-Readies db h = h

    insert_flow_run-Finishes :
        (run : FlowRun)
        → run.session_id ≡ c.session_id
        → run.user_id ≡ c.user_id
        → run.flow_version_id ≡ version_id
        → Finishes (insert_flow_run run)
    unfolding Finishes insert_flow_run
    insert_flow_run-Finishes run session user version db (h, (s, found, same_user, same_tenant)) = (
      (
        s,
        flow_id,
        rw (session) found,
        same_user ∙ sym user,
        rw (same_tenant) of_tenant,
        rw (version) is_active,
      ),
      h,
    )

    trace_uuid-Keeps : (text : Option String) → Keeps Owned (trace_uuid o text)
    unfolding Keeps trace_uuid fresh_id
    trace_uuid-Keeps none db h = h
    trace_uuid-Keeps (some text) db h = elim (Option-cases (o.uuid_of text)) [
      | inl e ↦ rw (e, After, trace_uuid) h
      | inr (id, e) ↦ rw (e, After, trace_uuid) h
    ]

    create_row-Keeps :
        (trace_id : Option String)
        → Keeps Owned (create_row o tenant_id c trace_id flow_id version_id)
    unfolding create_row
    create_row-Keeps trace_id = >=>-Keeps _ _ (trace_uuid-Keeps trace_id) (λ trace.
        open_session->=>-Keeps _ (λ opened.
          >=>-Readies-Finishes _ _ (given-Readies (normalize_input o tenant_id c)) (λ input.
            >=>-Readies-Finishes _ _ create_interaction-Readies (λ interaction_id.
              >=>-Readies-Finishes _ _ (correlation_of-Readies c.correlation_id) (λ correlation_id.
                >=>-Readies-Finishes _ _ find_origin-Readies (λ origin.
                  >=>-Readies-Finishes _ _
                    (given-Readies (choose_contract o tenant_id flow_id version_id))
                    (λ contract.
                      >=>-Readies-Finishes _ _ (given-Readies (dumped_input input)) (λ dumped.
                        >=>-Finishes-Keeps _ _
                          (insert_flow_run-Finishes
                            (new_run c version_id origin contract dumped interaction_id
                              correlation_id trace)
                            refl refl refl)
                          (λ run. given-Keeps {A = FlowRun × Origin} (ok (run, origin)))))))))))

    announce-Keeps : (run : FlowRun) → Keeps Owned (announce run)
    unfolding Keeps announce
    announce-Keeps run db h = h

    response_of-Keeps : (run : FlowRun) → Keeps Owned (response_of run)
    unfolding Keeps response_of
    response_of-Keeps run db h = h

    pub attempt-Keeps :
        (wait : Bool) (trace_id : Option String)
        → Keeps Owned (attempt o wait tenant_id c trace_id flow_id version_id)
    unfolding attempt
    attempt-Keeps wait trace_id = >=>-Keeps _ _ (create_row-Keeps trace_id) (λ (run, origin).
        >=>-Keeps _ _ (announce-Keeps run) (λ told.
          >=>-Keeps _ _ (launch-Keeps wait run origin) (λ launched. response_of-Keeps run)))
