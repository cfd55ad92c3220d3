-- ===== src/Agent/Effects.antt =====
-- tool_dispatcher.py and agent_loop.py: whatever the model answers, a run keeps to its grant.
use agent_orchestration_core.Common.{
  ℕ, zero, suc, ◌+◌, String, ◌≡◌, refl, inl, inr, Bool, true, false, ◌&&◌, ◌||◌, some, List, [],
  ◌∷◌, str_eq, leb, ◌==◌, domain, raised, Result, ok, err, arith, eq_iff, Bool-cases, Option-cases,
  and_intro, Result-cases,
}
use agent_orchestration_core.Value.Access.{lookup}
use agent_orchestration_core.Agent.{
  ToolBinding, ResolvedToolGrant, binding_in, is_delegation_allowed_for, AgentRunScope,
}
use agent_orchestration_core.Agent.Dispatcher.{
  ToolCall, AgentWrite, tool_run_created, delegation_created, tool_requested, AgentStore, note,
  Outside, TaskResult, max_delegation_depth, delegation_tool_name, delegate, delegated, delegate_to,
  dispatch_delegation, run_binding, dispatch, run_task_result, Delegated, argument,
}
use agent_orchestration_core.Agent.Loop.{
  Message, Completion, LoopState, LoopEnd, returned, raised_out, take_turn, call_tool, call_tools,
  turn_failed, has_calls, run_turns, run_agent,
}

abbrev has_config : List ToolBinding → String → Bool
has_config [] config = false
has_config (b ∷ bs) config = str_eq b.tool_config_id config || has_config bs config

module _ (scope : AgentRunScope) (grant : ResolvedToolGrant) where
  -- A tool run is of a tool in the grant; a task is given to an agent of the grant, one level down
  -- and not too deep.
  abbrev pub is_authorized : AgentWrite → Bool
  is_authorized (tool_run_created run config arguments call) = has_config grant.tools config
  is_authorized (delegation_created task target depth) =
      is_delegation_allowed_for grant target
      && (depth == scope.delegation_depth + 1 && leb depth max_delegation_depth)
  is_authorized _ = true

  abbrev pub all_authorized : List AgentWrite → Bool
  all_authorized [] = true
  all_authorized (w ∷ ws) = is_authorized w && all_authorized ws

  binding-has_config :
      (bs : List ToolBinding) (name : String) (b : ToolBinding)
      → binding_in bs name ≡ some b
      → has_config bs b.tool_config_id ≡ true
  unfolding binding_in
  binding-has_config [] name b h = cc
  binding-has_config (c ∷ bs) name b h =
      ground (arith, eq_iff c.tool_config_id b.tool_config_id, binding-has_config bs name b)

  module _ (o : Outside) where
    task_result-authorized :
        (task : ℕ) (r : Result TaskResult) (s : AgentStore)
        → all_authorized s.log ≡ true
        → all_authorized (run_task_result task r s).store.log ≡ true
    unfolding run_task_result
    task_result-authorized task (ok r) s h = h
    task_result-authorized task (err x) s h = h

    delegate-authorized :
        (target instruction : String) (s : AgentStore)
        → is_delegation_allowed_for grant target ≡ true
        → all_authorized s.log ≡ true
        → all_authorized (delegate o scope.delegation_depth target instruction s).store.log ≡ true
    unfolding delegate
    delegate-authorized target instruction s a h =
        elim (Bool-cases (leb max_delegation_depth scope.delegation_depth)) [
          | inl e ↦ rw (e) h
          | inr e ↦ rw (e) (
              task_result-authorized s.next_task
                (o.run_task s.next_task target (scope.delegation_depth + 1) instruction)
                (note (delegation_created s.next_task target (scope.delegation_depth + 1))
                  (record s { next_task = suc s.next_task }))
                (ground arith))
        ]

    delegated-store : (call : ToolCall) (d : Delegated) → (delegated o call d).1 ≡ d.store
    unfolding delegated
    delegated-store call d = elim (Result-cases d.outcome) [
      | inl (r, e) ↦ rw (e) refl
      | inr (x, e) ↦ rw (e) refl
    ]

    delegate_to-authorized :
        (call : ToolCall) (target instruction : String) (s : AgentStore)
        → all_authorized s.log ≡ true
        → all_authorized ((delegate_to o scope grant call target instruction s).1).log ≡ true
    unfolding delegate_to
    delegate_to-authorized call target instruction s h =
        elim (Bool-cases (is_delegation_allowed_for grant target)) [
          | inr e ↦ rw (e) h
          | inl e ↦ rw (e) (elim (Bool-cases (str_eq instruction "")) [
            | inl i ↦ rw (i) h
            | inr i ↦
                rw
                  (i, delegated-store call (delegate o scope.delegation_depth target instruction s))
                  (delegate-authorized target instruction s e h)
          ])
        ]

    delegation-authorized :
        (call : ToolCall) (s : AgentStore)
        → all_authorized s.log ≡ true
        → all_authorized ((dispatch_delegation o scope grant call s).1).log ≡ true
    unfolding dispatch_delegation
    delegation-authorized call s h = elim (Bool-cases grant.allow_agent_delegation) [
      | inr e ↦ simp (e) h
      | inl e ↦
          simp (e) (elim (Option-cases (o.uuid (argument o (lookup call.arguments "agent_id")))) [
            | inl u ↦ rw (u) h
            | inr (target, u) ↦ rw (u) (delegate_to-authorized call target _ s h)
          ])
    ]

    dispatch-authorized :
        (call : ToolCall) (s : AgentStore)
        → all_authorized s.log ≡ true
        → all_authorized ((dispatch o scope grant call s).1).log ≡ true
    unfolding dispatch run_binding
    dispatch-authorized call s h = elim (Bool-cases (str_eq call.name delegation_tool_name)) [
      | inl e ↦ rw (e) (delegation-authorized call s h)
      | inr e ↦ rw (e) (elim (Option-cases (binding_in grant.tools call.name)) [
        | inl n ↦ rw (n) h
        | inr (b, n) ↦
            rw (n) (elim (Option-cases (o.schema_error b.request_schema call.arguments)) [
              | inr (message, x) ↦ rw (x) h
              | inl x ↦ rw (x) (and_intro _ _ (binding-has_config grant.tools call.name b n) h)
            ])
      ])
    ]

    module _ (complete : ℕ → List Message → Result Completion) where
      call_tools-authorized :
          (i : ℕ) (calls : List ToolCall) (s : LoopState)
          → all_authorized s.store.log ≡ true
          → all_authorized (call_tools o complete scope grant i calls s).store.log ≡ true
      unfolding call_tools call_tool
      call_tools-authorized i [] s h = h
      call_tools-authorized i (c ∷ cs) s h =
          call_tools-authorized i cs (call_tool o complete scope grant i c s)
            (dispatch-authorized c (note (tool_requested i c.call_id) s.store) h)

      -- The loop's state when it is left.
      abbrev pub left_with : LoopEnd → LoopState
      left_with (returned r s) = s
      left_with (raised_out x s) = s

      run_turns-authorized :
          (n done : ℕ) (s : LoopState)
          → all_authorized s.store.log ≡ true
          → all_authorized (left_with (run_turns o complete scope grant n done s)).store.log ≡ true
      unfolding run_turns take_turn turn_failed
      run_turns-authorized zero done s h = h
      run_turns-authorized (suc n) done s h = elim (Result-cases (complete (suc done) s.messages)) [
        | inr (domain m, e) ↦ rw (e, left_with, run_turns) h
        | inr (raised x, e) ↦ rw (e, left_with, run_turns) h
        | inl (c, e) ↦
            rw (e, left_with, run_turns)
              (elim (Bool-cases (has_calls o complete scope grant c.tool_calls)) [
                | inr f ↦ rw (f, left_with, run_turns) h
                | inl f ↦ rw (f) (
                    run_turns-authorized n (suc done) _
                      (call_tools-authorized (suc done) c.tool_calls _ h))
              ])
      ]

      -- If the log that a run starts with keeps to the grant, then so does the log it ends with:
      -- whatever the model and the tools answer, and however the run ends, each tool run of its log
      -- is of a tool of the grant, and each delegation is to an agent that the grant allows, one
      -- level below the run and at most three deep.
      pub run_agent-authorized :
          (messages : List Message) (iterations : ℕ) (store : AgentStore)
          → all_authorized store.log ≡ true
          → all_authorized
              (left_with (run_agent o complete scope grant messages iterations store)).store.log
            ≡ true
      unfolding run_agent
      run_agent-authorized messages iterations store h = run_turns-authorized iterations 0 _ h
