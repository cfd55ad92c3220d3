-- ===== src/Agent/Loop.antt =====
-- agent_loop.py: turns of the model, each with its calls of tools, up to a number of iterations.
use agent_orchestration_core.Common.{
  ℕ, zero, suc, ◌+◌, String, Bool, true, false, List, [], ◌∷◌, ◌++◌, str_eq, Exn, domain, raised,
  Result, ok, err, if◌then◌else◌,
}
use agent_orchestration_core.Agent.{ResolvedToolGrant, AgentRunScope}
use agent_orchestration_core.Agent.Dispatcher.{
  ToolCall, AgentWrite, llm_call_started, llm_call_failed, llm_call_completed, assistant_message,
  tool_requested, tool_finished, tool_message, AgentStore, note, Outside, dispatch,
}

-- `AgentTurnMessage`
pub data Message : Type 0 where
  seeded : String → String → Message  -- role and content
  assistant : String → List ToolCall → Message
  tool_result : String → String → String → Message

pub record Completion : Type 0 where
  pub text : String
  pub tool_calls : List ToolCall
  pub input_tokens : ℕ
  pub output_tokens : ℕ

-- `AgentRunFinishReason`
pub data FinishReason : Type 0 where
  final_output max_iterations llm_error tool_error cancelled : FinishReason

-- `AgentLoopResult`, without the cost
pub record LoopResult : Type 0 where
  pub finish_reason : FinishReason
  pub output_text : String
  pub iterations_used : ℕ
  pub input_tokens : ℕ
  pub output_tokens : ℕ
  pub tool_call_count : ℕ

-- The variables of the loop.
pub record LoopState : Type 0 where
  pub messages : List Message
  pub input_tokens : ℕ
  pub output_tokens : ℕ
  pub tool_call_count : ℕ
  pub last_text : String
  pub store : AgentStore

-- How `run` is left: with a result, or by an exception that it does not catch.
pub data LoopEnd : Type 0 where
  returned : LoopResult → LoopState → LoopEnd
  raised_out : Exn → LoopState → LoopEnd

unfoldable pub result_of : FinishReason → ℕ → LoopState → LoopResult
result_of reason used s = record {
  finish_reason = reason;
  output_text = s.last_text;
  iterations_used = used;
  input_tokens = s.input_tokens;
  output_tokens = s.output_tokens;
  tool_call_count = s.tool_call_count;
}

abbrev pub noted : AgentWrite → LoopState → LoopState
noted w s = record s { store = note w s.store }

-- The turn is taken into the transcript and the sums.
unfoldable pub take_turn : ℕ → Completion → LoopState → LoopState
take_turn iteration c s = record s {
  messages = s.messages ++ assistant c.text c.tool_calls ∷ [];
  input_tokens = s.input_tokens + c.input_tokens;
  output_tokens = s.output_tokens + c.output_tokens;
  last_text = if str_eq c.text "" then s.last_text else c.text;
  store =
      note (assistant_message c.text c.tool_calls) (note (llm_call_completed iteration) s.store);
}

module _ (o : Outside) (complete : ℕ → List Message → Result Completion) (scope : AgentRunScope)
    (grant : ResolvedToolGrant) where
  -- One call of a tool: requested, dispatched, recorded and answered.
  unfoldable pub call_tool : ℕ → ToolCall → LoopState → LoopState
  call_tool iteration call s =
      let (outcome, after) =
        dispatch o scope grant call (note (tool_requested iteration call.call_id) s.store) in
      record s {
        messages =
            s.messages
            ++ tool_result outcome.tool_call_id outcome.function_name outcome.result_text ∷ [];
        tool_call_count = s.tool_call_count + 1;
        store =
            note (tool_message outcome.tool_call_id outcome.result_text)
              (note (tool_finished iteration outcome) after);
      }

  unfoldable pub call_tools : ℕ → List ToolCall → LoopState → LoopState
  call_tools iteration [] s = s
  call_tools iteration (c ∷ cs) s = call_tools iteration cs (call_tool iteration c s)

  -- An error of the domain ends the run; any other exception leaves the loop.
  unfoldable pub turn_failed : ℕ → Exn → LoopState → LoopEnd
  turn_failed iteration (domain m) s =
      returned (result_of FinishReason.llm_error iteration s) (noted (llm_call_failed iteration) s)
  turn_failed iteration (raised x) s = raised_out (raised x) s

  unfoldable pub has_calls : List ToolCall → Bool
  has_calls [] = false
  has_calls (c ∷ cs) = true

  -- The `for` loop of `AgentCognitiveLoop.run`, with the iterations that are left.
  unfoldable pub run_turns : ℕ → ℕ → LoopState → LoopEnd
  unfolding has_calls
  run_turns zero done s = returned (result_of FinishReason.max_iterations done s) s
  run_turns (suc left) done s =
      let started = noted (llm_call_started (suc done)) s in
      elim (complete (suc done) s.messages) [
        | err x ↦ turn_failed (suc done) x started
        | ok c ↦
            let taken = take_turn (suc done) c started in
            elim (has_calls c.tool_calls) [
              | false ↦ returned (result_of FinishReason.final_output (suc done) taken) taken
              | true ↦ run_turns left (suc done) (call_tools (suc done) c.tool_calls taken)
            ]
      ]

-- `AgentCognitiveLoop.run`, from the seeded transcript
unfoldable pub run_agent :
    Outside
    → (ℕ → List Message → Result Completion)
    → AgentRunScope
    → ResolvedToolGrant
    → List Message
    → ℕ
    → AgentStore
    → LoopEnd
run_agent o complete scope grant messages iterations store =
    run_turns o complete scope grant iterations 0 (record {
      messages = messages;
      input_tokens = 0;
      output_tokens = 0;
      tool_call_count = 0;
      last_text = "";
      store = store;
    })
