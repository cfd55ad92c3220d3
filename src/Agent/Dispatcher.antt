-- ===== src/Agent/Dispatcher.antt =====
-- tool_dispatcher.py and domain/agents/services/a2a_delegation_service.py: one call of a tool by the
-- model.
use agent_orchestration_core.Common.{
  ℕ, zero, suc, ◌+◌, String, Option, none, some, List, ◌∷◌, strip, str_eq, leb, domain, Result, ok,
  err, if◌then◌else◌,
}
use agent_orchestration_core.Value.{Value, Fields, truthy}
use agent_orchestration_core.Value.Access.{lookup}
use agent_orchestration_core.Agent.{
  ToolBinding, ResolvedToolGrant, binding_in, is_delegation_allowed_for, CallStatus,
  ToolCallOutcome, AgentRunScope,
}

pub record ToolCall : Type 0 where
  pub call_id : String
  pub name : String
  pub arguments : Fields

-- `A2ATaskState`: how a delegated task stands
pub data TaskState : Type 0 where
  submitted working input_required completed canceled failed rejected : TaskState
  auth_required unknown : TaskState

-- What a run writes: the rows of tool runs and of delegations, and its transcript.
pub data AgentWrite : Type 0 where
  tool_run_created : ℕ → String → Fields → String → AgentWrite
  delegation_created : ℕ → String → ℕ → AgentWrite
  delegation_updated : ℕ → TaskState → AgentWrite
  llm_call_started llm_call_failed llm_call_completed : ℕ → AgentWrite
  assistant_message : String → List ToolCall → AgentWrite
  tool_requested : ℕ → String → AgentWrite
  tool_finished : ℕ → ToolCallOutcome → AgentWrite
  tool_message : String → String → AgentWrite

-- The log, latest first, and how many tool runs and delegations there are.
pub record AgentStore : Type 0 where
  pub log : List AgentWrite
  pub next_tool_run : ℕ
  pub next_task : ℕ

abbrev pub note : AgentWrite → AgentStore → AgentStore
note w s = record s { log = w ∷ s.log }

pub record TaskResult : Type 0 where
  pub state : TaskState
  pub output_text : String

-- What is not the runtime's own: jsonschema, the tools themselves, the agent that a task is given
-- to, UUID texts, and JSON texts. A tool or an agent may answer differently each time.
pub record Outside : Type 0 where
  pub schema_error : Value → Fields → Option String
  pub run_tool : ℕ → Fields → Result Fields
  pub run_task : ℕ → String → ℕ → String → Result TaskResult
  pub uuid : String → Option String
  pub json_text : Fields → String
  pub task_text : ℕ → TaskResult → String  -- the JSON text that tells of a task
  pub error_text : String → String  -- the JSON text that tells of an error
  pub plain : Value → String  -- `str`

-- `_result_text`: a text of at most so many characters, or its beginning with a mark
unfoldable pub clip : ℕ → String → String
clip limit String.[] = String.[]
clip zero (String.◌∷◌ c s) = "...\"truncated\""
clip (suc limit) (String.◌∷◌ c s) = String.◌∷◌ c (clip limit s)

abbrev pub max_result_text_chars : ℕ
max_result_text_chars = 20000

abbrev pub max_delegation_depth : ℕ
max_delegation_depth = 3

abbrev pub delegation_tool_name : String
delegation_tool_name = "delegate_to_agent"

pub record Delegated : Type 0 where
  pub outcome : Result (ℕ × TaskResult)
  pub store : AgentStore

unfoldable pub run_task_result : ℕ → Result TaskResult → AgentStore → Delegated
run_task_result task (ok r) s = record {
  outcome = ok (task, r);
  store = note (delegation_updated task r.state) s;
}
run_task_result task (err x) s = record {
  outcome = err x;
  store = note (delegation_updated task TaskState.failed) s;
}

module _ (o : Outside) where
  -- `A2ADelegationService.delegate`
  unfoldable pub delegate : ℕ → String → String → AgentStore → Delegated
  unfolding run_task_result
  delegate depth target instruction s =
      if leb max_delegation_depth depth
      then record { outcome = err (domain "a2a_delegation_depth_exceeded"); store = s }
      else (let task = s.next_task in
          run_task_result task (o.run_task task target (depth + 1) instruction)
            (note (delegation_created task target (depth + 1)) (record s { next_task = suc task })))

  abbrev pub answered : ToolCall → CallStatus → String → Option ℕ → Option ℕ → ToolCallOutcome
  answered call status text run task = record {
    tool_call_id = call.call_id;
    function_name = call.name;
    status = status;
    result_text = text;
    tool_run_id = run;
    a2a_task_id = task;
  }

  -- `_denied`, and the other refusals
  abbrev pub refused : ToolCall → CallStatus → String → ToolCallOutcome
  refused call status reason = answered call status (o.error_text reason) none none

  -- `str(arguments.get(key) or "")`
  unfoldable pub argument : Option Value → String
  argument none = ""
  argument (some v) = if truthy v then o.plain v else ""

  unfoldable pub delegated : ToolCall → Delegated → ToolCallOutcome × AgentStore
  delegated call d = elim d.outcome [
    | ok (task, r) ↦ (
      answered call CallStatus.success (clip max_result_text_chars (o.task_text task r)) none
          (some task),
      d.store,
    )
    | err x ↦ (refused call CallStatus.error "delegation_failed", d.store)
  ]

  unfoldable pub delegate_to :
      AgentRunScope
      → ResolvedToolGrant
      → ToolCall
      → String
      → String
      → AgentStore
      → ToolCallOutcome × AgentStore
  delegate_to scope grant call target instruction s =
      if is_delegation_allowed_for grant target
      then (if str_eq instruction ""
          then (refused call CallStatus.invalid_arguments "instruction_required", s)
          else delegated call (delegate scope.delegation_depth target instruction s))
      else (refused call CallStatus.denied "delegate_agent_not_authorized_for_this_run", s)

  -- `_dispatch_delegation`
  unfoldable pub dispatch_delegation :
      AgentRunScope → ResolvedToolGrant → ToolCall → AgentStore → ToolCallOutcome × AgentStore
  unfolding delegate_to argument strip
  dispatch_delegation scope grant call s =
      if grant.allow_agent_delegation
      then elim (o.uuid (argument (lookup call.arguments "agent_id"))) [
        | none ↦ (refused call CallStatus.invalid_arguments "invalid_agent_id", s)
        | some target ↦
            delegate_to scope grant call target
              (strip (argument (lookup call.arguments "instruction"))) s
      ]
      else (refused call CallStatus.denied "agent_delegation_not_authorized_for_this_run", s)

  unfoldable pub tool_answer : ToolCall → ℕ → Result Fields → ToolCallOutcome
  tool_answer call run (ok result) =
      answered call CallStatus.success (clip max_result_text_chars (o.json_text result)) (some run)
        none
  tool_answer call run (err x) =
      answered call CallStatus.error (o.error_text "tool_execution_failed") (some run) none

  -- The row of the tool run, and then the tool.
  unfoldable pub run_binding : ToolBinding → ToolCall → AgentStore → ToolCallOutcome × AgentStore
  unfolding tool_answer
  run_binding b call s =
      let run = s.next_tool_run in
      (
        tool_answer call run (o.run_tool run call.arguments),
        note (tool_run_created run b.tool_config_id call.arguments call.call_id)
            (record s { next_tool_run = suc run }),
      )

  -- `dispatch`
  unfoldable pub dispatch :
      AgentRunScope → ResolvedToolGrant → ToolCall → AgentStore → ToolCallOutcome × AgentStore
  unfolding run_binding
  dispatch scope grant call s =
      if str_eq call.name delegation_tool_name
      then dispatch_delegation scope grant call s
      else elim (binding_in grant.tools call.name) [
        | none ↦ (refused call CallStatus.denied "tool_not_authorized_for_this_run", s)
        | some b ↦ elim (o.schema_error b.request_schema call.arguments) [
          | some message ↦ (refused call CallStatus.invalid_arguments "invalid_arguments", s)
          | none ↦ run_binding b call s
        ]
      ]
