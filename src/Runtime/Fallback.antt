-- ===== src/Runtime/Fallback.antt =====
-- domain/execution/services/graph_runtime/fallback_reason_resolver.py
use agent_orchestration_core.Common.{
  String, Bool, false, Option, some, has_ink, str_eq, if◌then◌else◌,
}
use agent_orchestration_core.Value.{Value, str, arr, obj, cons, Fields}
use agent_orchestration_core.Value.Access.{lookup}
use agent_orchestration_core.Value.Compare.{codes}

-- `SLAFallbackReason`: the members that the resolver returns
pub data FallbackReason : Type 0 where
  low_confidence tool_failure policy_block unknown_intent : FallbackReason

abbrev pub reason_value : FallbackReason → String
reason_value low_confidence = "LOW_CONFIDENCE"
reason_value tool_failure = "TOOL_FAILURE"
reason_value policy_block = "POLICY_BLOCK"
reason_value unknown_intent = "UNKNOWN_INTENT"

intent_given : Option Value → Bool
unfolding has_ink codes
intent_given (some (str s)) = has_ink (codes s)
intent_given _ = false

first_intent : Option Value → Bool
unfolding intent_given
first_intent (some (arr (cons (obj fs) rest))) = intent_given (lookup fs "intent_type")
first_intent _ = false

unfoldable pub has_intent : Fields → Bool
unfolding first_intent
has_intent node_output = first_intent (lookup node_output "result")

unfoldable pub resolve_fallback_reason : String → Fields → FallbackReason
resolve_fallback_reason source_node_type node_output =
    if str_eq source_node_type "ContentModeration"
    then policy_block
    else if str_eq source_node_type "ToolErrorHandlerNode"
    then tool_failure
    else if str_eq source_node_type "ToolExecutor"
    then tool_failure
    else if str_eq source_node_type "IntentClassifier"
    then (if has_intent node_output then low_confidence else unknown_intent)
    else low_confidence
