-- ===== src/Runtime/Executor/Gate.antt =====
-- executor.py: the gate of the user context enrichment, which `run` sets up in the state.
use agent_orchestration_core.Common.{String, Bool, true, Option, none, some, str_eq, if◌then◌else◌}
use agent_orchestration_core.Value.{Value, null, bool, str, obj, Fields, end, field, truthy}
use agent_orchestration_core.Value.Access.{lookup, store}

truth_of : Option Value → Bool
unfolding truthy
truth_of none = Bool.false
truth_of (some v) = truthy v

value_or_none : Option Value → Value
value_or_none none = null
value_or_none (some v) = v

-- `handle.get("layers") if isinstance(handle.get("layers"), dict) else {}`
dict_or_empty : Option Value → Value
dict_or_empty (some (obj fs)) = obj fs
dict_or_empty _ = obj end

-- `str(handle.get("mode") or mode)`, for a mode that is a text
mode_or : Option Value → String → Value
mode_or (some (str s)) mode = if str_eq s "" then str mode else str s
mode_or _ mode = str mode

handle_of : Option Value → Fields
handle_of (some (obj fs)) = fs
handle_of _ = end

abbrev pub gate_key : String
gate_key = "user_context_enrichment"

merged_handle : Fields → Fields → Value
unfolding truth_of value_or_none dict_or_empty mode_or lookup
merged_handle policy handle =
    let mode : String = if truth_of (lookup policy "gating") then "GATED" else "LEGACY" in
    obj (
      field "enabled" (bool true) (
        field "published" (bool (truth_of (lookup handle "published"))) (
          field "published_by_node_id" (value_or_none (lookup handle "published_by_node_id")) (
            field "published_at" (value_or_none (lookup handle "published_at")) (
              field "layers" (dict_or_empty (lookup handle "layers"))
                (field "mode" (mode_or (lookup handle "mode") mode) end))))))

enabled_policy : Option Value → Option Fields
unfolding truth_of lookup
enabled_policy (some (obj policy)) =
    if truth_of (lookup policy "enabled") then some policy else none
enabled_policy _ = none

-- The state with the gate's handle, if the policy enables the enrichment.
unfoldable pub open_gate : Fields → Fields → Fields
unfolding enabled_policy merged_handle handle_of lookup store
open_gate definition state = elim (enabled_policy (lookup definition "user_context_enrichment")) [
  | none ↦ state
  | some policy ↦ store state gate_key (merged_handle policy (handle_of (lookup state gate_key)))
]
