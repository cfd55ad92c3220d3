-- ===== src/HumanSla/Examples.antt =====
-- HumanSLAService on one case with a policy of two rules.
use agent_orchestration_core.Common.{ℕ, ◌≤◌, ◌≡◌, refl, Option, some, [], ◌∷◌, arith}
use agent_orchestration_core.HumanSla.{
  SlaCase, SlaPolicy, Fallback, get_case, evaluate_sla, new_case, get_or_create_open_case, is_open,
  is_late,
}
use agent_orchestration_core.HumanSla.Escalation.{
  evaluated, evaluate_sla-evaluated, highest, priority_at,
}
use agent_orchestration_core.HumanSla.Opening.{open_count, get_or_create_open_case-le}

abbrev two_rules : SlaPolicy
two_rules = record {
  human_sla_policy_id = 7;
  initial_priority = "LOW";
  target_response_hours = some 1;
  target_resolution_hours = some 3;
  escalation_rules =
      record { level = 1; trigger_after_hours = 1; new_priority = "MEDIUM" }
      ∷ record { level = 2; trigger_after_hours = 2; new_priority = "HIGH" }
      ∷ [];
}

abbrev fallback : Fallback
fallback = record {
  tenant_id = 1;
  session_id = 2;
  flow_run_id = 3;
  node_run_id = 4;
  fallback_reason = "TIMEOUT";
  opened_at = 100;
}

abbrev waiting : SlaCase
waiting = new_case 5 fallback (some two_rules)

abbrev policies : ℕ → Option SlaPolicy
policies id = some two_rules

evaluate_sla-evaluated_example :
    get_case 5 1 (evaluate_sla policies 8000 5 1 (waiting ∷ []))
    ≡ some (evaluated 8000 two_rules waiting)
unfolding get_case
evaluate_sla-evaluated_example =
    evaluate_sla-evaluated policies 8000 5 1 7 two_rules waiting (waiting ∷ []) refl refl refl

-- After two hours the case has gone straight to the second level, and the target is not passed.
after_two_hours :
    evaluated 8000 two_rules waiting
    ≡ record waiting { current_escalation_level = 2; priority = some "HIGH" }
unfolding highest priority_at is_late
after_two_hours = refl

get_or_create_open_case-le_example :
    open_count 1 2 (get_or_create_open_case 6 (some two_rules) fallback (waiting ∷ [])).1 ≤ 1
unfolding open_count is_open
get_or_create_open_case-le_example =
    get_or_create_open_case-le 6 (some two_rules) fallback (waiting ∷ []) (omega arith)
