-- ===== src/HumanSla/Escalation.antt =====
-- HumanSLAService.evaluate_sla: the level and the priority that a case ends with.
use agent_orchestration_core.Common.{
  ℕ, String, ◌≡◌, refl, ap, ◌∙◌, Bool, true, false, ◌&&◌, Option, none, some, List, [], ◌∷◌, leb,
  ltb, ◌==◌, arith, Bool-cases, inl, inr, if◌then◌else◌,
}
use agent_orchestration_core.HumanSla.{
  SlaCase, EscalationRule, SlaPolicy, get_case, update_case, escalated, breached, is_due, triggers,
  escalate, is_late, evaluate_policy, evaluate_sla, is_row,
}
use agent_orchestration_core.HumanSla.Rows.{get_case-update_case}

abbrev pub higher : ℕ → ℕ → ℕ
higher a b = if leb a b then b else a

-- The highest level among the rules that are due.
unfoldable pub highest : ℕ → ℕ → List EscalationRule → ℕ
highest now opened_at [] = 0
highest now opened_at (r ∷ rules) =
    let rest = highest now opened_at rules in
    if is_due now opened_at r.trigger_after_hours then higher r.level rest else rest

-- The priority of the first rule of a level that is due.
unfoldable pub priority_at : ℕ → ℕ → ℕ → List EscalationRule → Option String
priority_at now opened_at level [] = none
priority_at now opened_at level (r ∷ rules) =
    let rest = priority_at now opened_at level rules in
    if is_due now opened_at r.trigger_after_hours && r.level == level
    then some r.new_priority
    else rest

module _ (now opened_at : ℕ) where
  abbrev pub top_level : List EscalationRule → ℕ → ℕ
  top_level rules level = higher level (highest now opened_at rules)

  abbrev pub top_priority : List EscalationRule → ℕ → Option String → Option String
  top_priority rules level priority =
      if ltb level (top_level rules level)
      then priority_at now opened_at (top_level rules level) rules
      else priority

  -- What the rules make of a case, in the end.
  abbrev pub raised_by : List EscalationRule → SlaCase → SlaCase
  raised_by rules c = record c {
    current_escalation_level = top_level rules c.current_escalation_level;
    priority = top_priority rules c.current_escalation_level c.priority;
  }

  raised_by_nothing : (c : SlaCase) → c ≡ raised_by [] c
  unfolding highest priority_at
  raised_by_nothing c =
      let level : c.current_escalation_level ≡ top_level [] c.current_escalation_level =
        ground arith in
      let priority : c.priority ≡ top_priority [] c.current_escalation_level c.priority =
        ground arith in
      λ i. record c { current_escalation_level = level i; priority = priority i }

  module _ (r : EscalationRule) (rules : List EscalationRule) (level : ℕ) where
    fires : Bool
    fires = is_due now opened_at r.trigger_after_hours && ltb level r.level

    top_level_idle : fires ≡ false → top_level rules level ≡ top_level (r ∷ rules) level
    unfolding highest fires
    top_level_idle h = ground arith

    top_priority_idle :
        (priority : Option String)
        → fires ≡ false
        → top_priority rules level priority ≡ top_priority (r ∷ rules) level priority
    unfolding highest priority_at fires
    top_priority_idle priority h = ground arith

    top_level-fires : fires ≡ true → top_level rules r.level ≡ top_level (r ∷ rules) level
    unfolding highest fires
    top_level-fires h = ground arith

    top_priority-fires :
        (priority : Option String)
        → fires ≡ true
        → top_priority rules r.level (some r.new_priority) ≡ top_priority (r ∷ rules) level priority
    unfolding highest priority_at fires
    top_priority-fires priority h = ground arith

module _ (now opened_at case_id tenant : ℕ) where
  -- A reading after an update of the level finds the new level.
  get_case-escalated :
      (priority : String) (level : ℕ) (c : SlaCase) (cases : List SlaCase)
      → get_case case_id tenant cases ≡ some c
      → get_case case_id tenant (update_case case_id tenant (escalated priority level) cases)
        ≡ some (escalated priority level c)
  unfolding is_row
  get_case-escalated priority level c cases h =
      get_case-update_case case_id tenant (escalated priority level) cases c (λ d. refl) h

  escalate-raised :
      (rules : List EscalationRule) (c : SlaCase) (cases : List SlaCase)
      → get_case case_id tenant cases ≡ some c
      → ((escalate now opened_at case_id tenant rules c cases).0 ≡ true)
        × (get_case case_id tenant (escalate now opened_at case_id tenant rules c cases).1
            ≡ some (raised_by now opened_at rules c))
  unfolding escalate fires
  escalate-raised [] c cases h = (refl, h ∙ ap some (raised_by_nothing now opened_at c))
  escalate-raised (r ∷ rules) c cases h = elim (Bool-cases (triggers now opened_at c r)) [
    | inr idle ↦
        let (goes_on, rest) = escalate-raised rules c cases h in
        let level = top_level_idle now opened_at r rules c.current_escalation_level idle in
        let priority =
          top_priority_idle now opened_at r rules c.current_escalation_level c.priority idle in
        rw (idle, escalate)
          (
            goes_on,
            rest ∙ (λ i.
                some (record c { current_escalation_level = level i; priority = priority i })),
          )
    | inl up ↦
        let read = get_case-escalated r.new_priority r.level c cases h in
        let (goes_on, rest) =
          escalate-raised rules (escalated r.new_priority r.level c)
            (update_case case_id tenant (escalated r.new_priority r.level) cases) read in
        let level = top_level-fires now opened_at r rules c.current_escalation_level up in
        let priority =
          top_priority-fires now opened_at r rules c.current_escalation_level c.priority up in
        rw (up, read, escalate)
          (
            goes_on,
            rest ∙ (λ i.
                some (record c { current_escalation_level = level i; priority = priority i })),
          )
  ]

-- What evaluate_sla makes of a case under a policy: the rules that are due, and the target.
abbrev pub evaluated : ℕ → SlaPolicy → SlaCase → SlaCase
evaluated now policy c = record (raised_by now c.opened_at policy.escalation_rules c) {
  sla_breached =
      if is_late now c.opened_at policy.target_resolution_hours then true else c.sla_breached;
}

evaluate_policy-evaluated :
    (now case_id tenant : ℕ) (policy : SlaPolicy) (c : SlaCase) (cases : List SlaCase)
    → get_case case_id tenant cases ≡ some c
    → get_case case_id tenant (evaluate_policy now case_id tenant policy c cases)
      ≡ some (evaluated now policy c)
unfolding evaluate_policy is_row
evaluate_policy-evaluated now case_id tenant policy c cases h =
    let (goes_on, rest) =
      escalate-raised now c.opened_at case_id tenant policy.escalation_rules c cases h in
    elim (Bool-cases (is_late now c.opened_at policy.target_resolution_hours)) [
      | inr early ↦ rw (goes_on, early) rest
      | inl late ↦
          rw (goes_on, late) (get_case-update_case case_id tenant breached _ _ (λ d. refl) rest)
    ]

-- evaluate_sla leaves a case that has a policy at the highest of its own level and the levels of
-- the rules that are due, with the priority of the first such rule of that level if it rises, and
-- its own otherwise; it is marked as breached if it was or if the target is passed, and is the same
-- in all else.
pub evaluate_sla-evaluated :
    (policy_with_rules : ℕ → Option SlaPolicy) (now case_id tenant policy_id : ℕ)
    (policy : SlaPolicy) (c : SlaCase) (cases : List SlaCase)
    → get_case case_id tenant cases ≡ some c
    → c.human_sla_policy_id ≡ some policy_id
    → policy_with_rules policy_id ≡ some policy
    → get_case case_id tenant (evaluate_sla policy_with_rules now case_id tenant cases)
      ≡ some (evaluated now policy c)
unfolding evaluate_sla
evaluate_sla-evaluated policy_with_rules now case_id tenant policy_id policy c cases h k p =
    let same : evaluate_sla policy_with_rules now case_id tenant cases
        ≡ evaluate_policy now case_id tenant policy c cases =
      simp (evaluate_sla, h, k, p) in
    rw (same) (evaluate_policy-evaluated now case_id tenant policy c cases h)
