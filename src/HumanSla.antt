-- ===== src/HumanSla.antt =====
-- domain/human_sla: HumanSLAService of services/human_sla_service.py on the rows of
-- repositories/human_sla_repository.py. Identifiers are numbers and times are seconds.
pub mod Rows
pub mod Escalation
pub mod Opening
mod Examples
use agent_orchestration_core.Common.{
  find_row, update_rows, ℕ, suc, ◌+◌, ◌*◌, String, Bool, true, false, ◌&&◌, ◌||◌, Option, none,
  some, List, [], ◌∷◌, ◌++◌, map, leb, ltb, ◌==◌, raised, Result, ok, err, length, if◌then◌else◌,
}

pub data SlaStatus : Type 0 where
  open_case assigned resolved abandoned : SlaStatus

pub data ResolutionStatus : Type 0 where
  resolved unresolved transferred user_abandoned : ResolutionStatus

-- A row of sla_case.
pub record SlaCase : Type 0 where
  pub sla_case_id : ℕ
  pub tenant_id : ℕ
  pub session_id : ℕ
  pub flow_run_id : ℕ
  pub node_run_id : ℕ
  pub status : SlaStatus
  pub priority : Option String
  pub fallback_reason : String
  pub opened_at : ℕ
  pub sla_target_at : Option ℕ
  pub human_sla_policy_id : Option ℕ
  pub current_escalation_level : ℕ
  pub sla_breached : Bool
  pub human_agent_id : Option String
  pub resolution : Option (ResolutionStatus × String)

pub record EscalationRule : Type 0 where
  pub level : ℕ
  pub trigger_after_hours : ℕ
  pub new_priority : String

pub record SlaPolicy : Type 0 where
  pub human_sla_policy_id : ℕ
  pub initial_priority : String
  pub target_response_hours : Option ℕ
  pub target_resolution_hours : Option ℕ
  pub escalation_rules : List EscalationRule

-- The WHERE of the repository: a case's own row, of the tenant.
unfoldable pub is_row : ℕ → ℕ → SlaCase → Bool
is_row case_id tenant c = c.sla_case_id == case_id && c.tenant_id == tenant

-- `get_case`
unfoldable pub get_case : ℕ → ℕ → List SlaCase → Option SlaCase
unfolding is_row find_row
get_case case_id tenant cases = find_row (is_row case_id tenant) cases

-- An UPDATE of that row.
unfoldable pub update_case : ℕ → ℕ → (SlaCase → SlaCase) → List SlaCase → List SlaCase
unfolding is_row update_rows
update_case case_id tenant change cases = update_rows (is_row case_id tenant) change cases

abbrev pub escalated : String → ℕ → SlaCase → SlaCase
escalated priority level c = record c { priority = some priority; current_escalation_level = level }

abbrev pub breached : SlaCase → SlaCase
breached c = record c { sla_breached = true }

abbrev pub assigned_to : String → SlaCase → SlaCase
assigned_to agent c = record c { status = SlaStatus.assigned; human_agent_id = some agent }

abbrev pub resolved_by : ResolutionStatus → String → String → SlaCase → SlaCase
resolved_by resolution summary agent c = record c {
  status = SlaStatus.resolved;
  resolution = some (resolution, summary);
  human_agent_id = some agent;
}

abbrev pub or_not_found : Option SlaCase → Result SlaCase
or_not_found none = err (raised "NotFoundServiceException")
or_not_found (some c) = ok c

-- `get_case_detail`
unfoldable pub get_case_detail : ℕ → ℕ → List SlaCase → Result SlaCase
get_case_detail tenant case_id cases = or_not_found (get_case case_id tenant cases)

-- `assign_case`
unfoldable pub assign_case : ℕ → ℕ → String → List SlaCase → Result SlaCase × List SlaCase
assign_case tenant case_id agent cases =
    let after = update_case case_id tenant (assigned_to agent) cases in
    (or_not_found (get_case case_id tenant after), after)

-- `resolve_case`
unfoldable pub resolve_case :
    ℕ → ℕ → ResolutionStatus → String → String → List SlaCase → Result SlaCase × List SlaCase
resolve_case tenant case_id resolution summary agent cases =
    let after = update_case case_id tenant (resolved_by resolution summary agent) cases in
    (or_not_found (get_case case_id tenant after), after)

-- `elapsed_hours >= hours`
abbrev pub is_due : ℕ → ℕ → ℕ → Bool
is_due now opened_at hours = leb (opened_at + hours * 3600) now

abbrev pub triggers : ℕ → ℕ → SlaCase → EscalationRule → Bool
triggers now opened_at c r =
    is_due now opened_at r.trigger_after_hours && ltb c.current_escalation_level r.level

-- The loop over the rules; `none` is the early return. The time of opening is read once.
unfoldable pub escalate :
    ℕ → ℕ → ℕ → ℕ → List EscalationRule → SlaCase → List SlaCase → Bool × List SlaCase
unfolding get_case update_case
escalate now opened_at case_id tenant [] c cases = (true, cases)
escalate now opened_at case_id tenant (r ∷ rules) c cases = elim (triggers now opened_at c r) [
  | false ↦ escalate now opened_at case_id tenant rules c cases
  | true ↦
      let after = update_case case_id tenant (escalated r.new_priority r.level) cases in
      elim (get_case case_id tenant after) [
        | none ↦ (false, after)
        | some again ↦ escalate now opened_at case_id tenant rules again after
      ]
]

unfoldable pub is_late : ℕ → ℕ → Option ℕ → Bool
is_late now opened_at none = false
is_late now opened_at (some hours) = is_due now opened_at hours

unfoldable pub evaluate_policy : ℕ → ℕ → ℕ → SlaPolicy → SlaCase → List SlaCase → List SlaCase
unfolding is_late
evaluate_policy now case_id tenant policy c cases =
    let (goes_on, after) =
      escalate now c.opened_at case_id tenant policy.escalation_rules c cases in
    if goes_on && is_late now c.opened_at policy.target_resolution_hours
    then update_case case_id tenant breached after
    else after

-- `evaluate_sla`. `policy_with_rules` is get_policy_with_rules of the policies' repository.
unfoldable pub evaluate_sla : (ℕ → Option SlaPolicy) → ℕ → ℕ → ℕ → List SlaCase → List SlaCase
evaluate_sla policy_with_rules now case_id tenant cases = elim (get_case case_id tenant cases) [
  | none ↦ cases
  | some c ↦ elim c.human_sla_policy_id [
    | none ↦ cases
    | some policy_id ↦ elim (policy_with_rules policy_id) [
      | none ↦ cases
      | some policy ↦ evaluate_policy now case_id tenant policy c cases
    ]
  ]
]

unfoldable pub is_open : SlaStatus → Bool
is_open SlaStatus.open_case = true
is_open _ = false

abbrev pub is_open_in : ℕ → ℕ → SlaCase → Bool
is_open_in tenant session c = c.tenant_id == tenant && (c.session_id == session && is_open c.status)

-- Of two open cases the one that was opened later.
unfoldable pub later_of : SlaCase → Option SlaCase → SlaCase
later_of c none = c
later_of c (some d) = if ltb c.opened_at d.opened_at then d else c

-- `get_last_open_case_for_session`
unfoldable pub last_open : ℕ → ℕ → List SlaCase → Option SlaCase
unfolding is_open later_of
last_open tenant session [] = none
last_open tenant session (c ∷ cs) =
    let rest = last_open tenant session cs in
    if is_open_in tenant session c then some (later_of c rest) else rest

-- The constraint uq_sla_case_flow_run_node_run
unfoldable pub has_run : ℕ → ℕ → List SlaCase → Bool
has_run flow_run node_run [] = false
has_run flow_run node_run (c ∷ cs) =
    c.flow_run_id == flow_run && c.node_run_id == node_run || has_run flow_run node_run cs

-- `create_case`: on a conflict nothing is inserted.
unfoldable pub create_case : SlaCase → List SlaCase → Option SlaCase × List SlaCase
unfolding has_run
create_case c cases =
    if has_run c.flow_run_id c.node_run_id cases then (none, cases) else (some c, cases ++ c ∷ [])

-- What a fallback is about.
pub record Fallback : Type 0 where
  pub tenant_id : ℕ
  pub session_id : ℕ
  pub flow_run_id : ℕ
  pub node_run_id : ℕ
  pub fallback_reason : String
  pub opened_at : ℕ

-- The row of a new case, under the policy that `resolve_policy` finds.
abbrev pub new_case : ℕ → Fallback → Option SlaPolicy → SlaCase
new_case case_id f policy = record {
  sla_case_id = case_id;
  tenant_id = f.tenant_id;
  session_id = f.session_id;
  flow_run_id = f.flow_run_id;
  node_run_id = f.node_run_id;
  status = SlaStatus.open_case;
  priority = elim policy [ none ↦ none | some p ↦ some p.initial_priority ];
  fallback_reason = f.fallback_reason;
  opened_at = f.opened_at;
  sla_target_at = elim policy [
    | none ↦ none
    | some p ↦ elim p.target_response_hours [
      | none ↦ none
      | some hours ↦ some (f.opened_at + hours * 3600)
    ]
  ];
  human_sla_policy_id = elim policy [ none ↦ none | some p ↦ some p.human_sla_policy_id ];
  current_escalation_level = 0;
  sla_breached = false;
  human_agent_id = none;
  resolution = none;
}

-- `get_or_create_open_case_for_fallback`; the database gives the new row its identifier.
unfoldable pub get_or_create_open_case :
    ℕ → Option SlaPolicy → Fallback → List SlaCase → Option SlaCase × List SlaCase
get_or_create_open_case case_id policy f cases = elim (last_open f.tenant_id f.session_id cases) [
  | some existing ↦ (some existing, cases)
  | none ↦ create_case (new_case case_id f policy) cases
]
