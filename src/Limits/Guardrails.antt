-- ===== src/Limits/Guardrails.antt =====
-- GuardrailEngine of domain/execution/services/guardrails/guardrail_engine.py: the checks before a
-- call of a model.
use agent_orchestration_core.Common.{
  ℕ, String, Bool, false, not, Option, none, some, str_eq, ltb, raised, Result, ok, err, ◌>>=◌,
  if◌then◌else◌,
}
use agent_orchestration_core.Value.{Value, num, bool}
use agent_orchestration_core.Redis.{Redis}
use agent_orchestration_core.Redis.Adapter.{Call, incr_with_ttl}
use agent_orchestration_core.Limits.{exceeds}

-- Costs are floats, which are a parameter: their sum, their order, and 0.
pub record Floats : Type 1 where
  pub Cost : Type 0
  pub no_cost : Cost
  pub add : Cost → Cost → Cost
  pub above : Cost → Cost → Bool

-- The entries of `policy_llm` that the checks read.
pub record LlmPolicy (f : Floats) : Type 0 where
  pub max_cost_flow : Option f.Cost
  pub max_cost_tenant : Option f.Cost
  pub max_calls_flow : Option ℕ
  pub max_calls_tenant : Option ℕ
  pub window_seconds : ℕ
  pub max_latency_ms_hard : Option ℕ
  pub degrade_model_alias : Option String

pub data DecisionType : Type 0 where
  allow degrade block : DecisionType

-- `GuardrailDecision`, without the limits that it quotes
pub record Decision : Type 0 where
  pub decision : DecisionType
  pub reason_code : String
  pub model_alias : Option String
  pub max_latency_ms : Option ℕ

abbrev pub blocked : String → Decision
blocked reason = record {
  decision = DecisionType.block;
  reason_code = reason;
  model_alias = none;
  max_latency_ms = none;
}

-- `if degrade_model_alias`
unfoldable pub is_set : Option String → Bool
is_set none = false
is_set (some alias) = not (str_eq alias "")

unfoldable pub too_costly : Option String → String → Decision
unfolding is_set
too_costly alias reason =
    if is_set alias
    then record {
      decision = DecisionType.degrade;
      reason_code = reason;
      model_alias = alias;
      max_latency_ms = none;
    }
    else blocked reason

-- The latency that a call may take, if the policy lowers it.
unfoldable pub lowered : Option ℕ → Option ℕ → Option ℕ
lowered none asked = none
lowered (some hard) none = none
lowered (some hard) (some asked) = if ltb hard asked then some hard else none

unfoldable pub too_many : Option ℕ → Value → Bool
unfolding exceeds
too_many none calls = false
too_many (some limit) calls = exceeds calls limit

unfoldable pub over_budget : (f : Floats) → Option f.Cost → f.Cost → Bool
over_budget f none cost = false
over_budget f (some limit) cost = f.above cost limit

module _ (f : Floats) where
  -- The conditions, in their order.
  unfoldable pub decide : LlmPolicy f → Option ℕ → Value → Value → f.Cost → f.Cost → Decision
  unfolding too_costly lowered too_many over_budget
  decide p latency flow_calls tenant_calls flow_cost tenant_cost =
      if too_many p.max_calls_flow flow_calls
      then blocked "RATE_LIMIT_FLOW_RUN"
      else if too_many p.max_calls_tenant tenant_calls
      then blocked "RATE_LIMIT_TENANT"
      else if over_budget f p.max_cost_flow flow_cost
      then too_costly p.degrade_model_alias "COST_LIMIT_FLOW_RUN"
      else if over_budget f p.max_cost_tenant tenant_cost
      then too_costly p.degrade_model_alias "COST_LIMIT_TENANT"
      else record {
        decision = DecisionType.allow;
        reason_code = "ALLOW";
        model_alias = none;
        max_latency_ms = lowered p.max_latency_ms_hard latency;
      }

-- `_incr_calls`: an exception, and what is no `int`, becomes a GuardrailUnavailableException. False
-- is an `int` in Python.
unfoldable pub readable : Result Value → Result Value
readable (ok (num n)) = ok (num n)
readable (ok (bool b)) = ok (bool b)
readable _ = err (raised "GuardrailUnavailableException")

-- `_get_cost`
unfoldable pub read_cost {ℓ} : {Cost : Type ℓ} → Result Cost → Result Cost
read_cost (ok cost) = ok cost
read_cost (err x) = err (raised "GuardrailUnavailableException")

-- What a check has besides Redis: the run's and the tenant's costs as get_float reads them, and the
-- estimate of the cost engine, of whose exceptions `_estimate_cost` catches only some.
pub record Costs (f : Floats) : Type 0 where
  pub flow_cost : Result f.Cost
  pub tenant_cost : Result f.Cost
  pub estimate : Result (Option f.Cost)

abbrev pub or_no_cost : (f : Floats) → Option f.Cost → f.Cost
or_no_cost f none = f.no_cost
or_no_cost f (some cost) = cost

-- The two calls of the adapter.
pub record Calls : Type 0 where
  pub flow_call : Call
  pub tenant_call : Call

module _ (r : Redis) (silent : Bool) (f : Floats) (flow_key tenant_key : String) where
  open r use {Store}

  -- After the costs: both counters, one after the other, and the decision.
  unfoldable pub count_calls :
      LlmPolicy f → Option ℕ → f.Cost → f.Cost → Calls → Store → Result Decision × Store
  unfolding readable decide
  count_calls p latency flow_cost tenant_cost calls s =
      let (flow_reply, s1) = incr_with_ttl r silent calls.flow_call flow_key p.window_seconds s in
      elim (readable flow_reply) [
        | err x ↦ (err x, s1)
        | ok flow_calls ↦
            let (tenant_reply, s2) =
              incr_with_ttl r silent calls.tenant_call tenant_key p.window_seconds s1 in
            (
              readable tenant_reply >>= λ tenant_calls.
                  ok (decide f p latency flow_calls tenant_calls flow_cost tenant_cost),
              s2,
            )
      ]

  -- `_check_and_reserve_impl`
  unfoldable pub check_and_reserve :
      LlmPolicy f → Option ℕ → Costs f → Calls → Store → Result Decision × Store
  unfolding read_cost
  check_and_reserve p latency costs calls s = elim costs.estimate [
    | err x ↦ (err x, s)
    | ok estimate ↦ elim (read_cost costs.flow_cost) [
      | err x ↦ (err x, s)
      | ok flow_cost ↦ elim (read_cost costs.tenant_cost) [
        | err x ↦ (err x, s)
        | ok tenant_cost ↦
            count_calls p latency (f.add flow_cost (or_no_cost f estimate))
              (f.add tenant_cost (or_no_cost f estimate)) calls s
      ]
    ]
  ]
