-- ===== src/Limits/Examples.antt =====
-- The services that count calls, at small inputs, on a server in memory.
use Prim.{tt}
use agent_orchestration_core.Common.{
  ℕ, ◌≤◌, ◌≡◌, refl, true, false, Option, none, some, List, [], ◌∷◌, domain, raised, ok, err, arith,
  ◌+◌, ltb,
}
use agent_orchestration_core.Value.{end, field, str, truthy}
use agent_orchestration_core.Value.Access.{lookup}
use agent_orchestration_core.Redis.{json}
use agent_orchestration_core.Redis.Adapter.{
  Call, get, set, incr_with_ttl, set_if_not_exists, wrapped,
}
use agent_orchestration_core.Redis.Memory.{memory}
use agent_orchestration_core.Limits.{PolicyVersion, enforce}
use agent_orchestration_core.Limits.Admission.{admitted, admitted-min}
use agent_orchestration_core.Limits.Breaker.{Breaker, ensure_closed, record_failure, open_state}
use agent_orchestration_core.Limits.Idempotency.{
  Request, acquire, finish, acquired, acquired-le, try_acquire, set_result,
}
use agent_orchestration_core.Limits.Guardrails.{Floats, LlmPolicy}
use agent_orchestration_core.Limits.Spending.{Check, passed, passed-le}

abbrev at : ℕ → Call
at t = record { now = t; reaches = true; reaches_again = true }

abbrev lost : ℕ → Call
lost t = record { now = t; reaches = false; reaches_again = false }

-- INCR gets through and EXPIRE does not.
abbrev half : ℕ → Call
half t = record { now = t; reaches = true; reaches_again = false }

abbrev two_in_ten : ℕ → Option PolicyVersion
two_in_ten policy = some (record { limit = 2; window_seconds = 10 })

admitted-min_example :
    admitted memory false "rate:t:user:u:send" 1 two_in_ten (at 5 ∷ at 6 ∷ at 7 ∷ at 8 ∷ []) [] ≡ 2
admitted-min_example =
    admitted-min memory false "rate:t:user:u:send" 1 two_in_ten
      (record { limit = 2; window_seconds = 10 }) refl (at 5) (at 6 ∷ at 7 ∷ at 8 ∷ []) [] refl refl
      refl (omega arith, refl, (omega arith, refl, (omega arith, refl, tt)))

-- In the silent mode calls that do not get through to Redis are all let through.
fails_open : admitted memory true "k" 1 two_in_ten (lost 1 ∷ lost 2 ∷ lost 3 ∷ []) [] ≡ 3
unfolding admitted enforce incr_with_ttl wrapped
fails_open = refl

-- A counter whose EXPIRE is lost never ends its window: a thousand seconds later all are refused.
never_expires :
    admitted memory true "k" 1 two_in_ten (half 1 ∷ at 2 ∷ at 1000 ∷ at 2000 ∷ at 3000 ∷ []) [] ≡ 2
unfolding admitted enforce incr_with_ttl wrapped
never_expires = refl

abbrev one_failure : Breaker
one_failure = record {
  failure_threshold = 2;
  window_seconds = 60;
  quiet = true;
  adapter_silent = false;
}

abbrev loud : Breaker
loud = record one_failure { quiet = false }

abbrev opened : memory.Store
opened = ("cb:llm:s", some (record { content = json open_state; expires = some 70 })) ∷ []

-- In the silent mode the open state of the key is not obeyed.
quiet_ignores : ensure_closed memory one_failure "cb:llm:s" (at 20) opened ≡ ok tt
unfolding ensure_closed get lookup
quiet_ignores = refl

-- Out of the silent mode the open state is obeyed,
loud_refuses :
    ensure_closed memory loud "cb:llm:s" (at 20) opened ≡ err (domain "llm_circuit_breaker_open")
unfolding ensure_closed get lookup
loud_refuses = refl

-- but one failure, below the threshold, already leaves a number where a dictionary is read.
loud_below_threshold :
    ensure_closed memory loud "cb:llm:s"
      (at 21)
      (record_failure memory loud "cb:llm:s" (at 20) []).1
    ≡ err (raised "AttributeError")
unfolding ensure_closed record_failure get incr_with_ttl set truthy
loud_below_threshold = refl

abbrev requests : List Request
requests =
    acquire (lost 1)
    ∷ acquire (at 2)
    ∷ acquire (at 3)
    ∷ finish (at 4) (field "response" (str "r") end)
    ∷ acquire (at 5)
    ∷ []

acquired-le_example : acquired memory true 60 "idempotency:t:e:k" requests [] ≤ 1
acquired-le_example =
    acquired-le memory true 60 "idempotency:t:e:k" 0 requests [] (omega arith) (omega arith)

one_acquires : acquired memory true 60 "idempotency:t:e:k" requests [] ≡ 1
unfolding acquired try_acquire set_result set_if_not_exists set wrapped truthy
one_acquires = refl

abbrev cents : Floats
cents = record { Cost = ℕ; no_cost = 0; add = λ a b. a + b; above = λ a b. ltb b a }

abbrev two_calls : LlmPolicy cents
two_calls = record {
  max_cost_flow = none;
  max_cost_tenant = none;
  max_calls_flow = some 2;
  max_calls_tenant = none;
  window_seconds = 60;
  max_latency_ms_hard = none;
  degrade_model_alias = none;
}

abbrev check_at : ℕ → Check cents two_calls 2 refl
check_at t = record {
  latency = none;
  costs = record { flow_cost = ok 0; tenant_cost = ok 0; estimate = ok none };
  calls = record { flow_call = at t; tenant_call = at t };
}

passed-le_example :
    passed cents two_calls 2 refl memory true "llm_calls:flow_run:f" "llm_calls:tenant:t" refl
      (check_at 1 ∷ check_at 2 ∷ check_at 3 ∷ [])
      []
    ≤ 2
passed-le_example =
    passed-le cents two_calls 2 refl memory true "llm_calls:flow_run:f" "llm_calls:tenant:t" refl 0
      (check_at 1 ∷ check_at 2 ∷ check_at 3 ∷ []) [] refl
      (
        (omega arith, omega arith, refl, refl),
        ((omega arith, omega arith, refl, refl), ((omega arith, omega arith, refl, refl), tt)),
      )
