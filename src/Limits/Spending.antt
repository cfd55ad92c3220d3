-- ===== src/Limits/Spending.antt =====
-- guardrail_engine.py: how many calls of a model the guardrails let pass, and that they need Redis.
use Prim.{Unit}
use agent_orchestration_core.Common.{
  ℕ, zero, suc, ◌+◌, ◌-◌, ◌<◌, ◌≤◌, String, ◌≡◌, refl, ◌∙◌, Bool, true, false, Option, none, some,
  List, [], ◌∷◌, str_eq, ltb, Result, ok, err, arith, if◌then◌else◌, Bool-cases, Result-cases, inl,
  inr, ◌⊎◌,
}
use agent_orchestration_core.Value.{Value, num, pos}
use agent_orchestration_core.Redis.{Redis, digits}
use agent_orchestration_core.Redis.Adapter.{incr_with_ttl}
use agent_orchestration_core.Redis.Counters.{
  incr_with_ttl_first, incr_with_ttl_next, incr_with_ttl_other,
}
use agent_orchestration_core.Limits.{exceeds}
use agent_orchestration_core.Limits.Guardrails.{
  Floats, LlmPolicy, Decision, DecisionType, Costs, Calls, decide, too_many, count_calls,
  check_and_reserve, readable, read_cost,
}

-- A decision lets the call pass, to the model that is asked for or to a cheaper one.
abbrev pub passes : Result Decision → ℕ
passes (err x) = 0
passes (ok d) = elim d.decision [ DecisionType.block ↦ 0 | _ ↦ 1 ]

passes-le : (m : Result Decision) → passes m ≤ 1
passes-le (err x) = omega arith
passes-le (ok d) = passes_decision-le d.decision
  where
    passes_decision-le :
        (t : DecisionType) → (elim t as (λ x. ℕ) [ DecisionType.block ↦ 0 | _ ↦ 1 ]) ≤ 1
    passes_decision-le DecisionType.allow = omega arith
    passes_decision-le DecisionType.degrade = omega arith
    passes_decision-le DecisionType.block = omega arith

module _ (f : Floats) (p : LlmPolicy f) (limit : ℕ) (capped : p.max_calls_flow ≡ some limit) where
  decide-capped :
      (latency : Option ℕ) (n : ℕ) (tenant_calls : Value) (flow_cost tenant_cost : f.Cost)
      → passes (ok (decide f p latency (num (pos n)) tenant_calls flow_cost tenant_cost))
        ≤ (if ltb limit n then 0 else 1)
  unfolding decide too_many exceeds
  decide-capped latency n tenant_calls flow_cost tenant_cost = elim (Bool-cases (ltb limit n)) [
    | inr within ↦
        rw (within)
          (passes-le (ok (decide f p latency (num (pos n)) tenant_calls flow_cost tenant_cost)))
    | inl over ↦
        let refused : too_many p.max_calls_flow (num (pos n)) ≡ true =
          rw (capped, too_many, exceeds, over) refl in
        rw (over, refused, decide) (omega arith)
  ]

  -- One check: what the caller asks for, the costs at that time, and the two calls of Redis.
  pub record Check : Type 0 where
    pub latency : Option ℕ
    pub costs : Costs f
    pub calls : Calls

  module _ (r : Redis) (silent : Bool) (flow_key tenant_key : String)
      (keys_differ : str_eq tenant_key flow_key ≡ false) where
    -- A check whose count of the run's calls is n passes only within the limit, and leaves the
    -- run's counter as the count left it.
    count_calls-capped :
        (latency : Option ℕ) (flow_cost tenant_cost : f.Cost) (calls : Calls) (s : r.Store) (n : ℕ)
        → (incr_with_ttl r silent calls.flow_call flow_key p.window_seconds s).0 ≡ ok (num (pos n))
        → (passes
              (count_calls r silent f flow_key tenant_key p latency flow_cost tenant_cost calls s).0
            ≤ (if ltb limit n then 0 else 1))
          × (r.entry
                (count_calls r silent f flow_key tenant_key p latency flow_cost tenant_cost calls
                  s).1
                flow_key
              ≡ r.entry
                  (incr_with_ttl r silent calls.flow_call flow_key p.window_seconds s).1
                  flow_key)
    unfolding count_calls readable
    count_calls-capped latency flow_cost tenant_cost calls s n counts =
        let flow_after = (incr_with_ttl r silent calls.flow_call flow_key p.window_seconds s).1 in
        let kept =
          incr_with_ttl_other r silent tenant_key calls.tenant_call p.window_seconds flow_after
            flow_key keys_differ in
        rw (counts, count_calls)
          (elim (Result-cases (
            readable
              (incr_with_ttl r silent calls.tenant_call tenant_key p.window_seconds
                flow_after).0)) [
                  | inr (x, e) ↦ rw (e) (ground arith, kept)
                  | inl (v, e) ↦ rw (e) (decide-capped latency n v flow_cost tenant_cost, kept)
                ])

    -- How many of a series of checks pass.
    unfoldable pub passed : List Check → r.Store → ℕ
    passed [] s = 0
    passed (c ∷ cs) s =
        passes (check_and_reserve r silent f flow_key tenant_key p c.latency c.costs c.calls s).0
        + passed cs
            (check_and_reserve r silent f flow_key tenant_key p c.latency c.costs c.calls s).1

    module _ (from : ℕ) where
      -- The run's counter stands at n, and lives until the window of the checks is over.
      abbrev Counts : ℕ → r.Store → Type 0
      Counts zero s = r.entry s flow_key ≡ none
      Counts (suc m) s =
          (last : ℕ) × (r.entry s flow_key
            ≡ some (record { content = digits (suc m); expires = some last }))
          × (from + p.window_seconds ≤ last)

      abbrev Within : Calls → Type 0
      Within calls =
          (from ≤ calls.flow_call.now)
          × (calls.flow_call.now < from + p.window_seconds)
          × (calls.flow_call.reaches ≡ true)
          × (calls.flow_call.reaches_again ≡ true)

      counter-Counts :
          (n : ℕ) (calls : Calls) (s : r.Store)
          → Counts n s
          → Within calls
          → ((incr_with_ttl r silent calls.flow_call flow_key p.window_seconds s).0
              ≡ ok (num (pos (suc n))))
            × Counts (suc n) (incr_with_ttl r silent calls.flow_call flow_key p.window_seconds s).1
      counter-Counts zero calls s absent (late, early, up, again) =
          let (count, after) =
            incr_with_ttl_first r silent flow_key calls.flow_call p.window_seconds s
              (rw (absent) refl) up again in
          (count, (calls.flow_call.now + p.window_seconds, after, omega arith))
      counter-Counts (suc m) calls s (last, present, later) (late, early, up, again) =
          let (count, after) =
            incr_with_ttl_next r silent flow_key calls.flow_call p.window_seconds s m last present
              (omega arith) up in
          (count, (last, after, later))

      Counts-entry :
          (n : ℕ) (s t : r.Store)
          → r.entry s flow_key ≡ r.entry t flow_key
          → Counts n t
          → Counts n s
      Counts-entry zero s t e h = e ∙ h
      Counts-entry (suc m) s t e (last, present, later) = (last, e ∙ present, later)

      abbrev AllWithin : List Check → Type 0
      AllWithin [] = Unit
      AllWithin (c ∷ cs) = Within c.calls × AllWithin cs

      abbrev Step : ℕ → ℕ → r.Store → Type 0
      Step n passed s =
          ((passed ≤ (if ltb limit (suc n) then 0 else 1)) × Counts (suc n) s)
          ⊎ ((passed ≡ 0) × Counts n s)

      check_and_reserve-Step :
          (n : ℕ) (latency : Option ℕ) (costs : Costs f) (calls : Calls) (s : r.Store)
          → Counts n s
          → Within calls
          → Step n
              (passes (check_and_reserve r silent f flow_key tenant_key p latency costs calls s).0)
              (check_and_reserve r silent f flow_key tenant_key p latency costs calls s).1
      unfolding check_and_reserve
      check_and_reserve-Step n latency costs calls s h w =
          let (count, after) = counter-Counts n calls s h w in
          elim (Result-cases costs.estimate) [
            | inr (x, e) ↦ simp (e, check_and_reserve) (inr (refl, h))
            | inl (estimate, e) ↦ elim (Result-cases (read_cost costs.flow_cost)) [
              | inr (x, g) ↦ simp (e, g, check_and_reserve) (inr (refl, h))
              | inl (a, g) ↦ elim (Result-cases (read_cost costs.tenant_cost)) [
                | inr (x, k) ↦ simp (e, g, k, check_and_reserve) (inr (refl, h))
                | inl (b, k) ↦
                    let (small, kept) = count_calls-capped latency _ _ calls s (suc n) count in
                    simp (e, g, k, check_and_reserve)
                      (inl (small, Counts-entry (suc n) _ _ kept after))
              ]
            ]
          ]

      passed-le-rest :
          (n : ℕ) (cs : List Check) (s : r.Store)
          → Counts n s
          → AllWithin cs
          → passed cs s ≤ limit - n
      unfolding passed
      passed-le-rest n [] s h w = omega arith
      passed-le-rest n (c ∷ cs) s h w =
          elim (check_and_reserve-Step n c.latency c.costs c.calls s h w.0) [
            | inl (small, counts) ↦
                let rest = passed-le-rest (suc n) cs _ counts w.1 in ground arith
            | inr (none_passed, counts) ↦
                let rest = passed-le-rest n cs _ counts w.1 in rw (none_passed) (omega arith)
          ]

      -- While Redis counts the calls of a flow run that it has not counted before, no more checks
      -- of a window let a call pass than max_llm_calls_per_flow_run says, whatever the costs, the
      -- counts of the tenant and the other limits are.
      pub passed-le :
          (cs : List Check) (s : r.Store)
          → r.entry s flow_key ≡ none
          → AllWithin cs
          → passed cs s ≤ limit
      passed-le cs s absent w = omega (arith, passed-le-rest 0 cs s absent w)
