-- ===== src/Limits.antt =====
-- domain/governance/services/rate_limit_service.py, and what the services that count calls share.
pub mod Admission
pub mod Breaker
pub mod Idempotency
pub mod Guardrails
pub mod Spending
mod Examples
use Prim.{Unit, tt}
use agent_orchestration_core.Common.{
  ℕ, String, Bool, true, false, Option, none, some, ltb, raised, Result, ok, err, if◌then◌else◌,
}
use agent_orchestration_core.Value.{Value, bool, num, pos, negsuc}
use agent_orchestration_core.Redis.{Redis}
use agent_orchestration_core.Redis.Adapter.{Call, incr_with_ttl}

-- The published version of a policy for an action and a type of principals.
pub record PolicyVersion : Type 0 where
  pub limit : ℕ
  pub window_seconds : ℕ

-- `int(value) > limit`, for what incr_with_ttl returns: a count, or False
unfoldable pub exceeds : Value → ℕ → Bool
exceeds (num (pos n)) limit = ltb limit n
exceeds (bool true) limit = ltb limit 1
exceeds _ limit = false

unfoldable pub judge : Result Value → ℕ → Result {0} Unit
unfolding exceeds
judge (ok value) limit =
    if exceeds value limit then err (raised "RateLimitExceededException") else ok tt
judge (err x) limit = err x

module _ (r : Redis) (silent : Bool) (key : String) where
  open r use {Store}

  -- `RateLimitService.enforce`, with the tenant's policy and its published version, whose rows the
  -- repository reads, and the key of the tenant, the principal and the action.
  unfoldable pub enforce :
      Option ℕ → (ℕ → Option PolicyVersion) → Call → Store → Result {0} Unit × Store
  unfolding judge
  enforce none version_of c s = (err (raised "AuthorizationDeniedException"), s)
  enforce (some policy) version_of c s = elim (version_of policy) [
    | none ↦ (err (raised "AuthorizationDeniedException"), s)
    | some version ↦
        let (reply, after) = incr_with_ttl r silent c key version.window_seconds s in
        (judge reply version.limit, after)
  ]
