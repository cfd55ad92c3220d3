-- ===== src/Limits/Breaker.antt =====
-- CircuitBreaker of domain/llm/services/circuit_breaker.py.
use Prim.{Unit, tt}
use agent_orchestration_core.Common.{
  ℕ, String, Bool, true, false, Option, some, str_eq, leb, domain, raised, Result, ok, err,
  if◌then◌else◌,
}
use agent_orchestration_core.Value.{Value, bool, num, str, obj, pos, Fields, end, field, truthy}
use agent_orchestration_core.Value.Access.{lookup}
use agent_orchestration_core.Redis.{Redis}
use agent_orchestration_core.Redis.Adapter.{Call, get, set, delete, incr_with_ttl}

-- The settings of a breaker. `quiet` is its own silent_mode; the adapter has another.
pub record Breaker : Type 0 where
  pub failure_threshold : ℕ
  pub window_seconds : ℕ
  pub quiet : Bool
  pub adapter_silent : Bool

abbrev pub open_state : Fields
open_state = field "state" (str "open") end

is_open : Option Value → Bool
is_open (some (str s)) = str_eq s "open"
is_open _ = false

-- `if data and data.get("state") == "open"`: what holds no dictionary has no `get`.
unfoldable pub check : Value → Result {0} Unit
unfolding is_open
check (obj fields) =
    if is_open (lookup fields "state") then err (domain "llm_circuit_breaker_open") else ok tt
check v = if truthy v then err (raised "AttributeError") else ok tt

unfoldable pub check_reply : Result Value → Result {0} Unit
unfolding check
check_reply (ok held) = check held
check_reply (err x) = err x

-- What `except Exception` with a bare `return` makes of an exception.
unfoldable pub swallowed : Bool → Result {0} Unit → Result {0} Unit
swallowed quiet (ok u) = ok u
swallowed quiet (err x) = if quiet then ok tt else err x

-- `value >= threshold`, for what incr_with_ttl returns: a count, or False
unfoldable pub reaches_threshold : Value → ℕ → Bool
reaches_threshold (num (pos n)) threshold = leb threshold n
reaches_threshold (bool true) threshold = leb threshold 1
reaches_threshold _ threshold = leb threshold 0

unfoldable pub done : Result Value → Result {0} Unit
done (ok v) = ok tt
done (err x) = err x

module _ (r : Redis) (b : Breaker) (key : String) where
  open r use {Store}

  -- `ensure_closed`
  unfoldable pub ensure_closed : Call → Store → Result {0} Unit
  unfolding swallowed check_reply
  ensure_closed c s = swallowed b.quiet (check_reply (get r b.adapter_silent c key s))

  -- What follows the count: at the threshold the key is set to the open state.
  unfoldable pub trip : Call → Result Value → Store → Result {0} Unit × Store
  unfolding done reaches_threshold
  trip c (err x) s = (err x, s)
  trip c (ok count) s =
      if reaches_threshold count b.failure_threshold
      then (let (reply, after) = set r b.adapter_silent c key open_state b.window_seconds s in
          (done reply, after))
      else (ok tt, s)

  -- `record_failure`
  unfoldable pub record_failure : Call → Store → Result {0} Unit × Store
  unfolding trip swallowed
  record_failure c s =
      let (count, counted) = incr_with_ttl r b.adapter_silent c key b.window_seconds s in
      let (reply, after) = trip c count counted in (swallowed b.quiet reply, after)

  -- `record_success`
  unfoldable pub record_success : Call → Store → Result {0} Unit × Store
  unfolding swallowed done
  record_success c s =
      let (reply, after) = delete r b.adapter_silent c key s in
      (swallowed b.quiet (done reply), after)
