-- ===== src/Redis/Adapter.antt =====
-- RedisAdapter of adapters/cache/redis_adapter.py: its operations on dictionaries and counters, and
-- the silent mode, in which an operation that raises returns False.
use agent_orchestration_core.Common.{
  ℕ, String, Bool, false, Option, none, some, ◌==◌, Exn, raised, Result, ok, err, if◌then◌else◌,
}
use agent_orchestration_core.Value.{Value, null, bool, num, obj, Fields, pos}
use agent_orchestration_core.Redis.{Redis, Text, digits, json}

-- One call of an operation: its second, whether its command gets through to the server, and
-- whether a second command would.
pub record Call : Type 0 where
  pub now : ℕ
  pub reaches : Bool
  pub reaches_again : Bool

abbrev pub unreachable : Exn
unreachable = raised "ConnectionError"

-- `silent_mode_wrapper`
unfoldable pub wrapped : Bool → Result Value → Result Value
wrapped silent (ok v) = ok v
wrapped silent (err x) = if silent then ok (bool false) else err x

-- `json.loads(data) if data else None`
unfoldable pub loaded : Option Text → Value
loaded none = null
loaded (some (digits n)) = num (pos n)
loaded (some (json fs)) = obj fs

module _ (r : Redis) (silent : Bool) where
  open r use {Store}

  -- `get`
  unfoldable pub get : Call → String → Store → Result Value
  unfolding wrapped loaded
  get c key s =
      wrapped silent (if c.reaches then ok (loaded (r.get c.now key s)) else err unreachable)

  -- `set`, with its result and the store after it
  unfoldable pub set : Call → String → Fields → ℕ → Store → Result Value × Store
  unfolding wrapped
  set c key fields ttl s =
      if c.reaches
      then (ok null, r.set c.now key (json fields) ttl s)
      else (wrapped silent (err unreachable), s)

  -- `set_if_not_exists`
  unfoldable pub set_if_not_exists : Call → String → Fields → ℕ → Store → Result Value × Store
  unfolding wrapped
  set_if_not_exists c key fields ttl s =
      if c.reaches
      then (
        ok (bool (r.set_nx c.now key (json fields) ttl s)),
        r.after_set_nx c.now key (json fields) ttl s,
      )
      else (wrapped silent (err unreachable), s)

  -- `delete`
  unfoldable pub delete : Call → String → Store → Result Value × Store
  unfolding wrapped
  delete c key s =
      if c.reaches then (ok null, r.delete key s) else (wrapped silent (err unreachable), s)

  -- The call of EXPIRE, if the counter is new.
  unfoldable pub start_window : Call → String → ℕ → ℕ → Store → Result Value × Store
  start_window c key ttl value s =
      if value == 1
      then (if c.reaches_again
          then (ok (num (pos value)), r.expire c.now key ttl s)
          else (err unreachable, s))
      else (ok (num (pos value)), s)

  unfoldable pub count_up : Call → String → ℕ → Store → Result Value × Store
  unfolding start_window
  count_up c key ttl s = elim (r.incr c.now key s) [
    | ok value ↦ start_window c key ttl value (r.after_incr c.now key s)
    | err x ↦ (err x, r.after_incr c.now key s)
  ]

  -- `incr_with_ttl`
  unfoldable pub incr_with_ttl : Call → String → ℕ → Store → Result Value × Store
  unfolding wrapped count_up
  incr_with_ttl c key ttl s =
      if c.reaches
      then (let (reply, after) = count_up c key ttl s in (wrapped silent reply, after))
      else (wrapped silent (err unreachable), s)
