-- ===== src/Limits/Admission.antt =====
-- rate_limit_service.py: how many calls of a window are let through.
use Prim.{Unit}
use agent_orchestration_core.Common.{
  ℕ, suc, ◌+◌, ◌-◌, ◌<◌, String, ◌≡◌, Bool, true, Option, none, some, List, [], ◌∷◌, ltb, leb,
  Result, ok, err, arith, length, if◌then◌else◌,
}
use agent_orchestration_core.Value.{num, pos}
use agent_orchestration_core.Redis.{Redis, digits, live}
use agent_orchestration_core.Redis.Adapter.{Call, incr_with_ttl}
use agent_orchestration_core.Redis.Counters.{incr_with_ttl_first, incr_with_ttl_next}
use agent_orchestration_core.Limits.{PolicyVersion, enforce, judge}

abbrev pub is_admitted : Result {0} Unit → ℕ
is_admitted (ok u) = 1
is_admitted (err x) = 0

abbrev pub min : ℕ → ℕ → ℕ
min a b = if leb a b then a else b

-- The calls all get through to the server, before a second.
abbrev pub ReachBefore : ℕ → List Call → Type 0
ReachBefore end [] = Unit
ReachBefore end (c ∷ cs) = (c.now < end) × (c.reaches ≡ true) × ReachBefore end cs

module _ (r : Redis) (silent : Bool) (key : String) (policy : ℕ)
    (version_of : ℕ → Option PolicyVersion) where
  -- How many calls of a series `enforce` lets through.
  unfoldable pub admitted : List Call → r.Store → ℕ
  admitted [] s = 0
  admitted (c ∷ cs) s =
      is_admitted (enforce r silent key (some policy) version_of c s).0
      + admitted cs (enforce r silent key (some policy) version_of c s).1

  module _ (version : PolicyVersion) (published : version_of policy ≡ some version) where
    enforce_published :
        (c : Call) (s : r.Store)
        → enforce r silent key (some policy) version_of c s ≡ (
          judge (incr_with_ttl r silent c key version.window_seconds s).0 version.limit,
          (incr_with_ttl r silent c key version.window_seconds s).1,
        )
    unfolding enforce
    enforce_published c s = rw (published, enforce)

    judge_count :
        (n : ℕ)
        → is_admitted (judge (ok (num (pos n))) version.limit)
          ≡ (if ltb version.limit n then 0 else 1)
    unfolding judge
    judge_count n = ground arith

    admitted_next :
        (n end : ℕ) (cs : List Call) (s : r.Store)
        → r.entry s key ≡ some (record { content = digits (suc n); expires = some end })
        → ReachBefore end cs
        → admitted cs s ≡ min (version.limit - suc n) (length cs)
    unfolding admitted
    admitted_next n end [] s present early = ground arith
    admitted_next n end (c ∷ cs) s present (now, up, early) =
        let (count, after) =
          incr_with_ttl_next r silent key c version.window_seconds s n end present now up in
        let rest = admitted_next (suc n) end cs _ after early in
        rw (enforce_published c s, count, judge_count (suc (suc n)), rest) (ground arith)

    -- If the first call finds no counter, and it and the calls after it get through to Redis, these
    -- within the window that it starts, then as many calls are let through as the limit says, or
    -- all if they are no more.
    pub admitted-min :
        (first : Call) (cs : List Call) (s : r.Store)
        → live first.now (r.entry s key) ≡ none
        → first.reaches ≡ true
        → first.reaches_again ≡ true
        → ReachBefore (first.now + version.window_seconds) cs
        → admitted (first ∷ cs) s ≡ min version.limit (suc (length cs))
    unfolding admitted
    admitted-min first cs s absent up again early =
        let (count, after) =
          incr_with_ttl_first r silent key first version.window_seconds s absent up again in
        let rest = admitted_next 0 _ cs _ after early in
        rw (enforce_published first s, count, judge_count 1, rest) (ground arith)
