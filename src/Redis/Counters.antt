-- ===== src/Redis/Counters.antt =====
-- incr_with_ttl of adapters/cache/redis_adapter.py, within the window that the first call starts.
use agent_orchestration_core.Common.{
  ℕ, suc, ◌+◌, ◌<◌, String, ◌≡◌, refl, Bool, true, false, some, none, ltb, ◌==◌, ok, arith, eq_iff,
  str_eq, ◌∙◌, Bool-cases, Result-cases, inl, inr,
}
use agent_orchestration_core.Value.{num, pos}
use agent_orchestration_core.Redis.{Redis, digits, live}
use agent_orchestration_core.Redis.Adapter.{Call, incr_with_ttl, count_up, start_window}

module _ (r : Redis) (silent : Bool) (key : String) (c : Call) (ttl : ℕ) (s : r.Store) where
  same_key : str_eq key key ≡ true
  same_key = (eq_iff key key).1 refl

  start_window-other :
      (n : ℕ) (other : String)
      → str_eq key other ≡ false
      → r.entry (r.after_incr c.now key s) other ≡ r.entry s other
      → r.entry (start_window r silent c key ttl n (r.after_incr c.now key s)).1 other
        ≡ r.entry s other
  unfolding start_window
  start_window-other n other differs counted_on = elim (Bool-cases (n == 1)) [
    | inr later ↦ rw (later) counted_on
    | inl new ↦ rw (new) (elim (Bool-cases c.reaches_again) [
      | inr off ↦ rw (off) counted_on
      | inl up ↦
          rw (up) (
            r.entry-expire c.now key ttl (r.after_incr c.now key s) other ∙ rw (differs) counted_on)
    ])
  ]

  -- The first call starts the window.
  pub incr_with_ttl_first :
      live c.now (r.entry s key) ≡ none
      → c.reaches ≡ true
      → c.reaches_again ≡ true
      → ((incr_with_ttl r silent c key ttl s).0 ≡ ok (num (pos 1)))
        × (r.entry (incr_with_ttl r silent c key ttl s).1 key
            ≡ some (record { content = digits 1; expires = some (c.now + ttl) }))
  unfolding incr_with_ttl
  incr_with_ttl_first absent up again =
      let counts : r.incr c.now key s ≡ ok 1 = r.incr_lem c.now key s ∙ rw absent in
      let after : r.entry (r.after_incr c.now key s) key
          ≡ some (record { content = digits 1; expires = none }) =
        r.entry-after_incr c.now key s key ∙ rw (same_key, absent) in
      let done : r.entry (r.expire c.now key ttl (r.after_incr c.now key s)) key
          ≡ some (record { content = digits 1; expires = some (c.now + ttl) }) =
        r.entry-expire c.now key ttl (r.after_incr c.now key s) key ∙ rw (same_key, after) in
      rw (up, counts, count_up, start_window, again) (refl, done)

  -- A later call counts on.
  pub incr_with_ttl_next :
      (n end : ℕ)
      → r.entry s key ≡ some (record { content = digits (suc n); expires = some end })
      → c.now < end
      → c.reaches ≡ true
      → ((incr_with_ttl r silent c key ttl s).0 ≡ ok (num (pos (suc (suc n)))))
        × (r.entry (incr_with_ttl r silent c key ttl s).1 key
            ≡ some (record { content = digits (suc (suc n)); expires = some end }))
  unfolding incr_with_ttl
  incr_with_ttl_next n end present early up =
      let before : ltb c.now end ≡ true = ground arith in
      let counts : r.incr c.now key s ≡ ok (suc (suc n)) =
        r.incr_lem c.now key s ∙ rw (present, before) in
      let after : r.entry (r.after_incr c.now key s) key
          ≡ some (record { content = digits (suc (suc n)); expires = some end }) =
        r.entry-after_incr c.now key s key ∙ rw (same_key, present, before) in
      let later : (suc (suc n) == 1) ≡ false = ground arith in
      rw (up, counts, count_up, start_window, later) (refl, after)

  count_up-other :
      (other : String)
      → str_eq key other ≡ false
      → r.entry (count_up r silent c key ttl s).1 other ≡ r.entry s other
  unfolding count_up
  count_up-other other differs =
      let counted_on : r.entry (r.after_incr c.now key s) other ≡ r.entry s other =
        r.entry-after_incr c.now key s other ∙ rw (differs) refl in
      elim (Result-cases (r.incr c.now key s)) [
        | inr (x, e) ↦ rw (e, count_up) counted_on
        | inl (n, e) ↦ rw (e, count_up) (start_window-other n other differs counted_on)
      ]

  -- Other keys are left as they are.
  pub incr_with_ttl_other :
      (other : String)
      → str_eq key other ≡ false
      → r.entry (incr_with_ttl r silent c key ttl s).1 other ≡ r.entry s other
  unfolding incr_with_ttl
  incr_with_ttl_other other differs = elim (Bool-cases c.reaches) [
    | inr off ↦ simp (off)
    | inl up ↦ simp (up) (count_up-other other differs)
  ]
