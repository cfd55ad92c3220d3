-- ===== src/Limits/Idempotency.antt =====
-- IdempotencyService of domain/execution/adapters/idempotency_service.py.
use Prim.{Unit}
use agent_orchestration_core.Common.{
  ℕ, ◌+◌, ◌<◌, ◌≤◌, String, ◌≡◌, refl, ◌∙◌, Bool, true, false, some, List, [], ◌∷◌, eq_iff, ltb,
  Result, ok, err, arith, ◌⊎◌, inl, inr, Bool-cases, Option-cases,
}
use agent_orchestration_core.Value.{Value, str, truthy, Fields, end, field}
use agent_orchestration_core.Redis.{Redis, Entry, json, live}
use agent_orchestration_core.Redis.Adapter.{Call, set, set_if_not_exists, wrapped, unreachable}

abbrev pub processing : Fields
processing = field "status" (str "PROCESSING") end

unfoldable pub as_bool : Result Value → Result Bool
as_bool (ok v) = ok (truthy v)
as_bool (err x) = err x

module _ (r : Redis) (silent : Bool) (ttl : ℕ) (key : String) where
  open r use {Store}

  -- `try_acquire`; `ttl` is IDEMPOTENCY_TTL_SECONDS
  unfoldable pub try_acquire : Call → Store → Result Bool × Store
  unfolding as_bool
  try_acquire c s =
      let (reply, after) = set_if_not_exists r silent c key processing ttl s in
      (as_bool reply, after)

  -- `set_result`
  unfoldable pub set_result : Call → Fields → Store → Result Value × Store
  set_result c fields s = set r silent c key fields ttl s

-- What the requests of one key do, in the order in which Redis serves them.
pub data Request : Type 0 where
  acquire : Call → Request
  finish : Call → Fields → Request

abbrev pub call_of : Request → Call
call_of (acquire c) = c
call_of (finish c fields) = c

-- All are served before a second.
abbrev pub AllBefore : ℕ → List Request → Type 0
AllBefore last [] = Unit
AllBefore last (q ∷ qs) = ((call_of q).now < last) × AllBefore last qs

-- Each is served no later than the second with which the list goes on.
abbrev pub AllFrom : ℕ → List Request → Type 0
AllFrom first [] = Unit
AllFrom first (q ∷ qs) = (first ≤ (call_of q).now) × AllFrom first qs

abbrev pub is_yes : Result Bool → ℕ
is_yes (ok true) = 1
is_yes _ = 0

module _ (r : Redis) (silent : Bool) (ttl : ℕ) (key : String) where
  -- How many of the requests are told that the key is theirs.
  unfoldable pub acquired : List Request → r.Store → ℕ
  acquired [] s = 0
  acquired (acquire c ∷ qs) s =
      is_yes (try_acquire r silent ttl key c s).0 + acquired qs (try_acquire r silent ttl key c s).1
  acquired (finish c fields ∷ qs) s = acquired qs (set_result r silent ttl key c fields s).1

  -- The key is held until a second.
  abbrev Held : ℕ → r.Store → Type 0
  Held until s =
      (e : Entry) × (end : ℕ) × (r.entry s key ≡ some e) × (e.expires ≡ some end) × (until ≤ end)

  Held-live :
      (until : ℕ) (s : r.Store) (h : Held until s) (now : ℕ)
      → now < until
      → live now (r.entry s key) ≡ some h.0
  Held-live until s (e, last, present, expires, later) now early =
      let before : ltb now last ≡ true = ground arith in rw (present, expires, before) refl

  unanswered : is_yes (as_bool (wrapped silent (err unreachable))) ≡ 0
  unfolding as_bool wrapped truthy
  unanswered = elim (Bool-cases silent) [ inl e ↦ rw (e) refl | inr e ↦ rw (e) refl ]

  try_acquire-Held :
      (until : ℕ) (c : Call) (s : r.Store)
      → Held until s
      → c.now < until
      → (is_yes (try_acquire r silent ttl key c s).0 ≡ 0)
        × Held until (try_acquire r silent ttl key c s).1
  unfolding try_acquire set_if_not_exists truthy
  try_acquire-Held until c s h early = elim (Bool-cases c.reaches) [
    | inr off ↦ rw (off) (unanswered, h)
    | inl up ↦
        let (e, last, present, expires, later) = h in
        let held = Held-live until s h c.now early in
        let reply : r.set_nx c.now key (json processing) ttl s ≡ false =
          r.set_nx_lem c.now key (json processing) ttl s ∙ rw (held) refl in
        let after : r.entry (r.after_set_nx c.now key (json processing) ttl s) key ≡ some e =
          r.entry-after_set_nx c.now key (json processing) ttl s key
          ∙ rw ((eq_iff key key).1 refl, held) refl in
        rw (up, reply) (refl, (e, last, after, expires, later))
  ]

  -- An answer is no, or the key is held from then on.
  try_acquire_cases :
      (from : ℕ) (c : Call) (s : r.Store)
      → from ≤ c.now
      → (is_yes (try_acquire r silent ttl key c s).0 ≡ 0)
        ⊎ ((is_yes (try_acquire r silent ttl key c s).0 ≡ 1)
            × Held (from + ttl) (try_acquire r silent ttl key c s).1)
  unfolding try_acquire set_if_not_exists truthy
  try_acquire_cases from c s later = elim (Bool-cases c.reaches) [
    | inr off ↦ rw (off) (inl unanswered)
    | inl up ↦ rw (up) (elim (Option-cases (live c.now (r.entry s key))) [
      | inr (e, held) ↦ inl (rw (r.set_nx_lem c.now key (json processing) ttl s, held) refl)
      | inl absent ↦ inr (
        rw (r.set_nx_lem c.now key (json processing) ttl s, absent) refl,
        (
          record { content = json processing; expires = some (c.now + ttl) },
          c.now + ttl,
          r.entry-after_set_nx c.now key (json processing) ttl s key
              ∙ rw ((eq_iff key key).1 refl, absent) refl,
          refl,
          omega arith,
        ),
      )
    ])
  ]

  set_result-Held :
      (until : ℕ) (c : Call) (fields : Fields) (s : r.Store)
      → Held until s
      → until ≤ c.now + ttl
      → Held until (set_result r silent ttl key c fields s).1
  unfolding set_result set
  set_result-Held until c fields s h later = elim (Bool-cases c.reaches) [
    | inr off ↦ rw (off) h
    | inl up ↦ rw (up) (
      record { content = json fields; expires = some (c.now + ttl) },
      c.now + ttl,
      r.entry-set c.now key (json fields) ttl s key ∙ rw ((eq_iff key key).1 refl) refl,
      refl,
      later,
    )
  ]

  acquired-Held :
      (from : ℕ) (qs : List Request) (s : r.Store)
      → Held (from + ttl) s
      → AllFrom from qs
      → AllBefore (from + ttl) qs
      → acquired qs s ≡ 0
  unfolding acquired
  acquired-Held from [] s h late early = refl
  acquired-Held from (acquire c ∷ qs) s h late early =
      let (refused, held) = try_acquire-Held (from + ttl) c s h early.0 in
      rw (refused) (ground (arith, acquired-Held from qs _ held late.1 early.1))
  acquired-Held from (finish c fields ∷ qs) s h late early =
      acquired-Held from qs _ (set_result-Held _ c fields s h (omega arith)) late.1 early.1

  -- Of the requests with one key that Redis serves within the time to live, whatever order they
  -- come in, whichever of them fail, and whatever the key held before, at most one is told that
  -- the key is its own.
  pub acquired-le :
      (from : ℕ) (qs : List Request) (s : r.Store)
      → AllFrom from qs
      → AllBefore (from + ttl) qs
      → acquired qs s ≤ 1
  unfolding acquired
  acquired-le from [] s late early = omega arith
  acquired-le from (finish c fields ∷ qs) s late early = acquired-le from qs _ late.1 early.1
  acquired-le from (acquire c ∷ qs) s late early = elim (try_acquire_cases from c s late.0) [
    | inl refused ↦ rw (refused) (omega (arith, acquired-le from qs _ late.1 early.1))
    | inr (given, held) ↦ rw (given, acquired-Held from qs _ held late.1 early.1) (omega arith)
  ]
