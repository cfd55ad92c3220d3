-- ===== src/Redis.antt =====
-- adapters/cache/redis_adapter.py stands on Redis, which is not the repository's: this file says what
-- the commands GET, SET, INCR, EXPIRE and DEL are relied on for.
pub mod Adapter
pub mod Memory
pub mod Counters
use agent_orchestration_core.Common.{
  ℕ, zero, suc, ◌+◌, String, ◌≡◌, Bool, true, false, Option, none, some, str_eq, ltb, raised,
  Result, ok, err, if◌then◌else◌,
}
use agent_orchestration_core.Value.{Fields}

-- The text that a key holds: the digits of a number, or the JSON text of a dictionary.
pub data Text : Type 0 where
  digits : ℕ → Text
  json : Fields → Text

-- A key's text, and the second from which on it is gone.
pub record Entry : Type 0 where
  pub content : Text
  pub expires : Option ℕ

abbrev pub has_expired : ℕ → Option ℕ → Bool
has_expired now none = false
has_expired now (some end) = if ltb now end then false else true

-- What a reader meets at a time.
abbrev pub live : ℕ → Option Entry → Option Entry
live now none = none
live now (some e) = if has_expired now e.expires then none else some e

abbrev pub content_of : Option Entry → Option Text
content_of none = none
content_of (some e) = some e.content

-- INCR counts an absent key from 0, keeps the expiry, and refuses a text that is no number.
abbrev pub counted : Option Entry → Result ℕ
counted none = ok 1
counted (some e) = elim e.content [ digits n ↦ ok (suc n) | json fs ↦ err (raised "ResponseError") ]

abbrev pub bumped : Option Entry → Option Entry
bumped none = some (record { content = digits 1; expires = none })
bumped (some e) = elim e.content [
  | digits n ↦ some (record { content = digits (suc n); expires = e.expires })
  | json fs ↦ some e
]

abbrev pub timed : Option ℕ → Option Entry → Option Entry
timed end none = none
timed end (some e) = some (record e { expires = end })

-- The server: each command at a time, its reply, and the entry of each key after it.
pub record Redis : Type 1 where
  pub Store : Type 0
  pub entry : Store → String → Option Entry
  pub get : ℕ → String → Store → Option Text
  pub incr : ℕ → String → Store → Result ℕ
  pub after_incr : ℕ → String → Store → Store
  pub expire : ℕ → String → ℕ → Store → Store
  pub set : ℕ → String → Text → ℕ → Store → Store
  pub set_nx : ℕ → String → Text → ℕ → Store → Bool
  pub after_set_nx : ℕ → String → Text → ℕ → Store → Store
  pub delete : String → Store → Store
  pub get_lem : (now : ℕ) (k : String) (s : Store) → get now k s ≡ content_of (live now (entry s k))
  pub incr_lem : (now : ℕ) (k : String) (s : Store) → incr now k s ≡ counted (live now (entry s k))
  pub entry-after_incr :
      (now : ℕ) (k : String) (s : Store) (j : String)
      → entry (after_incr now k s) j
        ≡ (if str_eq k j then bumped (live now (entry s k)) else entry s j)
  pub entry-expire :
      (now : ℕ) (k : String) (ttl : ℕ) (s : Store) (j : String)
      → entry (expire now k ttl s) j
        ≡ (if str_eq k j then timed (some (now + ttl)) (live now (entry s k)) else entry s j)
  pub entry-set :
      (now : ℕ) (k : String) (text : Text) (ttl : ℕ) (s : Store) (j : String)
      → entry (set now k text ttl s) j ≡ (
          if str_eq k j
          then some (record { content = text; expires = some (now + ttl) })
          else entry s j)
  pub set_nx_lem :
      (now : ℕ) (k : String) (text : Text) (ttl : ℕ) (s : Store)
      → set_nx now k text ttl s ≡ elim (live now (entry s k)) [ none ↦ true | some e ↦ false ]
  pub entry-after_set_nx :
      (now : ℕ) (k : String) (text : Text) (ttl : ℕ) (s : Store) (j : String)
      → entry (after_set_nx now k text ttl s) j ≡ (
          if str_eq k j
          then elim (live now (entry s k)) [
            | none ↦ some (record { content = text; expires = some (now + ttl) })
            | some e ↦ some e
          ]
          else entry s j)
  pub entry-delete :
      (k : String) (s : Store) (j : String)
      → entry (delete k s) j ≡ (if str_eq k j then none else entry s j)
