-- ===== src/Redis/Memory.antt =====
-- A server of the interface Redis: a dictionary in memory.
use agent_orchestration_core.Common.{
  ◌+◌, String, refl, true, false, Option, none, some, List, [], ◌∷◌, str_eq, if◌then◌else◌,
}
use agent_orchestration_core.Redis.{Redis, Entry, live, content_of, counted, bumped, timed}

abbrev pub Entries : Type 0
Entries = List (String × Option Entry)

abbrev pub entry_of : Entries → String → Option Entry
entry_of [] j = none
entry_of ((k, e) ∷ s) j = if str_eq k j then e else entry_of s j

abbrev pub memory : Redis
memory = record {
  Store = Entries;
  entry = entry_of;
  get = λ now k s. content_of (live now (entry_of s k));
  incr = λ now k s. counted (live now (entry_of s k));
  after_incr = λ now k s. (k, bumped (live now (entry_of s k))) ∷ s;
  expire = λ now k ttl s. (k, timed (some (now + ttl)) (live now (entry_of s k))) ∷ s;
  set = λ now k text ttl s. (k, some (record { content = text; expires = some (now + ttl) })) ∷ s;
  set_nx = λ now k text ttl s. elim (live now (entry_of s k)) [ none ↦ true | some e ↦ false ];
  after_set_nx = λ now k text ttl s.
      (
        k,
        elim (live now (entry_of s k)) [
          | none ↦ some (record { content = text; expires = some (now + ttl) })
          | some e ↦ some e
        ],
      )
      ∷ s;
  delete = λ k s. (k, none) ∷ s;
  get_lem = λ now k s. refl;
  incr_lem = λ now k s. refl;
  entry-after_incr = λ now k s j. refl;
  entry-expire = λ now k ttl s j. refl;
  entry-set = λ now k text ttl s j. refl;
  set_nx_lem = λ now k text ttl s. refl;
  entry-after_set_nx = λ now k text ttl s j. refl;
  entry-delete = λ k s j. refl;
}
