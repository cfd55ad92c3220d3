-- ===== src/EdgeEvaluator/Paths.antt =====
-- `SubstituteVal.resolve` of edge_evaluator.py: a dotted path with indices, read in the context.
use agent_orchestration_core.Common.{
  ℕ, zero, suc, ◌-◌, String, Bool, Option, none, some, if◌then◌else◌, ltb, domain, raised, Result,
  ok, err, ◌>>=◌,
}
use agent_orchestration_core.Value.{
  pos, negsuc, Value, null, bool, num, str, arr, obj, Items, nil, cons, size,
}
use agent_orchestration_core.Value.Access.{lookup}

-- Python's own objects, as far as conditions see them: `getattr` on a built-in value, and `is`.
pub record PythonObjects : Type 0 where
  pub attribute : Value → String → Option Value
  pub identical : Value → Value → Bool

abbrev evaluation_error {ℓ} : {A : Type ℓ} → Result A
evaluation_error = err (domain "edge_evaluation_error")

or_none : Option Value → Value
or_none none = null
or_none (some v) = v

module _ (h : PythonObjects) where
  -- `item[name]` for a dictionary with that key, else the attribute, else None
  item_named : String → Value → Value
  unfolding or_none
  item_named name (obj fs) = elim (lookup fs name) [
    | some v ↦ v
    | none ↦ or_none (h.attribute (obj fs) name)
  ]
  item_named name v = or_none (h.attribute v name)

  items_named : String → Items → Items
  unfolding item_named
  items_named name nil = nil
  items_named name (cons v vs) = cons (item_named name v) (items_named name vs)

  unfoldable pub read_name : Value → String → Result Value
  unfolding items_named
  read_name (obj fs) name = elim (lookup fs name) [ some v ↦ ok v | none ↦ evaluation_error ]
  read_name (arr vs) name = ok (arr (items_named name vs))
  read_name v name = elim (h.attribute v name) [ some w ↦ ok w | none ↦ evaluation_error ]

get_elem? : Items → ℕ → Option Value
get_elem? nil i = none
get_elem? (cons v vs) zero = some v
get_elem? (cons v vs) (suc i) = get_elem? vs i

-- `val[idx]` on a list; a negative index counts from the end
at_index : Items → Value → Option Value
unfolding get_elem? size
at_index vs (num (pos n)) = get_elem? vs n
at_index vs (num (negsuc n)) = if ltb n (size vs) then get_elem? vs (size vs - suc n) else none
at_index vs (bool b) = get_elem? vs (if b then 1 else 0)
at_index vs _ = none

unfoldable pub read_indices : Value → Items → Result Value
unfolding at_index
read_indices v nil = ok v
read_indices (arr vs) (cons i is) = elim (at_index vs i) [
  | some w ↦ read_indices w is
  | none ↦ evaluation_error
]
read_indices v (cons i is) = evaluation_error

module _ (h : PythonObjects) where
  unfoldable pub read_segment : Value → Value → Result Value
  read_segment v (arr (cons (str name) indices)) = do w ← read_name h v name; read_indices w indices
  read_segment v (arr nil) = err (raised "IndexError")
  read_segment v _ = err (raised "TypeError")

  unfoldable pub read_segments : Value → Items → Result Value
  unfolding read_segment read_name read_indices
  read_segments v nil = ok v
  read_segments v (cons s rest) = do w ← read_segment v s; read_segments w rest

  -- The grammar makes `segments` a list of lists `[name, index, ...]`.
  unfoldable pub resolve : Value → Value → Result Value
  unfolding read_segments
  resolve segments null = evaluation_error
  resolve (arr segments) context = read_segments context segments
  resolve _ context = err (raised "TypeError")
