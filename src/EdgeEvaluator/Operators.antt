-- ===== src/EdgeEvaluator/Operators.antt =====
-- The operator and function tables of edge_evaluator.py.
use agent_orchestration_core.Common.{
  ℕ, ◌+◌, String, Bool, true, false, not, ◌&&◌, ◌||◌, Option, none, some, List, [], ◌∷◌, Ordering,
  str_eq, if◌then◌else◌, leb, ◌==◌, domain, raised, Result, ok, err, ◌>>=◌,
}
use agent_orchestration_core.Value.{Value, bool, arr, Items, nil, cons, truthy, to_list}
use agent_orchestration_core.Value.Compare.{py_eq, order, contains, iterate, codes}
use agent_orchestration_core.EdgeEvaluator.Paths.{PythonObjects}

pub data Operator : Type 0 where
  equal unequal greater at_least less at_most : Operator
  inside outside same different : Operator
  subset superset meets disjoint : Operator
  both either negation : Operator

-- `str.lower` on ASCII letters. No operator's name has a letter that another character lowers to.
lower : List ℕ → List ℕ
lower [] = []
lower (c ∷ cs) = (if leb b'A' c && leb c b'Z' then c + 32 else c) ∷ lower cs

same_codes : List ℕ → List ℕ → Bool
same_codes [] [] = true
same_codes (x ∷ xs) (y ∷ ys) = (x == y) && same_codes xs ys
same_codes _ _ = false

find : List (String × Operator) → List ℕ → Option Operator
unfolding same_codes
find [] name = none
find ((s, o) ∷ table) name = if same_codes (codes s) name then some o else find table name

-- `COMPARISON_AND_SET_OPERATORS`, `and`, `or` and `not`
abbrev operators : List (String × Operator)
operators =
    ("=", Operator.equal)
    ∷ ("==", Operator.equal)
    ∷ ("eq", Operator.equal)
    ∷ ("!=", Operator.unequal)
    ∷ ("ne", Operator.unequal)
    ∷ ("≠", Operator.unequal)
    ∷ (">", Operator.greater)
    ∷ ("gt", Operator.greater)
    ∷ (">=", Operator.at_least)
    ∷ ("ge", Operator.at_least)
    ∷ ("≥", Operator.at_least)
    ∷ ("<", Operator.less)
    ∷ ("lt", Operator.less)
    ∷ ("<=", Operator.at_most)
    ∷ ("le", Operator.at_most)
    ∷ ("≤", Operator.at_most)
    ∷ ("in", Operator.inside)
    ∷ ("∈", Operator.inside)
    ∷ ("notin", Operator.outside)
    ∷ ("∉", Operator.outside)
    ∷ ("is", Operator.same)
    ∷ ("isnot", Operator.different)
    ∷ ("⊆", Operator.subset)
    ∷ ("⊇", Operator.superset)
    ∷ ("∩", Operator.meets)
    ∷ ("not∩", Operator.disjoint)
    ∷ ("and", Operator.both)
    ∷ ("or", Operator.either)
    ∷ ("not", Operator.negation)
    ∷ []

unfoldable pub operator_named : String → Option Operator
unfolding find lower codes
operator_named s = find operators (lower (codes s))

-- `any(test(x) for x in xs)` stops at the first that holds, `all` at the first that does not.
unfoldable pub any_of : (Value → Result Bool) → List Value → Result Bool
any_of test [] = ok false
any_of test (x ∷ xs) = do b ← test x; if b then ok true else any_of test xs

unfoldable pub all_of : (Value → Result Bool) → List Value → Result Bool
all_of test [] = ok true
all_of test (x ∷ xs) = do b ← test x; if b then all_of test xs else ok false

abbrev is_lt : Ordering → Bool
is_lt Ordering.lt = true
is_lt _ = false

abbrev is_gt : Ordering → Bool
is_gt Ordering.gt = true
is_gt _ = false

-- The lambdas of the table. A `TypeError` of theirs is caught and becomes a domain error.
unfoldable pub compare_values : PythonObjects → Operator → Value → Value → Result Bool
unfolding py_eq order contains iterate any_of all_of
compare_values h Operator.equal x y = ok (py_eq x y)
compare_values h Operator.unequal x y = ok (not (py_eq x y))
compare_values h Operator.greater x y = do o ← order x y; ok (is_gt o)
compare_values h Operator.at_least x y = do o ← order x y; ok (not (is_lt o))
compare_values h Operator.less x y = do o ← order x y; ok (is_lt o)
compare_values h Operator.at_most x y = do o ← order x y; ok (not (is_gt o))
compare_values h Operator.inside x y = contains x y
compare_values h Operator.outside x y = do b ← contains x y; ok (not b)
compare_values h Operator.same x y = ok (h.identical x y)
compare_values h Operator.different x y = ok (not (h.identical x y))
compare_values h Operator.subset x y = do xs ← iterate x; all_of (λ a. contains a y) xs
compare_values h Operator.superset x y = do ys ← iterate y; all_of (λ a. contains a x) ys
compare_values h Operator.meets x y = do xs ← iterate x; any_of (λ a. contains a y) xs
compare_values h Operator.disjoint x y = do
  xs ← iterate x
  b ← any_of (λ a. contains a y) xs
  ok (not b)
compare_values h Operator.both x y = ok (truthy x && truthy y)
compare_values h Operator.either x y = ok (truthy x || truthy y)
compare_values h Operator.negation x y = err (domain "edge_condition_not_supported")

caught : Result Bool → Result Value
caught (ok b) = ok (bool b)
caught (err (domain m)) = err (domain m)
caught (err (raised c)) = err (domain "edge_evaluation_error")

-- `and`, `or` and the table, in the three-element case of `_eval`
unfoldable pub apply : PythonObjects → Operator → Value → Value → Result Value
unfolding caught compare_values
apply h o x y = caught (compare_values h o x y)

pub data CustomFunction : Type 0 where
  has_any has_all any_equals all_equals any_non_empty all_non_empty : CustomFunction

-- `CUSTOM_FUNCTIONS`
unfoldable pub function_named : String → Option CustomFunction
function_named s =
    if str_eq s "HasAny"
    then some has_any
    else if str_eq s "HasAll"
    then some has_all
    else if str_eq s "AnyEquals"
    then some any_equals
    else if str_eq s "AllEquals"
    then some all_equals
    else if str_eq s "AnyNonEmpty"
    then some any_non_empty
    else if str_eq s "AllNonEmpty"
    then some all_non_empty
    else none

holds : Value → Result Bool
holds v = ok (truthy v)

all_non_empty_items : Items → Result Bool
unfolding all_of holds to_list
all_non_empty_items nil = ok false
all_non_empty_items (cons v vs) = all_of holds (to_list (cons v vs))

test_function : CustomFunction → List Value → Result Bool
unfolding iterate any_of all_of contains py_eq holds all_non_empty_items
test_function has_any (l ∷ vals ∷ []) = do xs ← iterate l; any_of (λ x. contains x vals) xs
test_function has_all (l ∷ vals ∷ []) = do xs ← iterate l; all_of (λ x. contains x vals) xs
test_function any_equals (l ∷ v ∷ []) = do xs ← iterate l; any_of (λ x. ok (py_eq x v)) xs
test_function all_equals (l ∷ v ∷ []) = do xs ← iterate l; all_of (λ x. ok (py_eq x v)) xs
test_function any_non_empty (l ∷ []) = do xs ← iterate l; any_of holds xs
test_function all_non_empty (arr vs ∷ []) = all_non_empty_items vs
test_function all_non_empty (v ∷ []) = ok false
test_function _ _ = err (raised "TypeError")

unfoldable pub call : CustomFunction → List Value → Result Value
unfolding test_function
call f args = do b ← test_function f args; ok (bool b)
