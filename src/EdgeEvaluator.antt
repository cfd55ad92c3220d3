-- ===== src/EdgeEvaluator.antt =====
-- domain/execution/services/graph_runtime/edge_evaluator.py: the evaluation of compiled edge
-- conditions. Conditions are the JSON that `_to_serializable` makes; the pyparsing grammar that
-- reads their text is not modelled.
pub mod Paths
pub mod Operators
pub mod Logic
pub mod Errors
mod Examples
use agent_orchestration_core.Common.{
  ℕ, String, Bool, true, false, not, ◌&&◌, ◌||◌, Option, none, some, List, [], ◌∷◌, str_eq,
  if◌then◌else◌, domain, raised, Result, ok, err, ◌>>=◌,
}
use agent_orchestration_core.Value.{
  pos, Value, bool, num, str, arr, obj, null, Items, nil, cons, Fields, end, field, truthy, of_list,
}
use agent_orchestration_core.Value.Access.{lookup}
use agent_orchestration_core.Value.Compare.{iterate, py_len}
use agent_orchestration_core.EdgeEvaluator.Paths.{PythonObjects, resolve}
use agent_orchestration_core.EdgeEvaluator.Operators.{
  Operator, both, either, operator_named, apply, function_named, call,
}

-- An element of a list of the condition, with what `_eval` gives of it.
abbrev pub Node : Type 0
Node = Value × Result Value

-- `op.lower()`, and the operator of that name
abbrev operator_of : Value → Result (Option Operator)
operator_of (str s) = ok (operator_named s)
operator_of _ = err (raised "AttributeError")

unsupported : Result Value
unsupported = err (domain "edge_condition_not_supported")

-- A condition `[left, operator, right]`: both sides are evaluated, whatever the operator.
unfoldable pub binary : PythonObjects → Value → Result Value → Result Value → Result Value
unfolding unsupported
binary h op left right = do
  l ← left
  o ← operator_of op
  r ← right
  elim o [ none ↦ unsupported | some p ↦ apply h p l r ]

connect : Option Operator → Value → Value → Result Value
unfolding unsupported
connect (some both) l r = ok (bool (truthy l && truthy r))
connect (some either) l r = ok (bool (truthy l || truthy r))
connect _ l r = unsupported

-- The `while` loop over a list of another length: `operator, operand` two by two.
unfoldable pub chain : Value → List Node → Result Value
unfolding connect
chain v [] = ok v
chain v ((op, _) ∷ []) = do _ ← operator_of op; err (raised "IndexError")
chain v ((op, _) ∷ (x, right) ∷ rest) = do
  o ← operator_of op
  r ← right
  w ← connect o v r
  chain w rest

is_not : Value → Bool
is_not (str s) = named_not (operator_named s)
  where
    named_not : Option Operator → Bool
    named_not (some Operator.negation) = true
    named_not _ = false
is_not _ = false

unfoldable pub eval_shape : PythonObjects → List Node → Result Value
unfolding is_not
eval_shape h [] = err (raised "IndexError")
eval_shape h ((op, first) ∷ (x, rx) ∷ []) =
    if is_not op
    then (do v ← rx; ok (bool (not (truthy v))))
    else (do v ← first; chain v ((x, rx) ∷ []))
eval_shape h ((a, left) ∷ (op, ro) ∷ (b, right) ∷ []) = binary h op left right
eval_shape h ((a, first) ∷ rest) = do v ← first; chain v rest

unfoldable pub sequence : List Node → Result (List Value)
sequence [] = ok []
sequence ((x, rx) ∷ rest) = do v ← rx; vs ← sequence rest; ok (v ∷ vs)

unfoldable pub eval_list : PythonObjects → List Node → Result Value
unfolding sequence
eval_list h ((str s, r) ∷ rest) = elim (function_named s) [
  | some f ↦ do args ← sequence rest; call f args
  | none ↦ eval_shape h ((str s, r) ∷ rest)
]
eval_list h ns = eval_shape h ns

-- `node.get("__type__") == kind`
unfoldable pub is_kind : Fields → String → Bool
is_kind fs kind = elim (lookup fs "__type__") [ some (str s) ↦ str_eq s kind | _ ↦ false ]

-- `LenVal(...).resolve(context)` on what the path gave, or on the value itself
len_of : Result Value → Result Value
len_of r = do
  v ← r
  elim (py_len v) [ ok n ↦ ok (num (pos n)) | err e ↦ err (domain "edge_evaluation_error") ]

segments_of : Fields → Value
segments_of fs = elim (lookup fs "segments") [ some v ↦ v | none ↦ arr nil ]

eval_len : PythonObjects → Value → Option Value → Result Value
unfolding len_of segments_of is_kind
eval_len h context none = len_of (ok null)
eval_len h context (some (obj fs)) =
    if is_kind fs "path" then len_of (resolve h (segments_of fs) context) else len_of (ok (obj fs))
eval_len h context (some v) = len_of (ok v)

-- The list comprehension over `values`: what is no list gives texts, which are their own value.
eval_values : Option Value → List Node → Result Value
unfolding sequence
eval_values none ns = ok (arr nil)
eval_values (some (arr xs)) ns = do vs ← sequence ns; ok (arr (of_list vs))
eval_values (some v) ns = do vs ← iterate v; ok (arr (of_list vs))

unfoldable pub eval_dict : PythonObjects → Value → Fields → List Node → Result Value
unfolding is_kind segments_of eval_len eval_values
eval_dict h context fs ns =
    if is_kind fs "path"
    then resolve h (segments_of fs) context
    else if is_kind fs "len"
    then eval_len h context (lookup fs "value")
    else if is_kind fs "list"
    then eval_values (lookup fs "values") ns
    else err (domain "edge_evaluation_error")

-- `_eval`. Elements are evaluated in advance and read when the source would evaluate them, which
-- is the same since evaluation changes nothing.
module _ (h : PythonObjects) (context : Value) where
  unfoldable mutual
    pub eval : Value → Result Value
    eval (obj fs) = eval_dict h context fs (list_nodes fs)
    eval (arr xs) = eval_list h (nodes xs)
    eval null = ok null
    eval (bool b) = ok (bool b)
    eval (num n) = ok (num n)
    eval (str s) = ok (str s)

    pub nodes : Items → List Node
    nodes nil = []
    nodes (cons x xs) = (x, eval x) ∷ nodes xs

    -- the elements of the list under `values`
    pub list_nodes : Fields → List Node
    list_nodes end = []
    list_nodes (field k v fs) = if str_eq k "values" then value_nodes v else list_nodes fs

    pub value_nodes : Value → List Node
    value_nodes (arr xs) = nodes xs
    value_nodes _ = []

-- What `is_true` makes of the result of `_eval`: every exception becomes a domain error.
unfoldable pub boolean_result : Result Value → Result Bool
boolean_result (ok (bool b)) = ok b
boolean_result (ok v) = err (domain "edge_evaluation_error")
boolean_result (err (domain m)) = err (domain m)
boolean_result (err (raised c)) = err (domain "edge_evaluation_error")

-- `EdgeEvaluator.is_true` with a compiled condition
unfoldable pub is_true : PythonObjects → Value → Value → Result Bool
unfolding boolean_result
is_true h compiled_condition context = boolean_result (eval h context compiled_condition)
