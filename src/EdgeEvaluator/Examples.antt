-- ===== src/EdgeEvaluator/Examples.antt =====
-- Conditions of edge_evaluator.py, evaluated.
use agent_orchestration_core.Common.{
  ◌≡◌, refl, true, false, none, [], ◌∷◌, domain, ok, err, inl, map,
}
use agent_orchestration_core.Value.{
  pos, Value, bool, num, str, arr, obj, nil, cons, end, field, truthy, of_list,
}
use agent_orchestration_core.EdgeEvaluator.Paths.{PythonObjects, resolve}
use agent_orchestration_core.Value.Access.{lookup}
use agent_orchestration_core.EdgeEvaluator.Operators.{
  Operator, operator_named, any_non_empty, function_named, call, apply,
}
use agent_orchestration_core.EdgeEvaluator.Logic.{
  conjunction, operands, as_value, fold_truth, eval-connected,
}
use agent_orchestration_core.EdgeEvaluator.Errors.{
  is_true-comparison_chain, is_true-function_literal,
}
use agent_orchestration_core.EdgeEvaluator.{
  eval, eval_list, eval_dict, eval_shape, sequence, binary, is_true,
}

-- Objects without attributes; two values are never the same object.
abbrev plain : PythonObjects
plain = record { attribute = λ v name. none; identical = λ v w. false }

abbrev context : Value
context = obj (field "count" (num (pos 3)) (field "done" (bool true) end))

-- the compiled form of a one-word path
abbrev path : Value → Value
path name =
    obj
      (field "__type__" (str "path") (field "segments" (arr (cons (arr (cons name nil)) nil)) end))

-- `count >= 2`
at_least_two :
    is_true plain
      (arr (cons (path (str "count")) (cons (str ">=") (cons (num (pos 2)) nil))))
      context
    ≡ ok true
unfolding is_true eval eval_list eval_shape eval_dict lookup resolve binary operator_named apply
at_least_two = refl

abbrev empty_list : Value
empty_list = obj (field "__type__" (str "list") (field "values" (arr nil) end))

-- `AnyNonEmpty([])`
nothing_there :
    is_true plain (arr (cons (str "AnyNonEmpty") (cons empty_list nil))) context ≡ ok false
unfolding is_true eval eval_list eval_dict sequence lookup function_named call of_list
nothing_there = refl

-- `true and (count and 0)`, flat: `true and count and 0`
eval-connected_example :
    eval plain context
      (arr (cons (bool true) (operands conjunction (path (str "count") ∷ num (pos 0) ∷ []))))
    ≡ as_value (
        fold_truth conjunction true
          (map (eval plain context) (path (str "count") ∷ num (pos 0) ∷ [])))
unfolding eval truthy
eval-connected_example =
    eval-connected plain context conjunction (bool true) (path (str "count")) (bool true)
      (num (pos 0) ∷ []) refl refl

-- `1 < 2 < 3`
is_true-comparison_chain_example :
    is_true plain
      (arr (
        cons
          (num (pos 1))
          (cons (str "<") (cons (num (pos 2)) (cons (str "<") (cons (num (pos 3)) nil))))))
      context
    ≡ err (domain "edge_condition_not_supported")
unfolding eval operator_named
is_true-comparison_chain_example =
    is_true-comparison_chain plain context (num (pos 1)) (num (pos 2)) (num (pos 1)) (num (pos 2))
      "<" "<" Operator.less (cons (num (pos 3)) nil) refl refl (λ e. cc) (λ e. cc) refl refl

-- `'AnyNonEmpty' == 'AnyNonEmpty'`
is_true-function_literal_example :
    is_true plain
      (arr (cons (str "AnyNonEmpty") (cons (str "==") (cons (str "AnyNonEmpty") nil))))
      context
    ≡ err (domain "edge_evaluation_error")
unfolding eval function_named
is_true-function_literal_example =
    is_true-function_literal plain context "AnyNonEmpty" "==" (str "AnyNonEmpty")
      (str "AnyNonEmpty") any_non_empty refl (inl refl) refl
