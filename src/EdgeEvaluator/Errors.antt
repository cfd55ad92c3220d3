-- ===== src/EdgeEvaluator/Errors.antt =====
-- edge_evaluator.py: conditions that `is_true` refuses although the grammar reads them.
use agent_orchestration_core.Common.{
  String, ◌≡◌, ap, ◌∙◌, ◌⊎◌, inl, inr, none, some, List, [], ◌∷◌, domain, Result, ok, err, arith,
  ◌≢◌,
}
use agent_orchestration_core.Value.{Value, str, arr, Items, nil, cons}
use agent_orchestration_core.EdgeEvaluator.Paths.{PythonObjects}
use agent_orchestration_core.EdgeEvaluator.Operators.{
  Operator, both, either, operator_named, CustomFunction, any_non_empty, all_non_empty,
  function_named, call,
}
use agent_orchestration_core.EdgeEvaluator.Logic.{head_function, eval_list-shape}
use agent_orchestration_core.EdgeEvaluator.{
  Node, chain, eval_shape, eval_list, eval, nodes, sequence, is_true, boolean_result,
}

module _ (h : PythonObjects) (context : Value) where
  chain_rejects :
      (v y w : Value) (s : String) (p : Operator) (ro ry : Result Value) (rest : List Node)
      → operator_named s ≡ some p
      → p ≢ both
      → p ≢ either
      → ry ≡ ok w
      → chain v ((str s, ro) ∷ (y, ry) ∷ rest) ≡ err (domain "edge_condition_not_supported")
  unfolding chain
  chain_rejects v y w s p ro ry rest named not_both not_either e = ground arith

  shape_rejects :
      (x y v w : Value) (s t : String) (p : Operator) (rx ry : Result Value) (rest : List Node)
      → operator_named s ≡ some p
      → p ≢ both
      → p ≢ either
      → rx ≡ ok v
      → ry ≡ ok w
      → eval_shape h ((x, rx) ∷ (str s, ok (str s)) ∷ (y, ry) ∷ (str t, ok (str t)) ∷ rest)
        ≡ err (domain "edge_condition_not_supported")
  unfolding eval_shape
  shape_rejects x y v w s t p rx ry rest op not_both not_either ex ey = rw ex (
      chain_rejects v y w s p (ok (str s)) ry ((str t, ok (str t)) ∷ rest) op not_both not_either
        ey)

  call_rejects :
      (s op : String) (y v : Value) (f : CustomFunction) (r ry : Result Value)
      → function_named s ≡ some f
      → (f ≡ any_non_empty) ⊎ (f ≡ all_non_empty)
      → ry ≡ ok v
      → boolean_result (eval_list h ((str s, r) ∷ (str op, ok (str op)) ∷ (y, ry) ∷ []))
        ≡ err (domain "edge_evaluation_error")
  unfolding eval_list sequence call boolean_result
  call_rejects s op y v f r ry named (inl e) ey = rw (named, e, ey, eval_list)
  call_rejects s op y v f r ry named (inr e) ey = rw (named, e, ey, eval_list)

  -- A flat list of two or more comparisons, as the grammar makes of `x < y < z`, is refused as not
  -- supported, once its first two operands have values and the first is not a text that names a
  -- function.
  pub is_true-comparison_chain :
      (x y v w : Value) (s t : String) (p : Operator) (rest : Items)
      → head_function x ≡ none
      → operator_named s ≡ some p
      → p ≢ both
      → p ≢ either
      → eval h context x ≡ ok v
      → eval h context y ≡ ok w
      → is_true h (arr (cons x (cons (str s) (cons y (cons (str t) rest))))) context
        ≡ err (domain "edge_condition_not_supported")
  unfolding is_true eval boolean_result
  is_true-comparison_chain x y v w s t p rest named op not_both not_either ex ey =
      ap boolean_result (
        eval_list-shape h context x (eval h context x)
          (nodes h context (cons (str s) (cons y (cons (str t) rest)))) named
        ∙ shape_rejects x y v w s t p (eval h context x) (eval h context y) (nodes h context rest)
            op not_both not_either ex ey)

  -- A comparison of a text literal that is the name of `AnyNonEmpty` or `AllNonEmpty` is read as a
  -- call of that function with two arguments, and is refused, whatever the other side is.
  pub is_true-function_literal :
      (s op : String) (y v : Value) (f : CustomFunction)
      → function_named s ≡ some f
      → (f ≡ any_non_empty) ⊎ (f ≡ all_non_empty)
      → eval h context y ≡ ok v
      → is_true h (arr (cons (str s) (cons (str op) (cons y nil)))) context
        ≡ err (domain "edge_evaluation_error")
  unfolding is_true eval
  is_true-function_literal s op y v f named which ey =
      call_rejects s op y v f (ok (str s)) (eval h context y) named which ey
