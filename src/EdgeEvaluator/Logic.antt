-- ===== src/EdgeEvaluator/Logic.antt =====
-- edge_evaluator.py: flat chains of `and` and `or`, against the conjunction or disjunction of the
-- truth values of the operands.
use agent_orchestration_core.Common.{
  String, ◌≡◌, refl, ◌∙◌, Bool, ◌&&◌, ◌||◌, Option, none, some, List, [], ◌∷◌, map, Result, ok, err,
  ◌>>=◌,
}
use agent_orchestration_core.Value.{Value, bool, str, arr, Items, nil, cons, truthy}
use agent_orchestration_core.EdgeEvaluator.Paths.{PythonObjects}
use agent_orchestration_core.EdgeEvaluator.Operators.{
  Operator, operator_named, apply, CustomFunction, function_named,
}
use agent_orchestration_core.EdgeEvaluator.{Node, binary, chain, eval_shape, eval_list, eval, nodes}

pub data Connective : Type 0 where
  conjunction disjunction : Connective

abbrev pub word : Connective → String
word conjunction = "and"
word disjunction = "or"

abbrev pub combine : Connective → Bool → Bool → Bool
combine conjunction a b = a && b
combine disjunction a b = a || b

-- the rest of the list that the grammar makes of `x and y and ...`
abbrev pub operands : Connective → List Value → Items
operands c [] = nil
operands c (y ∷ ys) = cons (str (word c)) (cons y (operands c ys))

-- The operands from left to right: the first exception wins, else the truth values are combined.
abbrev pub fold_truth : Connective → Bool → List (Result Value) → Result Bool
fold_truth c b [] = ok b
fold_truth c b (r ∷ rs) = do v ← r; fold_truth c (combine c b (truthy v)) rs

abbrev pub as_value : Result Bool → Result Value
as_value r = do b ← r; ok (bool b)

abbrev pub head_function : Value → Option CustomFunction
head_function (str s) = function_named s
head_function _ = none

abbrev connective_operator : Connective → Operator
connective_operator conjunction = Operator.both
connective_operator disjunction = Operator.either

operator_named-word : (c : Connective) → operator_named (word c) ≡ some (connective_operator c)
unfolding operator_named
operator_named-word conjunction = refl
operator_named-word disjunction = refl

module _ (h : PythonObjects) (context : Value) where
  abbrev value_of : Value → Result Value
  value_of = eval h context

  chain_step :
      (c : Connective) (v y : Value) (r : Result Value) (n : List Node)
      → chain v ((str (word c), ok (str (word c))) ∷ (y, r) ∷ n)
        ≡ (r >>= λ w. chain (bool (combine c (truthy v) (truthy w))) n)
  unfolding chain
  chain_step conjunction v y (ok w) n = rw (operator_named-word conjunction)
  chain_step conjunction v y (err e) n = refl
  chain_step disjunction v y (ok w) n = rw (operator_named-word disjunction)
  chain_step disjunction v y (err e) n = refl

  bind_chain :
      (c : Connective) (v : Value) (r : Result Value) (rs : List (Result Value)) (n : List Node)
      → ((b : Bool) → chain (bool b) n ≡ as_value (fold_truth c b rs))
      → (r >>= λ w. chain (bool (combine c (truthy v) (truthy w))) n)
        ≡ as_value (fold_truth c (truthy v) (r ∷ rs))
  bind_chain c v (ok w) rs n ih = ih (combine c (truthy v) (truthy w))
  bind_chain c v (err e) rs n ih = refl

  chain-operands :
      (c : Connective) (b : Bool) (ys : List Value)
      → chain (bool b) (nodes h context (operands c ys))
        ≡ as_value (fold_truth c b (map value_of ys))
  unfolding eval chain truthy
  chain-operands c b [] = refl
  chain-operands c b (y ∷ ys) =
      chain_step c (bool b) y (value_of y) (nodes h context (operands c ys))
      ∙ bind_chain c (bool b) (value_of y) (map value_of ys) (nodes h context (operands c ys))
          (λ b'. chain-operands c b' ys)

  binary-connective :
      (c : Connective) (v : Value) (left right : Result Value)
      → left ≡ ok v
      → binary h (str (word c)) left right ≡ as_value (fold_truth c (truthy v) (right ∷ []))
  unfolding binary apply
  binary-connective conjunction v left (ok w) e = rw (e, operator_named-word conjunction)
  binary-connective conjunction v left (err x) e = rw e
  binary-connective disjunction v left (ok w) e = rw (e, operator_named-word disjunction)
  binary-connective disjunction v left (err x) e = rw e

  -- past the test for a function's name
  pub eval_list-shape :
      (x : Value) (r : Result Value) (n : List Node)
      → head_function x ≡ none
      → eval_list h ((x, r) ∷ n) ≡ eval_shape h ((x, r) ∷ n)
  unfolding eval_list
  eval_list-shape (str s) r n e = rw (e, eval_list)
  eval_list-shape _ r n e = refl

  shape-operands :
      (c : Connective) (x y : Value) (v : Value) (ys : List Value)
      → value_of x ≡ ok v
      → eval_shape h (nodes h context (cons x (operands c (y ∷ ys))))
        ≡ as_value (fold_truth c (truthy v) (map value_of (y ∷ ys)))
  unfolding eval_shape eval
  shape-operands c x y v [] e = binary-connective c v (value_of x) (value_of y) e
  shape-operands c x y v (z ∷ ys) e = rw e (
      chain_step c v y (value_of y) (nodes h context (operands c (z ∷ ys)))
      ∙ bind_chain c v (value_of y) (map value_of (z ∷ ys)) (nodes h context (operands c (z ∷ ys)))
          (λ b'. chain-operands c b' (z ∷ ys)))

  -- The condition `x and y and ...`, or `x or y or ...`, flat and of any length from two, whose
  -- first operand has the value `v` and is not a text that names a function, evaluates as its
  -- operands do from left to right: to the first exception, else to the conjunction, or the
  -- disjunction, of their truth values. No operand is skipped.
  pub eval-connected :
      (c : Connective) (x y v : Value) (ys : List Value)
      → head_function x ≡ none
      → eval h context x ≡ ok v
      → eval h context (arr (cons x (operands c (y ∷ ys))))
        ≡ as_value (fold_truth c (truthy v) (map (eval h context) (y ∷ ys)))
  unfolding eval
  eval-connected c x y v ys named e =
      eval_list-shape x (value_of x) (nodes h context (operands c (y ∷ ys))) named
      ∙ shape-operands c x y v ys e
