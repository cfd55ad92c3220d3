-- ===== src/Value/Compare.antt =====
-- Python's `==`, `<`, `in` and iteration on these values.
use Prim.Native.Char.{code}
use agent_orchestration_core.Common.{
  ℕ, suc, String, ◌&&◌, Bool, true, false, Option, none, some, List, [], ◌∷◌, compare, Ordering,
  ◌==◌, str_eq, if◌then◌else◌, raised, Result, ok, err,
}
use agent_orchestration_core.Value.{
  ℤ, pos, negsuc, Value, null, bool, num, str, arr, obj, Items, nil, cons, Fields, end, field,
  to_list, size, fields_size,
}
use agent_orchestration_core.Value.Access.{lookup}

-- A boolean is the integer 0 or 1.
unfoldable pub as_int : Value → Option ℤ
as_int (bool true) = some (pos 1)
as_int (bool false) = some (pos 0)
as_int (num n) = some n
as_int _ = none

unfoldable pub int_order : ℤ → ℤ → Ordering
int_order (pos a) (pos b) = compare a b
int_order (pos a) (negsuc b) = Ordering.gt
int_order (negsuc a) (pos b) = Ordering.lt
int_order (negsuc a) (negsuc b) = compare b a

abbrev is_eq : Ordering → Bool
is_eq Ordering.eq = true
is_eq _ = false

eq_ints : Option ℤ → Option ℤ → Bool
unfolding int_order
eq_ints (some a) (some b) = is_eq (int_order a b)
eq_ints _ _ = false

-- `a == b`; two dictionaries are equal when they have the same keys with equal values.
unfoldable mutual
  unfolding as_int eq_ints lookup size fields_size

  pub py_eq : Value → Value → Bool
  py_eq null null = true
  py_eq (str s) (str t) = str_eq s t
  py_eq (arr xs) (arr ys) = items_eq xs ys
  py_eq (obj fs) (obj gs) = (fields_size fs == fields_size gs) && fields_within fs gs
  py_eq (bool b) w = eq_ints (as_int (bool b)) (as_int w)
  py_eq (num n) w = eq_ints (as_int (num n)) (as_int w)
  py_eq _ _ = false

  pub items_eq : Items → Items → Bool
  items_eq nil nil = true
  items_eq (cons x xs) (cons y ys) = py_eq x y && items_eq xs ys
  items_eq _ _ = false

  pub fields_within : Fields → Fields → Bool
  fields_within end gs = true
  fields_within (field k v fs) gs =
      elim (lookup gs k) [ none ↦ false | some w ↦ py_eq v w ] && fields_within fs gs

unfoldable pub codes : String → List ℕ
codes String.[] = []
codes (String.◌∷◌ c s) = code c ∷ codes s

codes_order : List ℕ → List ℕ → Ordering
codes_order [] [] = Ordering.eq
codes_order [] (y ∷ ys) = Ordering.lt
codes_order (x ∷ xs) [] = Ordering.gt
codes_order (x ∷ xs) (y ∷ ys) =
    let rest = codes_order xs ys in
    elim (compare x y) [
      | Ordering.eq ↦ rest
      | Ordering.lt ↦ Ordering.lt
      | Ordering.gt ↦ Ordering.gt
    ]

int_pair : Option ℤ → Option ℤ → Result Ordering
unfolding int_order
int_pair (some a) (some b) = ok (int_order a b)
int_pair _ _ = err (raised "TypeError")

-- The order that `<`, `<=`, `>` and `>=` read. Lists are decided at the first unequal elements.
unfoldable mutual
  unfolding as_int int_pair codes codes_order py_eq

  pub order : Value → Value → Result Ordering
  order (str s) (str t) = ok (codes_order (codes s) (codes t))
  order (arr xs) (arr ys) = items_order xs ys
  order (bool b) w = int_pair (as_int (bool b)) (as_int w)
  order (num n) w = int_pair (as_int (num n)) (as_int w)
  order _ _ = err (raised "TypeError")

  pub items_order : Items → Items → Result Ordering
  items_order nil nil = ok Ordering.eq
  items_order nil (cons y ys) = ok Ordering.lt
  items_order (cons x xs) nil = ok Ordering.gt
  items_order (cons x xs) (cons y ys) = if py_eq x y then items_order xs ys else order x y

codes_start : List ℕ → List ℕ → Bool
codes_start [] ys = true
codes_start (x ∷ xs) [] = false
codes_start (x ∷ xs) (y ∷ ys) = (x == y) && codes_start xs ys

-- `x in y` for two texts
codes_within : List ℕ → List ℕ → Bool
unfolding codes_start
codes_within xs [] = codes_start xs []
codes_within xs (y ∷ ys) = if codes_start xs (y ∷ ys) then true else codes_within xs ys

member : Value → Items → Bool
unfolding py_eq
member x nil = false
member x (cons y ys) = if py_eq x y then true else member x ys

has_key : Fields → String → Bool
unfolding lookup
has_key fs k = elim (lookup fs k) [ none ↦ false | some v ↦ true ]

-- `x in y`. A dictionary has texts for its keys; a list or a dictionary cannot be hashed.
unfoldable pub contains : Value → Value → Result Bool
unfolding member codes_within codes has_key
contains x (arr ys) = ok (member x ys)
contains (str s) (str t) = ok (codes_within (codes s) (codes t))
contains (str s) (obj fs) = ok (has_key fs s)
contains (arr xs) (obj fs) = err (raised "TypeError")
contains (obj gs) (obj fs) = err (raised "TypeError")
contains _ (obj fs) = ok false
contains _ _ = err (raised "TypeError")

keys : Fields → List Value
keys end = []
keys (field k v fs) = str k ∷ keys fs

-- The texts of one character that a loop over `s` gives.
unfoldable pub characters : String → List Value
characters String.[] = []
characters (String.◌∷◌ c s) = str (String.◌∷◌ c String.[]) ∷ characters s

-- `for x in v`
unfoldable pub iterate : Value → Result (List Value)
unfolding to_list keys characters
iterate (arr xs) = ok (to_list xs)
iterate (obj fs) = ok (keys fs)
iterate (str s) = ok (characters s)
iterate _ = err (raised "TypeError")

-- `len(v)`
unfoldable pub py_len : Value → Result ℕ
unfolding size fields_size codes
py_len (arr xs) = ok (size xs)
py_len (obj fs) = ok (fields_size fs)
py_len (str s) = ok (count (codes s))
  where
    count : List ℕ → ℕ
    count [] = 0
    count (c ∷ cs) = suc (count cs)
py_len _ = err (raised "TypeError")
