-- ===== src/Value.antt =====
-- The Python values that travel through the runtime as JSON: None, booleans, integers, texts, lists
-- and dictionaries with str keys. Floats are not modelled.
pub mod Compare
pub mod Access
use agent_orchestration_core.Common.{
  ℕ, suc, String, Bool, true, false, List, [], ◌∷◌, ◌==◌, str_eq, not,
}

-- `negsuc n` is -(n + 1).
pub data ℤ : Type 0 where
  pos : ℕ → ℤ
  negsuc : ℕ → ℤ

mutual
  pub data Fields : Type 0 where
    end : Fields
    field : String → Value → Fields → Fields

  pub data Items : Type 0 where
    nil : Items
    cons : Value → Items → Items

  pub data Value : Type 0 where
    str : String → Value
    bool : Bool → Value
    num : ℤ → Value
    null : Value
    obj : Fields → Value
    arr : Items → Value

-- `bool(v)`
unfoldable pub truthy : Value → Bool
truthy null = false
truthy (bool b) = b
truthy (num (pos n)) = not (n == 0)
truthy (num (negsuc n)) = true
truthy (str s) = not (str_eq s "")
truthy (arr nil) = false
truthy (arr (cons v vs)) = true
truthy (obj end) = false
truthy (obj (field k v fs)) = true

unfoldable pub to_list : Items → List Value
to_list nil = []
to_list (cons v vs) = v ∷ to_list vs

unfoldable pub of_list : List Value → Items
of_list [] = nil
of_list (v ∷ vs) = cons v (of_list vs)

unfoldable pub size : Items → ℕ
size nil = 0
size (cons v vs) = suc (size vs)

unfoldable pub fields_size : Fields → ℕ
fields_size end = 0
fields_size (field k v fs) = suc (fields_size fs)
