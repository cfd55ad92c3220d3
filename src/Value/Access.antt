-- ===== src/Value/Access.antt =====
-- Dictionaries among the values: reading and writing a key.
use agent_orchestration_core.Common.{
  String, ◌≡◌, refl, Option, none, some, arith, str_eq, eq_iff, if◌then◌else◌,
}
use agent_orchestration_core.Value.{Value, obj, Fields, end, field}

-- `fs.get(k)`
unfoldable pub lookup : Fields → String → Option Value
lookup end k = none
lookup (field j v fs) k = if str_eq j k then some v else lookup fs k

-- `fs[k] = v`
unfoldable pub store : Fields → String → Value → Fields
store end k v = field k v end
store (field j w fs) k v = if str_eq j k then field k v fs else field j w (store fs k v)

-- `fs.get(k) or {}`, for a key that holds a dictionary or nothing
unfoldable pub sub_dict : Option Value → Fields
sub_dict (some (obj fs)) = fs
sub_dict _ = end

pub lookup-store :
    (fs : Fields) (k : String) (v : Value) (j : String)
    → lookup (store fs k v) j ≡ (if str_eq k j then some v else lookup fs j)
unfolding lookup store
lookup-store end k v j = refl
lookup-store (field i w fs) k v j =
    ground (arith, eq_iff i k, eq_iff i j, eq_iff k j, lookup-store fs k v j)
