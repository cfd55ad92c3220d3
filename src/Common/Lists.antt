-- ===== src/Common/Lists.antt =====
-- Lists measured by native numbers, association lists for dictionaries, and lists of texts.
use Prim.Native.Nat.{ℕ, suc, ◌+◌}
use Prim.Native.String.{String}
use mathlib.Core.Path.{◌≡◌, refl}
use mathlib.Core.Logic.{inl, inr}
use mathlib.Core.Bool.{Bool, true, false}
use mathlib.Core.List.{List, [], ◌∷◌, ◌++◌}
use mathlib.Core.Option.{Option, none, some}
use native.Mathlib.Omega.{arith}
use text.Mathlib.Text.{◌==◌ as str_eq}
use text.Mathlib.TextEquality.{eq_iff}
use agent_orchestration_core.Common.Tests.{if◌then◌else◌, Bool-cases}

module _ {ℓ} {A : Type ℓ} where
  abbrev pub length : List A → ℕ
  length [] = 0
  length (x ∷ xs) = suc (length xs)

  pub length-append : (xs ys : List A) → length (xs ++ ys) ≡ length xs + length ys
  length-append [] ys = omega arith
  length-append (x ∷ xs) ys = omega (arith, length-append xs ys)

-- A Python dictionary with text keys: the first entry of a key is the one that is read.
abbrev pub Dict {ℓ} : Type ℓ → Type ℓ
Dict V = List (String × V)

module _ {ℓ} {V : Type ℓ} where
  unfoldable pub get : Dict V → String → Option V
  get [] k = none
  get ((j, v) ∷ m) k = if str_eq j k then some v else get m k

  unfoldable pub put : Dict V → String → V → Dict V
  put [] k v = (k, v) ∷ []
  put ((j, w) ∷ m) k v = if str_eq j k then (k, v) ∷ m else (j, w) ∷ put m k v

  pub get-put :
      (m : Dict V) (k : String) (v : V) (j : String)
      → get (put m k v) j ≡ (if str_eq k j then some v else get m j)
  unfolding get put
  get-put [] k v j = refl
  get-put ((i, w) ∷ m) k v j = ground (arith, eq_iff i k, eq_iff i j, eq_iff k j, get-put m k v j)

-- `x in xs`, for texts.
unfoldable pub has : List String → String → Bool
has [] s = false
has (x ∷ xs) s = if str_eq x s then true else has xs s

-- The rows of a table: the first that fits, and a change of all that fit.
module _ {ℓ} {A : Type ℓ} (fits : A → Bool) where
  unfoldable pub find_row : List A → Option A
  find_row [] = none
  find_row (x ∷ xs) = if fits x then some x else find_row xs

  unfoldable pub update_rows : (A → A) → List A → List A
  update_rows change [] = []
  update_rows change (x ∷ xs) = (if fits x then change x else x) ∷ update_rows change xs

-- A row that is found is found again after a change of it, and perhaps of others, that leaves alone
-- what it is found by.
pub find_row-update_rows {ℓ} :
    {A : Type ℓ} (fits changes : A → Bool) (change : A → A) (xs : List A) (x : A)
    → ((y : A) → fits (change y) ≡ fits y)
    → ((y : A) → fits y ≡ true → changes y ≡ true)
    → find_row fits xs ≡ some x
    → find_row fits (update_rows changes change xs) ≡ some (change x)
unfolding find_row update_rows
find_row-update_rows fits changes change [] x keeps among h = cc
find_row-update_rows fits changes change (y ∷ ys) x keeps among h = elim (Bool-cases (fits y)) [
  | inl here ↦ let same : some y ≡ some x = rw (here) at h in rw (among y here, keeps y, here) (cc)
  | inr there ↦
      let rest = find_row-update_rows fits changes change ys x keeps among (rw (there) at h) in
      elim (Bool-cases (changes y)) [
        | inl e ↦ rw (e, keeps y, there) rest
        | inr e ↦ rw (e, there) rest
      ]
]
