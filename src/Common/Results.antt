-- ===== src/Common/Results.antt =====
-- What a Python call gives: a value, or the exception that it raises.
use Prim.Native.String.{String}
use mathlib.Core.Path.{◌≡◌, refl}
use mathlib.Core.Logic.{◌⊎◌, inl, inr}

-- `DomainValidationException` with its `message`; `raised` stands for every other exception, by
-- the name of its class.
pub data Exn : Type 0 where
  domain : String → Exn
  raised : String → Exn

pub data Result {ℓ} (A : Type ℓ) : Type ℓ where
  ok : A → Result A
  err : Exn → Result A

infixl 5 ◌>>=◌
abbrev pub ◌>>=◌ {ℓ κ} : {X : Type ℓ} {Y : Type κ} → Result X → (X → Result Y) → Result Y
r >>= next = elim r [ err e ↦ err e | ok x ↦ next x ]

pub Result-cases {ℓ} :
    {A : Type ℓ} (r : Result A) → ((a : A) × (r ≡ ok a)) ⊎ ((e : Exn) × (r ≡ err e))
Result-cases (ok a) = inl (a, refl)
Result-cases (err e) = inr (e, refl)

-- Inversion of a chain of calls.
pub >>=-eq-ok {ℓ κ} :
    {X : Type ℓ} {Y : Type κ} (m : Result X) (next : X → Result Y) {y : Y}
    → (m >>= next) ≡ ok y
    → (x : X) × (m ≡ ok x) × (next x ≡ ok y)
>>=-eq-ok (ok x) next h = (x, refl, h)
>>=-eq-ok (err e) next h = cc

pub >>=-eq-err {ℓ κ} :
    {X : Type ℓ} {Y : Type κ} (m : Result X) (next : X → Result Y) {e : Exn}
    → (m >>= next) ≡ err e
    → (m ≡ err e) ⊎ ((x : X) × (m ≡ ok x) × (next x ≡ err e))
>>=-eq-err (ok x) next h = inr (x, refl, h)
>>=-eq-err (err d) next h = inl cc

pub ok_inj {ℓ} : {X : Type ℓ} (a b : X) → ok a ≡ ok b → a ≡ b
ok_inj a b h = cc

pub err-ne-ok {ℓ} : {X : Type ℓ} (x : Exn) (b : X) → ¬ (err x ≡ ok b)
err-ne-ok x b h = cc
