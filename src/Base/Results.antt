-- ===== src/Base/Results.antt =====
-- Exceptions as values. `out_of_fuel` is no exception of the program: it stands for a run that the
-- model's bound on a loop or a recursion cuts off.
use Prim.Native.Nat.{ℕ}
use mathlib.Core.Path.{◌≡◌, refl}
use mathlib.Core.Bool.{Bool, true, false}
use mathlib.Core.Option.{Option, none, some}
use mathlib.Core.Logic.{◌⊎◌, inl, inr}

-- `OSError` carries the error's number.
pub data Error : Type 0 where
  key_error value_error index_error struct_error system_exit type_error attribute_error : Error
  zero_division_error called_process_error out_of_fuel : Error
  os_error : (errno : ℕ) → Error

pub data Result {ℓ} (Value : Type ℓ) : Type ℓ where
  err : (raised : Error) → Result Value
  ok : (value : Value) → Result Value

-- `none` raises.
abbrev pub of_option {ℓ} : {A : Type ℓ} → Error → Option A → Result A
of_option e none = err e
of_option e (some a) = ok a

-- `if not b: raise e`.
abbrev pub check : Bool → Error → Result (Unit {0})
check true e = ok tt
check false e = err e

infixl 5 ◌>>=◌ ◌>>◌
abbrev pub ◌>>=◌ {ℓ κ} :
    {Before : Type ℓ} {After : Type κ} → Result Before → (Before → Result After) → Result After
err raised >>= next = err raised
ok value >>= next = next value

abbrev pub ◌>>◌ {ℓ} : {After : Type ℓ} → Result (Unit {0}) → Result After → Result After
first >> next = first >>= λ done. next

-- A sequence that succeeds has a first part that does, and a rest.
pub >>=-eq-ok {ℓ κ} :
    {Before : Type ℓ} {After : Type κ} (first : Result Before) (next : Before → Result After)
    {result : After}
    → (first >>= next) ≡ ok result
    → (value : Before) × (first ≡ ok value) × (next value ≡ ok result)
>>=-eq-ok (err raised) next h = cc
>>=-eq-ok (ok value) next h = (value, refl, h)

pub Result-cases {ℓ} :
    {A : Type ℓ} (r : Result A) → ((e : Error) × (r ≡ err e)) ⊎ ((a : A) × (r ≡ ok a))
Result-cases (err e) = inl (e, refl)
Result-cases (ok a) = inr (a, refl)

pub of_option-eq-ok {ℓ} :
    {A : Type ℓ} (e : Error) (o : Option A) {a : A} → of_option e o ≡ ok a → o ≡ some a
of_option-eq-ok e none h = cc
of_option-eq-ok e (some b) h = cc
