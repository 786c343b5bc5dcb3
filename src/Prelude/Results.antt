-- ===== src/Prelude/Results.antt =====
-- Exceptions as values: the class of the exception and its message.
use Prim.Native.String.{String}
use mathlib.Core.Path.{◌≡◌, refl}
use mathlib.Core.Logic.{◌⊎◌, inl, inr}
use mathlib.Core.Bool.{Bool, true, false}

-- `other_error` is an exception of a class that the program does not raise itself.
pub data Error : Type 0 where
  type_error value_error assertion_error storage_error local_job_error : String → Error
  local_job_contract_mismatch other_error : String → Error

-- What a call returns, or the exception that it raises.
pub data Result {ℓ} (Value : Type ℓ) : Type ℓ where
  err : Error → Result Value
  ok : Value → Result Value

-- `if condition: raise error`
abbrev pub raise_if : Bool → Error → Result (Unit {0})
raise_if false raised = ok tt
raise_if true raised = err raised

infixl 5 ◌>>=◌
abbrev pub ◌>>=◌ {κ μ} : {V : Type κ} {W : Type μ} → Result V → (V → Result W) → Result W
err raised >>= rest = err raised
ok value >>= rest = rest value

infixl 5 ◌>>◌
abbrev pub ◌>>◌ {κ} : {W : Type κ} → Result (Unit {0}) → Result W → Result W
check >> rest = check >>= λ passed. rest

-- A bind that returned: its first part returned what the rest went on with.
pub >>=-returns {κ μ} :
    {V : Type κ} {W : Type μ} (first : Result V) (rest : V → Result W) {w : W}
    → (first >>= rest) ≡ ok w
    → (v : V) × (first ≡ ok v) × (rest v ≡ ok w)
>>=-returns (err raised) rest e = cc
>>=-returns (ok value) rest e = (value, refl, e)

pub Result-cases {κ} :
    {V : Type κ} (r : Result V) → ((v : V) × (r ≡ ok v)) ⊎ ((raised : Error) × (r ≡ err raised))
Result-cases (err raised) = inr (raised, refl)
Result-cases (ok value) = inl (value, refl)
