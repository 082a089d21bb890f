-- ===== src/Common/Exceptions.antt =====
-- C++ exceptions as values: an exception class with its message.
use Prim.Native.String.{String}
use mathlib.Core.Path.{◌≡◌, refl}
use mathlib.Core.Bool.{Bool, true, false}
use mathlib.Core.Option.{Option, none, some}
use native.Mathlib.Omega.{arith}

pub data Error : Type 0 where
  runtime_error logic_error out_of_range invalid_argument length_error : String → Error
  -- `std::bad_variant_access`, and the read of an empty optional or past the end of a row
  bad_access : Error
  -- no exception: the fuel of a loop was used up
  cut_off : Error

pub data Result {ℓ} (A : Type ℓ) : Type ℓ where
  ok : A → Result A
  err : Error → Result A

-- The rest of the block runs unless an exception is on its way.
abbrev pub and_then {ℓ κ} : {S : Type ℓ} {T : Type κ} → (S → Result T) → Result S → Result T
and_then rest (err e) = err e
and_then rest (ok s) = rest s

infixl 5 ◌>>=◌ ◌>>◌
abbrev pub ◌>>=◌ {ℓ κ} : {S : Type ℓ} {T : Type κ} → Result S → (S → Result T) → Result T
r >>= rest = and_then rest r

abbrev pub ◌>>◌ {ℓ} : {T : Type ℓ} → Result (Unit {0}) → Result T → Result T
check >> rest = and_then (λ _. rest) check

-- `if (bad) throw e;`
abbrev pub throw_if : Bool → Error → Result (Unit {0})
throw_if true e = err e
throw_if false e = ok tt

abbrev pub from_option {ℓ} : {A : Type ℓ} → Option A → Error → Result A
from_option none e = err e
from_option (some a) e = ok a

abbrev pub IsOk {ℓ} : {A : Type ℓ} → Result A → Type 0
IsOk (ok a) = Unit
IsOk (err e) = ⊥

-- A block that succeeds got past its first step.
pub ok_of_bind {ℓ κ} :
    {S : Type ℓ} {T : Type κ} (rest : S → Result T) (r : Result S) {t : T}
    → and_then rest r ≡ ok t
    → (s : S) × (r ≡ ok s) × (rest s ≡ ok t)
ok_of_bind rest (err e) h = absurd (ground arith)
ok_of_bind rest (ok s) h = (s, refl, h)
