-- ===== src/Parser/Outcome.antt =====
-- What a call of the front end comes to: include/parser/error.hpp, the out_of_range of the
-- standard number conversions, and the end of the fuel, which has no counterpart in the code.
use htap_storage_lsm_tree.Common.{
  ℕ, String, List, [], ◌∷◌, ◌≡◌, refl, Bool, true, false, if◌then◌else◌,
}
use htap_storage_lsm_tree.Parser.Token.{SourcePosition}
use Prim.Native.Char.{code}

-- The bytes of an ASCII text.
abbrev pub codes : String → List ℕ
codes String.[] = []
codes (String.◌∷◌ c s) = code c ∷ codes s

-- `parse_error message position`, and what stoll, stoull and stod throw
pub data Failure : Type 0 where
  parse_error : List ℕ → SourcePosition → Failure
  out_of_range invalid_argument : Failure

pub data Outcome {ℓ} (A : Type ℓ) : Type ℓ where
  ok : A → Outcome A
  failed : Failure → Outcome A
  out_of_fuel : Outcome A

abbrev pub bind {ℓ κ} : {A : Type ℓ} {B : Type κ} → Outcome A → (A → Outcome B) → Outcome B
bind (ok a) f = f a
bind (failed e) f = failed e
bind out_of_fuel f = out_of_fuel

-- `throw ParseError(message, position)`
abbrev pub fail {ℓ} : {A : Type ℓ} → List ℕ → SourcePosition → Outcome A
fail message position = failed (parse_error message position)

-- The call kept within its fuel, and `P` holds of its value if it has one.
pub data Ensures {ℓ κ} {A : Type ℓ} (P : A → Type κ) : Outcome A → Type (ℓ ⊔ κ) where
  holds : {a : A} → P a → Ensures P (ok a)
  rejected : {e : Failure} → Ensures P (failed e)

module _ {ℓ κ} {A : Type ℓ} {P : A → Type κ} where
  pub Ensures-bind {ℓ' κ'} :
      {B : Type ℓ'} {Q : B → Type κ'} {r : Outcome A} (f : A → Outcome B)
      → Ensures P r
      → ((a : A) → P a → Ensures Q (f a))
      → Ensures Q (bind r f)
  Ensures-bind f (holds {a} h) k = k a h
  Ensures-bind f rejected k = rejected

  pub Ensures-if :
      (b : Bool) {x y : Outcome A}
      → (b ≡ true → Ensures P x)
      → (b ≡ false → Ensures P y)
      → Ensures P (if b then x else y)
  Ensures-if true h k = h refl
  Ensures-if false h k = k refl

  pub Ensures-map {κ'} :
      {Q : A → Type κ'} {r : Outcome A} → Ensures P r → ((a : A) → P a → Q a) → Ensures Q r
  Ensures-map (holds {a} h) k = holds (k a h)
  Ensures-map rejected k = rejected
