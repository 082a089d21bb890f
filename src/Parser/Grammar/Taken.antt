-- ===== src/Parser/Grammar/Taken.antt =====
-- The tokens that an action of src/parser/parser.cpp takes off the lexer.
use htap_storage_lsm_tree.Common.{
  Bool, true, false, String, List, [], ◌∷◌, ◌++◌, ◌≡◌, refl, sym, subst, if◌then◌else◌,
}
use htap_storage_lsm_tree.Parser.Token.{TokenType, Token}
use htap_storage_lsm_tree.Parser.Outcome.{Outcome, ok, failed, out_of_fuel, bind, Failure}
use htap_storage_lsm_tree.Parser.Lexer.{Lexer, next_token}
use htap_storage_lsm_tree.Parser.Actions.{
  Parser, Action, ◌>>◌, is_expected_token, advance, refuse, expect,
}
use htap_storage_lsm_tree.Parser.Grammar.{Is}

-- From `p` to `q` the tokens `ts` are taken, each the current one when its turn comes.
pub data Takes (q : Parser) : Parser → List Token → Type 0 where
  done : {p : Parser} → p ≡ q → Takes q p []
  take :
      {p : Parser} {l : Lexer} {t : Token} {ts : List Token}
      → next_token p.lexer ≡ ok (t, l)
      → Takes q (record { lexer = l; current = t }) ts
      → Takes q p (p.current ∷ ts)

pub Takes-append :
    {q r p : Parser} {ts us : List Token} → Takes q p ts → Takes r q us → Takes r p (ts ++ us)
Takes-append {r = r} {us} (done e) k = subst (λ z. Takes r z us) (sym e) k
Takes-append (take e h) k = take e (Takes-append h k)

-- `P` holds of the value, if there is one.
pub data OnOk {ℓ κ} {A : Type ℓ} (P : A → Type κ) : Outcome A → Type (ℓ ⊔ κ) where
  on_ok : {a : A} → P a → OnOk P (ok a)
  on_failed : {e : Failure} → OnOk P (failed e)
  on_fuel : OnOk P out_of_fuel

-- The result `x` with the tokens taken from `p` on: they are in `G`.
pub record Taken {ℓ} {A : Type ℓ} (G : A → List Token → Type 0) (p : Parser) (x : A × Parser)
    : Type 0 where
  pub tokens : List Token
  pub shape : G x.0 tokens
  pub takes : Takes x.1 p tokens

module _ {ℓ κ} {A : Type ℓ} {P : A → Type κ} where
  pub OnOk-bind {ℓ' κ'} :
      {B : Type ℓ'} {Q : B → Type κ'} {r : Outcome A} (f : A → Outcome B)
      → OnOk P r
      → ((a : A) → P a → OnOk Q (f a))
      → OnOk Q (bind r f)
  OnOk-bind f (on_ok {a} h) k = k a h
  OnOk-bind f on_failed k = on_failed
  OnOk-bind f on_fuel k = on_fuel

  pub OnOk-if :
      (b : Bool) {x y : Outcome A}
      → (b ≡ true → OnOk P x)
      → (b ≡ false → OnOk P y)
      → OnOk P (if b then x else y)
  OnOk-if true h k = h refl
  OnOk-if false h k = k refl

  pub OnOk-map {κ'} :
      {Q : A → Type κ'} {r : Outcome A} → OnOk P r → ((a : A) → P a → Q a) → OnOk Q r
  OnOk-map (on_ok {a} h) k = on_ok (k a h)
  OnOk-map on_failed k = on_failed
  OnOk-map on_fuel k = on_fuel

  pub ok-OnOk : {r : Outcome A} {a : A} → OnOk P r → r ≡ ok a → P a
  ok-OnOk (on_ok h) e = subst P (cc) h
  ok-OnOk on_failed e = cc
  ok-OnOk on_fuel e = cc

pub advance-Taken : (p : Parser) → OnOk (λ x. Takes x.1 p (p.current ∷ [])) (advance p)
unfolding advance
advance-Taken p = go (next_token p.lexer) refl
  where
    go :
        (r : Outcome (Token × Lexer))
        → next_token p.lexer ≡ r
        → OnOk
            (λ (x : Unit {0} × Parser). Takes x.1 p (p.current ∷ []))
            (bind r λ (t, after). ok (tt, record { lexer = after; current = t }))
    go (ok (t, l)) e = on_ok (take e (done refl))
    go (failed e) _ = on_failed
    go out_of_fuel _ = on_fuel

-- Behind the current token, `m` runs.
pub then-OnOk {ℓ κ} :
    {A : Type ℓ} {P : A × Parser → Type κ} (m : Action A) (p : Parser)
    → ((q : Parser) → Takes q p (p.current ∷ []) → OnOk P (m q))
    → OnOk P ((advance >> m) p)
then-OnOk m p k = OnOk-bind (λ x. m x.1) (advance-Taken p) λ x h. k x.1 h

-- Behind an expected token, `m` runs.
pub expect_then-OnOk {ℓ κ} :
    {A : Type ℓ} {P : A × Parser → Type κ} (type : TokenType) (message : String) (m : Action A)
    (p : Parser)
    → ((q : Parser) → Is type p.current → Takes q p (p.current ∷ []) → OnOk P (m q))
    → OnOk P ((expect type message >> m) p)
unfolding expect is_expected_token
expect_then-OnOk {P = P} type message m p k = go (is_expected_token type p) refl
  where
    go :
        (b : Bool)
        → is_expected_token type p ≡ b
        → OnOk P (bind (if b then advance p else refuse message p) λ x. m x.1)
    go true e = then-OnOk m p λ q h. k q e h
    go false e = on_failed
