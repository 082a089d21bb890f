-- ===== src/Parser/Actions.antt =====
-- The parser of src/parser/parser.cpp: a lexer with the token that was read last. An `Action A` is a
-- method that returns an `A`, or throws.
use htap_storage_lsm_tree.Common.{
  ℕ, zero, suc, String, Bool, List, [], ◌∷◌, ◌==◌, ◌||◌, if◌then◌else◌,
}
use htap_storage_lsm_tree.Parser.Token.{TokenType, Token, type_code}
use htap_storage_lsm_tree.Parser.Outcome.{Outcome, ok, out_of_fuel, bind, fail, codes}
use htap_storage_lsm_tree.Parser.Lexer.{Lexer, next_token}

pub record Parser : Type 0 where
  pub lexer : Lexer
  pub current : Token

abbrev pub Action {ℓ} : Type ℓ → Type ℓ
Action A = Parser → Outcome (A × Parser)

abbrev pub pure {ℓ} : {A : Type ℓ} → A → Action A
pure a p = ok (a, p)

module _ {ℓ κ} {A : Type ℓ} {B : Type κ} where
  infixl 1 ◌>>=◌ ◌>>◌
  abbrev pub ◌>>=◌ : Action A → (A → Action B) → Action B
  m >>= f = λ p. bind (m p) λ (a, q). f a q

  abbrev pub ◌>>◌ : Action A → Action B → Action B
  m >> f = m >>= λ _. f

abbrev pub run {ℓ} : {A : Type ℓ} → Parser → Action A → Outcome (A × Parser)
run p m = m p

unfoldable pub is_expected_token : TokenType → Parser → Bool
is_expected_token type p = type_code p.current.type == type_code type

unfoldable pub is_column_name_token : Parser → Bool
unfolding is_expected_token
is_column_name_token p =
    is_expected_token TokenType.identifier p || is_expected_token TokenType.key p

unfoldable pub advance : Action (Unit {0})
advance p = bind (next_token p.lexer) λ (t, after). ok (tt, record { lexer = after; current = t })

-- `throw ParseError(message, current_.position)`
abbrev pub refuse {ℓ} : {A : Type ℓ} → String → Action A
refuse message p = fail (codes message) p.current.position

-- `if (!IsExpectedToken(type)) throw ParseError(message, current_.position); Advance();`
unfoldable pub expect : TokenType → String → Action (Unit {0})
expect type message p = if is_expected_token type p then advance p else refuse message p

-- `if (!IsExpectedToken(type)) throw …; text = current_.text; Advance();`
unfoldable pub expect_text : TokenType → String → Action (List ℕ)
expect_text type message p =
    if is_expected_token type p then run p (advance >> pure p.current.text) else refuse message p

-- `Advance(); return a;`
abbrev pub advance_to {ℓ} : {A : Type ℓ} → A → Action A
advance_to a = advance >> pure a

-- `while (IsExpectedToken(TokenType::Comma)) { Advance(); list.push_back(item()); }`; each round
-- takes one unit of fuel
unfoldable pub more_items {ℓ} : {A : Type ℓ} → Action A → ℕ → Action (List A)
more_items item zero p = out_of_fuel
more_items item (suc fuel) p =
    let round = run p do advance; a ← item; later ← more_items item fuel; pure (a ∷ later)
    in if is_expected_token TokenType.comma p then round else ok ([], p)

-- `list.push_back(item()); while (…) …`
unfoldable pub items {ℓ} : {A : Type ℓ} → Action A → ℕ → Action (List A)
unfolding more_items
items item fuel = do a ← item; later ← more_items item fuel; pure (a ∷ later)
