-- ===== src/Parser/Grammar/Sound.antt =====
-- The expressions that src/parser/parser.cpp returns are those of the grammar.
use htap_storage_lsm_tree.Common.{
  ℕ, zero, suc, Bool, true, false, List, [], ◌∷◌, ◌++◌, ◌≡◌, refl, sym, ap, subst, append_assoc,
  append-nil, if◌then◌else◌, ◌⊎◌, Option, none, some, arith,
}
use htap_storage_lsm_tree.Parser.Token.{TokenType, Token}
use htap_storage_lsm_tree.Parser.Outcome.{Outcome, ok, failed, out_of_fuel, bind}
use htap_storage_lsm_tree.Parser.Ast.{Expression, BinaryOperation}
use htap_storage_lsm_tree.Parser.Numbers.{stoll, stod}
use htap_storage_lsm_tree.Parser.Actions.{
  Parser, Action, pure, ◌>>=◌, is_expected_token, is_column_name_token, advance_to,
}
use htap_storage_lsm_tree.Parser.Expressions.{
  convert, is_literal_token, parse_literal_expression, parse_plain_atom, comparison, parse_is_null,
  compared, predicate_rest, joined, parse_or_expression, or_loop, parse_and_expression, and_loop,
  parse_not_expression, parse_predicate_expression, parse_atomic_expression,
}
use htap_storage_lsm_tree.Parser.Grammar.{
  Is, operator_type, IsLiteral, Level, or_level, and_level, not_level, predicate_level, atom_level,
  Derives, or_and, or_or, and_not, and_and, not_predicate, not_not, predicate_atom,
  predicate_comparison, predicate_null, predicate_not_null, atom_group, atom_column, atom_literal,
}
use htap_storage_lsm_tree.Parser.Grammar.Taken.{
  done, Takes-append, OnOk, on_ok, on_failed, on_fuel, Taken, OnOk-bind, OnOk-if, OnOk-map,
  then-OnOk, expect_then-OnOk,
}

-- `advance` behind a current token, and a value that has the shape `G` with that token alone
advance_to-Taken :
    {A : Type 0} {G : A → List Token → Type 0} (p : Parser) (a : A)
    → G a (p.current ∷ [])
    → OnOk (Taken G p) (advance_to a p)
advance_to-Taken p a g =
    then-OnOk (pure a) p λ q h. on_ok (record { tokens = _; shape = g; takes = h })

-- a literal whose value is converted from the text
convert-Taken :
    {A : Type 0} (f : List ℕ → Outcome A) (make : A → Expression) (p : Parser)
    → ((a : A) → f p.current.text ≡ ok a → IsLiteral (make a) p.current)
    → OnOk (Taken (Derives atom_level) p) ((convert f >>= λ a. advance_to (make a)) p)
convert-Taken {A} f make p k = go (f p.current.text) refl
  where
    go :
        (r : Outcome A)
        → f p.current.text ≡ r
        → OnOk
            (Taken (Derives atom_level) p)
            (bind (bind r λ a. ok (a, p)) λ (a, q). advance_to (make a) q)
    go (ok a) e = advance_to-Taken p (make a) (atom_literal _ (k a e))
    go (failed e) _ = on_failed
    go out_of_fuel _ = on_fuel

literal-Taken : (p : Parser) → OnOk (Taken (Derives atom_level) p) (parse_literal_expression p)
unfolding parse_literal_expression is_expected_token
literal-Taken p =
    OnOk-if (is_expected_token TokenType.string_literal p)
      (λ e. advance_to-Taken p _ (atom_literal _ (IsLiteral.string _ e)))
      λ _.
        OnOk-if (is_expected_token TokenType.int_literal p)
          (λ e. convert-Taken stoll Expression.int_literal p λ v h. IsLiteral.int _ e h)
          λ _.
            OnOk-if (is_expected_token TokenType.double_literal p)
              (λ e. convert-Taken stod Expression.double_literal p λ v h. IsLiteral.double _ e h)
              λ _.
                OnOk-if (is_expected_token TokenType.null p)
                  (λ e. advance_to-Taken p _ (atom_literal _ (IsLiteral.null _ e))) λ _. on_failed

column-cases :
    (p : Parser)
    → is_column_name_token p ≡ true
    → Is TokenType.identifier p.current ⊎ Is TokenType.key p.current
unfolding is_column_name_token is_expected_token
column-cases p h = ground arith

plain_atom-Taken : (p : Parser) → OnOk (Taken (Derives atom_level) p) (parse_plain_atom p)
unfolding parse_plain_atom
plain_atom-Taken p =
    OnOk-if (is_column_name_token p) (λ e. advance_to-Taken p _ (atom_column _ (column-cases p e)))
      λ _. OnOk-if (is_literal_token p) (λ _. literal-Taken p) λ _. on_failed

-- What comes behind the tokens `ts` of a first operand, as an expression of the level.
abbrev pub Extends : Level → List Token → Parser → Expression × Parser → Type 0
Extends level ts p x = Taken (λ e us. Derives level e (ts ++ us)) p x

some_eq : {A : Type 0} {x y : A} → some x ≡ some y → x ≡ y
some_eq {x = x} e = ap (λ o. elim o [ none ↦ x | some z ↦ z ]) e

-- one test of a chain that picks a value
pick {ℓ} :
    {A : Type 0} {P : A → Type ℓ} (b : Bool) (x : A) {y : Option A}
    → (b ≡ true → P x)
    → ((a : A) → y ≡ some a → P a)
    → (a : A) → (if b then some x else y) ≡ some a
    → P a
pick {P = P} true x h k a e = subst P (some_eq e) (h refl)
pick false x h k a e = k a e

abbrev IsOperator : Parser → BinaryOperation → Type 0
IsOperator p operation =
    (type : TokenType) × (operator_type operation ≡ some type) × Is type p.current

comparison-IsOperator :
    (p : Parser) (operation : BinaryOperation)
    → comparison p ≡ some operation
    → IsOperator p operation
unfolding comparison is_expected_token
comparison-IsOperator p =
    pick {P = IsOperator p} (is_expected_token TokenType.equal p) _ (λ e. (_, refl, e))
      (pick {P = IsOperator p} (is_expected_token TokenType.not_equal p) _ (λ e. (_, refl, e))
        (pick {P = IsOperator p} (is_expected_token TokenType.less p) _ (λ e. (_, refl, e))
          (pick {P = IsOperator p} (is_expected_token TokenType.less_equal p) _ (λ e. (_, refl, e))
            (pick {P = IsOperator p} (is_expected_token TokenType.greater p) _ (λ e. (_, refl, e))
              (pick {P = IsOperator p} (is_expected_token TokenType.greater_equal p) _
                (λ e. (_, refl, e)) (λ a e. absurd (ground arith)))))))

is_null-Extends :
    (left : Expression) (ts : List Token) (p : Parser)
    → Derives atom_level left ts
    → is_expected_token TokenType.is p ≡ true
    → OnOk (Extends predicate_level ts p) (parse_is_null left p)
unfolding parse_is_null is_expected_token
is_null-Extends left ts p d e = then-OnOk _ p λ q h.
    OnOk-if (is_expected_token TokenType.not q)
      (λ n. then-OnOk _ q λ r hr.
        expect_then-OnOk TokenType.null "Expected NULL after IS or IS NOT" _ r λ s u hs.
          on_ok (record {
            tokens = _;
            shape = predicate_not_null _ _ _ d e n u;
            takes = Takes-append h (Takes-append hr hs);
          }))
      λ _. expect_then-OnOk TokenType.null "Expected NULL after IS or IS NOT" _ q λ s u hs.
        on_ok (record { tokens = _; shape = predicate_null _ _ d e u; takes = Takes-append h hs })

compared-Extends :
    (operation : BinaryOperation) (atom : Action Expression) (left : Expression) (ts : List Token)
    (p : Parser)
    → ((q : Parser) → OnOk (Taken (Derives atom_level) q) (atom q))
    → Derives atom_level left ts
    → comparison p ≡ some operation
    → OnOk (Extends predicate_level ts p) (compared operation atom left p)
unfolding compared
compared-Extends operation atom left ts p a d e =
    let (type, same, is) = comparison-IsOperator p operation e in
    then-OnOk _ p λ q h. OnOk-bind _ (a q) λ (right, r) t. on_ok (record {
      tokens = _;
      shape = predicate_comparison type _ d same is t.shape;
      takes = Takes-append h t.takes;
    })

predicate_rest-Extends :
    (atom : Action Expression) (left : Expression) (ts : List Token) (p : Parser)
    → ((q : Parser) → OnOk (Taken (Derives atom_level) q) (atom q))
    → Derives atom_level left ts
    → OnOk (Extends predicate_level ts p) (predicate_rest atom left p)
unfolding predicate_rest
predicate_rest-Extends atom left ts p a d =
    OnOk-if (is_expected_token TokenType.is p) (λ e. is_null-Extends left ts p d e)
      λ _. go (comparison p) refl
  where
    go :
        (c : Option BinaryOperation)
        → comparison p ≡ c
        → OnOk
            (Extends predicate_level ts p)
            (elim c [ none ↦ ok (left, p) | some operation ↦ compared operation atom left p ])
    go none _ = on_ok (record {
      tokens = [];
      shape = subst (Derives predicate_level left) (sym (append-nil ts)) (predicate_atom d);
      takes = done refl;
    })
    go (some operation) e = compared-Extends operation atom left ts p a d e

record Sound (fuel : ℕ) : Type 0 where
  or_sound : (p : Parser) → OnOk (Taken (Derives or_level) p) (parse_or_expression fuel p)
  or_loop_sound :
      (left : Expression) (ts : List Token) (p : Parser)
      → Derives or_level left ts
      → OnOk (Extends or_level ts p) (or_loop fuel left p)
  and_sound : (p : Parser) → OnOk (Taken (Derives and_level) p) (parse_and_expression fuel p)
  and_loop_sound :
      (left : Expression) (ts : List Token) (p : Parser)
      → Derives and_level left ts
      → OnOk (Extends and_level ts p) (and_loop fuel left p)
  not_sound : (p : Parser) → OnOk (Taken (Derives not_level) p) (parse_not_expression fuel p)
  predicate_sound :
      (p : Parser) → OnOk (Taken (Derives predicate_level) p) (parse_predicate_expression fuel p)
  atomic_sound : (p : Parser) → OnOk (Taken (Derives atom_level) p) (parse_atomic_expression fuel p)

-- nothing more is taken
nothing :
    {level : Level} {e : Expression} {ts : List Token} (p : Parser)
    → Derives level e ts
    → OnOk (Extends level ts p) (ok (e, p))
nothing {level} {e} {ts} p d = on_ok (record {
  tokens = [];
  shape = subst (Derives level e) (sym (append-nil ts)) d;
  takes = done refl;
})

-- a first operand, and what extends it
extended :
    {inner level : Level} (m : Action Expression) (f : Expression → Action Expression) (p : Parser)
    → OnOk (Taken (Derives inner) p) (m p)
    → ((e : Expression) (ts : List Token) (q : Parser)
        → Derives inner e ts
        → OnOk (Extends level ts q) (f e q))
    → OnOk (Taken (Derives level) p) ((m >>= f) p)
extended m f p h k = OnOk-bind _ h λ (e, q) t.
    OnOk-map (k e t.tokens q t.shape)
      λ x u. record { tokens = _; shape = u.shape; takes = Takes-append t.takes u.takes }

-- a round of the loop of an operator
round :
    {level inner : Level} (operation : BinaryOperation) (operand : Action Expression)
    (loop : Expression → Action Expression) (left : Expression) (ts : List Token) (p : Parser)
    → ((q : Parser) → OnOk (Taken (Derives inner) q) (operand q))
    → ((e : Expression) (us : List Token) (q : Parser)
        → Derives level e us
        → OnOk (Extends level us q) (loop e q))
    → ((right : Expression) (us : List Token)
        → Derives inner right us
        → Derives level (Expression.binary operation left right) (ts ++ p.current ∷ us))
    → OnOk (Extends level ts p) (joined operation operand loop left p)
unfolding joined
round {level} operation operand loop left ts p o l make = then-OnOk _ p λ q h.
    OnOk-bind _ (o q) λ (right, r) t. OnOk-map (l _ _ r (make right t.tokens t.shape)) λ x u.
      record {
        tokens = _;
        shape = subst (Derives level x.0) (append_assoc ts (p.current ∷ t.tokens) u.tokens) u.shape;
        takes = Takes-append h (Takes-append t.takes u.takes);
      }

suc-Sound : (fuel : ℕ) → Sound fuel → Sound (suc fuel)
unfolding parse_or_expression parse_and_expression parse_not_expression parse_predicate_expression
    parse_atomic_expression or_loop and_loop is_expected_token
suc-Sound fuel h = record {
  or_sound = λ p.
      extended (parse_and_expression fuel) _ p (h.and_sound p)
        λ e ts q d. h.or_loop_sound e ts q (or_and d);
  or_loop_sound = λ left ts p d.
      OnOk-if (is_expected_token TokenType.or p)
        (λ e.
          round BinaryOperation.or _ _ left ts p h.and_sound h.or_loop_sound
            λ right us r. or_or _ d e r)
        λ _. nothing p d;
  and_sound = λ p.
      extended (parse_not_expression fuel) _ p (h.not_sound p)
        λ e ts q d. h.and_loop_sound e ts q (and_not d);
  and_loop_sound = λ left ts p d.
      OnOk-if (is_expected_token TokenType.and p)
        (λ e.
          round BinaryOperation.and _ _ left ts p h.not_sound h.and_loop_sound
            λ right us r. and_and _ d e r)
        λ _. nothing p d;
  not_sound = λ p.
      OnOk-if (is_expected_token TokenType.not p)
        (λ e. then-OnOk _ p λ q t. OnOk-bind _ (h.not_sound q) λ (operand, r) u.
          on_ok
            (record { tokens = _; shape = not_not _ e u.shape; takes = Takes-append t u.takes }))
        λ _.
          OnOk-map (h.predicate_sound p)
            λ x u. record { tokens = _; shape = not_predicate u.shape; takes = u.takes };
  predicate_sound = λ p.
      extended (parse_atomic_expression fuel) _ p (h.atomic_sound p)
        λ e ts q d. predicate_rest-Extends _ e ts q h.atomic_sound d;
  atomic_sound = λ p.
      OnOk-if (is_expected_token TokenType.lparen p)
        (λ e. then-OnOk _ p λ q t. OnOk-bind _ (h.or_sound q) λ (inner, r) u.
          expect_then-OnOk TokenType.rparen "Expected ')' after expression" _ r λ s i v.
            on_ok (record {
              tokens = _;
              shape = atom_group _ _ e u.shape i;
              takes = Takes-append t (Takes-append u.takes v);
            }))
        λ _. plain_atom-Taken p;
}

zero-Sound : Sound zero
unfolding parse_or_expression parse_and_expression parse_not_expression parse_predicate_expression
    parse_atomic_expression or_loop and_loop
zero-Sound = record {
  or_sound = λ p. on_fuel;
  or_loop_sound = λ left ts p d. on_fuel;
  and_sound = λ p. on_fuel;
  and_loop_sound = λ left ts p d. on_fuel;
  not_sound = λ p. on_fuel;
  predicate_sound = λ p. on_fuel;
  atomic_sound = λ p. on_fuel;
}

Sound-all : (fuel : ℕ) → Sound fuel
Sound-all zero = zero-Sound
Sound-all (suc fuel) = suc-Sound fuel (Sound-all fuel)

-- An expression that the parser returns is derived by the grammar from the tokens that it took, with
-- the precedence of the documented levels, and with OR and AND to the left.
pub parse_or_expression-Derives :
    (fuel : ℕ) (p : Parser) → OnOk (Taken (Derives or_level) p) (parse_or_expression fuel p)
parse_or_expression-Derives fuel p = (Sound-all fuel).or_sound p
