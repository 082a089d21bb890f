-- ===== src/Parser/Lexer/Errors.antt =====
-- The errors of src/parser/lexer.cpp, and of the conversions of a number token's text.
use htap_storage_lsm_tree.Common.{
  ℕ, Bool, true, false, List, [], ◌∷◌, ◌++◌, not, ◌&&◌, ◌||◌, ◌==◌, if◌then◌else◌,
}
use htap_storage_lsm_tree.Parser.Token.{SourcePosition}
use htap_storage_lsm_tree.Parser.Outcome.{Outcome, ok, bind, fail}
use htap_storage_lsm_tree.Parser.Lexer.{
  Lexer, advance, read_quoted, is_at_end, current_char, skip_whitespace, is_digit,
  is_identifier_start, peek_char, read_fraction, read_whole, read_number, read_string, read_symbol,
  read_token, read_digits, next_token,
}

-- If the call throws, it is a `ParseError` at the position `start`.
pub data ThrowsAt {ℓ} {A : Type ℓ} (start : SourcePosition) : Outcome A → Type ℓ where
  returns : (a : A) → ThrowsAt start (ok a)
  throws : (message : List ℕ) → ThrowsAt start (fail message start)

ThrowsAt-if {ℓ} :
    {A : Type ℓ} {start : SourcePosition} (b : Bool) {x y : Outcome A}
    → ThrowsAt start x
    → ThrowsAt start y
    → ThrowsAt start (if b then x else y)
ThrowsAt-if true h k = h
ThrowsAt-if false h k = k

ThrowsAt-bind {ℓ κ} :
    {A : Type ℓ} {B : Type κ} {start : SourcePosition} {r : Outcome A} (f : A → Outcome B)
    → ThrowsAt start r
    → ((a : A) → ThrowsAt start (f a))
    → ThrowsAt start (bind r f)
ThrowsAt-bind f (returns a) k = k a
ThrowsAt-bind f (throws message) k = throws message

quoted-ThrowsAt :
    (start : SourcePosition) (cs : List ℕ) (p : SourcePosition)
    → ThrowsAt start (read_quoted start cs p)
unfolding read_quoted
quoted-ThrowsAt start [] p = throws _
quoted-ThrowsAt start (c ∷ []) p = ThrowsAt-if _ (returns _) (throws _)
quoted-ThrowsAt start (c ∷ d ∷ cs) p =
    ThrowsAt-if _
      (ThrowsAt-if _ (ThrowsAt-bind _ (quoted-ThrowsAt start cs _) λ (text, after). returns _)
        (returns _))
      (ThrowsAt-bind _ (quoted-ThrowsAt start (d ∷ cs) _) λ (text, after). returns _)

string-ThrowsAt : (l : Lexer) → ThrowsAt l.at (read_string l)
unfolding read_string
string-ThrowsAt l =
    ThrowsAt-if _ (throws _) (ThrowsAt-bind _ (quoted-ThrowsAt l.at _ _) λ (text, after). returns _)

fraction-ThrowsAt :
    (start : SourcePosition) (text : List ℕ) (l : Lexer)
    → ThrowsAt start (read_fraction start text l)
unfolding read_fraction
fraction-ThrowsAt start text l = ThrowsAt-if _ (ThrowsAt-if _ (throws _) (returns _)) (returns _)

whole-ThrowsAt :
    (start : SourcePosition) (text : List ℕ) (l : Lexer) → ThrowsAt start (read_whole start text l)
unfolding read_whole
whole-ThrowsAt start text l =
    ThrowsAt-if (not (is_digit (current_char l))) (throws _)
      (fraction-ThrowsAt start (text ++ (read_digits l).0) (read_digits l).1)

number-ThrowsAt : (l : Lexer) → ThrowsAt l.at (read_number l)
unfolding read_number
number-ThrowsAt l =
    ThrowsAt-if (current_char l == b'-') (whole-ThrowsAt l.at (b'-' ∷ []) (advance l))
      (whole-ThrowsAt l.at [] l)

symbol-ThrowsAt : (c : ℕ) (l : Lexer) → ThrowsAt l.at (read_symbol c l)
unfolding read_symbol
symbol-ThrowsAt c l =
    let equal = current_char (advance l) == b'=' in
    ThrowsAt-if (c == b'(') (returns _) (
      ThrowsAt-if (c == b')') (returns _) (
        ThrowsAt-if (c == b',') (returns _) (
          ThrowsAt-if (c == b';') (returns _) (
            ThrowsAt-if (c == b'*') (returns _) (
              ThrowsAt-if (c == b'=') (returns _) (
                ThrowsAt-if (c == b'!') (ThrowsAt-if equal (returns _) (throws _)) (
                  ThrowsAt-if (c == b'<') (ThrowsAt-if equal (returns _) (returns _)) (
                    ThrowsAt-if (c == b'>') (ThrowsAt-if equal (returns _) (returns _))
                      (throws _)))))))))

token-ThrowsAt : (l : Lexer) → ThrowsAt l.at (read_token l)
unfolding read_token
token-ThrowsAt l = ThrowsAt-if (is_at_end l) (returns _) (
    ThrowsAt-if (is_identifier_start (current_char l)) (returns _) (
      ThrowsAt-if (is_digit (current_char l) || current_char l == b'-' && is_digit (peek_char l))
        (number-ThrowsAt l)
        (ThrowsAt-if (current_char l == b'\'') (string-ThrowsAt l)
          (symbol-ThrowsAt (current_char l) l))))

-- `NextToken` throws nothing but a `ParseError`, and its position is that of the token it failed on,
-- behind the blanks, even where the error is found further on.
pub next_token-ThrowsAt : (l : Lexer) → ThrowsAt (skip_whitespace l).at (next_token l)
unfolding next_token
next_token-ThrowsAt l = token-ThrowsAt (skip_whitespace l)
