-- ===== src/Parser/Lexer.antt =====
-- src/parser/lexer.cpp. A lexer is the part of `input_` from `pos_` on, with the position; the bytes
-- that a loop has read are what `input_.substr` takes after it. `std::isalpha` and the others are
-- those of the C locale.
pub mod Reads
pub mod Tokens
pub mod Literals
pub mod Errors
use htap_storage_lsm_tree.Common.{
  ℕ, ◌+◌, ◌-◌, Bool, true, false, List, [], ◌∷◌, ◌++◌, not, ◌&&◌, ◌||◌, ◌==◌, leb, if◌then◌else◌,
  map,
}
use htap_storage_lsm_tree.Parser.Token.{SourcePosition, TokenType, Token}
use htap_storage_lsm_tree.Parser.Outcome.{Outcome, ok, bind, fail, codes}

pub record Lexer : Type 0 where
  pub rest : List ℕ
  pub at : SourcePosition

abbrev pub make_lexer : List ℕ → Lexer
make_lexer input = record { rest = input; at = record { pos = 0; line = 1; position_in_line = 1 } }

abbrev pub is_at_end : Lexer → Bool
is_at_end l = elim l.rest [ [] ↦ true | _ ∷ _ ↦ false ]

abbrev pub first_or_nul : List ℕ → ℕ
first_or_nul [] = 0
first_or_nul (c ∷ cs) = c

abbrev pub second_or_nul : List ℕ → ℕ
second_or_nul [] = 0
second_or_nul (c ∷ cs) = first_or_nul cs

abbrev pub current_char : Lexer → ℕ
current_char l = first_or_nul l.rest

abbrev pub peek_char : Lexer → ℕ
peek_char l = second_or_nul l.rest

-- the counters after the byte `c`
unfoldable pub moved : ℕ → SourcePosition → SourcePosition
moved c p =
    if c == b'\n'
    then record { pos = p.pos + 1; line = p.line + 1; position_in_line = 1 }
    else record { pos = p.pos + 1; line = p.line; position_in_line = p.position_in_line + 1 }

unfoldable pub advance_from : List ℕ → SourcePosition → Lexer
advance_from [] p = record { rest = []; at = p }
advance_from (c ∷ cs) p = record { rest = cs; at = moved c p }

abbrev pub advance : Lexer → Lexer
advance l = advance_from l.rest l.at

-- `while (!IsAtEnd() && test(CurrentChar())) Advance();`, with the bytes it reads
unfoldable pub read_while : (ℕ → Bool) → List ℕ → SourcePosition → List ℕ × Lexer
read_while test [] p = ([], record { rest = []; at = p })
read_while test (c ∷ cs) p =
    let later = read_while test cs (moved c p) in
    if test c then (c ∷ later.0, later.1) else ([], record { rest = c ∷ cs; at = p })

unfoldable pub is_blank : ℕ → Bool
is_blank c = c == b' ' || c == b'\t' || c == b'\n' || c == b'\r'

abbrev pub skip_whitespace : Lexer → Lexer
skip_whitespace l = (read_while is_blank l.rest l.at).1

abbrev pub between : ℕ → ℕ → ℕ → Bool
between low high c = leb low c && leb c high

unfoldable pub is_digit : ℕ → Bool
is_digit c = between b'0' b'9' c

abbrev is_alpha : ℕ → Bool
is_alpha c = between b'a' b'z' c || between b'A' b'Z' c

unfoldable pub is_identifier_start : ℕ → Bool
is_identifier_start c = is_alpha c || c == b'_'

unfoldable pub is_identifier_part : ℕ → Bool
is_identifier_part c = is_alpha c || between b'0' b'9' c || c == b'_'

abbrev pub upper_byte : ℕ → ℕ
upper_byte c = if between b'a' b'z' c then c - 32 else c

abbrev pub to_upper : List ℕ → List ℕ
to_upper = map upper_byte

abbrev pub text_eq : List ℕ → List ℕ → Bool
text_eq [] [] = true
text_eq (x ∷ xs) (y ∷ ys) = x == y && text_eq xs ys
text_eq _ _ = false

-- the tests of `KeywordType`, in its order
abbrev pub keywords : List (List ℕ × TokenType)
keywords =
    (codes "CREATE", TokenType.create)
    ∷ (codes "TABLE", TokenType.table)
    ∷ (codes "INSERT", TokenType.insert)
    ∷ (codes "INTO", TokenType.into)
    ∷ (codes "VALUES", TokenType.values)
    ∷ (codes "SELECT", TokenType.select)
    ∷ (codes "FROM", TokenType.from)
    ∷ (codes "WHERE", TokenType.where_)
    ∷ (codes "KEY", TokenType.key)
    ∷ (codes "PRIMARY", TokenType.primary)
    ∷ (codes "NULL", TokenType.null)
    ∷ (codes "NOT", TokenType.not)
    ∷ (codes "AND", TokenType.and)
    ∷ (codes "OR", TokenType.or)
    ∷ (codes "IS", TokenType.is)
    ∷ (codes "STRING", TokenType.string_type)
    ∷ (codes "INT64", TokenType.int64_type)
    ∷ (codes "DOUBLE", TokenType.double_type)
    ∷ (codes "COUNT", TokenType.count)
    ∷ (codes "SUM", TokenType.sum)
    ∷ (codes "AVG", TokenType.avg)
    ∷ (codes "MIN", TokenType.min)
    ∷ (codes "MAX", TokenType.max)
    ∷ (codes "GROUP", TokenType.group)
    ∷ (codes "BY", TokenType.by)
    ∷ (codes "ORDER", TokenType.order)
    ∷ (codes "LIMIT", TokenType.limit)
    ∷ (codes "ASC", TokenType.asc)
    ∷ (codes "DESC", TokenType.desc)
    ∷ []

unfoldable pub find_keyword : List ℕ → List (List ℕ × TokenType) → TokenType
find_keyword upper [] = TokenType.identifier
find_keyword upper ((word, type) ∷ ks) = if text_eq upper word then type else find_keyword upper ks

abbrev pub keyword_type : List ℕ → TokenType
keyword_type text = find_keyword (to_upper text) keywords

abbrev pub make_token : TokenType → SourcePosition → List ℕ → Token
make_token type start text = record { type = type; position = start; text = text }

unfoldable pub read_identifier_or_keyword : Lexer → Token × Lexer
read_identifier_or_keyword l =
    let (text, after) = read_while is_identifier_part l.rest l.at in
    (make_token (keyword_type text) l.at text, after)

abbrev pub read_digits : Lexer → List ℕ × Lexer
read_digits l = read_while is_digit l.rest l.at

abbrev bad_number : List ℕ
bad_number = codes "ReadNumber called at invalid position"

-- from the byte behind the whole part on; `text` is what was read
unfoldable pub read_fraction : SourcePosition → List ℕ → Lexer → Outcome (Token × Lexer)
read_fraction start text l =
    if not (is_at_end l) && current_char l == b'.'
    then if not (is_digit (current_char (advance l)))
      then fail bad_number start
      else double_token (read_digits (advance l))
    else ok (make_token TokenType.int_literal start text, l)
  where
    double_token : List ℕ × Lexer → Outcome (Token × Lexer)
    double_token (digits, after) =
        ok (make_token TokenType.double_literal start (text ++ b'.' ∷ digits), after)

-- from the byte behind the sign on
unfoldable pub read_whole : SourcePosition → List ℕ → Lexer → Outcome (Token × Lexer)
unfolding read_fraction
read_whole start sign l =
    if not (is_digit (current_char l))
    then fail bad_number start
    else let (digits, after) = read_digits l in read_fraction start (sign ++ digits) after

unfoldable pub read_number : Lexer → Outcome (Token × Lexer)
unfolding read_whole
read_number l =
    if current_char l == b'-' then read_whole l.at (b'-' ∷ []) (advance l) else read_whole l.at [] l

abbrev pub push_text : ℕ → Outcome (List ℕ × Lexer) → Outcome (List ℕ × Lexer)
push_text c r = bind r λ (text, after). ok (c ∷ text, after)

abbrev unterminated : List ℕ
unterminated = codes "Unterminated string literal"

-- the loop of `ReadString` behind the opening quote: the text that it pushes
unfoldable pub read_quoted : SourcePosition → List ℕ → SourcePosition → Outcome (List ℕ × Lexer)
read_quoted start [] p = fail unterminated start
read_quoted start (c ∷ []) p =
    if c == b'\'' then ok ([], record { rest = []; at = moved c p }) else fail unterminated start
read_quoted start (c ∷ d ∷ cs) p =
    let behind = read_quoted start cs (moved d (moved c p)) in
    let later = read_quoted start (d ∷ cs) (moved c p) in
    if c == b'\''
    then if d == b'\''
      then push_text b'\'' behind
      else ok ([], record { rest = d ∷ cs; at = moved c p })
    else push_text c later

unfoldable pub read_string : Lexer → Outcome (Token × Lexer)
read_string l =
    if not (current_char l == b'\'')
    then fail (codes "ReadString called at invalid position") l.at
    else bind (read_quoted l.at (advance l).rest (advance l).at)
        λ (text, after). ok (make_token TokenType.string_literal l.at text, after)

-- a case of the `switch` with one byte
abbrev single : TokenType → Lexer → Outcome (Token × Lexer)
single type l = ok (make_token type l.at (current_char l ∷ []), advance l)

-- the cases of `<` and `>`, which may go on with `=`
abbrev maybe_equal : TokenType → TokenType → Lexer → Outcome (Token × Lexer)
maybe_equal long short l =
    if current_char (advance l) == b'='
    then ok (make_token long l.at (current_char l ∷ b'=' ∷ []), advance (advance l))
    else single short l

-- the `switch`, on the byte `c`
unfoldable pub read_symbol : ℕ → Lexer → Outcome (Token × Lexer)
read_symbol c l =
    if c == b'('
    then single TokenType.lparen l
    else if c == b')'
    then single TokenType.rparen l
    else if c == b','
    then single TokenType.comma l
    else if c == b';'
    then single TokenType.semicolon l
    else if c == b'*'
    then single TokenType.star l
    else if c == b'='
    then single TokenType.equal l
    else if c == b'!'
    then if current_char (advance l) == b'='
      then ok (make_token TokenType.not_equal l.at (codes "!="), advance (advance l))
      else fail (codes "Unexpected character '!'") l.at
    else if c == b'<'
    then maybe_equal TokenType.less_equal TokenType.less l
    else if c == b'>'
    then maybe_equal TokenType.greater_equal TokenType.greater l
    else fail (codes "Unexpected character: " ++ (c ∷ [])) l.at

-- `NextToken` behind the blanks
unfoldable pub read_token : Lexer → Outcome (Token × Lexer)
unfolding read_identifier_or_keyword read_number read_string read_symbol
read_token l =
    if is_at_end l
    then ok (make_token TokenType.end_of_file l.at [], l)
    else if is_identifier_start (current_char l)
    then ok (read_identifier_or_keyword l)
    else if is_digit (current_char l) || current_char l == b'-' && is_digit (peek_char l)
    then read_number l
    else if current_char l == b'\''
    then read_string l
    else read_symbol (current_char l) l

unfoldable pub next_token : Lexer → Outcome (Token × Lexer)
unfolding read_token
next_token l = read_token (skip_whitespace l)
