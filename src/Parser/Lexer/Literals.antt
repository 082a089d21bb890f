-- ===== src/Parser/Lexer/Literals.antt =====
-- Texts that src/parser/lexer.cpp reads back as they were written: string literals and words.
use htap_storage_lsm_tree.Common.{
  ℕ, ◌+◌, ◌≤◌, ◌<◌, Bool, ◌&&◌, ◌||◌, ltb, ==_iff, Bool-cases, inl, inr, ◌⊎◌, [], subst, sym, true,
  false, List, ◌∷◌, ◌++◌, ◌==◌, ◌≡◌, refl, ap, ◌∙◌, arith, All,
}
use htap_storage_lsm_tree.Parser.Token.{SourcePosition, TokenType}
use htap_storage_lsm_tree.Parser.Outcome.{ok, codes}
use htap_storage_lsm_tree.Parser.Lexer.{
  Lexer, moved, advance_from, first_or_nul, is_blank, is_identifier_start, is_digit,
  is_identifier_part, keyword_type, keywords, find_keyword, to_upper, upper_byte, text_eq,
  make_token, read_identifier_or_keyword, read_string, read_token, next_token,
}
use htap_storage_lsm_tree.Parser.Lexer.Tokens.{part_of_start}
use htap_storage_lsm_tree.Parser.Lexer.Reads.{
  after, after-append, read_while_stops, quoted, read_quoted-quoted,
}

abbrev pub lexer_at : List ℕ → SourcePosition → Lexer
lexer_at cs p = record { rest = cs; at = p }

skip-blanks :
    (blanks : List ℕ) (c : ℕ) (cs : List ℕ) (p : SourcePosition)
    → All (λ b. is_blank b ≡ true) blanks
    → is_blank c ≡ false
    → next_token (lexer_at (blanks ++ c ∷ cs) p) ≡ read_token (lexer_at (c ∷ cs) (after blanks p))
unfolding next_token
skip-blanks blanks c cs p all stop =
    ap (λ (r : List ℕ × Lexer). read_token r.1)
      (read_while_stops is_blank blanks (c ∷ cs) p all stop)

-- A text between quotes, with its quotes doubled, is read back as a string literal with that text,
-- whatever bytes the text has, when no quote follows.
pub next_token-quoted :
    (blanks text rest : List ℕ) (p : SourcePosition)
    → All (λ b. is_blank b ≡ true) blanks
    → (first_or_nul rest == b'\'') ≡ false
    → next_token (lexer_at (blanks ++ b'\'' ∷ (quoted text ++ rest)) p)
      ≡ ok (
        make_token TokenType.string_literal (after blanks p) text,
        lexer_at rest (after (blanks ++ b'\'' ∷ quoted text) p),
      )
unfolding read_token read_string advance_from is_blank is_identifier_start is_digit after
next_token-quoted blanks text rest p all h =
    skip-blanks blanks b'\'' (quoted text ++ rest) p all refl
    ∙ simp
        (
          read_quoted-quoted (after blanks p) text rest (moved b'\'' (after blanks p)) h,
          after-append blanks (b'\'' ∷ quoted text) p,
        )
        refl

not_blank : (c : ℕ) → is_identifier_start c ≡ true → is_blank c ≡ false
unfolding is_identifier_start is_blank
not_blank c h = ground arith

and_true : (a b : Bool) → a && b ≡ true → (a ≡ true) × (b ≡ true)
and_true true b h = (refl, h)
and_true false b h = absurd (ground arith)

true-false : true ≡ false → ⊥
true-false h = ground arith

-- the keywords of the language in small letters, with their tokens
abbrev pub words : List (List ℕ × TokenType)
words =
    (codes "create", TokenType.create)
    ∷ (codes "table", TokenType.table)
    ∷ (codes "insert", TokenType.insert)
    ∷ (codes "into", TokenType.into)
    ∷ (codes "values", TokenType.values)
    ∷ (codes "select", TokenType.select)
    ∷ (codes "from", TokenType.from)
    ∷ (codes "where", TokenType.where_)
    ∷ (codes "key", TokenType.key)
    ∷ (codes "primary", TokenType.primary)
    ∷ (codes "null", TokenType.null)
    ∷ (codes "not", TokenType.not)
    ∷ (codes "and", TokenType.and)
    ∷ (codes "or", TokenType.or)
    ∷ (codes "is", TokenType.is)
    ∷ (codes "string", TokenType.string_type)
    ∷ (codes "int64", TokenType.int64_type)
    ∷ (codes "double", TokenType.double_type)
    ∷ (codes "count", TokenType.count)
    ∷ (codes "sum", TokenType.sum)
    ∷ (codes "avg", TokenType.avg)
    ∷ (codes "min", TokenType.min)
    ∷ (codes "max", TokenType.max)
    ∷ (codes "group", TokenType.group)
    ∷ (codes "by", TokenType.by)
    ∷ (codes "order", TokenType.order)
    ∷ (codes "limit", TokenType.limit)
    ∷ (codes "asc", TokenType.asc)
    ∷ (codes "desc", TokenType.desc)
    ∷ []

-- The byte is the character `c` of a keyword, or the capital of a small letter `c`.
abbrev pub SameLetter : ℕ → ℕ → Type 0
SameLetter b c = (b ≡ c) ⊎ ((97 ≤ c) × (c ≤ 122) × (b + 32 ≡ c))

-- The text is the keyword in any mix of cases.
abbrev pub IsCaseOf : List ℕ → List ℕ → Type 0
IsCaseOf [] [] = Unit
IsCaseOf (b ∷ text) (c ∷ word) = SameLetter b c × IsCaseOf text word
IsCaseOf _ _ = ⊥

-- The token of a word is the one of the keyword that it is a case of, or an identifier if there is none.
pub data HasType (text : List ℕ) : List (List ℕ × TokenType) → TokenType → Type 0 where
  identifier : HasType text [] TokenType.identifier
  keyword :
      (word : List ℕ) (type : TokenType) {ks : List (List ℕ × TokenType)}
      → IsCaseOf text word
      → HasType text ((word, type) ∷ ks) type
  other :
      (word : List ℕ) (type : TokenType) {ks : List (List ℕ × TokenType)} {t : TokenType}
      → ¬ IsCaseOf text word
      → HasType text ks t
      → HasType text ((word, type) ∷ ks) t

-- no capital letter
abbrev IsSmall : ℕ → Type 0
IsSmall c = (c < 65) ⊎ (90 < c)

same_letter : (b c : ℕ) → IsSmall c → upper_byte b ≡ upper_byte c → SameLetter b c
same_letter b c s h = ground arith

upper-same : (b c : ℕ) → SameLetter b c → upper_byte b ≡ upper_byte c
upper-same b c h = ground arith

text_eq-IsCaseOf :
    (text word : List ℕ)
    → All IsSmall word
    → text_eq (to_upper text) (to_upper word) ≡ true
    → IsCaseOf text word
text_eq-IsCaseOf [] [] s h = tt
text_eq-IsCaseOf [] (c ∷ word) s h = absurd (ground arith)
text_eq-IsCaseOf (b ∷ text) [] s h = absurd (ground arith)
text_eq-IsCaseOf (b ∷ text) (c ∷ word) (s, ss) h =
    let (e, rest) =
      and_true (upper_byte b == upper_byte c) (text_eq (to_upper text) (to_upper word)) h in
    (
      same_letter b c s ((==_iff (upper_byte b) (upper_byte c)).0 e),
      text_eq-IsCaseOf text word ss rest,
    )

IsCaseOf-text_eq :
    (text word : List ℕ) → IsCaseOf text word → text_eq (to_upper text) (to_upper word) ≡ true
IsCaseOf-text_eq [] [] h = refl
IsCaseOf-text_eq [] (c ∷ word) h = absurd h
IsCaseOf-text_eq (b ∷ text) [] h = absurd h
IsCaseOf-text_eq (b ∷ text) (c ∷ word) (e, rest) =
    simp
      ((==_iff (upper_byte b) (upper_byte c)).1 (upper-same b c e), IsCaseOf-text_eq text word rest)
      refl

abbrev in_capitals : List (List ℕ × TokenType) → List (List ℕ × TokenType)
in_capitals [] = []
in_capitals ((word, type) ∷ ks) = (to_upper word, type) ∷ in_capitals ks

find_keyword-HasType :
    (text : List ℕ) (ks : List (List ℕ × TokenType))
    → All (λ (k : List ℕ × TokenType). All IsSmall k.0) ks
    → HasType text ks (find_keyword (to_upper text) (in_capitals ks))
unfolding find_keyword
find_keyword-HasType text [] s = HasType.identifier
find_keyword-HasType text ((word, type) ∷ ks) (s, ss) =
    elim (Bool-cases (text_eq (to_upper text) (to_upper word))) [
      | inl e ↦ simp e (HasType.keyword word type (text_eq-IsCaseOf text word s e))
      | inr e ↦ simp e (
          HasType.other word type (λ c. true-false (sym (IsCaseOf-text_eq text word c) ∙ e))
            (find_keyword-HasType text ks ss))
    ]

words-in_capitals : in_capitals words ≡ keywords
words-in_capitals = refl

abbrev is_small : ℕ → Bool
is_small c = ltb c 65 || ltb 90 c

abbrev all_small : List ℕ → Bool
all_small [] = true
all_small (c ∷ word) = is_small c && all_small word

abbrev all_words_small : List (List ℕ × TokenType) → Bool
all_words_small [] = true
all_words_small ((word, type) ∷ ks) = all_small word && all_words_small ks

is_small-IsSmall : (c : ℕ) → is_small c ≡ true → IsSmall c
is_small-IsSmall c h = ground arith

all_small-IsSmall : (word : List ℕ) → all_small word ≡ true → All IsSmall word
all_small-IsSmall [] h = tt
all_small-IsSmall (c ∷ word) h =
    let (first, rest) = and_true (is_small c) (all_small word) h in
    (is_small-IsSmall c first, all_small-IsSmall word rest)

all_words_small-IsSmall :
    (ks : List (List ℕ × TokenType))
    → all_words_small ks ≡ true
    → All (λ (k : List ℕ × TokenType). All IsSmall k.0) ks
all_words_small-IsSmall [] h = tt
all_words_small-IsSmall ((word, type) ∷ ks) h =
    let (first, rest) = and_true (all_small word) (all_words_small ks) h in
    (all_small-IsSmall word first, all_words_small-IsSmall ks rest)

keyword_type-HasType : (text : List ℕ) → HasType text words (keyword_type text)
keyword_type-HasType text =
    subst (λ ks. HasType text words (find_keyword (to_upper text) ks)) words-in_capitals
      (find_keyword-HasType text words (all_words_small-IsSmall words refl))

-- A word of letters, digits and underscores that starts with no digit is read back as one token with that text. Its
-- type is the one of the keyword that the word is, in any mix of cases, or an identifier where it is none.
pub next_token-word :
    (blanks : List ℕ) (c : ℕ) (word rest : List ℕ) (p : SourcePosition)
    → All (λ b. is_blank b ≡ true) blanks
    → is_identifier_start c ≡ true
    → All (λ b. is_identifier_part b ≡ true) word
    → is_identifier_part (first_or_nul rest) ≡ false
    → (type : TokenType) × HasType (c ∷ word) words type
      × (next_token (lexer_at (blanks ++ c ∷ (word ++ rest)) p)
          ≡ ok (
            make_token type (after blanks p) (c ∷ word),
            lexer_at rest (after (blanks ++ c ∷ word) p),
          ))
unfolding read_token read_identifier_or_keyword
next_token-word blanks c word rest p all start parts stop =
    let read =
      read_while_stops is_identifier_part (c ∷ word) rest (after blanks p)
        (part_of_start c start, parts) stop in
    (
      keyword_type (c ∷ word),
      keyword_type-HasType (c ∷ word),
      skip-blanks blanks c (word ++ rest) p all (not_blank c start)
          ∙ simp (start, read, after-append blanks (c ∷ word) p) refl,
    )
