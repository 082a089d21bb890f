-- ===== src/Parser/Lexer/Tokens.antt =====
-- What `Lexer::NextToken` of src/parser/lexer.cpp returns, whatever the input.
use htap_storage_lsm_tree.Common.{
  ℕ, Bool, true, false, List, [], ◌∷◌, ◌++◌, not, ◌&&◌, ◌||◌, ◌==◌, ◌≡◌, ◌≢◌, refl, sym, ◌⊎◌, subst,
  arith, All, Bool-cases, inl, inr,
}
use htap_storage_lsm_tree.Parser.Token.{SourcePosition, TokenType, Token}
use htap_storage_lsm_tree.Parser.Outcome.{
  codes, Ensures, holds, rejected, Ensures-bind, Ensures-if, Ensures-map,
}
use htap_storage_lsm_tree.Parser.Lexer.{
  Lexer, moved, advance_from, advance, read_while, first_or_nul, is_at_end, current_char, peek_char,
  make_lexer, is_blank, skip_whitespace, is_digit, is_identifier_start, is_identifier_part,
  keywords, find_keyword, keyword_type, make_token, read_identifier_or_keyword, read_fraction,
  read_whole, read_number, read_string, read_symbol, read_token, next_token, single, maybe_equal,
}
use htap_storage_lsm_tree.Parser.Lexer.Reads.{
  Reads, Reads-nil, Reads-cons, Reads-trans, read_while-Reads, quoted, read_quoted-Reads,
}

-- The bytes that a token is written with: a string literal in quotes, all else as it is.
unfoldable pub spelling : TokenType → List ℕ → List ℕ
spelling TokenType.string_literal text = b'\'' ∷ quoted text
spelling _ text = text

-- From `l` on, `t` is read: its position is that of `l`, and its bytes are its spelling. Only the
-- token at the end of the input has none.
pub record IsToken (l : Lexer) (r : Token × Lexer) : Type 0 where
  pub reads : Reads l (spelling r.0.type r.0.text) r.1
  pub starts : r.0.position ≡ l.at
  pub moves :
      ((r.0.type ≡ TokenType.end_of_file) × (r.1.rest ≡ [])) ⊎ (spelling r.0.type r.0.text ≢ [])

find_keyword-All :
    (P : TokenType → Type 0) (upper : List ℕ) (ks : List (List ℕ × TokenType))
    → P TokenType.identifier
    → All (λ (k : List ℕ × TokenType). P k.1) ks
    → P (find_keyword upper ks)
unfolding find_keyword
find_keyword-All P upper [] i all = i
find_keyword-All P upper ((word, type) ∷ ks) i (h, all) =
    ground (arith, h, find_keyword-All P upper ks i all)

keyword_type-spelling : (text : List ℕ) → spelling (keyword_type text) text ≡ text
unfolding spelling
keyword_type-spelling text =
    find_keyword-All (λ k. spelling k text ≡ text) _ keywords refl (ground arith)

-- A token of another type than a string literal is spelled by its text, and moves when it has one.
text-IsToken :
    {l m : Lexer} {type : TokenType} {text : List ℕ}
    → spelling type text ≡ text
    → Reads l text m
    → text ≢ []
    → IsToken l (make_token type l.at text, m)
text-IsToken {l} {m} {type} {text} e h n = record {
  reads = subst (λ z. Reads l z m) (sym e) h;
  starts = refl;
  moves = inr (subst (λ z. z ≢ []) (sym e) n);
}

-- The byte `b` under the cursor is read by `advance`.
byte-Reads :
    (b : ℕ) (cs : List ℕ) (p : SourcePosition)
    → (0 == b) ≡ false
    → (first_or_nul cs == b) ≡ true
    → Reads (record { rest = cs; at = p }) (b ∷ []) (advance_from cs p)
unfolding advance_from
byte-Reads b [] p z h = absurd (ground arith)
byte-Reads b (c ∷ cs) p z h =
    let same : c ≡ b = ground arith in
    subst
      (λ d.
        Reads (record { rest = c ∷ cs; at = p }) (d ∷ []) (record { rest = cs; at = moved c p }))
      same (Reads-cons (Reads-nil _))

read_while-ne :
    (test : ℕ → Bool) (cs : List ℕ) (p : SourcePosition)
    → test (first_or_nul cs) ≡ true
    → test 0 ≡ false
    → (read_while test cs p).0 ≢ []
unfolding read_while
read_while-ne test [] p h z = absurd (ground arith)
read_while-ne test (c ∷ cs) p h z = simp h (cc)

pub part_of_start : (c : ℕ) → is_identifier_start c ≡ true → is_identifier_part c ≡ true
unfolding is_identifier_start is_identifier_part
part_of_start c h = ground arith

append-ne : (a b : List ℕ) → a ≢ [] → a ++ b ≢ []
append-ne [] b h e = h refl
append-ne (c ∷ a) b h e = absurd (ground arith)

append-ne_right : (a b : List ℕ) → b ≢ [] → a ++ b ≢ []
append-ne_right [] b h e = h e
append-ne_right (c ∷ a) b h e = absurd (ground arith)

digit_zero : is_digit 0 ≡ false
unfolding is_digit
digit_zero = refl

-- The number whose text so far is `text`, read from `l` to `m`.
read_fraction-IsToken :
    (l m : Lexer) (text : List ℕ)
    → Reads l text m
    → text ≢ []
    → Ensures (IsToken l) (read_fraction l.at text m)
unfolding read_fraction spelling
read_fraction-IsToken l m text h n =
    elim (Bool-cases (not (is_at_end m) && current_char m == b'.')) [
      | inl e ↦ elim (Bool-cases (is_digit (current_char (advance m)))) [
        | inl d ↦
            let dot = byte-Reads b'.' m.rest m.at refl (ground arith) in
            let (digits, _) = read_while-Reads is_digit (advance m).rest (advance m).at in
            simp (e, d)
              (holds
                (text-IsToken refl (Reads-trans h (Reads-trans dot digits)) (append-ne text _ n)))
        | inr d ↦ simp (e, d) rejected
      ]
      | inr e ↦ simp e (holds (text-IsToken refl h n))
    ]

read_whole-IsToken :
    (l m : Lexer) (sign : List ℕ) → Reads l sign m → Ensures (IsToken l) (read_whole l.at sign m)
unfolding read_whole
read_whole-IsToken l m sign h = elim (Bool-cases (is_digit (current_char m))) [
  | inl d ↦
      let (digits, _) = read_while-Reads is_digit m.rest m.at in
      simp d (
        read_fraction-IsToken l _ _ (Reads-trans h digits)
          (append-ne_right sign _ (read_while-ne is_digit m.rest m.at d digit_zero)))
  | inr d ↦ simp d rejected
]

read_number-IsToken : (l : Lexer) → Ensures (IsToken l) (read_number l)
unfolding read_number
read_number-IsToken l = elim (Bool-cases (current_char l == b'-')) [
  | inl e ↦ simp e (read_whole-IsToken l (advance l) _ (byte-Reads b'-' l.rest l.at refl e))
  | inr e ↦ simp e (read_whole-IsToken l l [] (Reads-nil l))
]

read_string-IsToken : (l : Lexer) → Ensures (IsToken l) (read_string l)
unfolding read_string spelling
read_string-IsToken l = elim (Bool-cases (current_char l == b'\'')) [
  | inl e ↦ simp e (
      Ensures-bind _ (read_quoted-Reads l.at (advance l).rest (advance l).at) λ (text, m) h.
        holds (record {
          reads = Reads-trans (byte-Reads b'\'' l.rest l.at refl e) h;
          starts = refl;
          moves = inr (cc);
        }))
  | inr e ↦ simp e rejected
]

read_identifier-IsToken :
    (l : Lexer)
    → is_identifier_start (current_char l) ≡ true
    → IsToken l (read_identifier_or_keyword l)
unfolding read_identifier_or_keyword
read_identifier-IsToken l h =
    let (reads, _) = read_while-Reads is_identifier_part l.rest l.at in
    text-IsToken (keyword_type-spelling _) reads (
      read_while-ne is_identifier_part l.rest l.at (part_of_start _ h)
        (unfold is_identifier_part in refl))

-- A token of one or two symbols.
single-IsToken :
    (type : TokenType) (b : ℕ) (l : Lexer)
    → ((text : List ℕ) → spelling type text ≡ text)
    → (0 == b) ≡ false
    → (current_char l == b) ≡ true
    → Ensures (IsToken l) (single type l)
single-IsToken type b l e z h =
    let same : current_char l ≡ b = ground arith in
    holds (
      text-IsToken (e _)
        (subst (λ c. Reads l (c ∷ []) (advance l)) (sym same) (byte-Reads b l.rest l.at z h)) (cc))

maybe_equal-IsToken :
    (long short : TokenType) (b : ℕ) (l : Lexer)
    → ((text : List ℕ) → spelling long text ≡ text)
    → ((text : List ℕ) → spelling short text ≡ text)
    → (0 == b) ≡ false
    → (current_char l == b) ≡ true
    → Ensures (IsToken l) (maybe_equal long short l)
maybe_equal-IsToken long short b l el es z h =
    elim (Bool-cases (current_char (advance l) == b'=')) [
      | inl e ↦
          let same : current_char l ≡ b = ground arith in
          simp e (
            holds (
              text-IsToken (el _)
                (Reads-trans
                  (subst (λ c. Reads l (c ∷ []) (advance l)) (sym same)
                    (byte-Reads b l.rest l.at z h))
                  (byte-Reads b'=' (advance l).rest (advance l).at refl e))
                (cc)))
      | inr e ↦ simp e (single-IsToken short b l es z h)
    ]

not_equal-IsToken :
    (l : Lexer)
    → (current_char l == b'!') ≡ true
    → (current_char (advance l) == b'=') ≡ true
    → IsToken l (make_token TokenType.not_equal l.at (codes "!="), advance (advance l))
unfolding spelling
not_equal-IsToken l h e =
    text-IsToken {type = TokenType.not_equal} refl
      (Reads-trans (byte-Reads b'!' l.rest l.at refl h)
        (byte-Reads b'=' (advance l).rest (advance l).at refl e))
      (cc)

read_symbol-IsToken : (l : Lexer) → Ensures (IsToken l) (read_symbol (current_char l) l)
unfolding read_symbol spelling
read_symbol-IsToken l = Ensures-if _ (single-IsToken TokenType.lparen b'(' l (λ _. refl) refl) λ _.
    Ensures-if _ (single-IsToken TokenType.rparen b')' l (λ _. refl) refl) λ _.
      Ensures-if _ (single-IsToken TokenType.comma b',' l (λ _. refl) refl) λ _.
        Ensures-if _ (single-IsToken TokenType.semicolon b';' l (λ _. refl) refl) λ _.
          Ensures-if _ (single-IsToken TokenType.star b'*' l (λ _. refl) refl) λ _.
            Ensures-if _ (single-IsToken TokenType.equal b'=' l (λ _. refl) refl) λ _.
              Ensures-if _ (λ h. Ensures-if _ (λ e. holds (not_equal-IsToken l h e)) λ _. rejected)
                λ _.
                  Ensures-if _
                    (maybe_equal-IsToken TokenType.less_equal TokenType.less b'<' l (λ _. refl)
                      (λ _. refl) refl)
                    λ _.
                      Ensures-if _
                        (maybe_equal-IsToken TokenType.greater_equal TokenType.greater b'>' l
                          (λ _. refl) (λ _. refl) refl)
                        λ _. rejected

empty_of : (cs : List ℕ) → is_at_end (make_lexer cs) ≡ true → cs ≡ []
empty_of cs h = ground arith

end-IsToken :
    (l : Lexer) → is_at_end l ≡ true → IsToken l (make_token TokenType.end_of_file l.at [], l)
unfolding spelling
end-IsToken l h = record {
  reads = Reads-nil l;
  starts = refl;
  moves = inl (refl, empty_of l.rest h);
}

read_token-IsToken : (l : Lexer) → Ensures (IsToken l) (read_token l)
unfolding read_token
read_token-IsToken l =
    Ensures-if _ (λ h. holds (end-IsToken l h))
      λ _.
        Ensures-if _ (λ h. holds (read_identifier-IsToken l h))
          λ _.
            Ensures-if
              (is_digit (current_char l) || current_char l == b'-' && is_digit (peek_char l))
              (λ _. read_number-IsToken l)
              λ _. Ensures-if _ (λ _. read_string-IsToken l) λ _. read_symbol-IsToken l

-- The bytes in front of a token are blanks, and then come those of the token.
pub record ReadsNext (l : Lexer) (r : Token × Lexer) : Type 0 where
  pub blanks : List ℕ
  pub all_blank : All (λ c. is_blank c ≡ true) blanks
  pub skips : Reads l blanks (skip_whitespace l)
  pub token : IsToken (skip_whitespace l) r

-- `NextToken` skips blanks and reads one token: the bytes in front of it and its spelling are the
-- bytes that the lexer moved over, its position and that of the lexer are the counts of bytes,
-- lines and columns up to them, and only the token for the end of the input is empty.
pub next_token-ReadsNext : (l : Lexer) → Ensures (ReadsNext l) (next_token l)
unfolding next_token
next_token-ReadsNext l =
    let (skips, all) = read_while-Reads is_blank l.rest l.at in
    Ensures-map (read_token-IsToken (skip_whitespace l))
      λ r h. record { blanks = _; all_blank = all; skips = skips; token = h }
