-- ===== src/Parser/Total.antt =====
-- Fuel for the loops and the recursion of src/parser/parser.cpp: what is left of the input, and the
-- actions that never leave more of it.
pub mod Expressions
pub mod Statements
use htap_storage_lsm_tree.Common.{
  ℕ, zero, suc, ◌+◌, ◌*◌, ◌≤◌, ◌<◌, Bool, true, false, List, [], ◌∷◌, ◌++◌, ◌==◌, ◌||◌,
  if◌then◌else◌, String, ◌≡◌, ◌≢◌, refl, ap, sym, ◌∙◌, ◌⊎◌, inl, inr, arith, length, length-append,
  Bool-cases,
}
use htap_storage_lsm_tree.Parser.Token.{TokenType, Token, type_code}
use htap_storage_lsm_tree.Parser.Outcome.{
  Outcome, ok, failed, bind, Ensures, holds, rejected, Ensures-bind, Ensures-if, Ensures-map,
}
use htap_storage_lsm_tree.Parser.Lexer.{Lexer, next_token, skip_whitespace}
use htap_storage_lsm_tree.Parser.Lexer.Reads.{Reads}
use htap_storage_lsm_tree.Parser.Lexer.Tokens.{spelling, IsToken, ReadsNext, next_token-ReadsNext}
use htap_storage_lsm_tree.Parser.Actions.{
  Parser, Action, pure, ◌>>=◌, ◌>>◌, run, is_expected_token, is_column_name_token, advance, refuse,
  expect, expect_text, advance_to, items, more_items,
}

abbrev pub is_end : Token → Bool
is_end t = type_code t.type == 0

-- the bytes behind the current token, and one more for a token other than the end
unfoldable pub left_over : Token → Lexer → ℕ
left_over t l = length l.rest + (if is_end t then 0 else 1)

abbrev pub remaining : Parser → ℕ
remaining p = left_over p.current p.lexer

-- The call keeps within its fuel, and leaves at most `n`.
abbrev pub Fits {ℓ} : {A : Type ℓ} → ℕ → Outcome (A × Parser) → Type ℓ
Fits n r = Ensures (λ x. remaining x.1 ≤ n) r

-- From any state with at most `n` left, the action keeps within its fuel, and leaves no more than before.
abbrev pub Within {ℓ} : {A : Type ℓ} → ℕ → Action A → Type ℓ
Within n m = (p : Parser) → remaining p ≤ n → Fits (remaining p) (m p)

length-Reads :
    {l m : Lexer} {raw : List ℕ} → Reads l raw m → length l.rest ≡ length raw + length m.rest
length-Reads {l} {m} {raw} h = ap length h.splits ∙ length-append raw m.rest

length-ne : (cs : List ℕ) → cs ≢ [] → 0 < length cs
length-ne [] h = absurd (h refl)
length-ne (c ∷ cs) h = omega arith

pub ReadsNext-left_over :
    (l : Lexer) (r : Token × Lexer) → ReadsNext l r → left_over r.0 r.1 ≤ length l.rest
unfolding left_over
ReadsNext-left_over l r h =
    let skipped = length-Reads h.skips in
    let read = length-Reads h.token.reads in
    elim h.token.moves [
      | inl (e, n) ↦ simp (e, n) (unfold type_code in omega arith)
      | inr ne ↦ ground (arith, length-ne _ ne)
    ]

advance-rest : (p : Parser) → Fits (length p.lexer.rest) (advance p)
unfolding advance
advance-rest p =
    Ensures-bind _ (next_token-ReadsNext p.lexer)
      λ (t, after) h. holds (ReadsNext-left_over p.lexer (t, after) h)

module _ {ℓ} {A : Type ℓ} where
  pub Fits-mono : {m n : ℕ} {r : Outcome (A × Parser)} → m ≤ n → Fits m r → Fits n r
  Fits-mono h f = Ensures-map f λ a k. omega arith

  pub pure-Within : (n : ℕ) (a : A) → Within n (pure a)
  pure-Within n a p h = holds (omega arith)

  pub refuse-Within : (n : ℕ) (message : String) → Within n (refuse {A = A} message)
  refuse-Within n message p h = rejected

  pub Within-mono : {m n : ℕ} {act : Action A} → m ≤ n → Within n act → Within m act
  Within-mono h w p k = w p (omega arith)

module _ {ℓ κ} {A : Type ℓ} {B : Type κ} where
  pub Within-bind :
      {n : ℕ} {m : Action A} {f : A → Action B}
      → Within n m
      → ((a : A) → Within n (f a))
      → Within n (m >>= f)
  Within-bind {f = f} w k p h =
      Ensures-bind (λ x. f x.0 x.1) (w p h) λ (a, q) le. Fits-mono le (k a q (omega arith))

pub advance-Within : (n : ℕ) → Within n advance
unfolding left_over
advance-Within n p h = Fits-mono (omega arith) (advance-rest p)

not_end :
    (type : TokenType) (p : Parser)
    → (type_code type == 0) ≡ false
    → is_expected_token type p ≡ true
    → is_end p.current ≡ false
unfolding is_expected_token
not_end type p z h = ground arith

remaining-suc :
    (type : TokenType) (p : Parser)
    → (type_code type == 0) ≡ false
    → is_expected_token type p ≡ true
    → remaining p ≡ suc (length p.lexer.rest)
unfolding left_over
remaining-suc type p z e = simp (not_end type p z e) (omega arith)

-- Behind an expected token less is left.
pub advance_guarded {ℓ} :
    {B : Type ℓ} {n : ℕ} (type : TokenType) {m : Action B} (p : Parser)
    → (type_code type == 0) ≡ false
    → is_expected_token type p ≡ true
    → remaining p ≤ n
    → ((k : ℕ) → n ≡ suc k → Within k m)
    → Fits (remaining p) ((advance >> m) p)
advance_guarded {n = zero} type p z e h k = absurd (omega (arith, remaining-suc type p z e))
advance_guarded {n = suc n} type {m} p z e h k =
    Ensures-bind (λ x. m x.1) (advance-rest p)
      λ (_, q) le.
        Fits-mono (omega (arith, remaining-suc type p z e))
          (k n refl q (omega (arith, remaining-suc type p z e)))

pub expect-Within : (n : ℕ) (type : TokenType) (message : String) → Within n (expect type message)
unfolding expect
expect-Within n type message p h =
    Ensures-if _ (λ _. advance-Within n p h) λ _. refuse-Within n message p h

pub advance_to-Within {ℓ} : {A : Type ℓ} (n : ℕ) (a : A) → Within n (advance_to a)
advance_to-Within n a = Within-bind (advance-Within n) λ _. pure-Within n a

pub expect_text-Within :
    (n : ℕ) (type : TokenType) (message : String) → Within n (expect_text type message)
unfolding expect_text
expect_text-Within n type message p h =
    Ensures-if _ (λ _. advance_to-Within n p.current.text p h) λ _. refuse-Within n message p h

module _ {ℓ} {A : Type ℓ} (item : Action A) where
  pub more_items-Within : (fuel n : ℕ) → n < fuel → Within n item → Within n (more_items item fuel)
  unfolding more_items type_code
  more_items-Within zero n f w p h = absurd (omega arith)
  more_items-Within (suc fuel) n f w p h =
      Ensures-if _
        (λ e. advance_guarded TokenType.comma p refl e h λ k s.
          Within-bind (Within-mono (omega arith) w) λ a.
            Within-bind (more_items-Within fuel k (omega arith) (Within-mono (omega arith) w))
              λ later. pure-Within k (a ∷ later))
        λ _. holds (omega arith)

  pub items-Within : (fuel n : ℕ) → n < fuel → Within n item → Within n (items item fuel)
  unfolding items
  items-Within fuel n f w =
      Within-bind w
        λ a. Within-bind (more_items-Within fuel n f w) λ later. pure-Within n (a ∷ later)
