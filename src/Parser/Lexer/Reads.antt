-- ===== src/Parser/Lexer/Reads.antt =====
-- What the loops of src/parser/lexer.cpp read, as a splitting of the input.
use htap_storage_lsm_tree.Common.{
  ℕ, Bool, true, false, List, [], ◌∷◌, ◌++◌, ◌==◌, if◌then◌else◌, ◌≡◌, refl, ap, ◌∙◌, sym,
  append_assoc, arith, subst, All, Bool-cases, inl, inr,
}
use htap_storage_lsm_tree.Parser.Token.{SourcePosition}
use htap_storage_lsm_tree.Parser.Outcome.{ok, Ensures, holds, rejected, Ensures-bind}
use htap_storage_lsm_tree.Parser.Lexer.{
  Lexer, moved, read_while, push_text, read_quoted, first_or_nul,
}

-- the counters behind the bytes `cs`
unfoldable pub after : List ℕ → SourcePosition → SourcePosition
after [] p = p
after (c ∷ cs) p = after cs (moved c p)

-- From `l` on the bytes `raw` are read, and the lexer is `m` then.
pub record Reads (l : Lexer) (raw : List ℕ) (m : Lexer) : Type 0 where
  pub splits : l.rest ≡ raw ++ m.rest
  pub lands : m.at ≡ after raw l.at

pub after-append : (a b : List ℕ) (p : SourcePosition) → after (a ++ b) p ≡ after b (after a p)
unfolding after
after-append [] b p = refl
after-append (c ∷ cs) b p = after-append cs b (moved c p)

pub Reads-nil : (l : Lexer) → Reads l [] l
unfolding after
Reads-nil l = record { splits = refl; lands = refl }

pub Reads-cons :
    {c : ℕ} {cs raw : List ℕ} {p : SourcePosition} {m : Lexer}
    → Reads (record { rest = cs; at = moved c p }) raw m
    → Reads (record { rest = c ∷ cs; at = p }) (c ∷ raw) m
unfolding after
Reads-cons {c} h = record { splits = ap (◌∷◌ c) h.splits; lands = h.lands }

pub Reads-trans : {a b : List ℕ} {l m n : Lexer} → Reads l a m → Reads m b n → Reads l (a ++ b) n
Reads-trans {a} {b} {l} {m} {n} h k = record {
  splits = h.splits ∙ ap (λ r. a ++ r) k.splits ∙ sym (append_assoc a b n.rest);
  lands = k.lands ∙ ap (after b) h.lands ∙ sym (after-append a b l.at);
}

pub read_while-Reads :
    (test : ℕ → Bool) (cs : List ℕ) (p : SourcePosition)
    → let (raw, m) = read_while test cs p in
      Reads (record { rest = cs; at = p }) raw m × All (λ c. test c ≡ true) raw
unfolding read_while
read_while-Reads test [] p = (Reads-nil _, tt)
read_while-Reads test (c ∷ cs) p = elim (Bool-cases (test c)) [
  | inl e ↦
      let (reads, all) = read_while-Reads test cs (moved c p) in
      simp e (Reads-cons reads, (refl, all))
  | inr e ↦ simp e (Reads-nil _, tt)
]

-- The loop stops at a byte that fails the test, or at the end.
pub read_while_stops :
    (test : ℕ → Bool) (cs rest : List ℕ) (p : SourcePosition)
    → All (λ c. test c ≡ true) cs
    → test (first_or_nul rest) ≡ false
    → read_while test (cs ++ rest) p ≡ (cs, record { rest = rest; at = after cs p })
unfolding read_while after
read_while_stops test [] [] p all stop = refl
read_while_stops test [] (d ∷ rest) p all stop = simp stop refl
read_while_stops test (c ∷ cs) rest p (h, all) stop =
    simp (h, read_while_stops test cs rest (moved c p) all stop) refl

-- A string literal behind its opening quote: each quote is doubled, and one quote closes it.
unfoldable pub quoted : List ℕ → List ℕ
quoted [] = b'\'' ∷ []
quoted (c ∷ cs) = if c == b'\'' then c ∷ c ∷ quoted cs else c ∷ quoted cs

abbrev ReadsQuoted : List ℕ → SourcePosition → List ℕ × Lexer → Type 0
ReadsQuoted cs p (text, m) = Reads (record { rest = cs; at = p }) (quoted text) m

abbrev ReadsUp : SourcePosition → SourcePosition → List ℕ → Type 0
ReadsUp start p cs = Ensures (ReadsQuoted cs p) (read_quoted start cs p)

is_quote : (c : ℕ) → (c == b'\'') ≡ true → b'\'' ≡ c
is_quote c h = ground arith

pub read_quoted-Reads :
    (start : SourcePosition) (cs : List ℕ) (p : SourcePosition) → ReadsUp start p cs
unfolding read_quoted quoted
read_quoted-Reads start [] p = rejected
read_quoted-Reads start (c ∷ []) p = elim (Bool-cases (c == b'\'')) [
  | inl e ↦ subst (λ z. ReadsUp start p (z ∷ [])) (is_quote c e) (holds (Reads-cons (Reads-nil _)))
  | inr e ↦ simp e rejected
]
read_quoted-Reads start (c ∷ d ∷ cs) p = elim (Bool-cases (c == b'\'')) [
  | inl e ↦ elim (Bool-cases (d == b'\'')) [
    | inl f ↦
        subst (λ z. ReadsUp start p (z ∷ d ∷ cs)) (is_quote c e)
          (subst (λ z. ReadsUp start p (b'\'' ∷ z ∷ cs)) (is_quote d f)
            (Ensures-bind _ (read_quoted-Reads start cs (moved b'\'' (moved b'\'' p)))
              λ (text, m) h. holds (Reads-cons (Reads-cons h))))
    | inr f ↦
        subst (λ z. ReadsUp start p (z ∷ d ∷ cs)) (is_quote c e)
          (simp f (holds (Reads-cons (Reads-nil _))))
  ]
  | inr e ↦ simp e (
      Ensures-bind _ (read_quoted-Reads start (d ∷ cs) (moved c p))
        λ (text, m) h. holds (simp e (Reads-cons h)))
]

read_quoted_plain :
    (start : SourcePosition) (c : ℕ) (cs : List ℕ) (p : SourcePosition)
    → (c == b'\'') ≡ false
    → read_quoted start (c ∷ cs) p ≡ push_text c (read_quoted start cs (moved c p))
unfolding read_quoted
read_quoted_plain start c [] p h = simp h refl
read_quoted_plain start c (d ∷ cs) p h = simp h refl

abbrev ReadsBack : SourcePosition → List ℕ → List ℕ → SourcePosition → Type 0
ReadsBack start text rest p =
    read_quoted start (quoted text ++ rest) p
    ≡ ok (text, record { rest = rest; at = after (quoted text) p })

pub read_quoted-quoted :
    (start : SourcePosition) (text rest : List ℕ) (p : SourcePosition)
    → (first_or_nul rest == b'\'') ≡ false
    → ReadsBack start text rest p
unfolding read_quoted quoted after
read_quoted-quoted start [] [] p h = refl
read_quoted-quoted start [] (d ∷ rest) p h = simp h refl
read_quoted-quoted start (c ∷ text) rest p h = elim (Bool-cases (c == b'\'')) [
  | inl e ↦
      subst (λ z. ReadsBack start (z ∷ text) rest p) (is_quote c e)
        (ap (push_text b'\'') (read_quoted-quoted start text rest (moved b'\'' (moved b'\'' p)) h))
  | inr e ↦ simp e (
      read_quoted_plain start c (quoted text ++ rest) p e
      ∙ ap (push_text c) (read_quoted-quoted start text rest (moved c p) h))
]
