-- ===== src/Common/Perms.antt =====
-- What permutations of a list keep.
use mathlib.Core.List.{Permᴰ, Perm, List, [], ◌∷◌, ◌++◌, map, append_assoc}
use mathlib.Core.List.Permᴰ
use mathlib.Core.Path.{◌≡◌, refl, sym, ap, ◌∙◌, subst}
use mathlib.Core.Logic.{inl, inr}
use mathlib.Core.Bool.{Bool, true, false}
use Prim.Native.Nat.{suc}
use htap_storage_lsm_tree.Common.Tests.{if◌then◌else◌, Bool-cases}
use htap_storage_lsm_tree.Common.Lists.{length, All, keep, concat}

module _ {ℓ} {A : Type ℓ} where
  pub Perm-of_Permᴰ : {xs ys : List A} → Permᴰ xs ys → Perm xs ys
  Perm-of_Permᴰ d = ∣ d ∣₁

  pub All-Permᴰ : (P : A → Type 0) {xs ys : List A} → Permᴰ xs ys → All P xs → All P ys
  All-Permᴰ P Permᴰ.nil a = tt
  All-Permᴰ P (Permᴰ.cons e d) a = (subst P e a.0, All-Permᴰ P d a.1)
  All-Permᴰ P (Permᴰ.swap e d) a = (subst P d a.1.0, (subst P e a.0, a.1.1))
  All-Permᴰ P (Permᴰ.trans d e) a = All-Permᴰ P e (All-Permᴰ P d a)

  keep_swap :
      (a b a' b' : A) (u v : Bool) (l : List A)
      → a ≡ b'
      → b ≡ a'
      → Permᴰ
          (if u then a ∷ (if v then b ∷ l else l) else (if v then b ∷ l else l))
          (if v then a' ∷ (if u then b' ∷ l else l) else (if u then b' ∷ l else l))
  keep_swap a b a' b' true true l e d = Permᴰ.swap e d
  keep_swap a b a' b' true false l e d = Permᴰ.cons e (Permᴰ.refl l)
  keep_swap a b a' b' false true l e d = Permᴰ.cons d (Permᴰ.refl l)
  keep_swap a b a' b' false false l e d = Permᴰ.refl l

  pub keep-Permᴰ : (p : A → Bool) {xs ys : List A} → Permᴰ xs ys → Permᴰ (keep p xs) (keep p ys)
  keep-Permᴰ p Permᴰ.nil = Permᴰ.nil
  keep-Permᴰ p (Permᴰ.cons {a = a} {b = b} e d) = elim (Bool-cases (p b)) [
    | inl t ↦ rw (ap p e ∙ t) (rw t (Permᴰ.cons e (keep-Permᴰ p d)))
    | inr n ↦ rw (ap p e ∙ n) (rw n (keep-Permᴰ p d))
  ]
  keep-Permᴰ p (Permᴰ.swap {a = a} {b = b} {a' = a'} {b' = b'} {l = l} e d) =
      let swapped = keep_swap a b a' b' (p b') (p a') (keep p l) e d in
      subst (λ t. Permᴰ (if t then a ∷ keep p (b ∷ l) else keep p (b ∷ l)) (keep p (a' ∷ b' ∷ l)))
        (sym (ap p e))
        (subst
          (λ t.
            Permᴰ
              (if p b'
                then a ∷ (if t then b ∷ keep p l else keep p l)
                else (if t then b ∷ keep p l else keep p l))
              (keep p (a' ∷ b' ∷ l)))
          (sym (ap p d)) swapped)
  keep-Permᴰ p (Permᴰ.trans d e) = Permᴰ.trans (keep-Permᴰ p d) (keep-Permᴰ p e)

  pub concat-map-Permᴰ {κ} :
      {B : Type κ} (g : A → List B) {xs ys : List A}
      → Permᴰ xs ys
      → Permᴰ (concat (map g xs)) (concat (map g ys))
  concat-map-Permᴰ g Permᴰ.nil = Permᴰ.nil
  concat-map-Permᴰ g (Permᴰ.cons {a = a} {b = b} e d) =
      rw e (Permᴰ.append_left (g b) (concat-map-Permᴰ g d))
  concat-map-Permᴰ g (Permᴰ.swap {a' = a'} {b' = b'} {l = l} e d) = rw e (
      rw d (
        rw (← append_assoc (g b') (g a') (concat (map g l))) (
          rw (← append_assoc (g a') (g b') (concat (map g l)))
            (Permᴰ.append_right (concat (map g l)) (Permᴰ.append_comm (g b') (g a'))))))
  concat-map-Permᴰ g (Permᴰ.trans d e) = Permᴰ.trans (concat-map-Permᴰ g d) (concat-map-Permᴰ g e)

  pub length-Permᴰ : {xs ys : List A} → Permᴰ xs ys → length xs ≡ length ys
  length-Permᴰ Permᴰ.nil = refl
  length-Permᴰ (Permᴰ.cons e d) = ap suc (length-Permᴰ d)
  length-Permᴰ (Permᴰ.swap e d) = refl
  length-Permᴰ (Permᴰ.trans d e) = length-Permᴰ d ∙ length-Permᴰ e

  pub concat-map-append {κ} :
      {B : Type κ} (g : A → List B) (xs ys : List A)
      → concat (map g (xs ++ ys)) ≡ concat (map g xs) ++ concat (map g ys)
  concat-map-append g [] ys = refl
  concat-map-append g (x ∷ xs) ys =
      ap (λ t. g x ++ t) (concat-map-append g xs ys)
      ∙ sym (append_assoc (g x) (concat (map g xs)) (concat (map g ys)))
