-- ===== src/Base/Permutation.antt =====
-- What permutations keep: native lengths and bounds.
use mathlib.Core.List.{Perm, Permᴰ, reverse, reverse-cons, append-nil, perm_middle}
use mathlib.Core.List.Perm
use mathlib.Core.Logic.{∥∥₁_elim}
use native.Mathlib.Bridge.{le_prop}
use native.Mathlib.Nat.{ℕ_set}
use fdp_rocks.Base.{ℕ, suc, ◌<◌, ◌≡◌, refl, sym, ap, ◌∙◌, subst, List, [], ◌∷◌, ◌++◌, length, All}

length-Permᴰ {ℓ} : {A : Type ℓ} {xs ys : List A} → Permᴰ xs ys → length xs ≡ length ys
length-Permᴰ Permᴰ.nil = refl
length-Permᴰ (Permᴰ.cons e p) = ap suc (length-Permᴰ p)
length-Permᴰ (Permᴰ.swap e f) = refl
length-Permᴰ (Permᴰ.trans p q) = length-Permᴰ p ∙ length-Permᴰ q

pub length-Perm {ℓ} : {A : Type ℓ} {xs ys : List A} → Perm xs ys → length xs ≡ length ys
length-Perm p = ∥∥₁_elim p (ℕ_set _ _) length-Permᴰ

-- Every element is below the bound.
abbrev pub Below : ℕ → List ℕ → Type 0
Below n = All (λ (k : ℕ). k < n)

-- A permutation keeps what holds of every element.
module _ (P : ℕ → Type 0) (prop : (k : ℕ) → IsProp (P k)) where
  All-prop : (xs : List ℕ) → IsProp (All P xs)
  All-prop [] = hlevel
  All-prop (x ∷ xs) = hlevel (prop x, All-prop xs)

  All-Permᴰ : {xs ys : List ℕ} → Permᴰ xs ys → All P xs → All P ys
  All-Permᴰ Permᴰ.nil h = h
  All-Permᴰ (Permᴰ.cons e p) h = (subst P e h.0, All-Permᴰ p h.1)
  All-Permᴰ (Permᴰ.swap e f) h = (subst P f h.1.0, (subst P e h.0, h.1.1))
  All-Permᴰ (Permᴰ.trans p q) h = All-Permᴰ q (All-Permᴰ p h)

  pub All-Perm : {xs ys : List ℕ} → Perm xs ys → All P xs → All P ys
  All-Perm {ys = ys} p h = ∥∥₁_elim p (All-prop ys) (λ d. All-Permᴰ d h)

pub Below-Perm : (n : ℕ) {xs ys : List ℕ} → Perm xs ys → Below n xs → Below n ys
Below-Perm n = All-Perm (λ k. k < n) (λ k. le_prop)

pub reverse-Perm {ℓ} : {A : Type ℓ} (xs : List A) → Perm (reverse xs) xs
reverse-Perm [] = Perm.nil
reverse-Perm (x ∷ xs) =
    subst (λ ys. Perm ys (x ∷ xs)) (sym (reverse-cons x xs))
      (Perm.trans (perm_middle (reverse xs) []) (
        Perm.cons x (
          Perm.trans
            (subst (λ ys. Perm ys (reverse xs)) (sym (append-nil (reverse xs)))
              (Perm.refl (reverse xs)))
            (reverse-Perm xs))))

pub append_comm-Perm {ℓ} : {A : Type ℓ} (xs ys : List A) → Perm (xs ++ ys) (ys ++ xs)
append_comm-Perm [] ys = subst (Perm ys) (sym (append-nil ys)) (Perm.refl ys)
append_comm-Perm (x ∷ xs) ys =
    Perm.trans (Perm.cons x (append_comm-Perm xs ys)) (Perm.symm (perm_middle ys xs))
