-- ===== src/Base/Occurs.antt =====
-- How often a text occurs in a list of texts.
use mathlib.Core.List.{Perm, Permᴰ}
use mathlib.Core.Logic.{∥∥₁_elim}
use native.Mathlib.Nat.{ℕ_set}
use fdp_rocks.Base.{ℕ, ◌+◌, ◌≡◌, refl, ◌∙◌, List, [], ◌∷◌, ◌++◌, arith, if◌then◌else◌}
use fdp_rocks.Base.Text.{text_eq}

unfoldable pub occurs : List ℕ → List (List ℕ) → ℕ
occurs k [] = 0
occurs k (x ∷ xs) = (if text_eq x k then 1 else 0) + occurs k xs

pub occurs-append :
    (k : List ℕ) (xs ys : List (List ℕ)) → occurs k (xs ++ ys) ≡ occurs k xs + occurs k ys
unfolding occurs
occurs-append k [] ys = omega arith
occurs-append k (x ∷ xs) ys = omega (arith, occurs-append k xs ys)

occurs-Permᴰ : (k : List ℕ) {xs ys : List (List ℕ)} → Permᴰ xs ys → occurs k xs ≡ occurs k ys
unfolding occurs
occurs-Permᴰ k Permᴰ.nil = refl
occurs-Permᴰ k (Permᴰ.cons e p) = rw (e, occurs-Permᴰ k p) refl
occurs-Permᴰ k (Permᴰ.swap e f) = rw (e, f) (omega arith)
occurs-Permᴰ k (Permᴰ.trans p q) = occurs-Permᴰ k p ∙ occurs-Permᴰ k q

pub occurs-Perm : (k : List ℕ) {xs ys : List (List ℕ)} → Perm xs ys → occurs k xs ≡ occurs k ys
occurs-Perm k p = ∥∥₁_elim p (ℕ_set _ _) (occurs-Permᴰ k)
