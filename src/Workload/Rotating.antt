-- ===== src/Workload/Rotating.antt =====
-- The shift between two phases turns the keys round.
use mathlib.Core.List.{Perm}
use fdp_rocks.Base.{
  ℕ, zero, suc, ◌-◌, ◌*◌, ◌/◌, ◌≡◌, refl, sym, ap, ◌∙◌, subst, List, [], ◌∷◌, ◌++◌, arith, length,
  take, drop, length-take, length-drop, take-append-drop,
}
use fdp_rocks.Base.Permutation.{append_comm-Perm}
use fdp_rocks.Workload.{move_backward, copy_front, shift_phases}

drop-append_short : (n : ℕ) (xs ys : List ℕ) → length xs ≡ n → drop n (xs ++ ys) ≡ ys
drop-append_short zero [] ys h = refl
drop-append_short zero (x ∷ xs) ys h = absurd (omega arith)
drop-append_short (suc n) [] ys h = absurd (omega arith)
drop-append_short (suc n) (x ∷ xs) ys h = drop-append_short n xs ys (omega arith)

shift_phases-keys :
    (keys : List ℕ)
    → shift_phases keys ≡ drop (3 * (length keys / 4)) keys ++ take (3 * (length keys / 4)) keys
unfolding shift_phases move_backward copy_front
shift_phases-keys keys =
    let n = 3 * (length keys / 4) in
    ap (λ xs. drop n keys ++ xs)
      (drop-append_short (length (drop n keys)) (take (length keys - n) keys) (take n keys)
        (length-take (length keys - n) keys ∙ omega (arith, length-drop n keys)))

-- The shift between two phases of the local sequential workloads moves the keys behind the first
-- 3 * (size / 4) to the front, in their order, and keeps every key exactly once.
pub shift_phases_lem :
    (keys : List ℕ)
    → (shift_phases keys ≡ drop (3 * (length keys / 4)) keys ++ take (3 * (length keys / 4)) keys)
      × Perm (shift_phases keys) keys
shift_phases_lem keys =
    let n = 3 * (length keys / 4) in
    (
      shift_phases-keys keys,
      subst (λ xs. Perm xs keys) (sym (shift_phases-keys keys))
          (subst (Perm (drop n keys ++ take n keys)) (take-append-drop n keys)
            (append_comm-Perm (drop n keys) (take n keys))),
    )
