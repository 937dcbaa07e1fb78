-- ===== src/Writer/Cuts.antt =====
-- A list has one cut into batches of a given length.
use mathlib.Core.List.{append-nil, head-eq_of_cons-eq, tail-eq_of_cons-eq}
use fdp_rocks.Base.{
  ℕ, ◌<◌, ◌≡◌, refl, sym, ap, ap₂, ◌∙◌, List, [], ◌∷◌, ◌++◌, arith, length, length-append,
}
use fdp_rocks.Writer.Spec.{flatten, Cut}

module _ {A : Type 0} where
  append-inj :
      (xs ys us vs : List A) → length xs ≡ length ys → xs ++ us ≡ ys ++ vs → (xs ≡ ys) × (us ≡ vs)
  append-inj [] [] us vs k e = (refl, e)
  append-inj [] (y ∷ ys) us vs k e = absurd (omega (arith, k))
  append-inj (x ∷ xs) [] us vs k e = absurd (omega (arith, k))
  append-inj (x ∷ xs) (y ∷ ys) us vs k e =
      let (p, q) = append-inj xs ys us vs (omega (arith, k)) (tail-eq_of_cons-eq e) in
      (ap₂ (λ z zs. z ∷ zs) (head-eq_of_cons-eq e) p, q)

  Cut-positive :
      (n : ℕ) (b : List A) (bs : List (List A))
      → 0 < n
      → Cut n (b ∷ bs)
      → 0 < length (flatten (b ∷ bs))
  Cut-positive n b [] p h = omega (arith, h.0, length-append b [])
  Cut-positive n b (c ∷ bs) p h = omega (arith, h.0, length-append b (flatten (c ∷ bs)))

  pub Cut-unique :
      (n : ℕ) (bs cs : List (List A))
      → 0 < n
      → Cut n bs
      → Cut n cs
      → flatten bs ≡ flatten cs
      → bs ≡ cs
  Cut-unique n [] [] p h k e = refl
  Cut-unique n [] (c ∷ cs) p h k e = absurd (omega (arith, ap length e, Cut-positive n c cs p k))
  Cut-unique n (b ∷ bs) [] p h k e = absurd (omega (arith, ap length e, Cut-positive n b bs p h))
  Cut-unique n (b ∷ []) (c ∷ []) p h k e =
      ap (λ xs. xs ∷ []) (sym (append-nil b) ∙ e ∙ append-nil c)
  Cut-unique n (b ∷ []) (c ∷ c' ∷ cs) p h k e = absurd (
      omega (
        arith,
        h.1,
        k.0,
        ap length e,
        length-append b [],
        length-append c (flatten (c' ∷ cs)),
        Cut-positive n c' cs p k.1,
      ))
  Cut-unique n (b ∷ b' ∷ bs) (c ∷ []) p h k e = absurd (
      omega (
        arith,
        h.0,
        k.1,
        ap length e,
        length-append c [],
        length-append b (flatten (b' ∷ bs)),
        Cut-positive n b' bs p h.1,
      ))
  Cut-unique n (b ∷ b' ∷ bs) (c ∷ c' ∷ cs) p h k e =
      let (same, rest) =
        append-inj b c (flatten (b' ∷ bs)) (flatten (c' ∷ cs)) (omega (arith, h.0, k.0)) e in
      ap₂ (λ x xs. x ∷ xs) same (Cut-unique n (b' ∷ bs) (c' ∷ cs) p h.1 k.1 rest)
