-- ===== src/Random/Lehmer.antt =====
-- The generator of `Trace::Random` multiplies by 16807 modulo 2^31 - 1.
use fdp_rocks.Base.{ℕ, ◌*◌, ◌%◌, ◌<◌, ◌≡◌, ◌≢◌, ◌↔◌, sym, ap, ◌∙◌, arith}
use fdp_rocks.Random.{lehmer_modulus, random_next}

product_mod : (s : ℕ) → 0 < s → s < lehmer_modulus → s * 16807 % lehmer_modulus ≢ 0
product_mod s h k = omega arith

-- The folding gives the remainder of the product.
pub random_next-mod :
    (s : ℕ) → 0 < s → s < lehmer_modulus → random_next s ≡ s * 16807 % lehmer_modulus
unfolding random_next
random_next-mod s h k = ground (arith, product_mod s h k)

-- A multiplication by the inverse of 16807.
previous : ℕ → ℕ
previous r = r * 1407677000 % lehmer_modulus

previous-random_next :
    (s : ℕ) → 0 < s → s < lehmer_modulus → previous (s * 16807 % lehmer_modulus) ≡ s
unfolding previous
previous-random_next s h k = omega arith

-- For seeds s and t from 1 to 2^31 - 2, Trace::Random gives s * 16807 modulo 2^31 - 1, a seed in
-- the same range, and gives the same result for s and t only if they are equal.
pub random_next_lem :
    (s t : ℕ)
    → 0 < s
    → s < lehmer_modulus
    → 0 < t
    → t < lehmer_modulus
    → (random_next s ≡ s * 16807 % lehmer_modulus)
      × (0 < random_next s)
      × (random_next s < lehmer_modulus)
      × ((random_next s ≡ random_next t) ↔ (s ≡ t))
random_next_lem s t h k h' k' =
    let e = random_next-mod s h k in
    let e' = random_next-mod t h' k' in
    (
      e,
      omega (arith, e, product_mod s h k),
      omega (arith, e),
      (
        λ p.
            sym (previous-random_next s h k)
            ∙ ap previous (sym e ∙ p ∙ e')
            ∙ previous-random_next t h' k',
        ap random_next,
      ),
    )
