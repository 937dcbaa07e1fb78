-- ===== src/Base/Family.antt =====
-- Families indexed by thread: a change at one index, and the sum of a weight over the first `n`.
use fdp_rocks.Base.{
  ℕ, zero, suc, ◌+◌, ◌*◌, ◌≤◌, ◌<◌, ◌≡◌, ◌≢◌, refl, true, false, arith, ℕ_discrete, ◌==◌,
  if◌then◌else◌,
}

abbrev pub update {ℓ} : {A : Type ℓ} → (ℕ → A) → ℕ → A → ℕ → A
update f i a j = if j == i then a else f j

pub update-same {ℓ} : {A : Type ℓ} (f : ℕ → A) (i : ℕ) (a : A) → update f i a i ≡ a
update-same f i a = let e : (i == i) ≡ true = ground arith in rw e refl

pub update-other {ℓ} :
    {A : Type ℓ} (f : ℕ → A) (i : ℕ) (a : A) (j : ℕ) → j ≢ i → update f i a j ≡ f j
update-other f i a j n = let e : (j == i) ≡ false = ground arith in rw e refl

module _ {ℓ} {A : Type ℓ} (w : A → ℕ) where
  pub count : ℕ → (ℕ → A) → ℕ
  count zero f = 0
  count (suc n) f = w (f n) + count n f

  count-update_above :
      (n : ℕ) (f : ℕ → A) (i : ℕ) (a : A) → n ≤ i → count n (update f i a) ≡ count n f
  unfolding count
  count-update_above zero f i a h = refl
  count-update_above (suc n) f i a h = ground (arith, count-update_above n f i a)

  -- A change at one index moves the sum by the change of that weight.
  pub count-update :
      (n : ℕ) (f : ℕ → A) (i : ℕ) (a : A)
      → i < n
      → count n (update f i a) + w (f i) ≡ count n f + w a
  unfolding count
  count-update zero f i a h = absurd (omega arith)
  count-update (suc n) f i a h = elim (ℕ_discrete i n) [
    | yes e ↦ ground (arith, count-update_above n f i a)
    | no ne ↦ ground (arith, count-update n f i a (omega arith))
  ]

  -- A map that keeps every weight keeps the sum.
  pub count-map :
      (g : A → A)
      → ((a : A) → w (g a) ≡ w a)
      → (n : ℕ) (f : ℕ → A) → count n (λ i. g (f i)) ≡ count n f
  unfolding count
  count-map g same zero f = refl
  count-map g same (suc n) f = omega (arith, same (f n), count-map g same n f)

  -- A map that adds at most 1 to each weight adds at most `n` to the sum.
  pub count-map-le :
      (g : A → A)
      → ((a : A) → w (g a) ≤ w a + 1)
      → (n : ℕ) (f : ℕ → A) → count n (λ i. g (f i)) ≤ count n f + n
  unfolding count
  count-map-le g more zero f = omega arith
  count-map-le g more (suc n) f = omega (arith, more (f n), count-map-le g more n f)

  pub count-constant : (n : ℕ) (a : A) → w a ≡ 0 → count n (λ _. a) ≡ 0
  unfolding count
  count-constant zero a h = refl
  count-constant (suc n) a h = omega (arith, count-constant n a h)

  pub count-constant_le : (k n : ℕ) (a : A) → w a ≤ k → count n (λ _. a) ≤ k * n
  unfolding count
  count-constant_le k zero a h = omega arith
  count-constant_le k (suc n) a h = grind (arith, count-constant_le k n a h)

  module _ (small : (a : A) → w a ≤ 1) where
    pub count-le : (n : ℕ) (f : ℕ → A) → count n f ≤ n
    unfolding count
    count-le zero f = omega arith
    count-le (suc n) f = omega (arith, small (f n), count-le n f)

    -- Where the sum is not full, an index of weight 0 can be named.
    pub count-missing : (n : ℕ) (f : ℕ → A) → count n f < n → (i : ℕ) × (i < n) × (w (f i) ≡ 0)
    unfolding count
    count-missing zero f h = absurd (omega arith)
    count-missing (suc n) f h = elim (ℕ_discrete (w (f n)) 0) [
      | yes e ↦ (n, omega arith, e)
      | no ne ↦
          let (i, lt, z) = count-missing n f (omega (arith, small (f n))) in (i, omega arith, z)
    ]

    -- Where it is full, every weight is 1.
    pub count-full : (n : ℕ) (f : ℕ → A) (i : ℕ) → count n f ≡ n → i < n → w (f i) ≡ 1
    unfolding count
    count-full zero f i e h = absurd (omega arith)
    count-full (suc n) f i e h = elim (ℕ_discrete i n) [
      | yes same ↦ ground (arith, small (f n), count-le n f)
      | no ne ↦ count-full n f i (omega (arith, small (f n), count-le n f)) (omega arith)
    ]
