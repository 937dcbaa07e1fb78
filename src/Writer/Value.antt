-- ===== src/Writer/Value.antt =====
-- The value that goes with a key, and the sizes at which the code writes past its end.
use mathlib.Core.Option
use fdp_rocks.Base.{
  ℕ, zero, suc, ◌+◌, ◌-◌, ◌≤◌, ◌<◌, ◌≡◌, refl, ap, ◌∙◌, true, ◌⊎◌, inl, inr, none, some, List, [],
  ◌∷◌, ◌++◌, arith, ltb, if◌then◌else◌, length, replicate, length-replicate, dec_lt, ℕ_discrete,
  Bool, false, leb, ◌==◌, ◌||◌,
}
use fdp_rocks.Base.Bytes.{le_bytes}
use fdp_rocks.Writer.{copy_at, make_value}

-- A copy that fits replaces bytes; one that does not is a fault.
copy_at_fits :
    (before src after old : List ℕ)
    → length old ≡ length src
    → copy_at (before ++ (old ++ after)) (length before) src ≡ some (before ++ (src ++ after))
unfolding copy_at
copy_at_fits [] [] after [] e = refl
copy_at_fits [] [] after (o ∷ old) e = absurd (omega arith)
copy_at_fits [] (b ∷ src) after [] e = absurd (omega arith)
copy_at_fits [] (b ∷ src) after (o ∷ old) e =
    ap (Option.map (◌∷◌ b)) (copy_at_fits [] src after old (omega arith))
copy_at_fits (d ∷ before) src after old e =
    ap (Option.map (◌∷◌ d)) (copy_at_fits before src after old e)

copy_at_past :
    (dst : List ℕ) (o : ℕ) (src : List ℕ)
    → length dst < o + length src
    → 0 < length src
    → copy_at dst o src ≡ none
unfolding copy_at
copy_at_past dst zero [] h p = absurd (omega arith)
copy_at_past [] zero (b ∷ src) h p = refl
copy_at_past (d ∷ dst) zero (b ∷ []) h p = absurd (omega arith)
copy_at_past (d ∷ dst) zero (b ∷ b' ∷ src) h p =
    ap (Option.map (◌∷◌ b)) (copy_at_past dst zero (b' ∷ src) (omega arith) (omega arith))
copy_at_past [] (suc o) src h p = refl
copy_at_past (d ∷ dst) (suc o) src h p =
    ap (Option.map (◌∷◌ d)) (copy_at_past dst o src (omega arith) p)

replicate-add : (m n : ℕ) (a : ℕ) → replicate (m + n) a ≡ replicate m a ++ replicate n a
replicate-add zero n a = ap (λ k. replicate k a) (omega arith)
replicate-add (suc m) n a =
    let e : suc m + n ≡ suc (m + n) = omega arith in
    ap (λ k. replicate k a) e ∙ ap (◌∷◌ a) (replicate-add m n a)

-- The value of a size that the code can fill: the seed, the key number, and zeros.
unfoldable pub value_of : ℕ → ℕ → ℕ → List ℕ
value_of size seed key =
    le_bytes 8 seed ++ (if ltb 8 size then le_bytes 8 key ++ replicate (size - 16) 0 else [])

abbrev pub IsGoodSize : ℕ → Type 0
IsGoodSize size = (size ≡ 8) ⊎ (16 ≤ size)

length-value_of : (size seed key : ℕ) → IsGoodSize size → length (value_of size seed key) ≡ size
unfolding value_of
length-value_of size seed key (inl e) = ground arith
length-value_of size seed key (inr h) =
    let large : ltb 8 size ≡ true = ground arith in
    rw large (omega (arith, length-replicate {A = ℕ} (size - 16) 0))

make_value_eight : (seed key : ℕ) → make_value 8 seed key ≡ some (value_of 8 seed key)
unfolding make_value copy_at value_of
make_value_eight seed key = refl

-- Eight zeros and more, after the first copy.
first_copy :
    (k seed : ℕ)
    → copy_at (replicate (8 + k) 0) 0 (le_bytes 8 seed) ≡ some (le_bytes 8 seed ++ replicate k 0)
first_copy k seed =
    rw (replicate-add 8 k 0)
      (copy_at_fits [] (le_bytes 8 seed) (replicate k 0) (replicate 8 0) refl)

make_value_long :
    (k seed key : ℕ) → make_value (8 + (8 + k)) seed key ≡ some (value_of (8 + (8 + k)) seed key)
unfolding make_value value_of
make_value_long k seed key =
    let large : ltb 8 (8 + (8 + k)) ≡ true = ground arith in
    let left : 8 + (8 + k) - 16 ≡ k = omega arith in
    rw (first_copy (8 + k) seed, make_value)
      (rw (large, left, replicate-add 8 k 0)
        (copy_at_fits (le_bytes 8 seed) (le_bytes 8 key) (replicate k 0) (replicate 8 0) refl))

make_value_short : (size seed key : ℕ) → size < 8 → make_value size seed key ≡ none
unfolding make_value
make_value_short size seed key h = rw (
  make_value,
  copy_at_past (replicate size 0) 0 (le_bytes 8 seed)
      (omega (arith, length-replicate {A = ℕ} size 0)) (omega arith),
)

make_value_middle : (k seed key : ℕ) → 0 < k → k < 8 → make_value (8 + k) seed key ≡ none
unfolding make_value
make_value_middle k seed key p h =
    let large : ltb 8 (8 + k) ≡ true = ground arith in
    rw (first_copy k seed, make_value)
      (rw large (
        copy_at_past (le_bytes 8 seed ++ replicate k 0) 8 (le_bytes 8 key)
          (omega (arith, length-replicate {A = ℕ} k 0)) (omega arith)))

pub make_value_good :
    (size seed key : ℕ) → IsGoodSize size → make_value size seed key ≡ some (value_of size seed key)
make_value_good size seed key (inl e) = rw e (make_value_eight seed key)
make_value_good size seed key (inr h) =
    let e : size ≡ 8 + (8 + (size - 16)) = omega arith in
    rw e (make_value_long (size - 16) seed key)

pub make_value_bad : (size seed key : ℕ) → ¬ IsGoodSize size → make_value size seed key ≡ none
make_value_bad size seed key bad = elim (dec_lt size 8) [
  | yes h ↦ make_value_short size seed key h
  | no h ↦
      let e : size ≡ 8 + (size - 8) = omega arith in
      rw e (make_value_middle (size - 8) seed key (grind arith) (grind arith))
]

pub good_size : ℕ → Bool
good_size size = size == 8 || leb 16 size

-- Building the value of a key writes past the end of the string for every size but 8 and those
-- from 16 on; for size 8 the value is the seed, and from 16 on the seed, the key number and
-- zeros, and its length is the size.
pub make_value_lem :
    (size seed key : ℕ)
    → (make_value size seed key ≡ (if good_size size then some (value_of size seed key) else none))
      × ((good_size size ≡ false) ⊎ (length (value_of size seed key) ≡ size))
unfolding good_size
make_value_lem size seed key = elim (dec_lt size 16) [
  | yes h ↦ elim (ℕ_discrete size 8) [
    | yes e ↦
        ground (arith, make_value_good size seed key (inl e), length-value_of size seed key (inl e))
    | no ne ↦ ground (arith, make_value_bad size seed key (grind arith))
  ]
  | no h ↦
      let good : 16 ≤ size = omega arith in
      ground
        (arith, make_value_good size seed key (inr good), length-value_of size seed key (inr good))
]
