-- ===== src/Slice/Order.antt =====
-- `Slice::compare` is the lexicographic order, a total order on byte strings.
use fdp_rocks.Base.{
  ℕ, zero, suc, ◌≡◌, ◌≢◌, ◌↔◌, refl, sym, subst, ap, ◌∙◌, not, ◌||◌, Bool-cases, inl, inr, true,
  false, List, [], ◌∷◌, arith, ltb, ◌==◌, if◌then◌else◌, length, ℕ_discrete,
}
use fdp_rocks.Base.Bytes.{memcmp, three_way}
use fdp_rocks.Base.Int.{ℤ, pos, negsuc}
use fdp_rocks.Slice.{
  is_zero, min_len, by_size, compare, slice_eq, is_negative, is_positive, slice_lt, slice_gt,
  slice_ne,
}

-- The order of a dictionary.
abbrev pub lex : List ℕ → List ℕ → ℤ
lex [] [] = pos 0
lex [] (y ∷ ys) = negsuc 0
lex (x ∷ xs) [] = pos 1
lex (x ∷ xs) (y ∷ ys) = if x == y then lex xs ys else three_way x y

min_len-suc : (m n : ℕ) → min_len (suc m) (suc n) ≡ suc (min_len m n)
unfolding min_len
min_len-suc m n = ground arith

by_size-suc : (r : ℤ) (m n : ℕ) → by_size r (suc m) (suc n) ≡ by_size r m n
unfolding by_size
by_size-suc r m n =
    let a : ltb (suc m) (suc n) ≡ ltb m n = ground arith in
    let b : ltb (suc n) (suc m) ≡ ltb n m = ground arith in rw a (rw b refl)

by_size-three_way : (x y m n : ℕ) → x ≢ y → by_size (three_way x y) m n ≡ three_way x y
unfolding by_size is_zero
by_size-three_way x y m n h = ground arith

compare-lex : (a b : List ℕ) → compare a b ≡ lex a b
unfolding compare memcmp
compare-lex [] [] = refl
compare-lex [] (y ∷ ys) = ground arith
compare-lex (x ∷ xs) [] = ground arith
compare-lex (x ∷ xs) (y ∷ ys) = elim (ℕ_discrete x y) [
  | yes e ↦
      let test : (x == y) ≡ true = ground arith in
      rw (min_len-suc (length xs) (length ys), memcmp)
        (rw test (
          by_size-suc (memcmp xs ys (min_len (length xs) (length ys))) (length xs) (length ys)
          ∙ compare-lex xs ys))
  | no ne ↦
      let test : (x == y) ≡ false = ground arith in
      rw (min_len-suc (length xs) (length ys), memcmp)
        (rw test (by_size-three_way x y (suc (length xs)) (suc (length ys)) ne))
]

-- The sign turned round.
abbrev pub opposite : ℤ → ℤ
opposite (pos zero) = pos 0
opposite (pos (suc n)) = negsuc n
opposite (negsuc n) = pos (suc n)

lex-opposite : (a b : List ℕ) → lex b a ≡ opposite (lex a b)
lex-opposite [] [] = refl
lex-opposite [] (y ∷ ys) = refl
lex-opposite (x ∷ xs) [] = refl
lex-opposite (x ∷ xs) (y ∷ ys) = ground (arith, lex-opposite xs ys)

lex-zero : (a b : List ℕ) → lex a b ≡ pos 0 → a ≡ b
lex-zero [] [] e = refl
lex-zero [] (y ∷ ys) e = ground arith
lex-zero (x ∷ xs) [] e = ground arith
lex-zero (x ∷ xs) (y ∷ ys) e = ground (arith, lex-zero xs ys)

lex_self : (a : List ℕ) → lex a a ≡ pos 0
lex_self [] = refl
lex_self (x ∷ xs) = ground (arith, lex_self xs)

lex_trans : (a b c : List ℕ) → lex a b ≡ negsuc 0 → lex b c ≡ negsuc 0 → lex a c ≡ negsuc 0
lex_trans [] [] c e f = f
lex_trans [] (y ∷ ys) [] e f = ground arith
lex_trans [] (y ∷ ys) (z ∷ zs) e f = refl
lex_trans (x ∷ xs) [] c e f = ground arith
lex_trans (x ∷ xs) (y ∷ ys) [] e f = ground arith
lex_trans (x ∷ xs) (y ∷ ys) (z ∷ zs) e f = ground (arith, lex_trans xs ys zs)

slice_eq-path : (a b : List ℕ) → slice_eq a b ≡ true → a ≡ b
unfolding slice_eq memcmp is_zero
slice_eq-path [] [] e = refl
slice_eq-path [] (y ∷ ys) e = ground arith
slice_eq-path (x ∷ xs) [] e = ground arith
slice_eq-path (x ∷ xs) (y ∷ ys) e = ground (arith, slice_eq-path xs ys)

slice_eq_self : (a : List ℕ) → slice_eq a a ≡ true
unfolding slice_eq memcmp is_zero
slice_eq_self [] = refl
slice_eq_self (x ∷ xs) = ground (arith, slice_eq_self xs)

is_negative-opposite : (z : ℤ) → is_positive z ≡ is_negative (opposite z)
unfolding is_negative is_positive
is_negative-opposite (pos zero) = refl
is_negative-opposite (pos (suc n)) = ground arith
is_negative-opposite (negsuc n) = refl

compare_zero : (a b : List ℕ) → compare a b ≡ pos 0 → a ≡ b
compare_zero a b e = lex-zero a b (sym (compare-lex a b) ∙ e)

compare_self : (a b : List ℕ) → a ≡ b → compare a b ≡ pos 0
compare_self a b e = subst (λ c. compare a c ≡ pos 0) e (compare-lex a a ∙ lex_self a)

compare-opposite : (a b : List ℕ) → compare b a ≡ opposite (compare a b)
compare-opposite a b = compare-lex b a ∙ lex-opposite a b ∙ ap opposite (sym (compare-lex a b))

-- One of two different slices is before the other.
slice_ne_sides : (a b : List ℕ) → (slice_lt a b || slice_gt a b) ≡ slice_ne a b
unfolding slice_lt slice_gt slice_ne is_negative is_positive
slice_ne_sides a b = by_sign (compare a b) refl
  where
    differ : (z : ℤ) → compare a b ≡ z → z ≢ pos 0 → slice_eq a b ≡ false
    differ z e n = elim (Bool-cases (slice_eq a b)) [
      | inl same ↦ absurd (n (sym e ∙ compare_self a b (slice_eq-path a b same)))
      | inr other ↦ other
    ]

    by_sign : (z : ℤ) → compare a b ≡ z → (is_negative z || is_positive z) ≡ not (slice_eq a b)
    by_sign (pos zero) e =
        let same : slice_eq a b ≡ true =
          subst (λ c. slice_eq a c ≡ true) (compare_zero a b e) (slice_eq_self a) in
        rw same refl
    by_sign (pos (suc n)) e = rw (differ (pos (suc n)) e (λ f. cc f)) (ground arith)
    by_sign (negsuc n) e = rw (differ (negsuc n) e (λ f. cc f)) refl

-- Slice::compare is the lexicographic comparison of bytes: it is 0 exactly for equal slices,
-- exchanging the arguments turns its sign round, operator== holds exactly for equal slices,
-- operator> is operator< with its arguments exchanged, and operator!= holds exactly where one of
-- the two does.
pub compare_lem :
    (a b : List ℕ)
    → (compare a b ≡ lex a b)
      × ((compare a b ≡ pos 0) ↔ (a ≡ b))
      × (compare b a ≡ opposite (compare a b))
      × ((slice_eq a b ≡ true) ↔ (a ≡ b))
      × (slice_gt a b ≡ slice_lt b a)
      × ((slice_lt a b || slice_gt a b) ≡ slice_ne a b)
unfolding slice_lt slice_gt
compare_lem a b = (
  compare-lex a b,
  (compare_zero a b, compare_self a b),
  compare-opposite a b,
  (slice_eq-path a b, λ e. subst (λ c. slice_eq a c ≡ true) e (slice_eq_self a)),
  is_negative-opposite (compare a b) ∙ ap is_negative (sym (compare-opposite a b)),
  slice_ne_sides a b,
)

lex_sign : (a b : List ℕ) → is_negative (lex a b) ≡ true → lex a b ≡ negsuc 0
unfolding is_negative
lex_sign [] [] e = ground arith
lex_sign [] (y ∷ ys) e = refl
lex_sign (x ∷ xs) [] e = ground arith
lex_sign (x ∷ xs) (y ∷ ys) e = ground (arith, lex_sign xs ys)

-- operator< of slices is transitive.
pub slice_lt_trans :
    (a b c : List ℕ) → slice_lt a b ≡ true → slice_lt b c ≡ true → slice_lt a c ≡ true
unfolding slice_lt is_negative
slice_lt_trans a b c e f = ap is_negative (
    compare-lex a c
    ∙ lex_trans a b c (lex_sign a b (ap is_negative (sym (compare-lex a b)) ∙ e))
        (lex_sign b c (ap is_negative (sym (compare-lex b c)) ∙ f)))
