-- ===== src/Prefill/Sizes.antt =====
-- What `ParseSize` makes of a number with and without a unit.
use fdp_rocks.Base.{
  ℕ, zero, suc, ◌+◌, ◌*◌, ◌/◌, ◌%◌, ◌^◌, ◌<◌, ◌≡◌, refl, ◌∙◌, true, false, Option, none, some, List,
  [], ◌∷◌, ◌++◌, arith, dec_lt, ltb, if◌then◌else◌,
}
use fdp_rocks.Base.Text.{decimal, digits}
use fdp_rocks.Prefill.{is_digit, split_last, unit_factor, scaled, with_unit, parse_size}

-- A text that is not empty, by its last character.
split_last-append : (c : ℕ) (cs : List ℕ) (d : ℕ) → split_last c (cs ++ d ∷ []) ≡ (c ∷ cs, d)
unfolding split_last
split_last-append c [] d = refl
split_last-append c (b ∷ bs) d = rw (split_last-append b bs d) refl

parse_size-snoc :
    (stoull : List ℕ → Option ℕ) (xs : List ℕ) (d : ℕ)
    → parse_size stoull (xs ++ d ∷ []) ≡ (
        if is_digit d
        then scaled (stoull (xs ++ d ∷ [])) 1
        else with_unit stoull xs (unit_factor d))
unfolding parse_size split_last
parse_size-snoc stoull [] d = refl
parse_size-snoc stoull (c ∷ cs) d = rw (split_last-append c cs d) refl

-- A text that ends in a digit.
record EndsInDigit (cs : List ℕ) : Type 0 where
  front : List ℕ
  last : ℕ
  split : cs ≡ front ++ last ∷ []
  last_digit : is_digit last ≡ true

digits-EndsInDigit : (fuel n : ℕ) → EndsInDigit (digits fuel n)
unfolding digits is_digit
digits-EndsInDigit zero n = record {
  front = [];
  last = b'0' + n % 10;
  split = refl;
  last_digit = ground arith;
}
digits-EndsInDigit (suc fuel) n = elim (dec_lt n 10) [
  | yes p ↦
      let test : ltb n 10 ≡ true = ground arith in
      record { front = []; last = b'0' + n; split = rw test refl; last_digit = ground arith }
  | no np ↦
      let test : ltb n 10 ≡ false = ground arith in
      record {
        front = digits fuel (n / 10);
        last = b'0' + n % 10;
        split = rw test refl;
        last_digit = ground arith;
      }
]

parse_size-EndsInDigit :
    (stoull : List ℕ → Option ℕ) (cs : List ℕ)
    → EndsInDigit cs
    → parse_size stoull cs ≡ scaled (stoull cs) 1
parse_size-EndsInDigit stoull cs d =
    rw d.split (parse_size-snoc stoull d.front d.last ∙ (rw d.last_digit refl))

-- A unit is no digit.
unit_factor-is_digit : (u k : ℕ) → unit_factor u ≡ some k → is_digit u ≡ false
unfolding unit_factor is_digit
unit_factor-is_digit u k e = ground arith

-- If stoull reads decimal numbers below 2^64, then ParseSize gives such a number back, gives its
-- product with the factor modulo 2^64 if a unit stands behind it, and 0 if another character
-- that is no digit stands behind it.
pub parse_size_lem :
    (stoull : List ℕ → Option ℕ)
    → ((n : ℕ) → n < 2 ^ 64 → stoull (decimal n) ≡ some n)
    → (n u k v : ℕ) → n < 2 ^ 64
    → unit_factor u ≡ some k
    → unit_factor v ≡ none
    → is_digit v ≡ false
    → (parse_size stoull (decimal n) ≡ n)
      × (parse_size stoull (decimal n ++ u ∷ []) ≡ n * k % 2 ^ 64)
      × (parse_size stoull (decimal n ++ v ∷ []) ≡ 0)
unfolding decimal scaled with_unit
parse_size_lem stoull reads n u k v h e f g = (
  parse_size-EndsInDigit stoull (decimal n) (digits-EndsInDigit 20 n)
      ∙ rw (reads n h, scaled) (omega arith),
  parse_size-snoc stoull (decimal n) u ∙ rw (unit_factor-is_digit u k e, e, reads n h) refl,
  parse_size-snoc stoull (decimal n) v ∙ rw (g, f) refl,
)
