-- ===== src/Base/Text.antt =====
-- Texts as lists of character codes, their equality, and decimal numbers in them.
use Prim.Native.Char.{code}
use Prim.Native.String.{String}
use mathlib.Core.List.{append_assoc}
use native.Mathlib.Nat.{pow-suc}
use fdp_rocks.Base.{
  sym, dec_lt, ℕ, zero, suc, ◌+◌, ◌-◌, ◌*◌, ◌/◌, ◌%◌, ◌^◌, ◌<◌, ◌≤◌, ◌≡◌, refl, ap, ◌∙◌, Bool, true,
  false, ◌&&◌, List, [], ◌∷◌, ◌++◌, arith, ltb, leb, ◌==◌, if◌then◌else◌, length, drop,
}

abbrev pub codes : String → List ℕ
codes String.[] = []
codes (String.◌∷◌ c s) = code c ∷ codes s

unfoldable pub text_eq : List ℕ → List ℕ → Bool
text_eq [] [] = true
text_eq [] (d ∷ ds) = false
text_eq (c ∷ cs) [] = false
text_eq (c ∷ cs) (d ∷ ds) = c == d && text_eq cs ds

pub text_eq_refl : (cs : List ℕ) → text_eq cs cs ≡ true
unfolding text_eq
text_eq_refl [] = refl
text_eq_refl (c ∷ cs) = let e : (c == c) ≡ true = ground arith in rw (e, text_eq_refl cs)

pub text_eq_sound : (xs ys : List ℕ) → text_eq xs ys ≡ true → xs ≡ ys
unfolding text_eq
text_eq_sound [] [] e = refl
text_eq_sound [] (y ∷ ys) e = absurd (ground (arith, e))
text_eq_sound (x ∷ xs) [] e = absurd (ground (arith, e))
text_eq_sound (x ∷ xs) (y ∷ ys) e =
    let (head, tail) = both (x == y) (text_eq xs ys) e in
    let same : x ≡ y = ground (arith, head) in rw (same, text_eq_sound xs ys tail) refl
  where
    both : (a b : Bool) → (a && b) ≡ true → (a ≡ true) × (b ≡ true)
    both true b h = (refl, h)
    both false b h = absurd (ground (arith, h))

-- The digits of a number, with `fuel + 1` of them at most.
unfoldable pub digits : ℕ → ℕ → List ℕ
digits zero n = (b'0' + n % 10) ∷ []
digits (suc fuel) n =
    let front = digits fuel (n / 10) in
    if ltb n 10 then (b'0' + n) ∷ [] else front ++ (b'0' + n % 10) ∷ []

-- `operator<<` of an unsigned number of up to 64 bits.
unfoldable pub decimal : ℕ → List ℕ
unfolding digits
decimal n = digits 20 n

-- `operator<<` of an `int` that is made of a number.
unfoldable pub decimal_int : ℕ → List ℕ
unfolding decimal
decimal_int n =
    let t = n % 2 ^ 32 in if ltb t (2 ^ 31) then decimal t else b'-' ∷ decimal (2 ^ 32 - t)

-- The number at the head of a text.
unfoldable pub read_digits : ℕ → List ℕ → ℕ
read_digits acc [] = acc
read_digits acc (c ∷ cs) =
    let rest = read_digits (acc * 10 + (c - b'0')) cs in
    if leb b'0' c && leb c b'9' then rest else acc

read_digits-digit :
    (d acc k : ℕ) (rest : List ℕ)
    → d < 10
    → acc * 10 + d ≡ k
    → read_digits acc ((b'0' + d) ∷ rest) ≡ read_digits k rest
unfolding read_digits
read_digits-digit d acc k rest h e =
    let test : (leb b'0' (b'0' + d) && leb (b'0' + d) b'9') ≡ true = ground arith in
    let f : acc * 10 + (b'0' + d - b'0') ≡ k = omega arith in
    rw test (ap (λ m. read_digits m rest) f)

read_digits-digits :
    (fuel n : ℕ) (rest : List ℕ)
    → n < 10 ^ suc fuel
    → read_digits 0 (digits fuel n ++ rest) ≡ read_digits n rest
unfolding digits
read_digits-digits zero n rest h = read_digits-digit (n % 10) 0 n rest (omega arith) (omega arith)
read_digits-digits (suc fuel) n rest h = elim (dec_lt n 10) [
  | yes p ↦
      let test : ltb n 10 ≡ true = ground arith in
      rw test (read_digits-digit n 0 n rest p (omega arith))
  | no np ↦
      let test : ltb n 10 ≡ false = ground arith in
      rw test (
        ap (read_digits 0) (append_assoc (digits fuel (n / 10)) ((b'0' + n % 10) ∷ []) rest)
        ∙ read_digits-digits fuel (n / 10) _ (omega (arith, pow-suc 10 (suc fuel)))
        ∙ read_digits-digit (n % 10) (n / 10) n rest (omega arith) (omega arith))
]

-- A number below 10^21 can be read back from its digits, if what follows is no digit.
pub read_digits-decimal :
    (n : ℕ) (rest : List ℕ) → n < 10 ^ 21 → read_digits 0 (decimal n ++ rest) ≡ read_digits n rest
unfolding decimal
read_digits-decimal n rest h = read_digits-digits 20 n rest h

pub drop-append : (xs ys : List ℕ) → drop (length xs) (xs ++ ys) ≡ ys
drop-append [] ys = refl
drop-append (x ∷ xs) ys = drop-append xs ys

-- A text of digits starts with one.
digits-head : (fuel n : ℕ) → (x : ℕ) × (xs : List ℕ) × (digits fuel n ≡ x ∷ xs) × (b'0' ≤ x)
unfolding digits
digits-head zero n = (_, [], refl, omega arith)
digits-head (suc fuel) n =
    let (x, xs, e, h) = digits-head fuel (n / 10) in
    elim (dec_lt n 10) [
      | yes p ↦
          let test : ltb n 10 ≡ true = ground arith in (b'0' + n, [], rw test refl, omega arith)
      | no np ↦
          let test : ltb n 10 ≡ false = ground arith in
          (x, xs ++ (b'0' + n % 10) ∷ [], rw (test, e) refl, h)
    ]

-- The number below 2^32 that has the text at the head of a text as an `int`.
unfoldable read_int : List ℕ → ℕ
unfolding read_digits
read_int [] = 0
read_int (c ∷ cs) = if c == b'-' then 2 ^ 32 - read_digits 0 cs else read_digits 0 (c ∷ cs)

read_int-negative : (xs : List ℕ) → read_int (b'-' ∷ xs) ≡ 2 ^ 32 - read_digits 0 xs
unfolding read_int
read_int-negative xs = refl

read_int-decimal :
    (t : ℕ) (rest : List ℕ) → read_int (decimal t ++ rest) ≡ read_digits 0 (decimal t ++ rest)
unfolding decimal read_int
read_int-decimal t rest =
    let (x, xs, e, h) = digits-head 20 t in
    let test : (x == b'-') ≡ false = ground arith in rw (e, test) refl

read_int-decimal_int :
    (n c : ℕ) (rest : List ℕ) → n < 2 ^ 32 → c < b'0' → read_int (decimal_int n ++ c ∷ rest) ≡ n
unfolding decimal_int read_digits
read_int-decimal_int n c rest h k =
    let stop : (leb b'0' c && leb c b'9') ≡ false = ground arith in
    let whole : n % 2 ^ 32 ≡ n = omega arith in
    elim (dec_lt n (2 ^ 31)) [
      | yes small ↦
          let test : ltb n (2 ^ 31) ≡ true = ground arith in
          rw (whole, test)
            (read_int-decimal n (c ∷ rest)
              ∙ read_digits-decimal n (c ∷ rest) (omega arith)
              ∙ rw stop refl)
      | no large ↦
          let test : ltb n (2 ^ 31) ≡ false = ground arith in
          let back : 2 ^ 32 - (2 ^ 32 - n) ≡ n = omega arith in
          rw (whole, test)
            (read_int-negative _
              ∙ ap (λ m. 2 ^ 32 - m)
                  (read_digits-decimal (2 ^ 32 - n) (c ∷ rest) (omega arith) ∙ rw stop refl)
              ∙ back)
    ]

-- Two numbers with the same text before and the same text without a digit behind.
pub decimal_int-injective :
    (before : List ℕ) (c : ℕ) (after : List ℕ) (m n : ℕ)
    → c < b'0'
    → m < 2 ^ 32
    → n < 2 ^ 32
    → before ++ (decimal_int m ++ c ∷ after) ≡ before ++ (decimal_int n ++ c ∷ after)
    → m ≡ n
decimal_int-injective before c after m n hc hm hn e =
    sym (read_int-decimal_int m c after hm hc)
    ∙ ap read_int (
        sym (drop-append before (decimal_int m ++ c ∷ after))
        ∙ ap (drop (length before)) e
        ∙ drop-append before (decimal_int n ++ c ∷ after))
    ∙ read_int-decimal_int n c after hn hc
