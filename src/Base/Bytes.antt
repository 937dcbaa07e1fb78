-- ===== src/Base/Bytes.antt =====
-- Bytes in memory: the layout of integers on a little-endian machine, and `memcmp`.
use fdp_rocks.Base.{
  ℕ, zero, suc, ◌+◌, ◌*◌, ◌/◌, ◌%◌, ◌^◌, ◌<◌, ◌≡◌, refl, ap, List, [], ◌∷◌, ◌++◌, arith, ltb, ◌==◌,
  if◌then◌else◌, length,
}
use fdp_rocks.Base.Int.{ℤ, pos, negsuc}
use native.Mathlib.Nat.{pow-suc}

-- The `n` low bytes of a number, lowest first.
abbrev pub le_bytes : ℕ → ℕ → List ℕ
le_bytes zero x = []
le_bytes (suc n) x = (x % 256) ∷ le_bytes n (x / 256)

abbrev pub of_le_bytes : List ℕ → ℕ
of_le_bytes [] = 0
of_le_bytes (b ∷ bs) = b + 256 * of_le_bytes bs

-- The `n` low bytes, highest first.
abbrev pub be_bytes : ℕ → ℕ → List ℕ
be_bytes zero x = []
be_bytes (suc n) x = be_bytes n (x / 256) ++ (x % 256) ∷ []

abbrev pub three_way : ℕ → ℕ → ℤ
three_way a b = if ltb a b then negsuc 0 else if ltb b a then pos 1 else pos 0

-- The sign of the first difference among the first `n` bytes. The C function's result has this
-- sign, which is all that its callers use.
unfoldable pub memcmp : List ℕ → List ℕ → ℕ → ℤ
memcmp [] ys n = pos 0
memcmp (x ∷ xs) [] n = pos 0
memcmp (x ∷ xs) (y ∷ ys) zero = pos 0
memcmp (x ∷ xs) (y ∷ ys) (suc n) = if x == y then memcmp xs ys n else three_way x y

pub length-le_bytes : (n x : ℕ) → length (le_bytes n x) ≡ n
length-le_bytes zero x = refl
length-le_bytes (suc n) x = ap suc (length-le_bytes n (x / 256))

pub of_le_bytes-le_bytes : (n x : ℕ) → x < 256 ^ n → of_le_bytes (le_bytes n x) ≡ x
of_le_bytes-le_bytes zero x h = omega arith
of_le_bytes-le_bytes (suc n) x h =
    omega (arith, of_le_bytes-le_bytes n (x / 256) (omega (arith, pow-suc 256 n)))

-- The first result, unless it is "equal".
abbrev pub then_by : ℤ → ℤ → ℤ
then_by (pos zero) r = r
then_by (pos (suc k)) r = pos (suc k)
then_by (negsuc k) r = negsuc k

pub memcmp-snoc :
    (xs ys : List ℕ) (a b n : ℕ)
    → length xs ≡ n
    → length ys ≡ n
    → memcmp (xs ++ a ∷ []) (ys ++ b ∷ []) (suc n) ≡ then_by (memcmp xs ys n) (three_way a b)
unfolding memcmp
memcmp-snoc [] [] a b n e f = ground arith
memcmp-snoc [] (y ∷ ys) a b n e f = absurd (omega arith)
memcmp-snoc (x ∷ xs) [] a b n e f = absurd (omega arith)
memcmp-snoc (x ∷ xs) (y ∷ ys) a b zero e f = absurd (omega arith)
memcmp-snoc (x ∷ xs) (y ∷ ys) a b (suc n) e f =
    ground (arith, memcmp-snoc xs ys a b n (omega arith) (omega arith))
