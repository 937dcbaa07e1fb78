-- ===== src/Slice.antt =====
-- src/benchmark/slice.h: the comparisons of `Slice`. A slice is the list of the bytes that it refers
-- to; `memcmp` answers with -1, 0 or 1.
mod Order
mod Tests
use fdp_rocks.Base.{
  ℕ, ◌<◌, Bool, true, false, not, ◌&&◌, List, [], ◌∷◌, ltb, ◌==◌, if◌then◌else◌, length, min,
}
use fdp_rocks.Base.Bytes.{memcmp}
use fdp_rocks.Base.Int.{ℤ, pos, negsuc}

unfoldable pub is_zero : ℤ → Bool
is_zero (pos n) = n == 0
is_zero (negsuc n) = false

-- `min_len`
unfoldable pub min_len : ℕ → ℕ → ℕ
min_len m n = if ltb m n then m else n

-- The sizes decide where the common bytes do not.
unfoldable pub by_size : ℤ → ℕ → ℕ → ℤ
unfolding is_zero
by_size r m n = if is_zero r then if ltb m n then negsuc 0 else if ltb n m then pos 1 else r else r

-- `compare`
unfoldable pub compare : List ℕ → List ℕ → ℤ
unfolding min_len by_size
compare a b = by_size (memcmp a b (min_len (length a) (length b))) (length a) (length b)

-- `operator==`
unfoldable pub slice_eq : List ℕ → List ℕ → Bool
unfolding is_zero
slice_eq x y = length x == length y && is_zero (memcmp x y (length x))

unfoldable pub is_negative : ℤ → Bool
is_negative (pos n) = false
is_negative (negsuc n) = true

-- `operator<`
unfoldable pub slice_lt : List ℕ → List ℕ → Bool
unfolding is_negative compare
slice_lt a b = is_negative (compare a b)

unfoldable pub is_positive : ℤ → Bool
is_positive (pos n) = ltb 0 n
is_positive (negsuc n) = false

-- `operator>`
unfoldable pub slice_gt : List ℕ → List ℕ → Bool
unfolding is_positive compare
slice_gt a b = is_positive (compare a b)

-- `operator!=`
unfoldable pub slice_ne : List ℕ → List ℕ → Bool
slice_ne x y = not (slice_eq x y)
