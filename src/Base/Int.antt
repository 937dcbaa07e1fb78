-- ===== src/Base/Int.antt =====
-- Signed integers over the native numbers: results of calls and of comparisons.
use fdp_rocks.Base.{ℕ}

-- `negsuc n` is -(n + 1).
pub data ℤ : Type 0 where
  pos : ℕ → ℤ
  negsuc : ℕ → ℤ

abbrev pub pos_part : ℤ → ℕ
pos_part (pos n) = n
pos_part (negsuc n) = 0
