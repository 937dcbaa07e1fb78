-- ===== src/OperationMix.antt =====
-- src/benchmark/util.h: `wyhash32` and `YCSBGenerator`, which picks the operation of a YCSB workload.
-- The masks 1 and 1023 are remainders here, and the shift by 32 a quotient. The thread's
-- `wyhash32_x` is an argument and the first component of the result.
mod Counter
mod Shares
mod Tests
use Prim.Native.Nat.{bit_xor}
use fdp_rocks.Base.{ℕ, ◌+◌, ◌*◌, ◌/◌, ◌%◌, ◌^◌, ltb, ◌==◌, if◌then◌else◌, u32, u64}

pub data YcsbOpType : Type 0 where
  ycsb_write : YcsbOpType
  ycsb_read : YcsbOpType
  ycsb_query : YcsbOpType
  ycsb_read_modify_write : YcsbOpType

-- `wyhash32_x += …`
unfoldable pub advance : ℕ → ℕ
advance x = u32 (x + 0x60bee2bee120fc15)

-- `(tmp >> 32) ^ tmp`, of the product in 64 bits, as a `uint32_t`.
unfoldable pub fold_product : ℕ → ℕ → ℕ
fold_product x factor = let tmp = u64 (x * factor) in u32 (bit_xor (tmp / 2 ^ 32) tmp)

unfoldable pub wyhash32 : ℕ → ℕ × ℕ
unfolding advance fold_product
wyhash32 x =
    let x' = advance x in
    let m1 = fold_product x' 0xa3b195354a39b70d in (x', fold_product m1 0x1b03738712fad5c9)

-- The choice of each method for a random number.
unfoldable pub choose_a : ℕ → YcsbOpType
choose_a rnd_num = if (rnd_num % 2) == 0 then ycsb_read else ycsb_write

unfoldable pub choose_b : ℕ → YcsbOpType
choose_b rnd_num = if ltb (rnd_num % 1024) 51 then ycsb_write else ycsb_read

unfoldable pub choose_d : ℕ → YcsbOpType
choose_d rnd_num = if ltb (rnd_num % 1024) 51 then ycsb_write else ycsb_read

unfoldable pub choose_e : ℕ → YcsbOpType
choose_e rnd_num = if ltb (rnd_num % 1024) 51 then ycsb_write else ycsb_read

unfoldable pub choose_f : ℕ → YcsbOpType
choose_f rnd_num = if (rnd_num % 2) == 0 then ycsb_read else ycsb_read_modify_write

-- The methods. `NextC` draws no number.
unfoldable pub next_a : ℕ → ℕ × YcsbOpType
next_a x = let (x', rnd_num) = wyhash32 x in (x', choose_a rnd_num)

unfoldable pub next_b : ℕ → ℕ × YcsbOpType
next_b x = let (x', rnd_num) = wyhash32 x in (x', choose_b rnd_num)

unfoldable pub next_c : ℕ → ℕ × YcsbOpType
next_c x = (x, ycsb_read)

unfoldable pub next_d : ℕ → ℕ × YcsbOpType
next_d x = let (x', rnd_num) = wyhash32 x in (x', choose_d rnd_num)

unfoldable pub next_e : ℕ → ℕ × YcsbOpType
next_e x = let (x', rnd_num) = wyhash32 x in (x', choose_e rnd_num)

unfoldable pub next_f : ℕ → ℕ × YcsbOpType
next_f x = let (x', rnd_num) = wyhash32 x in (x', choose_f rnd_num)
