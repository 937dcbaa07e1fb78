-- ===== src/Random.antt =====
-- src/benchmark/trace.h: `Trace::Random`, a generator of 31-bit numbers. The mask 2^31 - 1 is a
-- remainder here, and the shift by 31 a quotient.
mod Lehmer
mod Tests
use fdp_rocks.Base.{ℕ, ◌+◌, ◌-◌, ◌*◌, ◌/◌, ◌%◌, ◌^◌, ltb, ◌==◌, if◌then◌else◌, u32, u64}

abbrev pub lehmer_modulus : ℕ
lehmer_modulus = 2147483647

-- `Random`: the new `seed_`, which is the result. A seed is in the range of a positive `int`.
unfoldable pub random_next : ℕ → ℕ
random_next seed =
    let product = seed * 16807 in
    let folded = u32 (product / 2 ^ 31 + product % 2 ^ 31) in
    if ltb lehmer_modulus folded then folded - lehmer_modulus else folded
