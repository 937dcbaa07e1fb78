-- ===== src/OperationMix/Counter.antt =====
-- The counter of `wyhash32` goes through all numbers of 32 bits.
use fdp_rocks.Base.{ℕ, zero, suc, ◌+◌, ◌-◌, ◌*◌, ◌%◌, ◌^◌, ◌≡◌, ◌<◌, ◌↔◌, sym, ap, ◌∙◌, arith, u32}
use fdp_rocks.OperationMix.{advance, wyhash32}

-- `wyhash32_x` after some calls.
after_calls : ℕ → ℕ → ℕ
after_calls zero x = x
after_calls (suc n) x = (wyhash32 (after_calls n x)).0

after_calls-sum : (n x : ℕ) → x < 2 ^ 32 → after_calls n x ≡ u32 (x + n * 3777035285)
unfolding after_calls wyhash32 advance
after_calls-sum zero x h = omega arith
after_calls-sum (suc n) x h = omega (arith, after_calls-sum n x h)

-- 2808935229 is the inverse of the increment.
calls_of : ℕ → ℕ → ℕ
calls_of x y = (y + 2 ^ 32 - x) * 2808935229 % 2 ^ 32

calls_of-sum : (n x : ℕ) → x < 2 ^ 32 → calls_of x (u32 (x + n * 3777035285)) ≡ n % 2 ^ 32
unfolding calls_of
calls_of-sum n x h = omega arith

-- The counter of wyhash32 stays below 2^32, and two numbers of calls, from one 32-bit start,
-- leave it at the same value exactly if they are equal modulo 2^32; so it goes through all 2^32
-- values before it repeats one.
after_calls_lem :
    (m n x : ℕ)
    → x < 2 ^ 32
    → (after_calls m x < 2 ^ 32) × ((after_calls m x ≡ after_calls n x) ↔ (m % 2 ^ 32 ≡ n % 2 ^ 32))
after_calls_lem m n x h = (
  omega (arith, after_calls-sum m x h),
  (
    λ e.
        sym (calls_of-sum m x h)
        ∙ ap (calls_of x) (sym (after_calls-sum m x h) ∙ e ∙ after_calls-sum n x h)
        ∙ calls_of-sum n x h,
    λ e. omega (arith, after_calls-sum m x h, after_calls-sum n x h, e),
  ),
)
