-- ===== src/Prefill/Success.antt =====
-- Runs of the prefill tool in which every call does what it is asked for.
use fdp_rocks.Base.{
  ℕ, zero, suc, ◌+◌, ◌-◌, ◌/◌, ◌%◌, ◌^◌, ◌<◌, ◌≤◌, ◌≡◌, refl, ap, ◌∙◌, true, false, some, List, [],
  ◌∷◌, ◌++◌, arith, dec_lt, ltb, ◌==◌, u64, min, replicate,
}
use fdp_rocks.Base.Int.{pos, negsuc, pos_part}
use fdp_rocks.Prefill.{
  Result, Event, opened, allocated, wrote, Run, Calls, buffer_size, fill_byte, after_events,
  progress_of, finish, after_write, write_loop, fill_target,
}
use fdp_rocks.Prefill.Loop.{total}

-- A call of `write`.
abbrev pub writing : Event → ℕ
writing (wrote size) = 1
writing e = 0

-- A step of the loop that takes the whole chunk.
after_write-full :
    (size target written : ℕ) (file : List ℕ) (rest : ℕ → List ℕ → Run)
    → 0 < size
    → after_write (pos size) target size written file rest
      ≡ after_events
          (wrote size ∷ progress_of target (u64 (written + size)))
          (rest (u64 (written + size)) (file ++ replicate size fill_byte))
unfolding after_write
after_write-full zero target written file rest h = absurd (omega arith)
after_write-full (suc n) target written file rest h = refl

total-step :
    (size target written : ℕ) (r : Run)
    → total writing (after_events (wrote size ∷ progress_of target written) r).events
      ≡ 1 + total writing r.events
unfolding after_events progress_of
total-step size target written r = ground arith

after_write-code :
    (result : Result) (target size written : ℕ) (file : List ℕ) (rest : ℕ → List ℕ → Run)
    → target < 2 ^ 64
    → (0 < pos_part result) × (pos_part result ≤ size)
    → written + size ≤ target
    → ((n : ℕ) (bs : List ℕ) → written < n → n ≤ target → (rest n bs).code ≡ some 0)
    → (after_write result target size written file rest).code ≡ some 0
unfolding after_write after_events
after_write-code (pos zero) target size written file rest small t h ok = absurd (omega arith)
after_write-code (negsuc n) target size written file rest small t h ok = absurd (omega arith)
after_write-code (pos (suc n)) target size written file rest small t h ok =
    ok (u64 (written + suc n)) _ (omega arith) (omega arith)

module _ (k : Calls) (target : ℕ) (synced_fine : k.sync_result ≡ pos 0)
    (small : target < 2 ^ 64) where
  -- If every call of `write` for some bytes takes some of them, the loop comes to the end.
  write_loop-code :
      ((i n : ℕ)
        → 0 < n
        → (0 < pos_part (k.write_result i n)) × (pos_part (k.write_result i n) ≤ n))
      → (fuel i written : ℕ) (file : List ℕ) → written ≤ target
      → target - written < fuel
      → (write_loop k target fuel i written file).code ≡ some 0
  unfolding write_loop finish
  write_loop-code takes zero i written file h e = absurd (omega arith)
  write_loop-code takes (suc fuel) i written file h e = elim (dec_lt written target) [
    | yes p ↦
        let test : ltb written target ≡ true = ground arith in
        let size = min buffer_size (target - written) in
        rw test (
          after_write-code (k.write_result i size) target size written file
            (write_loop k target fuel (i + 1)) small (takes i size (omega arith)) (omega arith)
            (λ n bs lt le. write_loop-code takes fuel (i + 1) n bs le (omega arith)))
    | no np ↦
        let test : ltb written target ≡ false = ground arith in
        rw test (rw (synced_fine, finish) refl)
  ]

  -- If every call takes all its bytes, they are as many as there are chunks.
  write_loop-writes :
      ((i n : ℕ) → k.write_result i n ≡ pos n)
      → (fuel i written : ℕ) (file : List ℕ) → written ≤ target
      → target - written < fuel
      → total writing (write_loop k target fuel i written file).events
        ≡ (target - written + 4194303) / 4194304
  unfolding write_loop finish
  write_loop-writes full zero i written file h e = absurd (omega arith)
  write_loop-writes full (suc fuel) i written file h e = elim (dec_lt written target) [
    | yes p ↦
        let test : ltb written target ≡ true = ground arith in
        let size = min buffer_size (target - written) in
        let next : u64 (written + size) ≡ written + size = omega arith in
        let file' = file ++ replicate size fill_byte in
        let r = write_loop k target fuel (i + 1) (u64 (written + size)) file' in
        let ih =
          write_loop-writes full fuel (i + 1) (u64 (written + size)) file' (omega arith)
            (omega arith) in
        let step : after_write (k.write_result i size) target size written file
              (write_loop k target fuel (i + 1))
            ≡ after_events (wrote size ∷ progress_of target (u64 (written + size))) r =
          ap
            (λ result.
              after_write result target size written file (write_loop k target fuel (i + 1)))
            (full i size)
          ∙ after_write-full size target written file (write_loop k target fuel (i + 1))
              (omega arith) in
        rw test (
          ap (λ (r : Run). total writing r.events) step
          ∙ total-step size target (u64 (written + size)) r
          ∙ omega (arith, ih))
    | no np ↦
        let test : ltb written target ≡ false = ground arith in
        let all : written ≡ target = omega arith in rw test (rw (synced_fine, finish) (omega arith))
  ]

  module _ (opens : k.open_fine ≡ true) (allocates : k.memalign_fine ≡ true) (positive : 0 < target)
      (aligned : target % 4096 ≡ 0) where
    fill_target-loop :
        (fuel : ℕ)
        → fill_target k fuel target
          ≡ after_events (opened ∷ allocated ∷ []) (write_loop k target fuel 0 0 [])
    unfolding fill_target
    fill_target-loop fuel =
        let zero_test : (target == 0) ≡ false = ground arith in
        let page_test : (target % 4096 == 0) ≡ true = ground arith in
        rw (zero_test) (rw page_test (rw opens (rw allocates refl)))

-- If open, posix_memalign and fsync succeed and every call of write for some bytes takes at
-- least one of them and no more than it was asked for, then for a positive size below 2^64 that
-- is a multiple of 4096 the prefill tool comes to the exit code 0, with more fuel than the size.
pub fill_target-code :
    (k : Calls) (target fuel : ℕ)
    → k.open_fine ≡ true
    → k.memalign_fine ≡ true
    → k.sync_result ≡ pos 0
    → ((i n : ℕ)
        → 0 < n
        → (0 < pos_part (k.write_result i n)) × (pos_part (k.write_result i n) ≤ n))
    → 0 < target
    → target % 4096 ≡ 0
    → target < 2 ^ 64
    → target < fuel
    → (fill_target k fuel target).code ≡ some 0
unfolding after_events
fill_target-code k target fuel o m s takes p a small enough =
    ap (λ (r : Run). r.code) (fill_target-loop k target s small o m p a fuel)
    ∙ write_loop-code k target s small takes fuel 0 0 [] (omega arith) (omega arith)

-- If open, posix_memalign and fsync succeed and every call of write takes all its bytes, then
-- for a positive size below 2^64 that is a multiple of 4096, and with more fuel than the size,
-- the prefill tool calls write once for each 4 MiB or part of them.
pub fill_target-writes :
    (k : Calls) (target fuel : ℕ)
    → k.open_fine ≡ true
    → k.memalign_fine ≡ true
    → k.sync_result ≡ pos 0
    → ((i n : ℕ) → k.write_result i n ≡ pos n)
    → 0 < target
    → target % 4096 ≡ 0
    → target < 2 ^ 64
    → target < fuel
    → total writing (fill_target k fuel target).events ≡ (target + 4194303) / 4194304
unfolding after_events
fill_target-writes k target fuel o m s full p a small enough =
    ap (λ (r : Run). total writing r.events) (fill_target-loop k target s small o m p a fuel)
    ∙ omega (arith, write_loop-writes k target s small full fuel 0 0 [] (omega arith) (omega arith))
