-- ===== src/Prefill/Tests.antt =====
-- Sizes that the prefill tool reads, and runs of it.
use mathlib.Core.List.{append-nil}
use fdp_rocks.Base.{
  ℕ, ◌*◌, ◌%◌, ◌^◌, ◌<◌, ◌≡◌, refl, sym, ap, ◌∙◌, true, Option, some, List, [], ◌∷◌, ◌++◌, arith,
  min, replicate,
}
use fdp_rocks.Base.Int.{pos}
use fdp_rocks.Base.Text.{codes, decimal, read_digits, read_digits-decimal}
use fdp_rocks.Prefill.{
  is_digit, split_last, unit_factor, parse_size, write_loop, opened, allocated, wrote, progress,
  synced, freed, closed, reported, fill_byte, Calls, fill_main, fill_target,
}
use fdp_rocks.Prefill.Sizes.{parse_size_lem}
use fdp_rocks.Prefill.Loop.{Ends, total}
use fdp_rocks.Prefill.Success.{writing, fill_target-code, fill_target-writes}
use fdp_rocks.Prefill.Total.{size_of, fill_main-Ends}

-- Reads the digits at the head of a text.
abbrev stoull : List ℕ → Option ℕ
stoull cs = some (read_digits 0 cs)

stoull-decimal : (n : ℕ) → n < 2 ^ 64 → stoull (decimal n) ≡ some n
unfolding read_digits
stoull-decimal n h =
    ap some
      (ap (read_digits 0) (sym (append-nil (decimal n))) ∙ read_digits-decimal n [] (omega arith))

parse_size_lem_example :
    (parse_size stoull (decimal 60) ≡ 60)
    × (parse_size stoull (decimal 60 ++ b'G' ∷ []) ≡ 60 * 2 ^ 30 % 2 ^ 64)
    × (parse_size stoull (decimal 60 ++ b'B' ∷ []) ≡ 0)
unfolding unit_factor is_digit
parse_size_lem_example =
    parse_size_lem stoull stoull-decimal 60 b'G' (2 ^ 30) b'B' (omega arith) refl refl refl

-- The first call of `write` writes half of what it is asked for, the others everything.
abbrev calls : Calls
calls = record {
  open_fine = true;
  memalign_fine = true;
  write_result = λ i n. pos (min n 2048);
  sync_result = pos 0;
}

fill_test : fill_target calls 9 4096 ≡ record {
  code = some 0;
  written = 4096;
  file = some (replicate 4096 fill_byte);
  events =
      opened
      ∷ allocated
      ∷ wrote 4096
      ∷ wrote 2048
      ∷ progress 4096
      ∷ synced
      ∷ freed
      ∷ closed
      ∷ reported 4096
      ∷ [];
}
unfolding fill_target write_loop
fill_test = refl

-- `fill 4K out`
abbrev args : List (List ℕ)
args = codes "fill" ∷ codes "4K" ∷ codes "out" ∷ []

fill_main-Ends_example : Ends (size_of stoull args) 0 (fill_main stoull calls 5000 args)
unfolding parse_size split_last read_digits
fill_main-Ends_example = fill_main-Ends stoull calls 5000 args (λ i n. omega arith) (omega arith)

fill_target-code_example : (fill_target calls 8193 8192).code ≡ some 0
fill_target-code_example =
    fill_target-code calls 8192 8193 refl refl refl (λ i n h. omega arith) (omega arith)
      (omega arith) (omega arith) (omega arith)

-- Every call takes everything.
abbrev full_calls : Calls
full_calls = record calls { write_result = λ i n. pos n }

fill_target-writes_example : total writing (fill_target full_calls 5242881 5242880).events ≡ 2
fill_target-writes_example =
    fill_target-writes full_calls 5242880 5242881 refl refl refl (λ i n. refl) (omega arith)
      (omega arith) (omega arith) (omega arith)
