-- ===== src/Benchmark/Tests/Status.antt =====
-- How the program ends on some flags.
use fdp_rocks.Base.{◌+◌, ◌≡◌, refl, true, some, arith}
use fdp_rocks.Base.Text.{text_eq}
use fdp_rocks.KeyOrder.{range_from, load_keys}
use fdp_rocks.KeyOrder.Prepare.{
  prepare_shuffled_keys, load_all, load_worker, generate_all, generated_keys, uniform_keys,
  expected_count, is_distribution,
}
use fdp_rocks.Benchmark.Main.{after_open, main, value_size_of, run_with, negative_size, broken}
use fdp_rocks.Benchmark.Status.{EndsAs, main-EndsAs}
use fdp_rocks.Benchmark.Tests.{rng, key_flags, disk, flags, env, stoull}

-- The flag 2^32 + 800 is stored as 800, and 2^31 as a negative number.
narrowed_test : value_size_of (4294967296 + 800) ≡ some 800
unfolding value_size_of
narrowed_test = refl

negative_test :
    main env rng key_flags stoull true (record flags { value_size = 2147483648 }) disk 5 ≡ broken
unfolding main after_open run_with value_size_of negative_size prepare_shuffled_keys load_all
    load_worker generate_all generated_keys uniform_keys expected_count range_from text_eq
    is_distribution load_keys
negative_test = refl

main-EndsAs_example :
    EndsAs env rng key_flags stoull flags true (main env rng key_flags stoull true flags disk 5)
main-EndsAs_example =
    main-EndsAs env rng key_flags stoull flags disk 5 (omega arith, omega arith) (omega arith)
      (omega arith) true
