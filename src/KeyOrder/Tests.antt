-- ===== src/KeyOrder/Tests.antt =====
-- Key orders of three workers with ten keys, with generators that are easy to follow.
use mathlib.Core.List.{reverse, Perm}
use native.Mathlib.Nat.{mod-lt}
use fdp_rocks.Base.{
  All, ℕ, ◌+◌, ◌%◌, ◌≡◌, ◌≢◌, refl, true, Option, none, some, List, [], ◌∷◌, arith,
}
use fdp_rocks.Base.Permutation.{reverse-Perm}
use fdp_rocks.Base.Text.{codes, text_eq}
use fdp_rocks.KeyOrder.{
  KeyFlags, Disk, Rng, absent, missing, load_keys, save_keys, key_order_file_path, range_from,
}
use fdp_rocks.KeyOrder.Prepare.{
  expected_count, uniform_keys, prepare_shuffled_keys, load_all, load_worker, generate_all,
  generated_keys, shuffle_seed, is_distribution,
}
use fdp_rocks.KeyOrder.Allotment.{Allotted, prepare_shuffled_keys-Allotted}
use fdp_rocks.KeyOrder.Printed.{key_space, Within, prepare_shuffled_keys-Within}
use fdp_rocks.KeyOrder.Reuse.{next_run, prepare_shuffled_keys-next_run}
use fdp_rocks.KeyOrder.Files.{load_keys-save_keys, key_order_file_path-injective}
use fdp_rocks.KeyOrder.Partition.{joined, arrays_of, prepare_shuffled_keys-partition}

-- A shuffle that turns the list round, and draws that count up.
abbrev rng : Rng
rng = record {
  Gen = ℕ;
  mt19937 = λ seed. seed;
  shuffle = λ g xs. (reverse xs, g + 1);
  zipf_draw = λ n g. (g % n, g + 1);
  hotspot_draw = λ g. (g % 1000000, g + 1);
  uniform_draw = λ lo hi g. (lo, g);
  shuffle-Perm = λ g xs. reverse-Perm xs;
  zipf_draw-lt = λ n g h. mod-lt g h;
  hotspot_draw-lt = λ g. omega arith;
  uniform_draw-le = λ lo hi g h. h;
}

abbrev flags : KeyFlags
flags = record {
  num = 10;
  worker_threads = 3;
  key_order_dir = codes "orders";
  key_distribution = codes "uniform";
  key_sort = codes "random_seed";
  key_file_path = [];
}

abbrev empty_disk : Disk
empty_disk = record { files = λ _. absent; dir = missing; opens = λ _. true; writes = λ _. true }

abbrev stoull : List ℕ → Option ℕ
stoull cs = none

prepared_test :
    arrays_of rng flags stoull (prepare_shuffled_keys rng flags stoull empty_disk)
    ≡ (3 ∷ 2 ∷ 1 ∷ []) ∷ (6 ∷ 5 ∷ 4 ∷ []) ∷ (10 ∷ 9 ∷ 8 ∷ 7 ∷ []) ∷ []
unfolding prepare_shuffled_keys load_all load_worker generate_all generated_keys uniform_keys
    expected_count shuffle_seed range_from text_eq is_distribution load_keys
prepared_test = refl

prepare_shuffled_keys-Allotted_example :
    Allotted rng flags (prepare_shuffled_keys rng flags stoull empty_disk)
prepare_shuffled_keys-Allotted_example =
    prepare_shuffled_keys-Allotted rng flags stoull empty_disk (omega arith)

prepare_shuffled_keys-partition_example :
    Perm
      (joined (arrays_of rng flags stoull (prepare_shuffled_keys rng flags stoull empty_disk)))
      (range_from 1 10)
unfolding text_eq
prepare_shuffled_keys-partition_example =
    prepare_shuffled_keys-partition rng flags stoull empty_disk refl (omega arith) (omega arith)
      (λ path. refl)

load_keys-save_keys_example :
    load_keys flags (save_keys flags empty_disk 2 (7 ∷ 300 ∷ [])).1 2 [] ≡ (true, 7 ∷ 300 ∷ [])
unfolding save_keys
load_keys-save_keys_example =
    load_keys-save_keys flags empty_disk 2 (7 ∷ 300 ∷ []) [] (omega arith, (omega arith, tt)) refl

key_order_file_path-injective_example : key_order_file_path flags 1 ≢ key_order_file_path flags 2
key_order_file_path-injective_example =
    key_order_file_path-injective flags 1 2 refl (omega arith) (omega arith) (omega arith)

abbrev zipfian_flags : KeyFlags
zipfian_flags = record flags { key_distribution = codes "zipfian" }

key_space_test : key_space zipfian_flags ≡ (0, 2)
unfolding key_space text_eq
key_space_test = refl

prepare_shuffled_keys-Within_example :
    All (Within (key_space zipfian_flags)) (
      arrays_of rng zipfian_flags stoull
        (prepare_shuffled_keys rng zipfian_flags stoull empty_disk))
unfolding is_distribution text_eq
prepare_shuffled_keys-Within_example =
    prepare_shuffled_keys-Within rng zipfian_flags stoull (omega arith) refl (omega arith)
      empty_disk (λ path. refl)

prepare_shuffled_keys-next_run_example :
    next_run rng flags stoull (λ cs. some 5) (prepare_shuffled_keys rng flags stoull empty_disk)
    ≡ prepare_shuffled_keys rng flags stoull empty_disk
prepare_shuffled_keys-next_run_example =
    prepare_shuffled_keys-next_run rng flags stoull (λ cs. some 5) empty_disk refl (omega arith)
      (omega arith) (refl, λ path. refl, λ path. refl)
