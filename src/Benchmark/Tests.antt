-- ===== src/Benchmark/Tests.antt =====
-- A run with five keys on two workers, in batches of two.
mod Stored
mod Status
use mathlib.Core.List.{reverse}
use native.Mathlib.Nat.{mod-lt}
use fdp_rocks.Base.{
  ℕ, ◌+◌, ◌*◌, ◌%◌, ◌≡◌, refl, inr, true, Option, none, some, List, [], ◌∷◌, arith, ◌==◌, not, map,
  Bool, false, if◌then◌else◌,
}
use fdp_rocks.Base.Permutation.{reverse-Perm}
use fdp_rocks.Base.Text.{codes, text_eq}
use fdp_rocks.KeyOrder.{KeyFlags, Disk, Rng, absent, missing, range_from, load_keys}
use fdp_rocks.KeyOrder.Prepare.{
  prepare_shuffled_keys, load_all, load_worker, generate_all, generated_keys, uniform_keys,
  expected_count, is_distribution,
}
use fdp_rocks.Stats.{
  new_stats, start_at, stop_at, merge_all, merge, report_done, finished_batch_op, should_print,
  set_total_ops,
}
use fdp_rocks.TransformKey.{transform_key}
use fdp_rocks.Writer.{Put, simple_random_write, make_value, copy_at}
use fdp_rocks.Writer.Value.{value_of}
use fdp_rocks.Database.{Serial, over, call, all_puts, accepted_puts, find, or_old}
use fdp_rocks.Database.Table.{table, write_table}
use fdp_rocks.Benchmark.Held.{logs_of}
use fdp_rocks.Benchmark.Stored.{run-Stored, run-AllStored}
use fdp_rocks.Benchmark.{
  WriteFlags, Surroundings, Finished, no_keys, wrong_distribution, divided_by_zero,
  negative_workers, worker_failed, finished, run, thread_work, write_of,
}
use fdp_rocks.Benchmark.Team.{all_sent, all_accepted, sent_keys}
use fdp_rocks.Benchmark.Delivery.{Delivered, run-Delivered}

abbrev pub rng : Rng
rng = record {
  Gen = ℕ;
  mt19937 = λ seed. seed;
  shuffle = λ g xs. (reverse xs, g + 1);
  zipf_draw = λ n g. (g % n, g + 1);
  hotspot_draw = λ g. (g % 1000000, g + 1);
  uniform_draw = λ lo hi g. (lo, g);
  shuffle-Perm = λ g xs. reverse-Perm xs;
  zipf_draw-lt = λ n g h. mod-lt g h;
  hotspot_draw-lt = λ g. omega arith;
  uniform_draw-le = λ lo hi g h. h;
}

abbrev pub key_flags : KeyFlags
key_flags = record {
  num = 5;
  worker_threads = 2;
  key_order_dir = codes "orders";
  key_distribution = codes "uniform";
  key_sort = codes "descending";
  key_file_path = [];
}

abbrev pub disk : Disk
disk = record { files = λ _. absent; dir = missing; opens = λ _. true; writes = λ _. true }

abbrev pub flags : WriteFlags
flags = record {
  batch = 2;
  value_size = 16;
  base_keys = 0;
  stats = record { report_interval = 1; stats_interval = 100000000 };
}

-- The database refuses the first batch of the second worker.
abbrev pub env : Surroundings
env = record {
  created = λ i. i;
  started = λ i. i + 10;
  clock = λ i n. 1000 * n + i;
  stopped = λ i. i + 9000;
  seed = λ i n. i + n;
  status = λ i n. not (i == 1);
}

abbrev pub stoull : List ℕ → Option ℕ
stoull cs = none

abbrev view : Finished → Option (List (List ℕ) × ℕ × ℕ)
view no_keys = none
view wrong_distribution = none
view divided_by_zero = none
view negative_workers = none
view worker_failed = none
view (finished ss total) = some (all_sent ss, all_accepted ss, total.done)

run_test :
    view (run flags env rng key_flags stoull disk 5)
    ≡ some (map transform_key (2 ∷ 1 ∷ 5 ∷ 4 ∷ 3 ∷ []), 2, 5)
unfolding run prepare_shuffled_keys load_all load_worker generate_all generated_keys uniform_keys
    expected_count range_from text_eq is_distribution load_keys thread_work write_of
    simple_random_write finished_batch_op should_print start_at set_total_ops transform_key
    new_stats stop_at merge_all merge report_done all_sent sent_keys all_accepted
run_test = refl

run-Delivered_example : Delivered flags env 5 (run flags env rng key_flags stoull disk 5)
unfolding text_eq
run-Delivered_example =
    run-Delivered flags env rng key_flags stoull disk 5 (omega arith) (inr (omega arith))
      (omega arith, omega arith) refl (omega arith) (omega arith) (omega arith) (omega arith)
      (omega arith) (λ path. refl)
