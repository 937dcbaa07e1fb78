-- ===== src/Benchmark/Tests/Stored.antt =====
-- The calls of the run with five keys on a table in memory, in one of their orders.
use fdp_rocks.Base.{
  map, ◌⊎◌, ℕ, ◌+◌, ◌≡◌, refl, inr, true, Option, none, some, List, [], ◌∷◌, arith, ◌==◌, Bool,
  false, if◌then◌else◌,
}
use fdp_rocks.Base.Text.{text_eq}
use fdp_rocks.KeyOrder.{range_from, load_keys}
use fdp_rocks.KeyOrder.Prepare.{
  prepare_shuffled_keys, load_all, load_worker, generate_all, generated_keys, uniform_keys,
  expected_count, is_distribution,
}
use fdp_rocks.Stats.{
  new_stats, start_at, stop_at, merge_all, merge, report_done, finished_batch_op, should_print,
  set_total_ops,
}
use fdp_rocks.TransformKey.{transform_key}
use fdp_rocks.Writer.{Put, simple_random_write}
use fdp_rocks.Writer.Value.{value_of}
use fdp_rocks.Database.{Log, Serial, over, call, all_puts, find, or_old}
use fdp_rocks.Database.Table.{table, write_table}
use fdp_rocks.Benchmark.Held.{logs_of}
use fdp_rocks.Benchmark.Origin.{OfNumber, run-Origin}
use fdp_rocks.Database.Lookup.{puts_at}
use fdp_rocks.Benchmark.Statuses.{with_statuses, run-logs}
use fdp_rocks.Writer.Spec.{contents}
use fdp_rocks.Benchmark.Stored.{run-Stored, run-AllStored}
use fdp_rocks.Benchmark.{Surroundings, run, thread_work, write_of}
use fdp_rocks.Benchmark.Tests.{rng, key_flags, disk, flags, env, stoull}

-- The pair of a key, with the seed that its worker has for it.
abbrev pair : ℕ → ℕ → Put
pair seed key = record { key = transform_key key; value = value_of 16 seed key }

-- The three calls: the second worker's first batch, the first worker's, the second worker's rest.
-- The database has an older value at key 5, and refuses the calls of the second worker.
abbrev old : List ℕ → Option (List ℕ)
old key = if text_eq key (transform_key 5) then some (9 ∷ []) else none

abbrev second_of_three : ℕ → Bool
second_of_three n = n == 1

abbrev left : ℕ × (List ℕ → Option (List ℕ))
left =
    (write_table second_of_three
      (write_table second_of_three
        (write_table second_of_three (0, old) (pair 1 5 ∷ pair 2 4 ∷ [])).1
        (pair 0 2 ∷ pair 1 1 ∷ [])).1
      (pair 3 3 ∷ [])).1

calls :
    Serial
      (table second_of_three)
      left
      (logs_of (run flags env rng key_flags stoull disk 5))
      (0, old)
unfolding run prepare_shuffled_keys load_all load_worker generate_all generated_keys uniform_keys
    expected_count range_from text_eq is_distribution load_keys thread_work write_of
    simple_random_write finished_batch_op should_print start_at set_total_ops new_stats stop_at
    merge_all merge report_done logs_of write_table transform_key value_of
calls =
    call ((((pair 0 2 ∷ pair 1 1 ∷ []), true) ∷ []) ∷ []) [] (pair 1 5 ∷ pair 2 4 ∷ []) false
      (((pair 3 3 ∷ []), false) ∷ []) refl refl
      (call [] ((((pair 3 3 ∷ []), false) ∷ []) ∷ []) (pair 0 2 ∷ pair 1 1 ∷ []) true [] refl refl
        (call ([] ∷ []) [] (pair 3 3 ∷ []) false [] refl refl (over (refl, (refl, tt)) refl)))

run-Stored_example :
    left.1 (transform_key 5)
    ≡ or_old
        (find (transform_key 5) (all_puts (logs_of (run flags env rng key_flags stoull disk 5))))
        (old (transform_key 5))
unfolding text_eq
run-Stored_example =
    run-Stored flags env rng key_flags stoull disk 5 (omega arith) (inr (omega arith))
      (omega arith, omega arith) refl (omega arith) (omega arith) (omega arith) (omega arith)
      (omega arith) (λ path. refl) (table second_of_three) (0, old) left calls (transform_key 5)

run-Origin_example :
    ((puts_at (transform_key 2) (all_puts (logs_of (run flags env rng key_flags stoull disk 5)))
        ≡ 0)
      × (left.1 (transform_key 2) ≡ old (transform_key 2)))
    ⊎ OfNumber flags env (transform_key 2) (left.1 (transform_key 2))
run-Origin_example =
    run-Origin flags env rng key_flags stoull disk 5 (omega arith) (inr (omega arith))
      (omega arith, omega arith) (omega arith) (omega arith) (table second_of_three) (0, old) left
      calls (transform_key 2)

-- The same calls on a database that refuses none.
abbrev fine_env : Surroundings
fine_env = record env { status = λ i n. true }

abbrev all_of_three : ℕ → Bool
all_of_three n = true

abbrev left_fine : ℕ × (List ℕ → Option (List ℕ))
left_fine =
    (write_table all_of_three
      (write_table all_of_three (write_table all_of_three (0, old) (pair 1 5 ∷ pair 2 4 ∷ [])).1
        (pair 0 2 ∷ pair 1 1 ∷ [])).1
      (pair 3 3 ∷ [])).1

fine_calls :
    Serial
      (table all_of_three)
      left_fine
      (logs_of (run flags fine_env rng key_flags stoull disk 5))
      (0, old)
unfolding run prepare_shuffled_keys load_all load_worker generate_all generated_keys uniform_keys
    expected_count range_from text_eq is_distribution load_keys thread_work write_of
    simple_random_write finished_batch_op should_print start_at set_total_ops new_stats stop_at
    merge_all merge report_done logs_of write_table transform_key value_of
fine_calls =
    call ((((pair 0 2 ∷ pair 1 1 ∷ []), true) ∷ []) ∷ []) [] (pair 1 5 ∷ pair 2 4 ∷ []) true
      (((pair 3 3 ∷ []), true) ∷ []) refl refl
      (call [] ((((pair 3 3 ∷ []), true) ∷ []) ∷ []) (pair 0 2 ∷ pair 1 1 ∷ []) true [] refl refl
        (call ([] ∷ []) [] (pair 3 3 ∷ []) true [] refl refl (over (refl, (refl, tt)) refl)))

run-AllStored_example :
    (i : ℕ) × (j : ℕ) × (left_fine.1 (transform_key 5) ≡ some (value_of 16 (i + j) 5))
unfolding text_eq
run-AllStored_example =
    run-AllStored flags fine_env rng key_flags stoull disk 5 (omega arith) (inr (omega arith))
      (omega arith, omega arith) refl (omega arith) (omega arith) (omega arith) (omega arith)
      (omega arith) (λ path. refl) (table all_of_three) (0, old) left_fine fine_calls 5
      (λ i n. refl) (omega arith) (omega arith)

-- The same batches, with the statuses of a database that refuses only the first worker.
abbrev other_logs : List Log
other_logs =
    (((pair 0 2 ∷ pair 1 1 ∷ []), false) ∷ [])
    ∷ (((pair 1 5 ∷ pair 2 4 ∷ []), true) ∷ ((pair 3 3 ∷ []), true) ∷ [])
    ∷ []

same_batches :
    map contents other_logs ≡ map contents (logs_of (run flags env rng key_flags stoull disk 5))
unfolding run prepare_shuffled_keys load_all load_worker generate_all generated_keys uniform_keys
    expected_count range_from text_eq is_distribution load_keys thread_work write_of
    simple_random_write finished_batch_op should_print start_at set_total_ops new_stats stop_at
    merge_all merge report_done logs_of write_table transform_key value_of
same_batches = refl

run-logs_example :
    logs_of (run flags (with_statuses other_logs env) rng key_flags stoull disk 5) ≡ other_logs
run-logs_example =
    run-logs flags env rng key_flags stoull disk 5 (omega arith) (inr (omega arith))
      (omega arith, omega arith) (omega arith) (omega arith) other_logs same_batches
