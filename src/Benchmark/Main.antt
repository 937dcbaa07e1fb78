-- ===== src/Benchmark/Main.antt =====
-- src/benchmark/rocksdb_bench.cpp: `main`, with the constructor of `Benchmark` and `Run`, and the
-- exit code of the program.
--
-- `opens` says whether `rocksdb::DB::Open` succeeds. The field `value_size` of the flags holds the
-- flag here, a `uint64_t`; the constructor stores it in an `int`.
use fdp_rocks.Base.{ℕ, ◌%◌, ◌^◌, Bool, Option, none, some, List, ltb, ◌==◌, if◌then◌else◌}
use fdp_rocks.KeyOrder.{KeyFlags, Disk, Rng, is_empty}
use fdp_rocks.KeyOrder.Partition.{joined}
use fdp_rocks.KeyOrder.Prepare.{
  Prepared, bad_distribution, zero_division, arrays, prepare_shuffled_keys,
}
use fdp_rocks.Benchmark.{
  WriteFlags, Surroundings, Finished, no_keys, wrong_distribution, divided_by_zero,
  negative_workers, worker_failed, finished, run,
}

-- `value_size_ (FLAGS_value_size)`: the low 32 bits as an `int`; `none` is a negative number.
unfoldable pub value_size_of : ℕ → Option ℕ
value_size_of flag = if ltb (flag % 2 ^ 32) (2 ^ 31) then some (flag % 2 ^ 32) else none

-- The program ends with a code; or it is killed, runs on for ever, or writes out of range.
pub data Exit : Type 0 where
  exit_code : ℕ → Exit
  broken : Exit

unfoldable pub exit_of : Finished → Exit
exit_of no_keys = exit_code 1
exit_of wrong_distribution = exit_code 1
exit_of divided_by_zero = broken
exit_of negative_workers = broken
exit_of worker_failed = broken
exit_of (finished ss total) = exit_code 0

-- The end of the constructor: `exit (1)` if the database does not open.
unfoldable pub after_open : Bool → Exit → Exit
after_open opens rest = if opens then rest else exit_code 1

-- The workers with a negative size: `rValue.resize` throws at the first key, and nothing catches it.
module _ (r : Rng) (f : KeyFlags) where
  unfoldable pub negative_size : Prepared r f → Exit
  negative_size bad_distribution = exit_code 1
  negative_size zero_division = broken
  negative_size (arrays kss disk) =
      if ltb f.worker_threads (2 ^ 31)
      then if is_empty (joined kss) then exit_code 0 else broken
      else broken

module _ (env : Surroundings) (r : Rng) (f : KeyFlags) (stoull : List ℕ → Option ℕ) where
  -- `Run`, with the size that the constructor has stored.
  unfoldable pub run_with : WriteFlags → Disk → ℕ → Option ℕ → Exit
  unfolding negative_size exit_of
  run_with w disk fuel (some size) =
      exit_of (run (record w { value_size = size }) env r f stoull disk fuel)
  run_with w disk fuel none =
      if f.num == 0 then exit_code 1 else negative_size r f (prepare_shuffled_keys r f stoull disk)

  -- `main`
  unfoldable pub main : Bool → WriteFlags → Disk → ℕ → Exit
  unfolding after_open run_with value_size_of
  main opens w disk fuel = after_open opens (run_with w disk fuel (value_size_of w.value_size))
