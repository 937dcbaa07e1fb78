-- ===== src/Benchmark.antt =====
-- src/benchmark/rocksdb_bench.cpp: `Benchmark::Run`, with the key orders, the workers and the merge
-- of their statistics put together.
--
-- The workers write into one database at the same time. What a worker sees of that is the status of
-- each of its calls of `Write`: `status i n` for the `n`-th call of worker `i`, whatever order the
-- database takes the calls in. The barrier lets no worker start before the others are there and lets
-- the main thread merge when all are done, so the workers run here one after the other.
mod Team
mod Delivery
mod Keys
mod Held
mod Stored
mod Statuses
mod Origin
mod Main
mod Workers
mod Status
mod Tests
use mathlib.Core.Option
use fdp_rocks.Base.{
  ℕ, zero, suc, ◌+◌, Bool, true, false, Option, none, some, List, [], ◌∷◌, ◌==◌, ltb, ◌^◌,
  if◌then◌else◌, map,
}
use fdp_rocks.KeyOrder.{KeyFlags, Disk, Rng}
use fdp_rocks.KeyOrder.Prepare.{
  Prepared, bad_distribution, zero_division, arrays, prepare_shuffled_keys,
}
use fdp_rocks.Stats.{Flags, Stats, new_stats, start_at, stop_at, merge_all, report_done}
use fdp_rocks.Writer.{Put, Config, State, Outcome, returned, overrun, stuck, simple_random_write}

-- The flags beside those of the key orders, with `value_size_`.
pub record WriteFlags : Type 0 where
  pub batch : ℕ
  pub value_size : ℕ
  pub base_keys : ℕ
  pub stats : Flags

-- What a worker meets: its clocks, its value seeds and the statuses of its calls of `Write`.
pub record Surroundings : Type 0 where
  pub created : ℕ → ℕ
  pub started : ℕ → ℕ
  pub clock : ℕ → ℕ → ℕ
  pub stopped : ℕ → ℕ
  pub seed : ℕ → ℕ → ℕ
  pub status : ℕ → ℕ → Bool

-- How `Run` ends: `exit (1)` without keys or for the name of the distribution, a division by zero
-- without workers, a number of workers that is negative as an `int`, a worker that does not come
-- back properly, or what each worker has done and the merged statistics.
pub data Finished : Type 0 where
  no_keys : Finished
  wrong_distribution : Finished
  divided_by_zero : Finished
  negative_workers : Finished
  worker_failed : Finished
  finished : List (State ℕ) → Stats → Finished

module _ (w : WriteFlags) (env : Surroundings) where
  -- The calls of `Write` of one worker, with the number of calls made as their state.
  unfoldable pub write_of : ℕ → ℕ → List Put → Bool × ℕ
  write_of i n batch = (env.status i n, n + 1)

  abbrev pub config_of : ℕ → Config
  config_of i = record {
    tid = i;
    batch = w.batch;
    value_size = w.value_size;
    base_keys = w.base_keys;
    flags = w.stats;
  }

  -- `ThreadBody` between its two blocks, on a new `ThreadState`; `none` is a method that does not
  -- return.
  unfoldable pub thread_work : ℕ → ℕ → List ℕ → Option (State ℕ)
  thread_work fuel i keys =
      let st = start_at w.stats (new_stats w.stats i (env.created i)) (env.started i) in
      elim (simple_random_write (write_of i) (env.clock i) (env.seed i) (config_of i) fuel st 0
        keys) [
          | returned s ↦ some (record s { stats = stop_at s.stats (env.stopped i) })
          | overrun ↦ none
          | stuck ↦ none
        ]

  -- The workers from `i` on, each on its array.
  unfoldable pub run_workers : ℕ → ℕ → List (List ℕ) → Option (List (State ℕ))
  unfolding thread_work
  run_workers fuel i [] = some []
  run_workers fuel i (keys ∷ rest) = elim (thread_work fuel i keys) [
    | none ↦ none
    | some s ↦ Option.map (λ ss. s ∷ ss) (run_workers fuel (i + 1) rest)
  ]

  -- The merge of the others into the first, and its report.
  unfoldable pub merged : List (State ℕ) → Finished
  merged [] = divided_by_zero
  merged (s ∷ ss) =
      finished (s ∷ ss) (report_done (merge_all s.stats (map (λ (t : State ℕ). t.stats) ss)))

  -- `RunBenchmark` on the arrays.
  unfoldable pub run_benchmark : ℕ → List (List ℕ) → Finished
  unfolding run_workers merged
  run_benchmark fuel kss = elim (run_workers fuel 0 kss) [
    | none ↦ worker_failed
    | some ss ↦ merged ss
  ]

  module _ (r : Rng) (f : KeyFlags) where
    -- The call of `RunBenchmark`, whose `thread_num` is an `int`: of a negative one `new ThreadArg[…]`
    -- throws, and nothing catches it.
    unfoldable pub after_prepare : ℕ → Prepared r f → Finished
    unfolding run_benchmark
    after_prepare fuel bad_distribution = wrong_distribution
    after_prepare fuel zero_division = divided_by_zero
    after_prepare fuel (arrays kss disk) =
        if ltb f.worker_threads (2 ^ 31) then run_benchmark fuel kss else negative_workers

    -- `Run`
    unfoldable pub run : (List ℕ → Option ℕ) → Disk → ℕ → Finished
    unfolding after_prepare
    run stoull disk fuel =
        if f.num == 0 then no_keys else after_prepare fuel (prepare_shuffled_keys r f stoull disk)
