-- ===== src/Stats.antt =====
-- src/benchmark/rocksdb_bench.cpp: class `Stats`, the counters and clocks of one worker.
--
-- Clock values are microseconds. The source keeps them in `double`s, which hold every whole number
-- of microseconds below 2^53 exactly; here they are numbers. `seconds_` is computed in `double`s with
-- rounding; here it is the expression that computes it. What is only printed (rates, the percentage,
-- the time to go) is left out, but for the bar itself. `clock k` is what the `k`-th call of
-- `NowMicros` gives.
pub mod Boundaries
pub mod Merging
mod Tests
use fdp_rocks.Base.{
  ℕ, zero, suc, ◌+◌, ◌-◌, ◌*◌, ◌/◌, ◌%◌, ◌^◌, ◌<◌, Bool, true, false, not, ◌&&◌, Option, none, some,
  List, [], ◌∷◌, ◌++◌, ltb, leb, ◌==◌, if◌then◌else◌, u64,
}

-- The flags that the class reads.
pub record Flags : Type 0 where
  pub report_interval : ℕ
  pub stats_interval : ℕ

-- A report interval whose microseconds do not wrap around, and one of the two that is not 0.
abbrev pub IsReportable : Flags → Type 0
IsReportable flags =
    (flags.report_interval < 2 ^ 40) × (0 < flags.report_interval + flags.stats_interval)

-- `seconds_`: 0, `(finish - start) * 1e-6`, or a sum.
pub data Seconds : Type 0 where
  no_seconds : Seconds
  elapsed : (start finish : ℕ) → Seconds
  added : Seconds → Seconds → Seconds

pub record Stats : Type 0 where
  pub tid : ℕ
  pub start : ℕ
  pub finish : ℕ
  pub seconds : Seconds
  pub next_report_time : ℕ
  pub done : ℕ
  pub next_report : ℕ
  pub total_ops : ℕ
  pub last_rocksdb_stats_time : ℕ
  pub next_10k_boundary : ℕ
  pub prev_10k_time : ℕ
  pub curr_10k_time : ℕ

unfoldable pub set_total_ops : Stats → ℕ → Stats
set_total_ops s total = record s { total_ops = total }

module _ (flags : Flags) where
  open flags use {report_interval, stats_interval}

  -- `Start`, at a clock value.
  unfoldable pub start_at : Stats → ℕ → Stats
  start_at s now = record s {
    start = now;
    next_report_time = now + u64 (report_interval * 1000000);
    next_report = 100;
    last_rocksdb_stats_time = now;
    done = 0;
    seconds = no_seconds;
    finish = now;
    next_10k_boundary = 10000;
    prev_10k_time = 0;
    curr_10k_time = 0;
  }

-- `Stats (id)`, at a clock value. What `Start` sets has no value before it.
unfoldable pub new_stats : Flags → ℕ → ℕ → Stats
unfolding start_at
new_stats flags id now =
    start_at flags
      (record {
        tid = id;
        start = 0;
        finish = 0;
        seconds = no_seconds;
        next_report_time = 0;
        done = 0;
        next_report = 0;
        total_ops = 0;
        last_rocksdb_stats_time = 0;
        next_10k_boundary = 10000;
        prev_10k_time = 0;
        curr_10k_time = 0;
      })
      now

-- `Report`: the count that it leaves. The rates that it prints are floating-point numbers.
unfoldable pub report_done : Stats → Stats
report_done s = if ltb s.done 1 then record s { done = 1 } else s

-- `Stop`, at a clock value.
unfoldable pub stop_at : Stats → ℕ → Stats
stop_at s now = record s { finish = now; seconds = elapsed s.start now }

unfoldable pub merge : Stats → Stats → Stats
merge s other = record s {
  done = u64 (s.done + other.done);
  seconds = added s.seconds other.seconds;
  start = if ltb other.start s.start then other.start else s.start;
  finish = if ltb s.finish other.finish then other.finish else s.finish;
}

-- The merges of `RunBenchmark`: each of `arg[1..]` into `arg[0]`.
unfoldable pub merge_all : Stats → List Stats → Stats
merge_all s [] = s
merge_all s (t ∷ ts) = merge_all (merge s t) ts

-- The next count of operations at which progress is printed.
pub bump_report : ℕ → ℕ
bump_report r =
    if ltb r 1000
    then u64 (r + 100)
    else if ltb r 5000
    then u64 (r + 500)
    else if ltb r 10000
    then u64 (r + 1000)
    else if ltb r 50000
    then u64 (r + 5000)
    else if ltb r 100000
    then u64 (r + 10000)
    else if ltb r 500000
    then u64 (r + 50000)
    else u64 (r + 100000)

-- `while (done_ >= next_10k_boundary_) …` with fuel, from the `k`-th call of the clock on. The
-- result has the number of calls made.
pub pass_boundaries : (ℕ → ℕ) → ℕ → ℕ → Stats → Option (ℕ × Stats)
pass_boundaries clock zero k s = none
pass_boundaries clock (suc fuel) k s =
    let rest = pass_boundaries clock fuel (k + 1) (record s {
      prev_10k_time = s.curr_10k_time;
      curr_10k_time = clock k;
      next_10k_boundary = u64 (s.next_10k_boundary + 10000);
    }) in
    if leb s.next_10k_boundary s.done then rest else some (k, s)

-- The tail of `FinishedBatchOp`, behind the loop: its result, the next call of the clock, and the
-- object. `none` is the division by zero in `done_ % FLAGS_stats_interval`.
pub report : Flags → (ℕ → ℕ) → ℕ → Stats → Option (Bool × ℕ × Stats)
unfolding bump_report
report flags clock k s =
    let s' =
      if leb s.next_report s.done
      then record s { next_report = bump_report s.next_report }
      else s in
    if leb s.next_report s.done && (flags.report_interval == 0 && flags.stats_interval == 0)
    then none
    else some (
        if leb s.next_report s.done
          && (flags.report_interval == 0 && (s.done % flags.stats_interval) == 0)
        then (false, k, s')
        else if flags.report_interval == 0
        then (false, k, s')
        else if ltb s.next_report_time (clock k)
        then (
          true,
          k + 1,
          record s' {
            next_report_time = s.next_report_time + u64 (flags.report_interval * 1000000);
          },
        )
        else (false, k + 1, s'))

-- `FinishedBatchOp`; `none` is the division by zero.
unfoldable pub finished_batch_op : Flags → (ℕ → ℕ) → ℕ → Stats → ℕ → Option (Bool × ℕ × Stats)
unfolding pass_boundaries report
finished_batch_op flags clock k s batch =
    let counted = record s { done = u64 (s.done + batch) } in
    elim (pass_boundaries clock (counted.done / 10000 + 1) k counted) [
      | none ↦ none
      | some (k', s') ↦ report flags clock k' s'
    ]

-- `ShouldPrintRocksDBStats`, at a clock value. The subtraction is in `uint64_t`.
unfoldable pub should_print : Stats → ℕ → Bool × Stats
should_print s now =
    if leb (30 * 1000000) (u64 (now + 2 ^ 64 - s.last_rocksdb_stats_time))
    then (true, record s { last_rocksdb_stats_time = now })
    else (false, s)

-- The bar of `PrintProgressBar`, from column `i` on, with `n` columns to go.
bar_from : ℕ → ℕ → ℕ → List ℕ
bar_from filled zero i = []
bar_from filled (suc n) i =
    (if ltb i filled then b'=' else if i == filled then b'>' else b' ') ∷ bar_from filled n (i + 1)

-- `filled` is the `int` that the percentage gives.
pub progress_bar : ℕ → List ℕ
unfolding bar_from
progress_bar filled =
    (b'[' ∷ []) ++ (bar_from (if ltb 50 filled then 50 else filled) 50 0 ++ (b']' ∷ []))
