-- ===== src/Stats/Tests.antt =====
-- Runs of `Stats`, and the theorems at concrete counters.
use mathlib.Core.List.Perm
use fdp_rocks.Base.{
  ℕ, ◌+◌, ◌*◌, ◌%◌, ◌^◌, ◌≡◌, refl, Bool, true, none, some, List, [], ◌∷◌, arith, u64,
}
use fdp_rocks.Stats.{Flags, Stats, no_seconds, start_at, finished_batch_op, merge, merge_all}
use fdp_rocks.Stats.Boundaries.{Finished, start_at-IsAligned, finished_batch_op-Finished}
use fdp_rocks.Stats.Merging.{ops, without_seconds, Spans, merge_all_lem}

abbrev flags : Flags
flags = record { report_interval = 1; stats_interval = 100000000 }

abbrev blank : Stats
blank = record {
  tid = 0;
  start = 0;
  finish = 0;
  seconds = no_seconds;
  next_report_time = 0;
  done = 0;
  next_report = 0;
  total_ops = 0;
  last_rocksdb_stats_time = 0;
  next_10k_boundary = 10000;
  prev_10k_time = 0;
  curr_10k_time = 0;
}

-- A clock that ticks a second at each call.
abbrev clock : ℕ → ℕ
clock k = k * 1000000

abbrev fresh : Stats
fresh = start_at flags blank 0

-- A batch of 25,000 passes two boundaries, and the report is overdue after the third second.
two_boundaries :
    finished_batch_op flags clock 0 fresh 25000
    ≡ some (
      true,
      3,
      record fresh {
        done = 25000;
        next_10k_boundary = 30000;
        prev_10k_time = 0;
        curr_10k_time = 1000000;
        next_report = 200;
        next_report_time = 2000000;
      },
    )
unfolding finished_batch_op start_at
two_boundaries = refl

-- Without either interval, the first report divides by zero.
no_interval :
    finished_batch_op (record { report_interval = 0; stats_interval = 0 }) clock 0 fresh 100 ≡ none
unfolding finished_batch_op start_at
no_interval = refl

finished_batch_op-Finished_example :
    (b : Bool) × (k : ℕ) × (s : Stats) × (finished_batch_op flags clock 0 fresh 25000
      ≡ some (b, k, s))
    × Finished flags 25000 fresh s b
unfolding start_at
finished_batch_op-Finished_example =
    finished_batch_op-Finished flags clock 0 25000 fresh (start_at-IsAligned flags blank 0)
      (omega arith) (omega arith, omega arith) (omega arith) (omega arith)

abbrev others : List Stats
others =
    record blank { done = 5; start = 7; finish = 30 }
    ∷ record blank { done = 6; start = 3; finish = 20 }
    ∷ []

abbrev other_way : List Stats
other_way =
    record blank { done = 6; start = 3; finish = 20 }
    ∷ record blank { done = 5; start = 7; finish = 30 }
    ∷ []

merge_all_lem_example :
    (without_seconds (merge_all blank others) ≡ without_seconds (merge_all blank other_way))
    × ((merge_all blank others).done % 2 ^ 64 ≡ u64 (blank.done + ops others))
    × Spans (merge_all blank others).start (merge_all blank others).finish (blank ∷ others)
merge_all_lem_example = merge_all_lem blank others other_way (Perm.swap _ _ [])

merged : (merge_all (record blank { start = 5; done = 1 }) others).done ≡ 12
unfolding merge_all merge
merged = refl
