-- ===== src/Writer/Tests.antt =====
-- Runs of the writer on three keys with batches of two, and the theorems at that input.
use fdp_rocks.Base.{
  ℕ, ◌+◌, ◌*◌, ◌≡◌, refl, ◌⊎◌, inr, Bool, true, false, Option, none, some, List, [], ◌∷◌, arith,
  length, ◌==◌, not, if◌then◌else◌,
}
use fdp_rocks.Stats.{no_seconds, Stats, start_at, set_total_ops, finished_batch_op, should_print}
use fdp_rocks.TransformKey.{transform_key}
use fdp_rocks.Writer.{
  Put, Config, State, Outcome, returned, overrun, stuck, make_value, simple_random_write,
}
use fdp_rocks.Writer.Value.{value_of, good_size, make_value_lem}
use fdp_rocks.Writer.Total.{Wrote, simple_random_write-Wrote}

-- A database that counts its batches and refuses the second.
abbrev write : ℕ → List Put → Bool × ℕ
write n b = (not (n == 1), n + 1)

-- One that takes everything.
abbrev accept : ℕ → List Put → Bool × ℕ
accept n b = (true, n + 1)

abbrev clock : ℕ → ℕ
clock k = k * 1000

abbrev seed : ℕ → ℕ
seed i = i + 7

abbrev config : Config
config = record {
  tid = 0;
  batch = 2;
  value_size = 16;
  base_keys = 0;
  flags = record { report_interval = 1; stats_interval = 100000000 };
}

abbrev blank : Stats
blank = record {
  tid = 0;
  start = 0;
  finish = 0;
  seconds = no_seconds;
  next_report_time = 0;
  done = 0;
  next_report = 0;
  total_ops = 0;
  last_rocksdb_stats_time = 0;
  next_10k_boundary = 10000;
  prev_10k_time = 0;
  curr_10k_time = 0;
}

abbrev keys : List ℕ
keys = 5 ∷ 3 ∷ 9 ∷ []

abbrev success_of : Outcome ℕ → Option (ℕ × ℕ)
success_of (returned s) = some (s.success_count, length s.batches)
success_of overrun = none
success_of stuck = none

-- The second batch, of one pair, is refused: two pairs have been written in two calls.
two_written : success_of (simple_random_write write clock seed config 3 blank 0 keys) ≡ some (2, 2)
unfolding simple_random_write make_value finished_batch_op should_print start_at set_total_ops
    transform_key
two_written = refl

value_of_nine : make_value 9 1 2 ≡ none
unfolding make_value
value_of_nine = refl

make_value_lem_example :
    (make_value 20 1 2 ≡ (if good_size 20 then some (value_of 20 1 2) else none))
    × ((good_size 20 ≡ false) ⊎ (length (value_of 20 1 2) ≡ 20))
make_value_lem_example = make_value_lem 20 1 2

simple_random_write-Wrote_example :
    (s : State ℕ) × (simple_random_write write clock seed config 3 blank 0 keys ≡ returned s)
    × Wrote write clock seed config 0 keys s
simple_random_write-Wrote_example =
    simple_random_write-Wrote write clock seed config 3 blank 0 keys (omega arith)
      (inr (omega arith)) (omega arith, omega arith) (omega arith) (omega arith)

accepted_run :
    (s : State ℕ) × (simple_random_write accept clock seed config 3 blank 0 keys ≡ returned s)
    × Wrote accept clock seed config 0 keys s
accepted_run =
    simple_random_write-Wrote accept clock seed config 3 blank 0 keys (omega arith)
      (inr (omega arith)) (omega arith, omega arith) (omega arith) (omega arith)
