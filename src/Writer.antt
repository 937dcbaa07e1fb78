-- ===== src/Writer.antt =====
-- src/benchmark/rocksdb_bench.cpp: `Benchmark::DoSimpleRandomWrite`, the write loop of one worker.
--
-- The database is a parameter: `write` stands for `rocksdb::DB::Write` on a state of the caller's
-- choice, and says whether the status is ok. So are the seeds of the values (a random number mixed
-- with the clock, one for each index), the clock (its `k`-th call gives `clock k`) and the number
-- in ROCKSDB_BASE_KEYS. `value_size_` is an `int` of the source, below 2^31. Of what the loop
-- prints the state keeps the machine-readable progress lines and the number of alarms; it also keeps
-- a log of the calls of `Write`.
pub mod Value
pub mod Spec
pub mod Fill
pub mod Round
pub mod Run
pub mod Total
pub mod Faults
pub mod Cuts
mod Tests
use mathlib.Core.Option
use fdp_rocks.Base.{
  ℕ, zero, suc, ◌+◌, ◌-◌, ◌%◌, ◌^◌, Bool, true, false, ◌&&◌, Option, none, some, List, [], ◌∷◌,
  ◌++◌, ltb, ◌==◌, if◌then◌else◌, length, replicate, u64,
}
use fdp_rocks.Base.Bytes.{le_bytes}
use fdp_rocks.Stats.{Flags, Stats, start_at, set_total_ops, finished_batch_op, should_print}
use fdp_rocks.TransformKey.{transform_key}

-- One `wb.Put (key, value)`.
pub record Put : Type 0 where
  pub key : List ℕ
  pub value : List ℕ

-- `memcpy` into a string at an offset; `none` is a write past its end.
unfoldable pub copy_at : List ℕ → ℕ → List ℕ → Option (List ℕ)
copy_at dst zero [] = some dst
copy_at [] zero (b ∷ bs) = none
copy_at (d ∷ ds) zero (b ∷ bs) = Option.map (◌∷◌ b) (copy_at ds zero bs)
copy_at [] (suc o) bs = none
copy_at (d ∷ ds) (suc o) bs = Option.map (◌∷◌ d) (copy_at ds o bs)

-- `rValue`: the seed, and behind it the key number if the size is above eight bytes.
unfoldable pub make_value : ℕ → ℕ → ℕ → Option (List ℕ)
unfolding copy_at
make_value size seed key = elim (copy_at (replicate size 0) 0 (le_bytes 8 seed)) [
  | none ↦ none
  | some v ↦ if ltb 8 size then copy_at v 8 (le_bytes 8 key) else some v
]

-- The flags and the environment that the loop reads.
pub record Config : Type 0 where
  pub tid : ℕ
  pub batch : ℕ
  pub value_size : ℕ
  pub base_keys : ℕ
  pub flags : Flags

pub record State (Db : Type 0) : Type 0 where
  pub ind : ℕ
  pub success_count : ℕ
  pub last_success_count : ℕ
  pub last_check_time : ℕ
  pub wb : List Put
  pub stats : Stats
  pub db : Db
  pub calls : ℕ
  pub batches : List (List Put × Bool)
  pub progress : List ℕ
  pub alarms : ℕ

-- How the method comes out: it returns, it writes past the end of a value, or it does not come back,
-- as a loop goes round without end or a division by zero in `FinishedBatchOp` kills the program.
pub data Outcome (Db : Type 0) : Type 0 where
  returned : State Db → Outcome Db
  overrun : Outcome Db
  stuck : Outcome Db

module _ {Db : Type 0} (write : Db → List Put → Bool × Db) (clock seed : ℕ → ℕ) (c : Config) where
  -- `db1->Write (…, &wb)`, the count of what it wrote, and `wb.Clear ()`.
  unfoldable pub send : State Db → Bool × State Db
  send s =
      let (fine, db') = write s.db s.wb in
      (
        fine,
        record s {
          success_count = if fine then u64 (s.success_count + length s.wb) else s.success_count;
          db = db';
          batches = s.batches ++ (s.wb, fine) ∷ [];
          wb = [];
        },
      )

  -- The `[write-progress]` line.
  unfoldable pub print_progress : Bool → State Db → State Db
  print_progress fine s =
      if fine && ((s.success_count % 10000) == 0 && ltb 0 s.success_count)
      then record s { progress = s.progress ++ u64 (c.base_keys + s.success_count) ∷ [] }
      else s

  -- The check, every five seconds, that writes still succeed. The subtraction is in `uint64_t`.
  unfoldable pub check_stuck : State Db → State Db
  check_stuck s =
      let now = clock s.calls in
      let alarm = s.success_count == s.last_success_count && ltb 0 s.success_count in
      if ltb 5000000 (u64 (now + 2 ^ 64 - s.last_check_time))
      then record s {
        calls = s.calls + 1;
        alarms = if alarm then s.alarms + 1 else s.alarms;
        last_success_count = s.success_count;
        last_check_time = now;
      }
      else record s { calls = s.calls + 1 }

  -- The body of `if (wb.Count() == FLAGS_batch)`.
  unfoldable pub full_batch : State Db → State Db
  unfolding send print_progress check_stuck
  full_batch s = let (fine, s') = send s in check_stuck (print_progress fine s')

  -- `wb.Put (key, rValue)`, what follows it in the inner loop, and the loop's `ind++`.
  unfoldable pub place : ℕ → List ℕ → State Db → State Db
  unfolding full_batch
  place key value s =
      let put : Put = record { key = transform_key key; value = value } in
      let s' = record s { wb = s.wb ++ put ∷ [] } in
      let s'' = if length s'.wb == c.batch then full_batch s' else s' in
      record s'' { ind = s.ind + 1 }

  -- One round of the inner loop, at a key; `none` is a write past the end of the value.
  unfoldable pub put_one : ℕ → State Db → Option (State Db)
  unfolding make_value place
  put_one key s = Option.map (λ value. place key value s) (make_value c.value_size (seed s.ind) key)

  -- `for (; j < FLAGS_batch && ind < writes_per_thread; j++, ind++)` over the keys from `ind` on:
  -- the keys left, the final `j` and the state.
  unfoldable pub fill : List ℕ → ℕ → State Db → Option (List ℕ × ℕ × State Db)
  unfolding put_one
  fill [] j s = some ([], j, s)
  fill (key ∷ keys) j s = elim (ltb j c.batch) [
    | true ↦ elim (put_one key s) [ none ↦ none | some s' ↦ fill keys (j + 1) s' ]
    | false ↦ some (key ∷ keys, j, s)
  ]

  -- The calls on `thread->stats` behind the inner loop; `none` if `FinishedBatchOp` does not return, which is its division by zero.
  unfoldable pub count_batch : ℕ → State Db → Option (State Db)
  count_batch j s = elim (finished_batch_op c.flags clock s.calls s.stats j) [
    | none ↦ none
    | some (b, k, st) ↦
        if c.tid == 0
        then some (record s { calls = k + 1; stats = (should_print st (clock k)).1 })
        else some (record s { calls = k; stats = st })
  ]

  -- `while (ind < writes_per_thread)`, with fuel.
  unfoldable pub outer : ℕ → List ℕ → State Db → Outcome Db
  unfolding fill count_batch
  outer fuel [] s = returned s
  outer zero (key ∷ keys) s = stuck
  outer (suc fuel) (key ∷ keys) s = elim (fill (key ∷ keys) 0 s) [
    | none ↦ overrun
    | some (rest, j, s') ↦ elim (count_batch j s') [ none ↦ stuck | some s'' ↦ outer fuel rest s'' ]
  ]

  -- The last, partial batch. Its progress line does not depend on the status.
  unfoldable pub final_flush : State Db → State Db
  unfolding send print_progress
  final_flush s = if ltb 0 (length s.wb) then print_progress true (send s).1 else s

  -- The state before the loop: `stats.Start`, `SetTotalOps` and the first look at the clock.
  unfoldable pub begin : Stats → Db → ℕ → State Db
  begin st db n = record {
    ind = 0;
    success_count = 0;
    last_success_count = 0;
    last_check_time = clock 1;
    wb = [];
    stats = set_total_ops (start_at c.flags st (clock 0)) n;
    db = db;
    calls = 2;
    batches = [];
    progress = [];
    alarms = 0;
  }

  -- The method on the worker's keys. Each round of the outer loop takes a key, if it can take any,
  -- so a round for each key is enough fuel.
  unfoldable pub simple_random_write : ℕ → Stats → Db → List ℕ → Outcome Db
  unfolding outer final_flush begin
  simple_random_write fuel st db keys = elim (outer fuel keys (begin st db (length keys))) [
    | returned s ↦ returned (final_flush s)
    | overrun ↦ overrun
    | stuck ↦ stuck
  ]
