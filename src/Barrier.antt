-- ===== src/Barrier.antt =====
-- src/benchmark/rocksdb_bench.cpp: `SharedState`, `ThreadBody` and `RunBenchmark`: the start and
-- finish barrier between the main thread and `total` workers, over one mutex and one condition
-- variable.
--
-- A critical section is one step, since the shared counters are read and written only under the
-- mutex. `cv.wait` gives up the mutex and blocks in the same step; a blocked thread goes on when
-- `notify_all` or a spurious wakeup has moved it to the place where it takes the mutex again and
-- repeats its test. The counters are C `int`s that count threads, and do not overflow.
pub mod Counters
pub mod Moves
pub mod Invariant
pub mod Safety
pub mod Progress
mod Tests
use fdp_rocks.Base.{ℕ, ◌+◌, ◌<◌, ◌≡◌, ◌≢◌, Bool, true, false, ltb, leb, if◌then◌else◌}
use fdp_rocks.Base.Family.{update}

-- Where a worker thread stands in `ThreadBody`.
pub data Worker : Type 0 where
  unborn : Worker  -- `std::thread` not constructed yet
  created : Worker  -- before the first block
  waiting : Worker  -- blocked in `cv.wait` of the first block
  woken : Worker  -- to take the mutex and test `start` again
  running : Worker  -- `stats.Start`, the method, `stats.Stop`
  stopped : Worker  -- before the second block
  finished : Worker  -- behind the second block

-- Where the main thread stands in `RunBenchmark`.
pub data Main : Type 0 where
  spawning : (i : ℕ) → Main  -- head of the loop that constructs the threads
  init_test : Main  -- to test `num_initialized < thread_num`
  init_waiting : Main  -- blocked in that loop
  done_test : Main  -- to test `num_done < thread_num`
  done_waiting : Main  -- blocked in that loop
  merging : Main  -- behind both loops, with the mutex: merges the statistics and joins
  joined : Main  -- all threads joined

-- `SharedState`, the main thread and the workers.
pub record System : Type 0 where
  pub total : ℕ
  pub num_initialized : ℕ
  pub num_done : ℕ
  pub start : Bool
  pub main : Main
  pub worker : ℕ → Worker

-- `SharedState shared (thread_num)`, and no thread yet.
pub init : ℕ → System
init n = record {
  total = n;
  num_initialized = 0;
  num_done = 0;
  start = false;
  main = spawning 0;
  worker = λ _. unborn;
}

abbrev pub wake : Worker → Worker
wake waiting = woken
wake w = w

abbrev pub wake_main : Main → Main
wake_main init_waiting = init_test
wake_main done_waiting = done_test
wake_main m = m

-- `cv.notify_all ()`
abbrev pub notify_all : System → System
notify_all s = record s { main = wake_main s.main; worker = λ i. wake (s.worker i) }

-- `server_threads[i] = std::thread (ThreadBody, &arg[i])`, and the end of that loop.
pub spawn : System → ℕ → System
spawn s i =
    if ltb i s.total
    then record s { main = spawning (i + 1); worker = update s.worker i created }
    else record s { main = init_test }

-- `while (!shared->start) shared->cv.wait (lck)`, from the test on.
abbrev pub await_start : System → ℕ → System
await_start s i = record s { worker = update s.worker i (if s.start then running else waiting) }

-- The first block of `ThreadBody`.
pub enter : System → ℕ → System
enter s i =
    let counted = record s { num_initialized = s.num_initialized + 1 } in
    if leb s.total (s.num_initialized + 1)
    then await_start (notify_all counted) i
    else await_start counted i

-- A woken worker tests `start` again.
pub recheck : System → ℕ → System
recheck s i = await_start s i

-- The benchmark method returns.
pub stop : System → ℕ → System
stop s i = record s { worker = update s.worker i stopped }

-- The second block of `ThreadBody`.
pub leave : System → ℕ → System
leave s i =
    let counted = record s { num_done = s.num_done + 1; worker = update s.worker i finished } in
    if leb s.total (s.num_done + 1) then notify_all counted else counted

-- `while (shared.num_done < thread_num) shared.cv.wait (lck)`, from the test on.
pub await_done : System → System
await_done s = record s { main = if ltb s.num_done s.total then done_waiting else merging }

-- `while (shared.num_initialized < thread_num) …`, then the release of the workers. The mutex is
-- held from the successful test through the first test of the second loop.
pub await_init : System → System
unfolding await_done
await_init s =
    if ltb s.num_initialized s.total
    then record s { main = init_waiting }
    else await_done (notify_all (record s { start = true }))

-- The joins and the end of `RunBenchmark`.
pub join : System → System
join s = record s { main = joined }

-- One step of one thread. A worker's block needs the mutex, which the main thread keeps while it
-- merges; `join` needs every thread to have ended.
pub data Step (s : System) : System → Type 0 where
  spawns : (i : ℕ) → s.main ≡ spawning i → Step s (spawn s i)
  awaits_init : s.main ≡ init_test → Step s (await_init s)
  awaits_done : s.main ≡ done_test → Step s (await_done s)
  joins : s.main ≡ merging → ((i : ℕ) → i < s.total → s.worker i ≡ finished) → Step s (join s)
  enters : (i : ℕ) → i < s.total → s.worker i ≡ created → s.main ≢ merging → Step s (enter s i)
  rechecks : (i : ℕ) → i < s.total → s.worker i ≡ woken → s.main ≢ merging → Step s (recheck s i)
  stops : (i : ℕ) → i < s.total → s.worker i ≡ running → Step s (stop s i)
  leaves : (i : ℕ) → i < s.total → s.worker i ≡ stopped → s.main ≢ merging → Step s (leave s i)

-- A wakeup that no notification caused, which the standard allows.
pub data Spurious (s : System) : System → Type 0 where
  worker_wakes :
      (i : ℕ)
      → i < s.total
      → s.worker i ≡ waiting
      → Spurious s (record s { worker = update s.worker i woken })
  main_wakes : Spurious s (record s { main = wake_main s.main })

pub data Reach (n : ℕ) : System → Type 0 where
  begin : Reach n (init n)
  step : {s t : System} → Reach n s → Step s t → Reach n t
  spurious : {s t : System} → Reach n s → Spurious s t → Reach n t
