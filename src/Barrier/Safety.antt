-- ===== src/Barrier/Safety.antt =====
-- What the barrier promises to the workers and to the main thread.
use fdp_rocks.Base.{ℕ, ◌<◌, ◌≡◌, ◌⊎◌, Bool, true, false, arith}
use fdp_rocks.Base.Family.{count, count-full}
use fdp_rocks.Barrier.{
  Worker, unborn, created, running, stopped, finished, merging, joined, System, Reach,
}
use fdp_rocks.Barrier.Counters.{entered, ended, entered-le, ended-le, Inv}
use fdp_rocks.Barrier.Invariant.{Reach-Inv}

-- Has left the first block of `ThreadBody`.
abbrev pub past_start : Worker → Bool
past_start running = true
past_start stopped = true
past_start finished = true
past_start _ = false

abbrev pub has_entered : Worker → Bool
has_entered unborn = false
has_entered created = false
has_entered _ = true

module _ {n : ℕ} {s : System} (v : Inv n s) where
  all_entered : s.start ≡ true → (j : ℕ) → j < n → has_entered (s.worker j) ≡ true
  all_entered flag j h = ground (arith, count-full entered entered-le n s.worker j (ground arith) h)

  all_ended : s.num_done ≡ n → (j : ℕ) → j < n → s.worker j ≡ finished
  all_ended e j h = ground (arith, count-full ended ended-le n s.worker j (ground arith) h)

  flag_is_set : (i : ℕ) → past_start (s.worker i) ≡ true → s.start ≡ true
  flag_is_set i e = ground (arith, v.local i)

  done_is_full : (s.main ≡ merging) ⊎ (s.main ≡ joined) → s.num_done ≡ n
  done_is_full m = ground arith

-- In every reachable state of a run with n workers, if some worker i has left the first block
-- then the start flag is set, and each worker j below n has counted itself in num_initialized.
pub start_together :
    {n : ℕ} {s : System}
    → Reach n s
    → (i j : ℕ) → past_start (s.worker i) ≡ true
    → j < n
    → (s.start ≡ true) × (has_entered (s.worker j) ≡ true)
start_together r i j e h =
    let v = Reach-Inv r in let flag = flag_is_set v i e in (flag, all_entered v flag j h)

-- In every reachable state of a run with n workers in which the main thread merges the
-- statistics or has returned, each worker is behind its last block, so its statistics are final.
pub merge_after_all :
    {n : ℕ} {s : System}
    → Reach n s
    → (s.main ≡ merging) ⊎ (s.main ≡ joined)
    → (j : ℕ) → j < n
    → s.worker j ≡ finished
merge_after_all r m j h = let v = Reach-Inv r in all_ended v (done_is_full v m) j h

-- In every reachable state of a run with n workers, num_initialized is the number of workers
-- below n that have counted themselves in the first block, and num_done the number of those that
-- have counted themselves in the second.
pub counters :
    {n : ℕ} {s : System}
    → Reach n s
    → (s.num_initialized ≡ count entered n s.worker) × (s.num_done ≡ count ended n s.worker)
counters r = let v = Reach-Inv r in (v.initialized, v.done)
