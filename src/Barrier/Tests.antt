-- ===== src/Barrier/Tests.antt =====
-- Runs of the barrier: two workers from the first thread to the last join, and the theorems at
-- states of that run.
use fdp_rocks.Base.{ℕ, zero, suc, ◌≤◌, ◌<◌, ◌≡◌, refl, ◌⊎◌, inl, true, arith}
use fdp_rocks.Barrier.{
  finished, joined, System, init, spawn, enter, recheck, stop, leave, await_done, await_init, Step,
  spawns, awaits_init, awaits_done, enters, rechecks, stops, leaves, Reach, begin, step,
}
use fdp_rocks.Base.Family.{count}
use fdp_rocks.Barrier.Counters.{entered, ended}
use fdp_rocks.Barrier.Safety.{counters, has_entered, start_together, merge_after_all}
use fdp_rocks.Barrier.Progress.{Steps, done, more, no_deadlock, run_ends}

-- One worker: it is made, main waits, the worker enters and wakes main, main sets the flag.
abbrev after_start : System
after_start = await_init (enter (await_init (spawn (spawn (init 1) 0) 1)) 0)

abbrev after_leave : System
after_leave = leave (stop (recheck after_start 0) 0) 0

abbrev at_merge : System
at_merge = await_done after_leave

start_path : Steps (init 1) 5 after_start
unfolding init spawn enter await_init
start_path =
    more
      (more (more (more (more done (spawns 0 refl)) (spawns 1 refl)) (awaits_init refl))
        (enters 0 (omega arith) refl (λ e. cc)))
      (awaits_init refl)

leave_path : Steps (init 1) 8 after_leave
unfolding init spawn enter await_init recheck stop leave
leave_path =
    more
      (more (more start_path (rechecks 0 (omega arith) refl (λ e. cc)))
        (stops 0 (omega arith) refl))
      (leaves 0 (omega arith) refl (λ e. cc))

only_zero : (s : System) → s.worker 0 ≡ finished → (i : ℕ) → i < 1 → s.worker i ≡ finished
only_zero s e zero h = e
only_zero s e (suc i) h = absurd (omega arith)

merge_path : Steps (init 1) 9 at_merge
unfolding init spawn enter await_init recheck stop leave await_done
merge_path = more leave_path (awaits_done refl)

at_merge-Reach : Reach 1 at_merge
unfolding init spawn enter await_init recheck stop leave await_done
at_merge-Reach =
    step
      (step
        (step
          (step
            (step
              (step (step (step (step begin (spawns 0 refl)) (spawns 1 refl)) (awaits_init refl))
                (enters 0 (omega arith) refl (λ e. cc)))
              (awaits_init refl))
            (rechecks 0 (omega arith) refl (λ e. cc)))
          (stops 0 (omega arith) refl))
        (leaves 0 (omega arith) refl (λ e. cc)))
      (awaits_done refl)

start_together_example : (at_merge.start ≡ true) × (has_entered (at_merge.worker 0) ≡ true)
unfolding init spawn enter await_init recheck stop leave await_done
start_together_example = start_together at_merge-Reach 0 0 refl (omega arith)

merge_after_all_example : at_merge.worker 0 ≡ finished
unfolding init spawn enter await_init recheck stop leave await_done
merge_after_all_example = merge_after_all at_merge-Reach (inl refl) 0 (omega arith)

no_deadlock_example : (at_merge.main ≡ joined) ⊎ ((t : System) × Step at_merge t)
no_deadlock_example = no_deadlock at_merge-Reach

run_ends_example : (9 ≤ 20) × ((at_merge.main ≡ joined) ⊎ ((t : System) × Step at_merge t))
run_ends_example = run_ends 1 merge_path

counters_example :
    (at_merge.num_initialized ≡ count entered 1 at_merge.worker)
    × (at_merge.num_done ≡ count ended 1 at_merge.worker)
counters_example = counters at_merge-Reach
