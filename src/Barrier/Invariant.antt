-- ===== src/Barrier/Invariant.antt =====
-- In every reachable state the counters, the flag and the blocked threads mean what they are to.
use fdp_rocks.Base.{ℕ}
use fdp_rocks.Barrier.{
  System, Step, spawns, awaits_init, awaits_done, joins, enters, rechecks, stops, leaves, Spurious,
  worker_wakes, main_wakes, Reach, begin, step, spurious,
}
use fdp_rocks.Barrier.Counters.{Inv, init-Inv}
use fdp_rocks.Barrier.Moves.{
  spawn-Inv, enter-Inv, recheck-Inv, stop-Inv, leave-Inv, await_done-Inv, await_init-Inv, join-Inv,
  worker_wakes-Inv, main_wakes-Inv,
}

Step-Inv : {n : ℕ} {s t : System} → Step s t → Inv n s → Inv n t
Step-Inv (spawns i e) v = spawn-Inv v i e
Step-Inv (awaits_init e) v = await_init-Inv v e
Step-Inv (awaits_done e) v = await_done-Inv v e
Step-Inv (joins e all) v = join-Inv v e
Step-Inv (enters i lt e free) v = enter-Inv v i lt e free
Step-Inv (rechecks i lt e free) v = recheck-Inv v i lt e
Step-Inv (stops i lt e) v = stop-Inv v i lt e
Step-Inv (leaves i lt e free) v = leave-Inv v i lt e free

Spurious-Inv : {n : ℕ} {s t : System} → Spurious s t → Inv n s → Inv n t
Spurious-Inv (worker_wakes i lt e) v = worker_wakes-Inv v i lt e
Spurious-Inv main_wakes v = main_wakes-Inv v

-- In every reachable state the counters count the workers that have entered and ended, the flag is
-- set only when all have entered, and whoever is blocked still has to wait: no wakeup is lost.
pub Reach-Inv : {n : ℕ} {s : System} → Reach n s → Inv n s
Reach-Inv {n} begin = init-Inv n
Reach-Inv (step r st) = Step-Inv st (Reach-Inv r)
Reach-Inv (spurious r sp) = Spurious-Inv sp (Reach-Inv r)
