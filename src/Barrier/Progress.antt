-- ===== src/Barrier/Progress.antt =====
-- The barrier neither deadlocks nor runs for ever.
use fdp_rocks.Base.{
  ℕ, suc, subst, ◌+◌, ◌-◌, ◌*◌, ◌≤◌, ◌<◌, ◌≡◌, refl, ◌≢◌, ◌⊎◌, inl, inr, arith, ltb, if◌then◌else◌,
}
use fdp_rocks.Base.Family.{
  update, count, count-update, count-le, count-missing, count-map-le, count-constant_le,
}
use fdp_rocks.Barrier.{
  Worker, unborn, created, waiting, woken, running, stopped, finished, Main, spawning, init_test,
  init_waiting, done_test, done_waiting, merging, joined, System, init, wake, spawn, enter, recheck,
  stop, leave, await_done, await_init, join, Step, spawns, awaits_init, awaits_done, joins, enters,
  rechecks, stops, leaves, Reach, begin, step,
}
use fdp_rocks.Barrier.Counters.{entered, ended, entered-le, ended-le, Inv}
use fdp_rocks.Barrier.Invariant.{Reach-Inv}
use fdp_rocks.Barrier.Safety.{merge_after_all}

abbrev CanStep : System → Type 0
CanStep s = (t : System) × Step s t

module _ {n : ℕ} {s : System} (v : Inv n s) where
  -- A worker that exists and has not ended moves, unless it is blocked before the start.
  worker_moves :
      (i : ℕ)
      → i < n
      → s.main ≢ merging
      → ended (s.worker i) ≡ 0
      → s.worker i ≢ unborn
      → s.worker i ≢ waiting
      → CanStep s
  worker_moves i lt free live made awake = go (s.worker i) refl
    where
      go : (w : Worker) → s.worker i ≡ w → CanStep s
      go unborn e = absurd (made e)
      go created e = (_, enters i (ground arith) e free)
      go waiting e = absurd (awake e)
      go woken e = (_, rechecks i (ground arith) e free)
      go running e = (_, stops i (ground arith) e)
      go stopped e = (_, leaves i (ground arith) e free)
      go finished e = ground arith

  init_moves : s.main ≡ init_waiting → CanStep s
  init_moves e =
      let (i, lt, z) = count-missing entered entered-le n s.worker (ground arith) in
      worker_moves i lt (ground arith) (ground arith) (v.born i (ground arith)) (ground arith)

  done_moves : s.main ≡ done_waiting → CanStep s
  done_moves e =
      let (i, lt, z) = count-missing ended ended-le n s.worker (ground arith) in
      worker_moves i lt (ground arith) z (v.born i (ground arith)) (ground (arith, v.local i))

-- In every reachable state either RunBenchmark has joined all threads or some thread can make a
-- step that needs no spurious wakeup.
pub no_deadlock : {n : ℕ} {s : System} → Reach n s → (s.main ≡ joined) ⊎ ((t : System) × Step s t)
no_deadlock {n} {s} r = go s.main refl
  where
    v : Inv n s
    v = Reach-Inv r

    go : (m : Main) → s.main ≡ m → (s.main ≡ joined) ⊎ CanStep s
    go (spawning i) e = inr (_, spawns i e)
    go init_test e = inr (_, awaits_init e)
    go init_waiting e = inr (init_moves v e)
    go done_test e = inr (_, awaits_done e)
    go done_waiting e = inr (done_moves v e)
    go merging e =
        inr (_, joins e (λ j h. merge_after_all r (inl e) j (subst (λ k. j < k) v.size h)))
    go joined e = inl e

-- How far a thread is from its end. A notification may send blocked threads one place back.
abbrev worker_weight : Worker → ℕ
worker_weight unborn = 7
worker_weight created = 6
worker_weight woken = 4
worker_weight waiting = 3
worker_weight running = 2
worker_weight stopped = 1
worker_weight finished = 0

abbrev main_weight : ℕ → Main → ℕ
main_weight n (spawning i) = 6 + (n - i)
main_weight n init_test = 5
main_weight n init_waiting = 4
main_weight n done_test = 3
main_weight n done_waiting = 2
main_weight n merging = 1
main_weight n joined = 0

-- The notifications still to come.
abbrev notices : ℕ → System → ℕ
notices n s =
    (if ltb s.num_initialized n then 1 else 0)
    + (if s.start then 0 else 1)
    + (if ltb s.num_done n then 1 else 0)

pub work : ℕ → System → ℕ
work n s = count worker_weight n s.worker + main_weight n s.main + notices n s * (n + 1)

worker_weight-wake : (w : Worker) → worker_weight (wake w) ≤ worker_weight w + 1
worker_weight-wake w = ground arith

module _ {n : ℕ} {s : System} (v : Inv n s) where
  change :
      (f : ℕ → Worker) (i : ℕ) (w : Worker)
      → i < s.total
      → count worker_weight n (update f i w) + worker_weight (f i)
        ≡ count worker_weight n f + worker_weight w
  change f i w lt = count-update worker_weight n f i w (ground arith)

  work-spawn : (i : ℕ) → s.main ≡ spawning i → work n (spawn s i) < work n s
  unfolding work spawn
  work-spawn i e = ground (arith, v.unmade i, λ (lt : i < s.total). change s.worker i created lt)

  work-enter : (i : ℕ) → i < s.total → s.worker i ≡ created → work n (enter s i) < work n s
  unfolding work enter
  work-enter i lt e = ground (
    arith,
    change s.worker i (if s.start then running else waiting) lt,
    change (λ j. wake (s.worker j)) i (if s.start then running else waiting) lt,
    count-map-le worker_weight wake worker_weight-wake n s.worker,
    count-update entered n s.worker i waiting (ground arith),
    count-le entered entered-le n (update s.worker i waiting),
  )

  work-recheck : (i : ℕ) → i < s.total → s.worker i ≡ woken → work n (recheck s i) < work n s
  unfolding work recheck
  work-recheck i lt e = ground (arith, change s.worker i (if s.start then running else waiting) lt)

  work-stop : (i : ℕ) → i < s.total → s.worker i ≡ running → work n (stop s i) < work n s
  unfolding work stop
  work-stop i lt e = ground (arith, change s.worker i stopped lt)

  work-leave : (i : ℕ) → i < s.total → s.worker i ≡ stopped → work n (leave s i) < work n s
  unfolding work leave
  work-leave i lt e = ground (
    arith,
    change s.worker i finished lt,
    count-map-le worker_weight wake worker_weight-wake n (update s.worker i finished),
    count-update ended n s.worker i finished (ground arith),
    count-le ended ended-le n (update s.worker i finished),
  )

  work-await_done : s.main ≡ done_test → work n (await_done s) < work n s
  unfolding work await_done
  work-await_done e = ground arith

  work-await_init : s.main ≡ init_test → work n (await_init s) < work n s
  unfolding work await_init
  work-await_init e = ground (arith, count-map-le worker_weight wake worker_weight-wake n s.worker)

  work-join : s.main ≡ merging → work n (join s) < work n s
  unfolding work join
  work-join e = ground arith

work-Step : {n : ℕ} {s t : System} → Step s t → Inv n s → work n t < work n s
work-Step (spawns i e) v = work-spawn v i e
work-Step (awaits_init e) v = work-await_init v e
work-Step (awaits_done e) v = work-await_done v e
work-Step (joins e all) v = work-join v e
work-Step (enters i lt e free) v = work-enter v i lt e
work-Step (rechecks i lt e free) v = work-recheck v i lt e
work-Step (stops i lt e) v = work-stop v i lt e
work-Step (leaves i lt e free) v = work-leave v i lt e

-- `k` steps in a row.
pub data Steps (s : System) : ℕ → System → Type 0 where
  done : Steps s 0 s
  more : {k : ℕ} {t u : System} → Steps s k t → Step t u → Steps s (suc k) u

Steps-Reach : {n : ℕ} {s : System} {k : ℕ} {t : System} → Reach n s → Steps s k t → Reach n t
Steps-Reach r done = r
Steps-Reach r (more ss st) = step (Steps-Reach r ss) st

-- From any reachable state, `k` steps without a spurious wakeup use up `k` units of work.
Steps-work :
    {n : ℕ} {s : System} {k : ℕ} {t : System} → Reach n s → Steps s k t → work n t + k ≤ work n s
Steps-work r done = omega arith
Steps-work r (more ss st) =
    omega (arith, Steps-work r ss, work-Step st (Reach-Inv (Steps-Reach r ss)))

work-init : (n : ℕ) → work n (init n) ≤ 11 * n + 9
unfolding work init
work-init n = ground (arith, count-constant_le worker_weight 7 n unborn (omega arith))

-- A run of RunBenchmark with n workers in which no wakeup is spurious has made at most 11 n + 9
-- steps, and it has joined all threads or can make another step.
pub run_ends :
    (n : ℕ) {k : ℕ} {s : System}
    → Steps (init n) k s
    → (k ≤ 11 * n + 9) × ((s.main ≡ joined) ⊎ ((t : System) × Step s t))
run_ends n ss =
    (omega (arith, Steps-work begin ss, work-init n), no_deadlock (Steps-Reach begin ss))
