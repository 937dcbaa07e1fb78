-- ===== src/Barrier/Counters.antt =====
-- What the counters, the flag and the blocked threads of the barrier mean.
use fdp_rocks.Base.{ℕ, ◌+◌, ◌≤◌, ◌<◌, ◌≡◌, refl, ◌≢◌, Bool, true, false, arith}
use fdp_rocks.Base.Family.{update, count, count-update, count-map, count-constant, count-le}
use fdp_rocks.Barrier.{
  Worker, unborn, created, waiting, running, stopped, finished, Main, spawning, init_test,
  init_waiting, done_test, done_waiting, merging, joined, System, init, wake,
}

-- Has counted itself in `num_initialized`.
abbrev pub entered : Worker → ℕ
entered unborn = 0
entered created = 0
entered _ = 1

-- Has counted itself in `num_done`.
abbrev pub ended : Worker → ℕ
ended finished = 1
ended _ = 0

-- Threads that have been constructed.
abbrev pub spawned : ℕ → Main → ℕ
spawned n (spawning i) = i
spawned n _ = n

-- What a worker's place says of the flag: one that is blocked has not been released.
abbrev pub Local : Bool → Worker → Type 0
Local start waiting = start ≡ false
Local start running = start ≡ true
Local start stopped = start ≡ true
Local start finished = start ≡ true
Local start _ = Unit

-- What the main thread's place says of the counters: where it is blocked, its test still fails.
abbrev pub Phase : ℕ → Bool → ℕ → ℕ → Main → Type 0
Phase n start inited ended (spawning i) = (start ≡ false) × (i ≤ n)
Phase n start inited ended init_test = start ≡ false
Phase n start inited ended init_waiting = (start ≡ false) × (inited < n)
Phase n start inited ended done_test = start ≡ true
Phase n start inited ended done_waiting = (start ≡ true) × (ended < n)
Phase n start inited ended merging = (start ≡ true) × (ended ≡ n)
Phase n start inited ended joined = (start ≡ true) × (ended ≡ n)

pub record Inv (n : ℕ) (s : System) : Type 0 where
  pub size : s.total ≡ n
  pub initialized : s.num_initialized ≡ count entered n s.worker
  pub done : s.num_done ≡ count ended n s.worker
  pub released : s.start ≡ true → s.num_initialized ≡ n
  pub phase : Phase n s.start s.num_initialized s.num_done s.main
  pub local : (j : ℕ) → Local s.start (s.worker j)
  pub born : (j : ℕ) → j < spawned n s.main → s.worker j ≢ unborn
  pub unmade : (j : ℕ) → spawned n s.main ≤ j → s.worker j ≡ unborn

pub entered-wake : (w : Worker) → entered (wake w) ≡ entered w
entered-wake w = ground arith

pub ended-wake : (w : Worker) → ended (wake w) ≡ ended w
ended-wake w = ground arith

pub entered-le : (w : Worker) → entered w ≤ 1
entered-le w = ground arith

pub ended-le : (w : Worker) → ended w ≤ 1
ended-le w = ground arith

pub init-Inv : (n : ℕ) → Inv n (init n)
unfolding init
init-Inv n = record {
  size = refl;
  initialized = omega (arith, count-constant entered n unborn refl);
  done = omega (arith, count-constant ended n unborn refl);
  released = λ e. cc;
  phase = (refl, omega arith);
  local = λ j. tt;
  born = λ j h. absurd (omega arith);
  unmade = λ j h. refl;
}

-- The sums over the workers, and those over the workers as `notify_all` leaves them, after a change
-- of worker `i` to `w`.
pub record Sums (n : ℕ) (f : ℕ → Worker) (i : ℕ) (w : Worker) : Type 0 where
  pub enter_sum : count entered n (update f i w) + entered (f i) ≡ count entered n f + entered w
  pub ended_sum : count ended n (update f i w) + ended (f i) ≡ count ended n f + ended w
  pub enter_woken :
      count entered n (update (λ j. wake (f j)) i w) + entered (wake (f i))
      ≡ count entered n f + entered w
  pub ended_woken :
      count ended n (update (λ j. wake (f j)) i w) + ended (wake (f i)) ≡ count ended n f + ended w
  pub woken_entered : count entered n (λ j. wake (f j)) ≡ count entered n f
  pub woken_ended : count ended n (λ j. wake (f j)) ≡ count ended n f
  pub enter_room : count entered n (update f i w) ≤ n
  pub ended_room : count ended n (update f i w) ≤ n
  pub woken_left : count ended n (λ j. wake (update f i w j)) ≡ count ended n (update f i w)
  pub woken_came : count entered n (λ j. wake (update f i w j)) ≡ count entered n (update f i w)

pub sums : (n : ℕ) (f : ℕ → Worker) (i : ℕ) (w : Worker) → i < n → Sums n f i w
sums n f i w h = record {
  enter_sum = count-update entered n f i w h;
  ended_sum = count-update ended n f i w h;
  enter_woken = omega (
    arith,
    count-update entered n (λ j. wake (f j)) i w h,
    count-map entered wake entered-wake n f,
  );
  ended_woken =
      omega
        (arith, count-update ended n (λ j. wake (f j)) i w h, count-map ended wake ended-wake n f);
  woken_entered = count-map entered wake entered-wake n f;
  woken_ended = count-map ended wake ended-wake n f;
  enter_room = count-le entered entered-le n _;
  ended_room = count-le ended ended-le n _;
  woken_left = count-map ended wake ended-wake n _;
  woken_came = count-map entered wake entered-wake n _;
}
