-- ===== src/Barrier/Moves.antt =====
-- Every critical section of the barrier keeps the meaning of its counters.
use fdp_rocks.Base.{ℕ, ◌<◌, ◌≡◌, ◌≢◌, inl, inr, arith, ltb, if◌then◌else◌, Bool-cases}
use fdp_rocks.Base.Family.{update, count-map, count-le}
use fdp_rocks.Barrier.{
  created, waiting, woken, running, stopped, finished, spawning, init_test, done_test, merging,
  System, wake, wake_main, spawn, enter, recheck, stop, leave, await_done, await_init, join,
}
use fdp_rocks.Barrier.Counters.{
  entered, ended, entered-wake, ended-wake, entered-le, ended-le, Inv, sums,
}

module _ {n : ℕ} {s : System} (v : Inv n s) where
  open v use {size, initialized, done, released, phase, local, born, unmade}

  pub spawn-Inv : (i : ℕ) → s.main ≡ spawning i → Inv n (spawn s i)
  unfolding spawn
  spawn-Inv i e = elim (Bool-cases (ltb i s.total)) [
    | inl lt ↦
        let m = sums n s.worker i created (ground arith) in
        rw lt (record {
          size = size;
          initialized = ground (arith, m, unmade i);
          done = ground (arith, m, unmade i);
          released = ground arith;
          phase = ground arith;
          local = λ j. ground (arith, local j);
          born = λ j h. ground (arith, born j);
          unmade = λ j h. ground (arith, unmade j);
        })
    | inr ge ↦ rw ge (record {
      size = size;
      initialized = initialized;
      done = done;
      released = released;
      phase = ground arith;
      local = local;
      born = λ j h. ground (arith, born j);
      unmade = λ j h. ground (arith, unmade j);
    })
  ]

  pub enter-Inv :
      (i : ℕ) → i < s.total → s.worker i ≡ created → s.main ≢ merging → Inv n (enter s i)
  unfolding enter
  enter-Inv i lt e free =
      let m = sums n s.worker i (if s.start then running else waiting) (ground arith) in
      record {
        size = ground arith;
        initialized = ground (arith, m);
        done = ground (arith, m);
        released = ground (arith, m);
        phase = ground (arith, m);
        local = λ j. ground (arith, local j);
        born = λ j h. ground (arith, born j);
        unmade = λ j h. ground (arith, unmade j, unmade i);
      }

  pub recheck-Inv : (i : ℕ) → i < s.total → s.worker i ≡ woken → Inv n (recheck s i)
  unfolding recheck
  recheck-Inv i lt e =
      let m = sums n s.worker i (if s.start then running else waiting) (ground arith) in
      record {
        size = size;
        initialized = ground (arith, m);
        done = ground (arith, m);
        released = released;
        phase = phase;
        local = λ j. ground (arith, local j);
        born = λ j h. ground (arith, born j);
        unmade = λ j h. ground (arith, unmade j, unmade i);
      }

  pub stop-Inv : (i : ℕ) → i < s.total → s.worker i ≡ running → Inv n (stop s i)
  unfolding stop
  stop-Inv i lt e =
      let m = sums n s.worker i stopped (ground arith) in
      record {
        size = size;
        initialized = ground (arith, m);
        done = ground (arith, m);
        released = released;
        phase = phase;
        local = λ j. ground (arith, local j, local i);
        born = λ j h. ground (arith, born j);
        unmade = λ j h. ground (arith, unmade j, unmade i);
      }

  pub leave-Inv :
      (i : ℕ) → i < s.total → s.worker i ≡ stopped → s.main ≢ merging → Inv n (leave s i)
  unfolding leave
  leave-Inv i lt e free =
      let m = sums n s.worker i finished (ground arith) in
      record {
        size = ground arith;
        initialized = ground (arith, m);
        done = ground (arith, m);
        released = ground arith;
        phase = ground (arith, m);
        local = λ j. ground (arith, local j, local i);
        born = λ j h. ground (arith, born j);
        unmade = λ j h. ground (arith, unmade j, unmade i);
      }

  pub await_done-Inv : s.main ≡ done_test → Inv n (await_done s)
  unfolding await_done
  await_done-Inv e = record {
    size = ground arith;
    initialized = ground arith;
    done = ground arith;
    released = ground arith;
    phase = ground (arith, count-le ended ended-le n s.worker);
    local = λ j. ground (arith, local j);
    born = λ j h. ground (arith, born j);
    unmade = λ j h. ground (arith, unmade j);
  }

  pub await_init-Inv : s.main ≡ init_test → Inv n (await_init s)
  unfolding await_init
  await_init-Inv e = record {
    size = ground arith;
    initialized = ground (arith, count-map entered wake entered-wake n s.worker);
    done = ground (arith, count-map ended wake ended-wake n s.worker);
    released = ground (arith, count-le entered entered-le n s.worker);
    phase = ground (arith, count-le ended ended-le n s.worker);
    local = λ j. ground (arith, local j);
    born = λ j h. ground (arith, born j);
    unmade = λ j h. ground (arith, unmade j);
  }

  pub join-Inv : s.main ≡ merging → Inv n (join s)
  unfolding join
  join-Inv e = record {
    size = size;
    initialized = initialized;
    done = done;
    released = released;
    phase = ground arith;
    local = local;
    born = λ j h. ground (arith, born j);
    unmade = λ j h. ground (arith, unmade j);
  }

  pub worker_wakes-Inv :
      (i : ℕ)
      → i < s.total
      → s.worker i ≡ waiting
      → Inv n (record s { worker = update s.worker i woken })
  worker_wakes-Inv i lt e =
      let m = sums n s.worker i woken (ground arith) in
      record {
        size = size;
        initialized = ground (arith, m);
        done = ground (arith, m);
        released = released;
        phase = phase;
        local = λ j. ground (arith, local j);
        born = λ j h. ground (arith, born j);
        unmade = λ j h. ground (arith, unmade j, unmade i);
      }

  pub main_wakes-Inv : Inv n (record s { main = wake_main s.main })
  main_wakes-Inv = record {
    size = size;
    initialized = initialized;
    done = done;
    released = released;
    phase = ground arith;
    local = local;
    born = λ j h. ground (arith, born j);
    unmade = λ j h. ground (arith, unmade j);
  }
