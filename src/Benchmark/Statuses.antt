-- ===== src/Benchmark/Statuses.antt =====
-- The batches of a run do not depend on the statuses that the database gives.
use mathlib.Core.List.{head-eq_of_cons-eq, tail-eq_of_cons-eq}
use fdp_rocks.Base.{
  ℕ, zero, suc, ◌+◌, ◌^◌, ◌≤◌, ◌<◌, ◌≡◌, refl, sym, ap, ap₂, ◌∙◌, inl, inr, Bool, true, Option,
  List, [], ◌∷◌, arith, ◌==◌, length, Bool-cases, ltb, map,
}
use fdp_rocks.KeyOrder.{KeyFlags, Disk, Rng}
use fdp_rocks.KeyOrder.Allotment.{Allotted, prepare_shuffled_keys-Allotted}
use fdp_rocks.KeyOrder.Partition.{joined}
use fdp_rocks.Benchmark.Workers.{joined-le}
use fdp_rocks.KeyOrder.Prepare.{
  Prepared, bad_distribution, zero_division, arrays, prepare_shuffled_keys,
}
use fdp_rocks.Stats.{IsReportable}
use fdp_rocks.Writer.{State}
use fdp_rocks.Writer.Spec.{contents, write_all}
use fdp_rocks.Writer.Total.{Wrote}
use fdp_rocks.Writer.Cuts.{Cut-unique}
use fdp_rocks.Writer.Value.{IsGoodSize}
use fdp_rocks.Database.{Log}
use fdp_rocks.Benchmark.{
  WriteFlags, Surroundings, write_of, config_of, run_benchmark, after_prepare, run,
}
use fdp_rocks.Benchmark.Held.{logs_of, batches_of, logs_of-merged}
use fdp_rocks.Benchmark.Team.{Team, run_workers-Team, length-member}

-- The statuses in a log, in logs, from the first call on.
unfoldable pub status_in : Log → ℕ → Bool
status_in [] n = true
status_in ((b, fine) ∷ log) zero = fine
status_in ((b, fine) ∷ log) (suc n) = status_in log n

unfoldable pub statuses_in : List Log → ℕ → ℕ → Bool
unfolding status_in
statuses_in [] i n = true
statuses_in (log ∷ logs) zero n = status_in log n
statuses_in (log ∷ logs) (suc i) n = statuses_in logs i n

-- The surroundings with these statuses.
abbrev pub with_statuses : List Log → Surroundings → Surroundings
with_statuses logs env = record env { status = statuses_in logs }

module _ (w : WriteFlags) (env : Surroundings) where
  -- The log of a worker is its batches with the statuses that it is given.
  write_all-log :
      (i n : ℕ) (log : Log)
      → ((m : ℕ) → env.status i (n + m) ≡ status_in log m)
      → (write_all (write_of w env i) n (contents log)).0 ≡ log
  unfolding write_all write_of status_in
  write_all-log i n [] h = refl
  write_all-log i n ((b, fine) ∷ log) h =
      let first : env.status i n ≡ fine = ap (env.status i) (plus_zero n) ∙ h 0 in
      rw first (
        ap (λ l. (b, fine) ∷ l)
          (write_all-log i (n + 1) log (λ m. ap (env.status i) (plus_one n m) ∙ h (suc m))))
    where
      plus_zero : (n : ℕ) → n ≡ n + 0
      plus_zero n = omega arith

      plus_one : (n m : ℕ) → n + 1 + m ≡ n + suc m
      plus_one n m = omega arith

module _ (w : WriteFlags) (env : Surroundings) (st : ℕ → ℕ → Bool) where
  abbrev env' : Surroundings
  env' = record env { status = st }

  Wrote-log :
      (i : ℕ) (ks : List ℕ) (s s' : State ℕ) (log : Log)
      → 0 < w.batch
      → Wrote (write_of w env i) (env.clock i) (env.seed i) (config_of w env i) 0 ks s
      → Wrote (write_of w env' i) (env.clock i) (env.seed i) (config_of w env' i) 0 ks s'
      → contents log ≡ contents s.batches
      → ((m : ℕ) → st i m ≡ status_in log m)
      → s'.batches ≡ log
  Wrote-log i ks s s' log p wrote wrote' e h =
      let same : contents s'.batches ≡ contents log =
        Cut-unique w.batch (contents s'.batches) (contents s.batches) p wrote'.cut wrote.cut
          (wrote'.order ∙ sym wrote.order)
        ∙ sym e in
      sym (ap (λ r. r.0) wrote'.replay)
      ∙ ap (λ bs. (write_all (write_of w env' i) 0 bs).0) same
      ∙ write_all-log w env' i 0 log (λ m. ap (st i) (from_zero m) ∙ h m)
    where
      from_zero : (m : ℕ) → 0 + m ≡ m
      from_zero m = omega arith

  Team-logs :
      (i : ℕ) (kss : List (List ℕ)) (ss ss' : List (State ℕ)) (logs : List Log)
      → 0 < w.batch
      → Team w env i kss ss
      → Team w env' i kss ss'
      → map contents logs ≡ map contents (batches_of ss)
      → ((j m : ℕ) → st (i + j) m ≡ statuses_in logs j m)
      → batches_of ss' ≡ logs
  unfolding Team statuses_in
  Team-logs i [] [] [] [] p t t' e h = refl
  Team-logs i [] [] [] (l ∷ logs) p t t' e h = absurd (omega (arith, ap length e))
  Team-logs i [] [] (s' ∷ ss') logs p t t' e h = absurd t'
  Team-logs i [] (s ∷ ss) ss' logs p t t' e h = absurd t
  Team-logs i (ks ∷ kss) [] ss' logs p t t' e h = absurd t
  Team-logs i (ks ∷ kss) (s ∷ ss) [] logs p t t' e h = absurd t'
  Team-logs i (ks ∷ kss) (s ∷ ss) (s' ∷ ss') [] p t t' e h = absurd (omega (arith, ap length e))
  Team-logs i (ks ∷ kss) (s ∷ ss) (s' ∷ ss') (l ∷ logs) p t t' e h =
      ap₂ (λ x xs. x ∷ xs)
        (Wrote-log i ks s s' l p t.0 t'.0 (head-eq_of_cons-eq e)
          (λ m. ap (λ j. st j m) (here i) ∙ h 0 m))
        (Team-logs (i + 1) kss ss ss' logs p t.1 t'.1 (tail-eq_of_cons-eq e)
          (λ j m. ap (λ k. st k m) (later i j) ∙ h (suc j) m))
    where
      here : (i : ℕ) → i ≡ i + 0
      here i = omega arith

      later : (i j : ℕ) → i + 1 + j ≡ i + suc j
      later i j = omega arith

nothing_sent : (logs : List Log) → map contents logs ≡ [] → [] ≡ logs
nothing_sent [] e = refl
nothing_sent (l ∷ logs) e = absurd (omega (arith, ap length e))

module _ (w : WriteFlags) (env : Surroundings) (r : Rng) (f : KeyFlags) (stoull : List ℕ → Option ℕ)
    (disk : Disk) (fuel : ℕ) (positive : 0 < w.batch) (good : IsGoodSize w.value_size)
    (small : IsReportable w.stats) (room : f.num + 20000 < 2 ^ 61) (enough : f.num ≤ fuel)
    (logs : List Log) where
  run_benchmark-logs :
      (kss : List (List ℕ)) (d : Disk)
      → Allotted r f (arrays kss d)
      → map contents logs ≡ map contents (logs_of (run_benchmark w env fuel kss))
      → logs_of (run_benchmark w (with_statuses logs env) fuel kss) ≡ logs
  unfolding run_benchmark
  run_benchmark-logs kss d a e =
      let le = joined-le r f kss d a in
      let (ss, runs, team) =
        run_workers-Team w env positive good small fuel 0 (length (joined kss)) kss
          (length-member kss) (omega (arith, le)) (omega (arith, le)) in
      let (ss', runs', team') =
        run_workers-Team w (with_statuses logs env) positive good small fuel 0 (length (joined kss))
          kss (length-member kss) (omega (arith, le)) (omega (arith, le)) in
      let was : logs_of (run_benchmark w env fuel kss) ≡ batches_of ss =
        rw (runs, run_benchmark) (logs_of-merged w env ss) in
      rw (runs', run_benchmark)
        (logs_of-merged w (with_statuses logs env) ss'
          ∙ Team-logs w env (statuses_in logs) 0 kss ss ss' logs positive team team'
              (e ∙ ap (map contents) was) (λ j m. ap (λ k. statuses_in logs k m) (from_zero j)))
    where
      from_zero : (m : ℕ) → 0 + m ≡ m
      from_zero m = omega arith

  after_prepare-logs :
      (p : Prepared r f)
      → Allotted r f p
      → map contents logs ≡ map contents (logs_of (after_prepare w env r f fuel p))
      → logs_of (after_prepare w (with_statuses logs env) r f fuel p) ≡ logs
  unfolding after_prepare logs_of
  after_prepare-logs bad_distribution a e = nothing_sent logs e
  after_prepare-logs zero_division a e = nothing_sent logs e
  after_prepare-logs (arrays kss d) a e = elim (Bool-cases (ltb f.worker_threads (2 ^ 31))) [
    | inl few ↦ rw few (run_benchmark-logs kss d a (e ∙ rw few refl))
    | inr many ↦ rw many (nothing_sent logs (e ∙ rw many refl))
  ]

  -- For every distribution and whatever the key files hold, with num below 2^61 - 20000, a
  -- positive batch size, a value size of 8 or at least 16, a report interval below 2^40, a
  -- report interval or a stats interval that is not 0 and fuel num for each worker: the batches
  -- that the workers of a run write do not depend on the statuses that they get; for all logs
  -- with the batches of a run and any statuses, the run with the same clocks and seeds in which
  -- the calls of Write give these statuses has exactly these logs.
  pub run-logs :
      map contents logs ≡ map contents (logs_of (run w env r f stoull disk fuel))
      → logs_of (run w (with_statuses logs env) r f stoull disk fuel) ≡ logs
  unfolding run logs_of
  run-logs e = elim (Bool-cases (f.num == 0)) [
    | inl nothing ↦ rw nothing (nothing_sent logs (e ∙ rw nothing refl))
    | inr some_key ↦ rw some_key (
        after_prepare-logs (prepare_shuffled_keys r f stoull disk)
          (prepare_shuffled_keys-Allotted r f stoull disk (omega arith)) (e ∙ rw some_key refl))
  ]
