-- ===== src/Benchmark/Workers.antt =====
-- Whether the workers of a run come back, on arrays of any keys.
use mathlib.Core.Option
use fdp_rocks.Base.{
  dec_lt, ℕ, zero, suc, ◌+◌, ◌-◌, ◌*◌, ◌/◌, ◌%◌, ◌^◌, ◌≤◌, ◌<◌, ◌≡◌, refl, ◌∙◌, ◌⊎◌, inl, inr, true,
  false, none, List, [], ◌∷◌, arith, ◌==◌, length, length-append, ℕ_discrete, Option-cases,
}
use native.Mathlib.Nat.{div-add-mod}
use fdp_rocks.KeyOrder.Allotment.{Allotted}
use fdp_rocks.KeyOrder.Prepare.{arrays}
use fdp_rocks.KeyOrder.{Disk, KeyFlags, Rng}
use fdp_rocks.KeyOrder.Allotment.{HasCounts}
use fdp_rocks.KeyOrder.Partition.{joined}
use fdp_rocks.KeyOrder.Prepare.{expected_count}
use fdp_rocks.Stats.{IsReportable, new_stats, start_at}
use fdp_rocks.Writer.{State}
use fdp_rocks.Writer.Faults.{simple_random_write-stuck, simple_random_write-overrun}
use fdp_rocks.Writer.Value.{IsGoodSize}
use fdp_rocks.Benchmark.{
  WriteFlags, Surroundings, merged, run_benchmark, thread_work, run_workers, write_of, config_of,
}
use fdp_rocks.Benchmark.Main.{exit_code, broken, exit_of}
use fdp_rocks.Benchmark.Team.{length-member, Team, run_workers-Team}

module _ (r : Rng) (f : KeyFlags) where
  -- The numbers of keys of the workers add up to num.
  counts_from :
      (kss : List (List ℕ)) (tid : ℕ)
      → 0 < length kss
      → tid + length kss ≡ f.worker_threads
      → HasCounts r f tid kss
      → length (joined kss) ≡ length kss * (f.num / f.worker_threads) + f.num % f.worker_threads
  unfolding expected_count
  counts_from [] tid p e h = absurd (omega arith)
  counts_from (ks ∷ []) tid p e h =
      let last : (tid == f.worker_threads - 1) ≡ true = ground arith in
      let count : length ks ≡ f.num / f.worker_threads + f.num % f.worker_threads =
        h.0 ∙ rw last refl in
      omega (arith, count, length-append ks [])
  counts_from (ks ∷ ls ∷ kss) tid p e h =
      let other : (tid == f.worker_threads - 1) ≡ false = ground arith in
      let count : length ks ≡ f.num / f.worker_threads = h.0 ∙ rw other (omega arith) in
      let rest = counts_from (ls ∷ kss) (tid + 1) (omega arith) (omega arith) h.1 in
      grind (arith, count, rest, length-append ks (joined (ls ∷ kss)))

  pub length-joined :
      (kss : List (List ℕ))
      → 0 < f.worker_threads
      → length kss ≡ f.worker_threads
      → HasCounts r f 0 kss
      → length (joined kss) ≡ f.num
  length-joined kss p e h =
      grind
        (arith, counts_from kss 0 (omega arith) (omega arith) h, div-add-mod f.num f.worker_threads)

  -- Without workers there are no keys.
  pub joined-le :
      (kss : List (List ℕ)) (d : Disk) → Allotted r f (arrays kss d) → length (joined kss) ≤ f.num
  joined-le kss d a = elim (dec_lt 0 f.worker_threads) [
    | yes p ↦ omega (arith, length-joined kss p a.0 a.1)
    | no h ↦ no_arrays kss (omega (arith, a.0, h))
  ]
    where
      no_arrays : (kss : List (List ℕ)) → length kss ≡ 0 → length (joined kss) ≤ f.num
      no_arrays [] e = omega arith
      no_arrays (ks ∷ kss) e = absurd (omega arith)

module _ (w : WriteFlags) (env : Surroundings) where
  -- Flags with which a worker does not come back from its first key.
  abbrev pub Faulty : Type 0
  Faulty = (w.batch ≡ 0) ⊎ (¬ IsGoodSize w.value_size)

  thread_work-stuck :
      (fuel i key : ℕ) (keys : List ℕ) → w.batch ≡ 0 → thread_work w env fuel i (key ∷ keys) ≡ none
  unfolding thread_work
  thread_work-stuck fuel i key keys e =
      rw
        (
          simple_random_write-stuck (write_of w env i) (env.clock i) (env.seed i)
              (config_of w env i) fuel
              (start_at w.stats (new_stats w.stats i (env.created i)) (env.started i)) 0 key keys e,
          thread_work,
        )
        refl

  thread_work-none :
      (fuel i key : ℕ) (keys : List ℕ)
      → Faulty
      → 0 < fuel
      → thread_work w env fuel i (key ∷ keys) ≡ none
  unfolding thread_work
  thread_work-none fuel i key keys (inl e) p = thread_work-stuck fuel i key keys e
  thread_work-none zero i key keys (inr bad) p = absurd (omega arith)
  thread_work-none (suc fuel) i key keys (inr bad) p = elim (ℕ_discrete w.batch 0) [
    | yes e ↦ thread_work-stuck (suc fuel) i key keys e
    | no some_room ↦
        rw
          (
            simple_random_write-overrun (write_of w env i) (env.clock i) (env.seed i)
                (config_of w env i) fuel
                (start_at w.stats (new_stats w.stats i (env.created i)) (env.started i)) 0 key keys
                (omega (arith, some_room)) bad,
            thread_work,
          )
          refl
  ]

  run_workers-none :
      (fuel i : ℕ) (kss : List (List ℕ))
      → Faulty
      → 0 < fuel
      → 0 < length (joined kss)
      → run_workers w env fuel i kss ≡ none
  unfolding run_workers
  run_workers-none fuel i [] bad p h = absurd (omega arith)
  run_workers-none fuel i ((k ∷ ks) ∷ kss) bad p h =
      rw (thread_work-none fuel i k ks bad p, run_workers) refl
  run_workers-none fuel i ([] ∷ kss) bad p h = elim (Option-cases (thread_work w env fuel i [])) [
    | inl e ↦ rw (e, run_workers) refl
    | inr (s, e) ↦
        rw (e, run_workers) (rw (run_workers-none fuel (i + 1) kss bad p h, Option.map) refl)
  ]

  pub run_benchmark-Faulty :
      (fuel : ℕ) (kss : List (List ℕ))
      → Faulty
      → 0 < fuel
      → 0 < length (joined kss)
      → exit_of (run_benchmark w env fuel kss) ≡ broken
  unfolding run_benchmark exit_of
  run_benchmark-Faulty fuel kss bad p h =
      rw (run_workers-none fuel 0 kss bad p h, run_benchmark, exit_of) refl

  exit_of-merged :
      (kss : List (List ℕ)) (ss : List (State ℕ))
      → 0 < length kss
      → Team w env 0 kss ss
      → exit_of (merged w env ss) ≡ exit_code 0
  unfolding merged exit_of Team
  exit_of-merged [] ss p t = absurd (omega arith)
  exit_of-merged (ks ∷ kss) [] p t = absurd t
  exit_of-merged (ks ∷ kss) (s ∷ ss) p t = refl

  pub run_benchmark-good :
      (fuel : ℕ) (kss : List (List ℕ))
      → 0 < w.batch
      → IsGoodSize w.value_size
      → IsReportable w.stats
      → length (joined kss) ≤ fuel
      → length (joined kss) + 20000 < 2 ^ 61
      → 0 < length kss
      → exit_of (run_benchmark w env fuel kss) ≡ exit_code 0
  unfolding run_benchmark
  run_benchmark-good fuel kss positive good small enough room p =
      let (ss, runs, team) =
        run_workers-Team w env positive good small fuel 0 (length (joined kss)) kss
          (length-member kss) enough room in
      rw (runs, run_benchmark) (exit_of-merged kss ss p team)
