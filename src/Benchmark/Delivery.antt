-- ===== src/Benchmark/Delivery.antt =====
-- What a whole run delivers: every key once, and statistics that count them all.
use mathlib.Core.List.{Perm}
use mathlib.Core.List.Perm
use fdp_rocks.Base.{
  ℕ, ◌+◌, ◌^◌, ◌≤◌, ◌<◌, ◌≡◌, refl, sym, ◌∙◌, subst, true, false, Option, List, [], ◌∷◌, arith,
  ◌==◌, ltb, length, All, map,
}
use fdp_rocks.Base.Permutation.{length-Perm}
use fdp_rocks.Base.Text.{codes, text_eq}
use fdp_rocks.KeyOrder.{KeyFlags, Disk, Rng, absent, range_from}
use fdp_rocks.KeyOrder.Allotment.{Allotted, prepare_shuffled_keys-Allotted}
use fdp_rocks.KeyOrder.Counts.{length-range_from}
use fdp_rocks.KeyOrder.Partition.{joined, arrays_of, prepare_shuffled_keys-partition}
use fdp_rocks.KeyOrder.Prepare.{
  Prepared, bad_distribution, zero_division, arrays, is_distribution, prepare_shuffled_keys,
}
use fdp_rocks.Stats.{IsReportable, Stats, merge_all, report_done}
use fdp_rocks.Stats.Merging.{ops, done-merge_all, done-merge_all-lt}
use fdp_rocks.TransformKey.{transform_key}
use fdp_rocks.Writer.{State}
use fdp_rocks.Writer.Value.{IsGoodSize}
use fdp_rocks.Benchmark.{
  WriteFlags, Surroundings, Finished, finished, merged, run_benchmark, after_prepare, run,
}
use fdp_rocks.Benchmark.Team.{
  all_sent, all_accepted, all_delivered, length-member, Team, run_workers-Team, Team-all_sent,
  Team-ops, Team-accepted, AllCut, Team-AllCut,
}

module _ (w : WriteFlags) (env : Surroundings) where
  -- The arrays of the workers of a run, and what they have done with them.
  pub record Worked (num : ℕ) (o : Finished) : Type 0 where
    pub orders : List (List ℕ)
    pub workers : List (State ℕ)
    pub ends : o ≡ merged w env workers
    pub all : Perm (joined orders) (range_from 1 num)
    pub team : Team w env 0 orders workers

  -- A run on these keys has come to its end: what the workers have sent and counted.
  pub record Delivered (num : ℕ) (o : Finished) : Type 0 where
    pub workers : List (State ℕ)
    pub total : Stats
    pub ends : o ≡ finished workers total
    pub keys : Perm (all_sent workers) (map transform_key (range_from 1 num))
    pub batches : AllCut w env workers
    pub counted : total.done ≡ num
    pub accepted : all_accepted workers ≡ all_delivered workers

  done-merged :
      (num : ℕ) (ks : List ℕ) (kss : List (List ℕ)) (s : State ℕ) (ss : List (State ℕ))
      → num < 2 ^ 64
      → length (joined (ks ∷ kss)) ≡ num
      → Team w env 0 (ks ∷ kss) (s ∷ ss)
      → (merge_all s.stats (map (λ (t : State ℕ). t.stats) ss)).done ≡ num
  unfolding ops
  done-merged num ks kss s ss k e t =
      let ts = map (λ (t : State ℕ). t.stats) ss in
      let all = Team-ops w env 0 (ks ∷ kss) (s ∷ ss) t in
      omega (
        arith,
        all,
        e,
        done-merge_all s.stats ts,
        done-merge_all-lt s.stats ts (omega (arith, all, e)),
      )

  merged-Delivered :
      (num : ℕ) (kss : List (List ℕ)) (ss : List (State ℕ))
      → 0 < num
      → num < 2 ^ 64
      → Perm (joined kss) (range_from 1 num)
      → Team w env 0 kss ss
      → Delivered num (merged w env ss)
  unfolding merged report_done Team
  merged-Delivered num [] [] h k p t =
      absurd (omega (arith, length-Perm p, length-range_from 1 num))
  merged-Delivered num [] (s ∷ ss) h k p t = absurd t
  merged-Delivered num (ks ∷ kss) [] h k p t = absurd t
  merged-Delivered num (ks ∷ kss) (s ∷ ss) h k p t =
      let all = done-merged num ks kss s ss k (length-Perm p ∙ length-range_from 1 num) t in
      record {
        workers = s ∷ ss;
        total = report_done (merge_all s.stats (map (λ (t : State ℕ). t.stats) ss));
        ends = refl;
        keys =
            subst (λ xs. Perm xs (map transform_key (range_from 1 num)))
              (sym (Team-all_sent w env 0 (ks ∷ kss) (s ∷ ss) t)) (Perm.map transform_key p);
        batches = Team-AllCut w env 0 (ks ∷ kss) (s ∷ ss) t;
        counted = ground (arith, all);
        accepted = Team-accepted w env 0 (ks ∷ kss) (s ∷ ss) t;
      }

  module _ (r : Rng) (f : KeyFlags) (stoull : List ℕ → Option ℕ) (disk : Disk) (fuel : ℕ)
      (positive : 0 < w.batch) (good : IsGoodSize w.value_size) (small : IsReportable w.stats)
      (uniform : text_eq f.key_distribution (codes "uniform") ≡ true)
      (some_worker : 0 < f.worker_threads) (few_workers : f.worker_threads < 2 ^ 31)
      (some_key : 0 < f.num) (room : f.num + 20000 < 2 ^ 61) (enough : f.num ≤ fuel)
      (no_file : (path : List ℕ) → disk.files path ≡ absent) where
    run_benchmark-Team :
        (kss : List (List ℕ))
        → Perm (joined kss) (range_from 1 f.num)
        → (ss : List (State ℕ)) × (run_benchmark w env fuel kss ≡ merged w env ss)
          × Team w env 0 kss ss
    unfolding run_benchmark
    run_benchmark-Team kss p =
        let size : length (joined kss) ≡ f.num = length-Perm p ∙ length-range_from 1 f.num in
        let each : All (λ (ks : List ℕ). length ks ≤ f.num) kss =
          subst (λ (n : ℕ). All (λ (ks : List ℕ). length ks ≤ n) kss) size (length-member kss) in
        let (ss, runs, team) =
          run_workers-Team w env positive good small fuel 0 f.num kss each enough room in
        (ss, rw (runs, run_benchmark) refl, team)

    after_prepare-Team :
        (p : Prepared r f)
        → Allotted r f p
        → Perm (joined (arrays_of r f stoull p)) (range_from 1 f.num)
        → Worked f.num (after_prepare w env r f fuel p)
    unfolding after_prepare is_distribution
    after_prepare-Team bad_distribution a p = absurd (ground (arith, a))
    after_prepare-Team zero_division a p = absurd (omega (arith, a))
    after_prepare-Team (arrays kss d) a p =
        let (ss, runs, team) = run_benchmark-Team kss p in
        let few : ltb f.worker_threads (2 ^ 31) ≡ true = ground arith in
        record { orders = kss; workers = ss; ends = rw few runs; all = p; team = team }

    -- The workers have written arrays that hold the keys up to num together.
    pub run-Worked : Worked f.num (run w env r f stoull disk fuel)
    unfolding run
    run-Worked =
        let test : (f.num == 0) ≡ false = ground arith in
        rw test (
          after_prepare-Team (prepare_shuffled_keys r f stoull disk)
            (prepare_shuffled_keys-Allotted r f stoull disk (omega arith))
            (prepare_shuffled_keys-partition r f stoull disk uniform some_worker (omega arith)
              no_file))

    -- With the uniform distribution, no key file at any path, from 1 to 2^31 - 1 workers, num
    -- positive and below 2^61 - 20000, a positive batch size, a value size of 8 or at least 16,
    -- a report interval below 2^40 and a report interval or a stats interval that is not 0, a
    -- run of the benchmark comes to its end (with fuel num for each worker), whatever statuses
    -- the database gives. The batches of all workers together hold the keys of the numbers from
    -- 1 to num, each once; only the last batch of a worker is not full; the merged statistics
    -- count num operations; and the success counts of the workers add up to the pairs in
    -- accepted batches.
    pub run-Delivered : Delivered f.num (run w env r f stoull disk fuel)
    run-Delivered =
        let o = run-Worked in
        subst (Delivered f.num) (sym o.ends)
          (merged-Delivered f.num o.orders o.workers some_key (omega arith) o.all o.team)
