-- ===== src/Benchmark/Stored.antt =====
-- What a run leaves in the database that its workers write to at the same time.
use mathlib.Core.List.Perm
use fdp_rocks.Base.{
  ℕ, ◌+◌, ◌^◌, ◌≤◌, ◌<◌, ◌≡◌, sym, ap, ◌∙◌, subst, inl, inr, true, Option, some, List, arith, map,
}
use fdp_rocks.Base.Occurs.{occurs, occurs-Perm}
use fdp_rocks.Base.Permutation.{Below-Perm}
use fdp_rocks.Base.Text.{codes, text_eq}
use fdp_rocks.KeyOrder.{KeyFlags, Disk, Rng, absent, range_from}
use fdp_rocks.TransformKey.{transform_key}
use fdp_rocks.Stats.{IsReportable}
use fdp_rocks.Writer.Value.{IsGoodSize, value_of}
use fdp_rocks.Benchmark.Keys.{occurs_once, occurs_in}
use fdp_rocks.Database.{Database, Serial, all_puts, find, or_old}
use fdp_rocks.Database.Lookup.{puts_at}
use fdp_rocks.Database.Contents.{Serial-contents}
use fdp_rocks.Benchmark.{WriteFlags, Surroundings, run}
use fdp_rocks.Benchmark.Team.{all_sent, Team-all_sent}
use fdp_rocks.Benchmark.Delivery.{Worked, run-Worked}
use fdp_rocks.KeyOrder.Bounds.{Below-range_from}
use fdp_rocks.Benchmark.Held.{
  logs_of, batches_of, all_puts-le, all_puts-sent, Team-Held, logs_of-merged,
}

module _ (w : WriteFlags) (env : Surroundings) where
  module _ (r : Rng) (f : KeyFlags) (stoull : List ℕ → Option ℕ) (disk : Disk) (fuel : ℕ)
      (positive : 0 < w.batch) (good : IsGoodSize w.value_size) (small : IsReportable w.stats)
      (uniform : text_eq f.key_distribution (codes "uniform") ≡ true)
      (some_worker : 0 < f.worker_threads) (few_workers : f.worker_threads < 2 ^ 31)
      (some_key : 0 < f.num) (room : f.num + 20000 < 2 ^ 61) (enough : f.num ≤ fuel)
      (no_file : (path : List ℕ) → disk.files path ≡ absent) (d : Database) (db final : d.Db)
      (serial : Serial d final (logs_of (run w env r f stoull disk fuel)) db) where
    worked : Worked w env f.num (run w env r f stoull disk fuel)
    worked =
        run-Worked w env r f stoull disk fuel positive good small uniform some_worker few_workers
          some_key room enough no_file

    logs_of-run : logs_of (run w env r f stoull disk fuel) ≡ batches_of worked.workers
    logs_of-run = ap logs_of worked.ends ∙ logs_of-merged w env worked.workers

    all_sent-occurs :
        (key : List ℕ)
        → occurs key (all_sent worked.workers) ≡ occurs key (map transform_key (range_from 1 f.num))
    all_sent-occurs key =
        ap (occurs key) (Team-all_sent w env 0 worked.orders worked.workers worked.team)
        ∙ occurs-Perm key (Perm.map transform_key worked.all)

    -- With the uniform distribution, no key file at any path, from 1 to 2^31 - 1 workers, num
    -- positive and below 2^61 - 20000, a positive batch size, a value size of 8 or at least 16,
    -- a report interval below 2^40, a report interval or a stats interval that is not 0 and fuel
    -- num for each worker: if the calls of Write that the workers of a run have made, each in
    -- its own order, can be put into one order in which the database gives the statuses that the
    -- workers have seen, then what the database has at each key in the end does not depend on
    -- that order: it is the value of the put of that key in an accepted batch, or what was there
    -- before if there is none.
    pub run-Stored :
        (key : List ℕ)
        → d.get final key
          ≡ or_old (find key (all_puts (logs_of (run w env r f stoull disk fuel)))) (d.get db key)
    run-Stored key =
        Serial-contents d final (logs_of (run w env r f stoull disk fuel)) db key serial (
          subst (λ ls. puts_at key (all_puts ls) ≤ 1) (sym logs_of-run)
            (omega (
              arith,
              all_puts-le key worked.workers,
              all_sent-occurs key,
              occurs_once key 1 f.num (omega arith),
            )))

    -- With the uniform distribution, no key file at any path, from 1 to 2^31 - 1 workers, num
    -- positive and below 2^61 - 20000, a positive batch size, a value size of 8 or at least 16,
    -- a report interval below 2^40, a report interval or a stats interval that is not 0 and fuel
    -- num for each worker: if the calls of Write that the workers of a run have made, each in
    -- its own order, can be put into one order in which the database gives the statuses that the
    -- workers have seen, and if no call fails, then the database has at the end, at the key of
    -- each number from 1 to num, the value of that number: the seed of some index of some
    -- worker, and behind it the number, if the size is above 8.
    pub run-AllStored :
        (k : ℕ)
        → ((i n : ℕ) → env.status i n ≡ true)
        → 1 ≤ k
        → k ≤ f.num
        → (i : ℕ) × (j : ℕ) × (d.get final (transform_key k)
            ≡ some (value_of w.value_size (env.seed i j) k))
    run-AllStored k fine h h' =
        let key = transform_key k in
        let counted : 1 ≤ puts_at key (all_puts (batches_of worked.workers)) = omega (
          arith,
          ap (occurs key) (all_puts-sent w env 0 worked.orders worked.workers fine worked.team),
          all_sent-occurs key,
          occurs_in k 1 f.num h (omega arith),
        ) in
        elim (Team-Held w env 0 k worked.orders worked.workers fine (omega arith)
          (Below-Perm (2 ^ 64) (Perm.symm worked.all)
            (Below-range_from 1 f.num (2 ^ 64) (omega arith)))
          worked.team) [
            | inl none_there ↦ absurd (omega (arith, none_there, counted))
            | inr (i, j, e) ↦ (
              i,
              j,
              run-Stored key
                  ∙ ap (λ ls. or_old (find key (all_puts ls)) (d.get db key)) logs_of-run
                  ∙ ap (λ o. or_old o (d.get db key)) e,
            )
          ]
