-- ===== src/Benchmark/Origin.antt =====
-- Where the values come from that a run leaves in the database, for every distribution and whatever
-- the key files hold.
use fdp_rocks.Base.{
  ℕ, ◌+◌, ◌^◌, ◌≤◌, ◌<◌, ◌≡◌, refl, sym, subst, ◌⊎◌, inl, inr, true, false, Option, some, List, [],
  ◌∷◌, arith, ◌==◌, length, Bool-cases, ltb,
}
use fdp_rocks.KeyOrder.{KeyFlags, Disk, Rng}
use fdp_rocks.KeyOrder.Allotment.{Allotted, prepare_shuffled_keys-Allotted}
use fdp_rocks.KeyOrder.Partition.{joined}
use fdp_rocks.KeyOrder.Prepare.{
  Prepared, bad_distribution, zero_division, arrays, prepare_shuffled_keys,
}
use fdp_rocks.TransformKey.{transform_key}
use fdp_rocks.Stats.{IsReportable}
use fdp_rocks.Writer.{Put, State}
use fdp_rocks.Writer.Spec.{pairs, flatten, contents}
use fdp_rocks.Writer.Value.{IsGoodSize, value_of}
use fdp_rocks.Database.{Database, Log, Serial, accepted_puts, all_puts}
use fdp_rocks.Database.Lookup.{puts_at}
use fdp_rocks.Database.Origin.{
  PutOf, HasValue, PutOf-left, PutOf-right, PutOf-append, Serial-Origin,
}
use fdp_rocks.Benchmark.{WriteFlags, Surroundings, Finished, run_benchmark, after_prepare, run}
use fdp_rocks.Benchmark.Held.{logs_of, batches_of, logs_of-merged}
use fdp_rocks.Benchmark.Team.{Team, run_workers-Team, length-member}
use fdp_rocks.Benchmark.Workers.{joined-le}

-- What is accepted has been sent.
PutOf-accepted_puts :
    (P : Put → Type 0) (log : Log) → PutOf P (accepted_puts log) → PutOf P (flatten (contents log))
unfolding accepted_puts
PutOf-accepted_puts P [] h = h
PutOf-accepted_puts P ((b, true) ∷ log) h = elim (PutOf-append P b (accepted_puts log) h) [
  | inl g ↦ PutOf-left P b (flatten (contents log)) g
  | inr g ↦ PutOf-right P b (flatten (contents log)) (PutOf-accepted_puts P log g)
]
PutOf-accepted_puts P ((b, false) ∷ log) h =
    PutOf-right P b (flatten (contents log)) (PutOf-accepted_puts P log h)

module _ (w : WriteFlags) (env : Surroundings) where
  -- The key and the value are of one number, with a seed of one of the workers.
  abbrev pub OfNumber : List ℕ → Option (List ℕ) → Type 0
  OfNumber key v =
      (i : ℕ) × (j : ℕ) × (k : ℕ) × (key ≡ transform_key k)
      × (v ≡ some (value_of w.value_size (env.seed i j) k))

  pairs-OfNumber :
      (i j : ℕ) (ks : List ℕ) (key : List ℕ) (v : Option (List ℕ))
      → PutOf (HasValue key v) (pairs (env.seed i) w.value_size j ks)
      → OfNumber key v
  unfolding pairs
  pairs-OfNumber i j [] key v h = absurd h
  pairs-OfNumber i j (k ∷ ks) key v (inl (e, e')) = (i, j, k, sym e, e')
  pairs-OfNumber i j (k ∷ ks) key v (inr h) = pairs-OfNumber i (j + 1) ks key v h

  Team-OfNumber :
      (i : ℕ) (kss : List (List ℕ)) (ss : List (State ℕ)) (key : List ℕ) (v : Option (List ℕ))
      → Team w env i kss ss
      → PutOf (HasValue key v) (all_puts (batches_of ss))
      → OfNumber key v
  unfolding Team all_puts
  Team-OfNumber i [] [] key v t h = absurd h
  Team-OfNumber i [] (s ∷ ss) key v t h = absurd t
  Team-OfNumber i (ks ∷ kss) [] key v t h = absurd t
  Team-OfNumber i (ks ∷ kss) (s ∷ ss) key v t h =
      elim (PutOf-append (HasValue key v) (accepted_puts s.batches) (all_puts (batches_of ss)) h) [
        | inl g ↦ pairs-OfNumber i 0 ks key v (
            subst (PutOf (HasValue key v)) t.0.order
              (PutOf-accepted_puts (HasValue key v) s.batches g))
        | inr g ↦ Team-OfNumber (i + 1) kss ss key v t.1 g
      ]

  -- A run that writes is one of workers on some arrays.
  abbrev Writers : Finished → Type 0
  Writers o =
      (logs_of o ≡ [])
      ⊎ ((kss : List (List ℕ)) × (ss : List (State ℕ)) × (logs_of o ≡ batches_of ss)
          × Team w env 0 kss ss)

  module _ (r : Rng) (f : KeyFlags) (stoull : List ℕ → Option ℕ) (disk : Disk) (fuel : ℕ)
      (positive : 0 < w.batch) (good : IsGoodSize w.value_size) (small : IsReportable w.stats)
      (room : f.num + 20000 < 2 ^ 61) (enough : f.num ≤ fuel) where
    after_prepare-Writers :
        (p : Prepared r f) → Allotted r f p → Writers (after_prepare w env r f fuel p)
    unfolding after_prepare logs_of run_benchmark
    after_prepare-Writers bad_distribution a = inl refl
    after_prepare-Writers zero_division a = inl refl
    after_prepare-Writers (arrays kss d) a =
        let le = joined-le r f kss d a in
        let (ss, runs, team) =
          run_workers-Team w env positive good small fuel 0 (length (joined kss)) kss
            (length-member kss) (omega (arith, le)) (omega (arith, le)) in
        elim (Bool-cases (ltb f.worker_threads (2 ^ 31))) [
          | inl few ↦ inr (kss, ss, rw (few, runs, run_benchmark) (logs_of-merged w env ss), team)
          | inr many ↦ rw many (inl refl)
        ]

    run-Writers : Writers (run w env r f stoull disk fuel)
    unfolding run logs_of
    run-Writers = elim (Bool-cases (f.num == 0)) [
      | inl nothing ↦ rw nothing (inl refl)
      | inr some_key ↦ rw some_key (
          after_prepare-Writers (prepare_shuffled_keys r f stoull disk)
            (prepare_shuffled_keys-Allotted r f stoull disk (omega arith)))
    ]

    -- For every distribution and whatever the key files hold, with num below 2^61 - 20000, a
    -- positive batch size, a value size of 8 or at least 16, a report interval below 2^40, a
    -- report interval or a stats interval that is not 0 and fuel num for each worker: if the
    -- calls of Write that the workers of a run have made, each in its own order, can be put into
    -- one order in which the database gives the statuses that the workers have seen, then each
    -- key has at the end what it had before and no accepted batch puts it, or it is the stored
    -- key of some number and has a value that a worker makes for that number.
    pub run-Origin :
        (d : Database) (db final : d.Db)
        → Serial d final (logs_of (run w env r f stoull disk fuel)) db
        → (key : List ℕ)
        → ((puts_at key (all_puts (logs_of (run w env r f stoull disk fuel))) ≡ 0)
            × (d.get final key ≡ d.get db key))
          ⊎ OfNumber key (d.get final key)
    unfolding all_puts
    run-Origin d db final serial key =
        elim (Serial-Origin d final (logs_of (run w env r f stoull disk fuel)) db key serial) [
          | inl (untouched, kept) ↦ inl (untouched, kept)
          | inr put ↦ elim run-Writers [
            | inl nothing ↦
                absurd
                  (subst (λ ls. PutOf (HasValue key (d.get final key)) (all_puts ls)) nothing put)
            | inr (kss, ss, logs, team) ↦ inr (
                Team-OfNumber 0 kss ss key (d.get final key) team
                  (subst (λ ls. PutOf (HasValue key (d.get final key)) (all_puts ls)) logs put))
          ]
        ]
