-- ===== src/Benchmark/Team.antt =====
-- What the workers of a run send and count, all together.
use mathlib.Core.List.{map-append}
use mathlib.Core.Option
use fdp_rocks.Base.{
  ℕ, ◌+◌, ◌^◌, ◌≤◌, ◌<◌, ◌≡◌, refl, sym, ap, ap₂, ◌∙◌, some, List, [], ◌∷◌, ◌++◌, arith, length,
  length-append, All, map,
}
use fdp_rocks.KeyOrder.Partition.{joined}
use fdp_rocks.Stats.{IsReportable, new_stats, start_at, stop_at}
use fdp_rocks.Stats.Merging.{ops}
use fdp_rocks.TransformKey.{transform_key}
use fdp_rocks.Writer.{Put, State}
use fdp_rocks.Writer.Spec.{pairs, flatten, contents, delivered, Cut}
use fdp_rocks.Writer.Total.{Wrote, simple_random_write-Wrote}
use fdp_rocks.Writer.Value.{IsGoodSize}
use fdp_rocks.Benchmark.{WriteFlags, Surroundings, write_of, config_of, thread_work, run_workers}

-- The keys in the batches of a worker, and of all workers.
unfoldable pub sent_keys : State ℕ → List (List ℕ)
sent_keys s = map (λ (p : Put). p.key) (flatten (contents s.batches))

unfoldable pub all_sent : List (State ℕ) → List (List ℕ)
all_sent [] = []
all_sent (s ∷ ss) = sent_keys s ++ all_sent ss

-- The writes that the workers count as done.
unfoldable pub all_accepted : List (State ℕ) → ℕ
all_accepted [] = 0
all_accepted (s ∷ ss) = s.success_count + all_accepted ss

-- The pairs in the batches that the database accepted.
unfoldable pub all_delivered : List (State ℕ) → ℕ
all_delivered [] = 0
all_delivered (s ∷ ss) = delivered s.batches + all_delivered ss

key-pairs :
    (seed : ℕ → ℕ) (size i : ℕ) (ks : List ℕ)
    → map (λ (p : Put). p.key) (pairs seed size i ks) ≡ map transform_key ks
unfolding pairs
key-pairs seed size i [] = refl
key-pairs seed size i (k ∷ ks) = ap (λ xs. transform_key k ∷ xs) (key-pairs seed size (i + 1) ks)

pub length-member :
    (kss : List (List ℕ)) → All (λ (ks : List ℕ). length ks ≤ length (joined kss)) kss
length-member kss = within kss (length (joined kss)) (omega arith)
  where
    within :
        (kss : List (List ℕ)) (n : ℕ)
        → length (joined kss) ≤ n
        → All (λ (ks : List ℕ). length ks ≤ n) kss
    within [] n h = tt
    within (ks ∷ kss) n h = (
      omega (arith, length-append ks (joined kss)),
      within kss n (omega (arith, length-append ks (joined kss))),
    )

module _ (w : WriteFlags) (env : Surroundings) where
  -- Each worker has written its array.
  unfoldable pub Team : ℕ → List (List ℕ) → List (State ℕ) → Type 0
  Team i [] [] = Unit
  Team i [] (s ∷ ss) = ⊥
  Team i (ks ∷ kss) [] = ⊥
  Team i (ks ∷ kss) (s ∷ ss) =
      Wrote (write_of w env i) (env.clock i) (env.seed i) (config_of w env i) 0 ks s
      × Team (i + 1) kss ss

  module _ (positive : 0 < w.batch) (good : IsGoodSize w.value_size) (small : IsReportable w.stats)
      (fuel : ℕ) where
    thread_work-Wrote :
        (i : ℕ) (ks : List ℕ)
        → length ks ≤ fuel
        → length ks + 20000 < 2 ^ 61
        → (s : State ℕ) × (thread_work w env fuel i ks ≡ some s)
          × Wrote (write_of w env i) (env.clock i) (env.seed i) (config_of w env i) 0 ks s
    unfolding thread_work stop_at
    thread_work-Wrote i ks enough room =
        let st = start_at w.stats (new_stats w.stats i (env.created i)) (env.started i) in
        let (s, runs, wrote) =
          simple_random_write-Wrote (write_of w env i) (env.clock i) (env.seed i)
            (config_of w env i) fuel st 0 ks positive good small room enough in
        (
          record s { stats = stop_at s.stats (env.stopped i) },
          rw (runs, thread_work) refl,
          record {
            order = wrote.order;
            cut = wrote.cut;
            replay = wrote.replay;
            success = wrote.success;
            counted = wrote.counted;
            empty = wrote.empty;
          },
        )

    pub run_workers-Team :
        (i n : ℕ) (kss : List (List ℕ))
        → All (λ (ks : List ℕ). length ks ≤ n) kss
        → n ≤ fuel
        → n + 20000 < 2 ^ 61
        → (ss : List (State ℕ)) × (run_workers w env fuel i kss ≡ some ss) × Team i kss ss
    unfolding run_workers Team
    run_workers-Team i n [] h enough room = ([], refl, tt)
    run_workers-Team i n (ks ∷ kss) h enough room =
        let (s, runs, wrote) = thread_work-Wrote i ks (omega (arith, h.0)) (omega (arith, h.0)) in
        let (ss, rest, team) = run_workers-Team (i + 1) n kss h.1 enough room in
        (s ∷ ss, rw (runs, run_workers) (rw (rest, Option.map) refl), (wrote, team))

  pub Team-all_sent :
      (i : ℕ) (kss : List (List ℕ)) (ss : List (State ℕ))
      → Team i kss ss
      → all_sent ss ≡ map transform_key (joined kss)
  unfolding Team all_sent sent_keys
  Team-all_sent i [] [] t = refl
  Team-all_sent i [] (s ∷ ss) t = absurd t
  Team-all_sent i (ks ∷ kss) [] t = absurd t
  Team-all_sent i (ks ∷ kss) (s ∷ ss) t =
      ap₂ (λ xs ys. xs ++ ys)
        (ap (map (λ (p : Put). p.key)) t.0.order ∙ key-pairs (env.seed i) w.value_size 0 ks)
        (Team-all_sent (i + 1) kss ss t.1)
      ∙ sym (map-append transform_key ks (joined kss))

  pub Team-ops :
      (i : ℕ) (kss : List (List ℕ)) (ss : List (State ℕ))
      → Team i kss ss
      → ops (map (λ (t : State ℕ). t.stats) ss) ≡ length (joined kss)
  unfolding Team ops
  Team-ops i [] [] t = refl
  Team-ops i [] (s ∷ ss) t = absurd t
  Team-ops i (ks ∷ kss) [] t = absurd t
  Team-ops i (ks ∷ kss) (s ∷ ss) t =
      omega (arith, t.0.counted, Team-ops (i + 1) kss ss t.1, length-append ks (joined kss))

  pub Team-accepted :
      (i : ℕ) (kss : List (List ℕ)) (ss : List (State ℕ))
      → Team i kss ss
      → all_accepted ss ≡ all_delivered ss
  unfolding Team all_accepted all_delivered
  Team-accepted i [] [] t = refl
  Team-accepted i [] (s ∷ ss) t = absurd t
  Team-accepted i (ks ∷ kss) [] t = absurd t
  Team-accepted i (ks ∷ kss) (s ∷ ss) t =
      omega (arith, t.0.success, Team-accepted (i + 1) kss ss t.1)

  -- No batch is longer than the flag says, and only a worker's last one is shorter.
  abbrev pub AllCut : List (State ℕ) → Type 0
  AllCut = All (λ (s : State ℕ). Cut w.batch (contents s.batches))

  pub Team-AllCut : (i : ℕ) (kss : List (List ℕ)) (ss : List (State ℕ)) → Team i kss ss → AllCut ss
  unfolding Team
  Team-AllCut i [] [] t = tt
  Team-AllCut i [] (s ∷ ss) t = absurd t
  Team-AllCut i (ks ∷ kss) [] t = absurd t
  Team-AllCut i (ks ∷ kss) (s ∷ ss) t = (t.0.cut, Team-AllCut (i + 1) kss ss t.1)
