-- ===== src/Benchmark/Held.antt =====
-- What the calls of the workers of a run put into the database.
use mathlib.Core.List.{map-append}
use fdp_rocks.Base.{
  ℕ, ◌+◌, ◌^◌, ◌≤◌, ◌<◌, ◌≡◌, refl, sym, ap, ap₂, ◌∙◌, subst, ◌⊎◌, inl, inr, true, false, some,
  List, [], ◌∷◌, ◌++◌, arith, All, map, Bool-cases,
}
use fdp_rocks.Base.Occurs.{occurs, occurs-append}
use fdp_rocks.Base.Permutation.{Below}
use fdp_rocks.Base.Text.{text_eq}
use fdp_rocks.KeyOrder.Partition.{joined}
use fdp_rocks.TransformKey.{transform_key}
use fdp_rocks.Writer.{Put, State}
use fdp_rocks.Writer.Spec.{pairs, flatten, contents, write_all}
use fdp_rocks.Writer.Total.{Wrote}
use fdp_rocks.Writer.Value.{value_of}
use fdp_rocks.Benchmark.Keys.{transform_key_inj}
use fdp_rocks.Database.{Log, accepted_puts, all_puts, find, or_old}
use fdp_rocks.Database.Lookup.{puts_at, puts_at-append, find-append, find-none}
use fdp_rocks.Benchmark.{
  WriteFlags, Surroundings, Finished, no_keys, wrong_distribution, divided_by_zero,
  negative_workers, worker_failed, finished, merged, write_of, config_of,
}
use fdp_rocks.Benchmark.Team.{all_sent, sent_keys, Team}

-- The calls of the workers.
abbrev pub batches_of : List (State ℕ) → List Log
batches_of [] = []
batches_of (s ∷ ss) = s.batches ∷ batches_of ss

-- The calls of the workers of a run.
unfoldable pub logs_of : Finished → List Log
logs_of no_keys = []
logs_of wrong_distribution = []
logs_of divided_by_zero = []
logs_of negative_workers = []
logs_of worker_failed = []
logs_of (finished ss total) = batches_of ss

-- No more is accepted than is sent.
accepted_puts-le :
    (key : List ℕ) (log : Log)
    → puts_at key (accepted_puts log) ≤ puts_at key (flatten (contents log))
unfolding accepted_puts
accepted_puts-le key [] = omega arith
accepted_puts-le key ((b, true) ∷ log) = omega (
  arith,
  puts_at-append key b (accepted_puts log),
  puts_at-append key b (flatten (contents log)),
  accepted_puts-le key log,
)
accepted_puts-le key ((b, false) ∷ log) =
    omega (arith, puts_at-append key b (flatten (contents log)), accepted_puts-le key log)

pub all_puts-le :
    (key : List ℕ) (ss : List (State ℕ))
    → puts_at key (all_puts (batches_of ss)) ≤ occurs key (all_sent ss)
unfolding all_puts all_sent sent_keys occurs
all_puts-le key [] = omega arith
all_puts-le key (s ∷ ss) = omega (
  arith,
  puts_at-append key (accepted_puts s.batches) (all_puts (batches_of ss)),
  occurs-append key (sent_keys s) (all_sent ss),
  accepted_puts-le key s.batches,
  all_puts-le key ss,
)

All-split : (P : ℕ → Type 0) (xs ys : List ℕ) → All P (xs ++ ys) → All P xs × All P ys
All-split P [] ys h = (tt, h)
All-split P (x ∷ xs) ys h = let (a, b) = All-split P xs ys h.1 in ((h.0, a), b)

module _ (w : WriteFlags) (env : Surroundings) where
  -- A key that is put at all is put with its value.
  abbrev pub Held : ℕ → List Put → Type 0
  Held k ps =
      (puts_at (transform_key k) ps ≡ 0)
      ⊎ ((i : ℕ) × (j : ℕ) × (find (transform_key k) ps
            ≡ some (value_of w.value_size (env.seed i j) k)))

  -- All calls of a worker succeed if the database refuses none.
  accepted_puts-write_all :
      (i n : ℕ) (bs : List (List Put))
      → ((n : ℕ) → env.status i n ≡ true)
      → accepted_puts (write_all (write_of w env i) n bs).0 ≡ flatten bs
  unfolding accepted_puts write_all write_of
  accepted_puts-write_all i n [] fine = refl
  accepted_puts-write_all i n (b ∷ bs) fine =
      rw (fine n) (ap (λ ps. b ++ ps) (accepted_puts-write_all i (n + 1) bs fine))

  pairs-Held :
      (i j k : ℕ) (ks : List ℕ)
      → k < 2 ^ 64
      → Below (2 ^ 64) ks
      → Held k (pairs (env.seed i) w.value_size j ks)
  unfolding pairs find occurs
  pairs-Held i j k [] hk below = inl refl
  pairs-Held i j k (x ∷ ks) hk below =
      elim (Bool-cases (text_eq (transform_key x) (transform_key k))) [
        | inl same ↦
            let e = transform_key_inj x k below.0 hk same in
            inr (i, j, rw same (ap (λ y. some (value_of w.value_size (env.seed i j) y)) e))
        | inr other ↦ elim (pairs-Held i (j + 1) k ks hk below.1) [
          | inl none_there ↦ inl (rw other (omega (arith, none_there)))
          | inr (i', j', e) ↦ inr (i', j', rw other e)
        ]
      ]

  append-Held : (k : ℕ) (ps qs : List Put) → Held k ps → Held k qs → Held k (ps ++ qs)
  append-Held k ps qs (inr (i, j, e)) h =
      inr (
        i,
        j,
        find-append (transform_key k) ps qs ∙ ap (λ o. or_old o (find (transform_key k) qs)) e,
      )
  append-Held k ps qs (inl none_there) (inl none_here) =
      inl (omega (arith, puts_at-append (transform_key k) ps qs, none_there, none_here))
  append-Held k ps qs (inl none_there) (inr (i, j, e)) = inr (
    i,
    j,
    find-append (transform_key k) ps qs
        ∙ ap (λ o. or_old o (find (transform_key k) qs)) (find-none (transform_key k) ps none_there)
        ∙ e,
  )

  -- A database that refuses nothing accepts what the worker sends.
  accepted_puts-Wrote :
      (i : ℕ) (ks : List ℕ) (s : State ℕ)
      → ((n : ℕ) → env.status i n ≡ true)
      → Wrote (write_of w env i) (env.clock i) (env.seed i) (config_of w env i) 0 ks s
      → accepted_puts s.batches ≡ flatten (contents s.batches)
  accepted_puts-Wrote i ks s fine wrote =
      ap (λ r. accepted_puts r.0) (sym wrote.replay)
      ∙ accepted_puts-write_all i 0 (contents s.batches) fine

  pub all_puts-sent :
      (i : ℕ) (kss : List (List ℕ)) (ss : List (State ℕ))
      → ((i n : ℕ) → env.status i n ≡ true)
      → Team w env i kss ss
      → map (λ (p : Put). p.key) (all_puts (batches_of ss)) ≡ all_sent ss
  unfolding Team all_puts all_sent sent_keys
  all_puts-sent i [] [] fine t = refl
  all_puts-sent i [] (s ∷ ss) fine t = absurd t
  all_puts-sent i (ks ∷ kss) [] fine t = absurd t
  all_puts-sent i (ks ∷ kss) (s ∷ ss) fine t =
      map-append (λ (p : Put). p.key) (accepted_puts s.batches) (all_puts (batches_of ss))
      ∙ ap₂ (λ xs ys. xs ++ ys)
          (ap (map (λ (p : Put). p.key)) (accepted_puts-Wrote i ks s (fine i) t.0))
          (all_puts-sent (i + 1) kss ss fine t.1)

  pub Team-Held :
      (i k : ℕ) (kss : List (List ℕ)) (ss : List (State ℕ))
      → ((i n : ℕ) → env.status i n ≡ true)
      → k < 2 ^ 64
      → Below (2 ^ 64) (joined kss)
      → Team w env i kss ss
      → Held k (all_puts (batches_of ss))
  unfolding Team all_puts occurs
  Team-Held i k [] [] fine hk below t = inl refl
  Team-Held i k [] (s ∷ ss) fine hk below t = absurd t
  Team-Held i k (ks ∷ kss) [] fine hk below t = absurd t
  Team-Held i k (ks ∷ kss) (s ∷ ss) fine hk below t =
      let (mine, others) = All-split (λ (x : ℕ). x < 2 ^ 64) ks (joined kss) below in
      let accepted = accepted_puts-Wrote i ks s (fine i) t.0 ∙ t.0.order in
      append-Held k (accepted_puts s.batches) (all_puts (batches_of ss))
        (subst (Held k) (sym accepted) (pairs-Held i 0 k ks hk mine))
        (Team-Held (i + 1) k kss ss fine hk others t.1)

  pub logs_of-merged : (ss : List (State ℕ)) → logs_of (merged w env ss) ≡ batches_of ss
  unfolding logs_of merged
  logs_of-merged [] = refl
  logs_of-merged (s ∷ ss) = refl
