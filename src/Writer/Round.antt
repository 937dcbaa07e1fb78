-- ===== src/Writer/Round.antt =====
-- The inner loop as a whole, and one round of the outer loop of the writer.
use mathlib.Core.List.{append-nil, append_assoc}
use fdp_rocks.Base.{
  ℕ, ◌+◌, ◌*◌, ◌^◌, ◌≤◌, ◌<◌, ◌≡◌, refl, ap, ◌∙◌, ◌⊎◌, inl, inr, Bool, some, List, [], ◌∷◌, ◌++◌,
  arith, ltb, ◌==◌, length, Bool-cases, length-append, subst,
}
use fdp_rocks.Stats.{IsReportable, Stats, should_print}
use fdp_rocks.Stats.Boundaries.{IsAligned, Finished, finished_batch_op-Finished}
use fdp_rocks.Writer.{Put, Config, State, fill, count_batch}
use fdp_rocks.Writer.Value.{IsGoodSize}
use fdp_rocks.Writer.Spec.{pairs}
use fdp_rocks.Writer.Fill.{Stage, pair, place-Placed, put_one-place}

-- What `Stats` says when `k` operations have been counted.
pub record Counting (k : ℕ) (st : Stats) : Type 0 where
  pub done : st.done ≡ k
  pub aligned : IsAligned st
  pub low : 100 ≤ st.next_report
  pub high : st.next_report ≤ 2 * k + 100

module _ {Db : Type 0} (write : Db → List Put → Bool × Db) (clock seed : ℕ → ℕ) (c : Config)
    (db₀ : Db) where
  -- The inner loop took the keys `taken` and left `rest`.
  pub record Filled (ps : List Put) (keys : List ℕ) (j : ℕ) (s : State Db) : Type 0 where
    pub taken : List ℕ
    pub rest : List ℕ
    pub counter : ℕ
    pub last : State Db
    pub runs : fill write clock seed c keys j s ≡ some (rest, counter, last)
    pub split : keys ≡ taken ++ rest
    pub stage :
        Stage write clock seed c db₀ (ps ++ pairs seed c.value_size s.ind taken) counter last
    pub counted : counter ≡ j + length taken
    pub stats : last.stats ≡ s.stats
    pub stop : (rest ≡ []) ⊎ (counter ≡ c.batch)

  pub fill-Filled :
      (ps : List Put) (keys : List ℕ) (j : ℕ) (s : State Db)
      → IsGoodSize c.value_size
      → length ps + length keys < 2 ^ 64
      → Stage write clock seed c db₀ ps j s
      → Filled ps keys j s
  unfolding fill pairs
  fill-Filled ps [] j s good small v = record {
    taken = [];
    rest = [];
    counter = j;
    last = s;
    runs = refl;
    split = refl;
    stage = rw (append-nil ps) v;
    counted = omega arith;
    stats = refl;
    stop = inl refl;
  }
  fill-Filled ps (key ∷ keys) j s good small v = elim (Bool-cases (ltb j c.batch)) [
    | inl more ↦
        let lt : j < c.batch = ground arith in
        let small' : length ps + 1 < 2 ^ 64 = omega arith in
        let p = place-Placed write clock seed c db₀ ps j key s small' lt v in
        let f =
          fill-Filled (ps ++ pair write clock seed c db₀ s.ind key ∷ []) keys (j + 1) _ good
            (omega (arith, length-append ps (pair write clock seed c db₀ s.ind key ∷ [])))
            p.stage in
        record {
          taken = key ∷ f.taken;
          rest = f.rest;
          counter = f.counter;
          last = f.last;
          runs =
              rw (more, fill)
                (rw (put_one-place write clock seed c db₀ ps j key s small' lt v good, fill)
                  f.runs);
          split = ap (◌∷◌ key) f.split;
          stage =
              subst (λ xs. Stage write clock seed c db₀ xs f.counter f.last)
                (append_assoc ps (pair write clock seed c db₀ s.ind key ∷ []) _
                  ∙ ap
                      (λ i.
                        ps
                        ++ pair write clock seed c db₀ s.ind key
                          ∷ pairs seed c.value_size i f.taken)
                      p.moved)
                f.stage;
          counted = omega (arith, f.counted);
          stats = f.stats ∙ p.stats;
          stop = f.stop;
        }
    | inr full ↦ record {
      taken = [];
      rest = key ∷ keys;
      counter = j;
      last = s;
      runs = rw (full, fill);
      split = refl;
      stage = rw (append-nil ps) v;
      counted = omega arith;
      stats = refl;
      stop = inr (ground arith);
    }
  ]

  should_print-Counting :
      (k : ℕ) (st : Stats) (now : ℕ) → Counting k st → Counting k (should_print st now).1
  unfolding should_print
  should_print-Counting k st now v = record {
    done = ground arith;
    aligned = record { multiple = ground arith; above = ground arith; near = ground arith };
    low = ground arith;
    high = ground arith;
  }

  Finished-Counting :
      {batch k : ℕ} {st st' : Stats} {b : Bool}
      → Counting k st
      → Finished c.flags batch st st' b
      → Counting (k + batch) st'
  Finished-Counting {batch} {k} {st} {st'} v f = record {
    done = omega (arith, f.counted, v.done);
    aligned = f.aligned;
    low = ground (arith, f.threshold, v.low);
    high = ground (arith, f.threshold, v.high, v.done);
  }

  -- The bookkeeping behind the inner loop returns, and touches nothing but the counters.
  pub record Counted (j : ℕ) (s : State Db) : Type 0 where
    pub next : State Db
    pub runs : count_batch write clock seed c j s ≡ some next
    pub counting : (k : ℕ) → Counting k s.stats → Counting (k + j) next.stats
    pub success_count : next.success_count ≡ s.success_count
    pub ind : next.ind ≡ s.ind
    pub wb : next.wb ≡ s.wb
    pub db : next.db ≡ s.db
    pub batches : next.batches ≡ s.batches

  pub count_batch-Counted :
      (j k : ℕ) (s : State Db)
      → IsReportable c.flags
      → k + j + 20000 < 2 ^ 62
      → Counting k s.stats
      → Counted j s
  unfolding count_batch
  count_batch-Counted j k s small room v =
      let (b, calls, st, runs, f) =
        finished_batch_op-Finished c.flags clock s.calls j s.stats v.aligned (omega (arith, v.done))
          small v.low (omega (arith, v.high)) in
      elim (Bool-cases (c.tid == 0)) [
        | inl first ↦ record {
          next = record s { calls = calls + 1; stats = (should_print st (clock calls)).1 };
          runs = rw (runs, count_batch) (rw first);
          counting = λ m w. should_print-Counting (m + j) st (clock calls) (Finished-Counting w f);
          success_count = refl;
          ind = refl;
          wb = refl;
          db = refl;
          batches = refl;
        }
        | inr other ↦ record {
          next = record s { calls = calls; stats = st };
          runs = rw (runs, count_batch) (rw other);
          counting = λ m w. Finished-Counting w f;
          success_count = refl;
          ind = refl;
          wb = refl;
          db = refl;
          batches = refl;
        }
      ]
