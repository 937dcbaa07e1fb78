-- ===== src/Writer/Run.antt =====
-- The whole method: every key is put once, in order, in batches of the right size; the counts are
-- those of the batches that the database accepted; and the loop ends unless the batch size is 0.
use mathlib.Core.List.{append-nil, append_assoc}
use fdp_rocks.Base.{
  ℕ, zero, suc, ◌+◌, ◌^◌, ◌≤◌, ◌<◌, ◌≡◌, refl, sym, ap, ◌∙◌, ◌⊎◌, inl, inr, Bool, List, [], ◌∷◌,
  ◌++◌, arith, length, All, length-append, subst,
}
use fdp_rocks.TransformKey.{transform_key}
use fdp_rocks.Stats.{IsReportable}
use fdp_rocks.Writer.{Put, Config, State, returned, outer}
use fdp_rocks.Writer.Value.{value_of, IsGoodSize}
use fdp_rocks.Writer.Spec.{pairs, contents}
use fdp_rocks.Writer.Fill.{Sent, Stage}
use fdp_rocks.Writer.Round.{Counting, Filled, fill-Filled, Counted, count_batch-Counted}

pairs-append :
    (seed : ℕ → ℕ) (size i : ℕ) (xs ys : List ℕ)
    → pairs seed size i (xs ++ ys) ≡ pairs seed size i xs ++ pairs seed size (i + length xs) ys
unfolding pairs
pairs-append seed size i [] ys = let e : i ≡ i + 0 = omega arith in ap (λ k. pairs seed size k ys) e
pairs-append seed size i (x ∷ xs) ys =
    let e : i + 1 + length xs ≡ i + suc (length xs) = omega arith in
    ap (◌∷◌ (record { key = transform_key x; value = value_of size (seed i) x })) (
      pairs-append seed size (i + 1) xs ys
      ∙ ap (λ k. pairs seed size (i + 1) xs ++ pairs seed size k ys) e)

pub length-pairs :
    (seed : ℕ → ℕ) (size i : ℕ) (xs : List ℕ) → length (pairs seed size i xs) ≡ length xs
unfolding pairs
length-pairs seed size i [] = refl
length-pairs seed size i (x ∷ xs) = ap suc (length-pairs seed size (i + 1) xs)

module _ {Db : Type 0} (write : Db → List Put → Bool × Db) (clock seed : ℕ → ℕ) (c : Config)
    (db₀ : Db) where
  -- What has been done when the keys `before` have been put and the outer loop tests its condition.
  -- Only behind the last keys can a partial batch wait.
  pub record Head (before : List ℕ) (s : State Db) : Type 0 where
    pub sent : Sent write clock seed c db₀ (pairs seed c.value_size 0 before) s
    pub full : All (λ (b : List Put). length b ≡ c.batch) (contents s.batches)
    pub counting : Counting (length before) s.stats
    pub index : s.ind ≡ length before
    pub partial : length s.wb < c.batch

  -- The outer loop takes the state from `before` to all the keys.
  pub record Looped (fuel : ℕ) (before keys : List ℕ) (s : State Db) : Type 0 where
    pub last : State Db
    pub runs : outer write clock seed c fuel keys s ≡ returned last
    pub head : Head (before ++ keys) last

  loop_done : (fuel : ℕ) (before : List ℕ) (s : State Db) → Head before s → Looped fuel before [] s
  unfolding outer
  loop_done zero before s h = record { last = s; runs = refl; head = rw (append-nil before) h }
  loop_done (suc fuel) before s h = record {
    last = s;
    runs = refl;
    head = rw (append-nil before) h;
  }

  module _ (fuel : ℕ) (before : List ℕ) (key : ℕ) (keys : List ℕ) (s : State Db)
      (positive : 0 < c.batch) (good : IsGoodSize c.value_size) (small : IsReportable c.flags)
      (room : length before + suc (length keys) + 20000 < 2 ^ 62) (h : Head before s)
      (empty : s.wb ≡ []) where
    start-Stage : Stage write clock seed c db₀ (pairs seed c.value_size 0 before) 0 s
    start-Stage = record {
      sent = h.sent;
      full = h.full;
      room = omega arith;
      waiting = inl (ap length empty, positive);
      index = omega (arith, h.index, length-pairs seed c.value_size 0 before);
    }

    filled : Filled write clock seed c db₀ (pairs seed c.value_size 0 before) (key ∷ keys) 0 s
    filled =
        fill-Filled write clock seed c db₀ _ (key ∷ keys) 0 s good
          (omega (arith, length-pairs seed c.value_size 0 before)) start-Stage

    taken_rest : length filled.taken + length filled.rest ≡ suc (length keys)
    taken_rest = omega (arith, ap length filled.split, length-append filled.taken filled.rest)

    counted : Counted write clock seed c db₀ filled.counter filled.last
    counted =
        count_batch-Counted write clock seed c db₀ filled.counter (length before) filled.last small
          (omega (arith, taken_rest, filled.counted))
          (subst (Counting (length before)) (sym filled.stats) h.counting)

    all_pairs :
        pairs seed c.value_size 0 before ++ pairs seed c.value_size s.ind filled.taken
        ≡ pairs seed c.value_size 0 (before ++ filled.taken)
    all_pairs =
        let e : 0 + length before ≡ s.ind = omega (arith, h.index) in
        sym (
          pairs-append seed c.value_size 0 before filled.taken
          ∙ ap (λ i. pairs seed c.value_size 0 before ++ pairs seed c.value_size i filled.taken) e)

    pairs-Sent :
        Sent write clock seed c db₀ (pairs seed c.value_size 0 (before ++ filled.taken)) filled.last
    pairs-Sent =
        subst (λ ps. Sent write clock seed c db₀ ps filled.last) all_pairs filled.stage.sent

    length-before : length (before ++ filled.taken) ≡ length before + filled.counter
    length-before = omega (arith, length-append before filled.taken, filled.counted)

    partial_wb : length filled.last.wb < c.batch
    partial_wb = next (filled.stage.waiting)
      where
        next :
            ((length filled.last.wb ≡ filled.counter) × (filled.counter < c.batch))
              ⊎ ((filled.counter ≡ c.batch) × (filled.last.wb ≡ []))
            → length filled.last.wb < c.batch
        next (inl (e, lt)) = omega arith
        next (inr (e, none_left)) = omega (arith, ap length none_left)

    next-Head : Head (before ++ filled.taken) counted.next
    next-Head = record {
      sent = record {
        order = rw (counted.batches, counted.wb) pairs-Sent.order;
        replay = rw (counted.batches, counted.db) pairs-Sent.replay;
        success = rw (counted.batches, counted.success_count) pairs-Sent.success;
      };
      full = rw counted.batches filled.stage.full;
      counting = rw length-before (
          counted.counting (length before)
            (subst (Counting (length before)) (sym filled.stats) h.counting));
      index = omega (
        arith,
        counted.ind,
        filled.stage.index,
        length-append (pairs seed c.value_size 0 before)
            (pairs seed c.value_size s.ind filled.taken),
        ap length all_pairs,
        length-pairs seed c.value_size 0 (before ++ filled.taken),
      );
      partial = omega (arith, ap length counted.wb, partial_wb);
    }

    -- A full round leaves nothing waiting.
    none_waits : filled.counter ≡ c.batch → counted.next.wb ≡ []
    none_waits e = counted.wb ∙ next (filled.stage.waiting)
      where
        next :
            ((length filled.last.wb ≡ filled.counter) × (filled.counter < c.batch))
              ⊎ ((filled.counter ≡ c.batch) × (filled.last.wb ≡ []))
            → filled.last.wb ≡ []
        next (inl (f, lt)) = absurd (omega arith)
        next (inr (f, none_left)) = none_left

    continue :
        Looped fuel (before ++ filled.taken) filled.rest counted.next
        → Looped (suc fuel) before (key ∷ keys) s
    unfolding outer
    continue l = record {
      last = l.last;
      runs = rw (filled.runs, outer) (rw (counted.runs, outer) l.runs);
      head =
          subst (λ ks. Head ks l.last)
            (append_assoc before filled.taken filled.rest
              ∙ ap (λ ks. before ++ ks) (sym filled.split))
            l.head;
    }

  pub loop :
      (fuel : ℕ) (before keys : List ℕ) (s : State Db)
      → 0 < c.batch
      → IsGoodSize c.value_size
      → IsReportable c.flags
      → length before + length keys + 20000 < 2 ^ 62
      → length keys ≤ fuel
      → Head before s
      → s.wb ≡ []
      → Looped fuel before keys s
  loop fuel before [] s positive good small room enough h empty = loop_done fuel before s h
  loop zero before (key ∷ keys) s positive good small room enough h empty = absurd (omega arith)
  loop (suc fuel) before (key ∷ keys) s positive good small room enough h empty =
      let f = filled fuel before key keys s positive good small room h empty in
      let n = counted fuel before key keys s positive good small room h empty in
      let head = next-Head fuel before key keys s positive good small room h empty in
      let size = taken_rest fuel before key keys s positive good small room h empty in
      continue fuel before key keys s positive good small room h empty (elim f.stop [
        | inl e ↦
            subst (λ ks. Looped fuel (before ++ f.taken) ks n.next) (sym e)
              (loop_done fuel (before ++ f.taken) n.next head)
        | inr e ↦
            loop fuel (before ++ f.taken) f.rest n.next positive good small
              (omega (arith, size, length-append before f.taken)) (omega (arith, size, f.counted))
              head (none_waits fuel before key keys s positive good small room h empty e)
      ])
