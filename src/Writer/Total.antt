-- ===== src/Writer/Total.antt =====
-- `DoSimpleRandomWrite` from its start to its end: what it sends.
use mathlib.Core.List.{append-nil}
use fdp_rocks.Base.{
  ℕ, ◌+◌, ◌^◌, ◌≤◌, ◌<◌, ◌≡◌, refl, sym, ap, ◌∙◌, Bool, true, false, List, [], ◌∷◌, ◌++◌, arith,
  ltb, length, dec_lt, length-append,
}
use fdp_rocks.Stats.{IsReportable, Stats, start_at, set_total_ops}
use fdp_rocks.Writer.{
  Put, Config, State, returned, send, print_progress, final_flush, begin, simple_random_write,
}
use fdp_rocks.Writer.Value.{IsGoodSize}
use fdp_rocks.Writer.Spec.{
  pairs, flatten, contents, delivered, write_all, Cut, Cut-snoc, Cut-full, contents-snoc,
}
use fdp_rocks.Writer.Fill.{Same-Sent, send-Sent, after_send, print_progress-Same}
use fdp_rocks.Writer.Run.{Head, loop, length-pairs}

module _ {Db : Type 0} (write : Db → List Put → Bool × Db) (clock seed : ℕ → ℕ) (c : Config) where
  -- What the worker has done when the method returns, from the database `db₀` and the keys on.
  pub record Wrote (db₀ : Db) (keys : List ℕ) (s : State Db) : Type 0 where
    pub order : flatten (contents s.batches) ≡ pairs seed c.value_size 0 keys
    pub cut : Cut c.batch (contents s.batches)
    pub replay : write_all write db₀ (contents s.batches) ≡ (s.batches, s.db)
    pub success : s.success_count ≡ delivered s.batches
    pub counted : s.stats.done ≡ length keys
    pub empty : s.wb ≡ []

  module _ (db₀ : Db) (keys : List ℕ) (s : State Db) (positive : 0 < c.batch)
      (room : length keys < 2 ^ 62) (h : Head write clock seed c db₀ keys s) where
    flush_none : s.wb ≡ [] → Wrote db₀ keys (final_flush write clock seed c s)
    unfolding final_flush
    flush_none e =
        let test : ltb 0 (length s.wb) ≡ false = rw e refl in
        rw test (record {
          order =
              sym (append-nil (flatten (contents s.batches)))
              ∙ ap (◌++◌ (flatten (contents s.batches))) (sym e)
              ∙ h.sent.order;
          cut = Cut-full c.batch (contents s.batches) positive h.full;
          replay = h.sent.replay;
          success = h.sent.success;
          counted = h.counting.done;
          empty = e;
        })

    flush_some : 0 < length s.wb → Wrote db₀ keys (final_flush write clock seed c s)
    unfolding final_flush send
    flush_some p =
        let test : ltb 0 (length s.wb) ≡ true = ground arith in
        let t = after_send write clock seed c db₀ s in
        let t' = print_progress write clock seed c true t in
        let e = print_progress-Same write clock seed c db₀ true t in
        let v = Same-Sent write clock seed c db₀ e (
          send-Sent write clock seed c db₀ (omega (arith, length-pairs seed c.value_size 0 keys))
            h.sent) in
        rw test (record {
          order =
              sym (append-nil (flatten (contents t'.batches)))
              ∙ ap (◌++◌ (flatten (contents t'.batches))) (sym e.wb)
              ∙ v.order;
          cut =
              rw (e.batches, contents-snoc s.batches s.wb (write s.db s.wb).0)
                (Cut-snoc c.batch (contents s.batches) s.wb h.full p (omega (arith, h.partial)));
          replay = v.replay;
          success = v.success;
          counted = ap (λ (st : Stats). st.done) e.stats ∙ h.counting.done;
          empty = e.wb;
        })

    flush : Wrote db₀ keys (final_flush write clock seed c s)
    flush = elim (dec_lt 0 (length s.wb)) [
      | yes p ↦ flush_some p
      | no np ↦ flush_none (nil (s.wb) np)
    ]
      where
        nil : (xs : List Put) → ¬ (0 < length xs) → xs ≡ []
        nil [] q = refl
        nil (x ∷ xs) q = absurd (q (omega arith))

  begin-Head :
      (st : Stats) (db₀ : Db) (n : ℕ)
      → 0 < c.batch
      → Head write clock seed c db₀ [] (begin write clock seed c st db₀ n)
  unfolding begin start_at set_total_ops write_all pairs
  begin-Head st db₀ n positive = record {
    sent = record { order = refl; replay = refl; success = refl };
    full = tt;
    counting = record {
      done = refl;
      aligned = record { multiple = omega arith; above = omega arith; near = omega arith };
      low = omega arith;
      high = omega arith;
    };
    index = refl;
    partial = positive;
  }

  -- With a positive batch size, a value size of 8 or at least 16, a report interval below 2^40,
  -- a report interval or a stats interval that is not 0 and fewer than 2^61 - 20000 keys,
  -- DoSimpleRandomWrite returns (with fuel for one round per key). The log of its calls of Write
  -- holds the pairs of all keys, in order, in batches that are full but for the last; it is what
  -- writing those batches one after the other gives; success_count is the number of pairs in
  -- accepted batches; the statistics have counted every key; and no pair is left unsent.
  pub simple_random_write-Wrote :
      (fuel : ℕ) (st : Stats) (db₀ : Db) (keys : List ℕ)
      → 0 < c.batch
      → IsGoodSize c.value_size
      → IsReportable c.flags
      → length keys + 20000 < 2 ^ 61
      → length keys ≤ fuel
      → (s : State Db) × (simple_random_write write clock seed c fuel st db₀ keys ≡ returned s)
        × Wrote db₀ keys s
  unfolding simple_random_write
  simple_random_write-Wrote fuel st db₀ keys positive good small room enough =
      let s₀ = begin write clock seed c st db₀ (length keys) in
      let l =
        loop write clock seed c db₀ fuel [] keys s₀ positive good small (omega arith) enough
          (begin-Head st db₀ (length keys) positive) refl in
      (
        final_flush write clock seed c l.last,
        rw (l.runs, simple_random_write),
        flush db₀ keys l.last positive (omega arith) l.head,
      )

  -- If the database accepts every batch, `success_count` is the number of keys.
  delivered-all :
      ((db : Db) (b : List Put) → (write db b).0 ≡ true)
      → (db : Db) (bs : List (List Put)) → delivered (write_all write db bs).0 ≡ length (flatten bs)
  unfolding write_all
  delivered-all ok db [] = refl
  delivered-all ok db (b ∷ bs) =
      rw (ok db b) (omega (arith, delivered-all ok (write db b).1 bs, length-append b (flatten bs)))

  -- If the database accepts every batch, then after a run that has written all keys
  -- success_count is the number of keys.
  pub Wrote-success_count :
      (db₀ : Db) (keys : List ℕ) (s : State Db)
      → ((db : Db) (b : List Put) → (write db b).0 ≡ true)
      → Wrote db₀ keys s
      → s.success_count ≡ length keys
  Wrote-success_count db₀ keys s ok w =
      w.success
      ∙ ap (λ r. delivered r.0) (sym w.replay)
      ∙ delivered-all ok db₀ (contents s.batches)
      ∙ ap length w.order
      ∙ length-pairs seed c.value_size 0 keys
