-- ===== src/Writer/Fill.antt =====
-- The inner loop of the writer: it puts the pairs of the next keys, in order, and sends a batch when
-- it is full.
use mathlib.Core.Option
use mathlib.Core.List.{append-nil, append_assoc}
use fdp_rocks.Base.{
  ℕ, ◌+◌, ◌^◌, ◌≤◌, ◌<◌, ◌≡◌, refl, sym, ap, ◌∙◌, ◌⊎◌, inl, inr, ℕ_discrete, ◌≢◌, Bool, true, false,
  some, List, [], ◌∷◌, ◌++◌, arith, ◌==◌, length, All, length-append, All-append,
}
use fdp_rocks.TransformKey.{transform_key}
use fdp_rocks.Writer.{
  Put, Config, State, send, print_progress, check_stuck, full_batch, place, put_one,
}
use fdp_rocks.Writer.Value.{value_of, IsGoodSize, make_value_good}
use fdp_rocks.Writer.Spec.{
  flatten, contents, delivered, write_all, write_all-snoc, contents-snoc, delivered-snoc,
  flatten-snoc, delivered-le,
}

module _ {Db : Type 0} (write : Db → List Put → Bool × Db) (clock seed : ℕ → ℕ) (c : Config)
    (db₀ : Db) where
  -- The pairs `ps` have been put: those of the log and those that wait.
  pub record Sent (ps : List Put) (s : State Db) : Type 0 where
    pub order : flatten (contents s.batches) ++ s.wb ≡ ps
    pub replay : write_all write db₀ (contents s.batches) ≡ (s.batches, s.db)
    pub success : s.success_count ≡ delivered s.batches

  -- States that differ in what is printed and in the clock alone.
  pub record Same (s t : State Db) : Type 0 where
    pub ind : t.ind ≡ s.ind
    pub success_count : t.success_count ≡ s.success_count
    pub wb : t.wb ≡ s.wb
    pub stats : t.stats ≡ s.stats
    pub db : t.db ≡ s.db
    pub batches : t.batches ≡ s.batches

  pub Same-Sent : {ps : List Put} {s t : State Db} → Same s t → Sent ps s → Sent ps t
  Same-Sent e v = record {
    order = rw (e.batches, e.wb) v.order;
    replay = rw (e.batches, e.db) v.replay;
    success = rw (e.batches, e.success_count) v.success;
  }

  pub print_progress-Same :
      (fine : Bool) (s : State Db) → Same s (print_progress write clock seed c fine s)
  unfolding print_progress
  print_progress-Same fine s = record {
    ind = ground arith;
    success_count = ground arith;
    wb = ground arith;
    stats = ground arith;
    db = ground arith;
    batches = ground arith;
  }

  check_stuck-Same : (s : State Db) → Same s (check_stuck write clock seed c s)
  unfolding check_stuck
  check_stuck-Same s = record {
    ind = ground arith;
    success_count = ground arith;
    wb = ground arith;
    stats = ground arith;
    db = ground arith;
    batches = ground arith;
  }

  abbrev pub after_send : State Db → State Db
  after_send s = (send write clock seed c s).1

  -- A call of `Write` moves the waiting pairs to the log.
  pub send-Sent :
      {ps : List Put} {s : State Db} → length ps < 2 ^ 64 → Sent ps s → Sent ps (after_send s)
  unfolding send
  send-Sent {ps} {s} small v = record {
    order =
        rw
          (
            contents-snoc s.batches s.wb (write s.db s.wb).0,
            append-nil,
            flatten-snoc (contents s.batches) s.wb,
          )
          v.order;
    replay = rw (
      contents-snoc s.batches s.wb (write s.db s.wb).0,
      write_all-snoc write db₀ (contents s.batches) s.wb,
      v.replay,
    );
    success = ground (
      arith,
      delivered-snoc s.batches s.wb (write s.db s.wb).0,
      delivered-le s.batches,
      length-append (flatten (contents s.batches)) s.wb,
      ap length v.order,
    );
  }

  abbrev AllFull : State Db → Type 0
  AllFull s = All (λ (b : List Put). length b ≡ c.batch) (contents s.batches)

  -- What the body of `if (wb.Count() == FLAGS_batch)` leaves.
  record Flushed (ps : List Put) (s t : State Db) : Type 0 where
    sent : Sent ps t
    full : AllFull t
    empty : t.wb ≡ []
    stats : t.stats ≡ s.stats

  full_batch-Flushed :
      {ps : List Put} (s : State Db)
      → length ps < 2 ^ 64
      → Sent ps s
      → AllFull s
      → length s.wb ≡ c.batch
      → Flushed ps s (full_batch write clock seed c s)
  unfolding full_batch send
  full_batch-Flushed s small v full e =
      let fine = (write s.db s.wb).0 in
      let t = after_send s in
      let u = print_progress write clock seed c fine t in
      let p = print_progress-Same fine t in
      let q = check_stuck-Same u in
      record {
        sent = Same-Sent q (Same-Sent p (send-Sent small v));
        full =
            rw (q.batches, p.batches, contents-snoc s.batches s.wb fine)
              (All-append _ (contents s.batches) (s.wb ∷ []) full (e, tt));
        empty = q.wb ∙ p.wb;
        stats = q.stats ∙ p.stats;
      }

  -- Where the inner loop stands with counter `j`, the pairs `ps` having been put.
  pub record Stage (ps : List Put) (j : ℕ) (s : State Db) : Type 0 where
    pub sent : Sent ps s
    pub full : AllFull s
    pub room : j ≤ c.batch
    pub waiting : ((length s.wb ≡ j) × (j < c.batch)) ⊎ ((j ≡ c.batch) × (s.wb ≡ []))
    pub index : s.ind ≡ length ps

  abbrev pub pair : ℕ → ℕ → Put
  pair i key = record { key = transform_key key; value = value_of c.value_size (seed i) key }

  -- One round puts the pair of its key.
  pub record Placed (ps : List Put) (j key : ℕ) (s t : State Db) : Type 0 where
    pub stage : Stage (ps ++ pair s.ind key ∷ []) (j + 1) t
    pub moved : t.ind ≡ s.ind + 1
    pub stats : t.stats ≡ s.stats

  module _ (ps : List Put) (j key : ℕ) (s : State Db) (small : length ps + 1 < 2 ^ 64)
      (lt : j < c.batch) (v : Stage ps j s) where
    abbrev with_put : State Db
    with_put = record s { wb = s.wb ++ pair s.ind key ∷ [] }

    length-put : length (ps ++ pair s.ind key ∷ []) ≡ length ps + 1
    length-put = omega (arith, length-append ps (pair s.ind key ∷ []))

    length-wb : length with_put.wb ≡ j + 1
    length-wb = ground (arith, length-append s.wb (pair s.ind key ∷ []))

    with_put-Sent : Sent (ps ++ pair s.ind key ∷ []) with_put
    with_put-Sent = record {
      order =
          sym (append_assoc (flatten (contents s.batches)) s.wb (pair s.ind key ∷ []))
          ∙ ap (λ xs. xs ++ pair s.ind key ∷ []) v.sent.order;
      replay = v.sent.replay;
      success = v.sent.success;
    }

    abbrev placed : State Db
    placed = place write clock seed c key (value_of c.value_size (seed s.ind) key) s

    place-full : length with_put.wb ≡ c.batch → Placed ps j key s placed
    unfolding place
    place-full e =
        let f = full_batch-Flushed with_put (omega (arith, length-put)) with_put-Sent v.full e in
        let test : (length with_put.wb == c.batch) ≡ true = ground arith in
        rw (test) (record {
          stage = record {
            sent = record {
              order = f.sent.order;
              replay = f.sent.replay;
              success = f.sent.success;
            };
            full = f.full;
            room = omega arith;
            waiting = inr (omega (arith, length-wb), f.empty);
            index = omega (arith, length-put, v.index);
          };
          moved = refl;
          stats = f.stats;
        })

    place-part : length with_put.wb ≢ c.batch → Placed ps j key s placed
    unfolding place
    place-part ne =
        let test : (length with_put.wb == c.batch) ≡ false = ground arith in
        rw (test) (record {
          stage = record {
            sent = record {
              order = with_put-Sent.order;
              replay = with_put-Sent.replay;
              success = with_put-Sent.success;
            };
            full = v.full;
            room = omega arith;
            waiting = inl (length-wb, omega (arith, length-wb));
            index = omega (arith, length-put, v.index);
          };
          moved = refl;
          stats = refl;
        })

    pub place-Placed : Placed ps j key s placed
    place-Placed = elim (ℕ_discrete (length with_put.wb) c.batch) [
      | yes e ↦ place-full e
      | no ne ↦ place-part ne
    ]

    pub put_one-place : IsGoodSize c.value_size → put_one write clock seed c key s ≡ some placed
    unfolding put_one
    put_one-place good =
        ap (Option.map (λ value. place write clock seed c key value s))
          (make_value_good c.value_size (seed s.ind) key good)
