-- ===== src/Writer/Faults.antt =====
-- Flags with which `DoSimpleRandomWrite` does not return.
use fdp_rocks.Base.{
  ℕ, zero, suc, ◌<◌, ◌≡◌, refl, inl, inr, Bool, true, false, none, some, List, ◌∷◌, arith, ltb,
  length, Option-cases,
}
use fdp_rocks.Stats.{Stats}
use fdp_rocks.Writer.{
  Put, Config, State, overrun, stuck, put_one, fill, count_batch, outer, begin, simple_random_write,
}
use fdp_rocks.Writer.Value.{IsGoodSize, make_value_bad}

module _ {Db : Type 0} (write : Db → List Put → Bool × Db) (clock seed : ℕ → ℕ) (c : Config) where
  fill_idle :
      (key : ℕ) (keys : List ℕ) (s : State Db)
      → c.batch ≡ 0
      → fill write clock seed c (key ∷ keys) 0 s ≡ some (key ∷ keys, 0, s)
  unfolding fill
  fill_idle key keys s e = let test : ltb 0 c.batch ≡ false = ground arith in rw (test, fill)

  put_one_bad :
      (key : ℕ) (s : State Db) → ¬ IsGoodSize c.value_size → put_one write clock seed c key s ≡ none
  unfolding put_one
  put_one_bad key s bad = rw (make_value_bad c.value_size (seed s.ind) key bad, put_one)

  fill_overrun :
      (key : ℕ) (keys : List ℕ) (s : State Db)
      → 0 < c.batch
      → ¬ IsGoodSize c.value_size
      → fill write clock seed c (key ∷ keys) 0 s ≡ none
  unfolding fill
  fill_overrun key keys s positive bad =
      let test : ltb 0 c.batch ≡ true = ground arith in rw (test, fill) (rw (put_none, fill))
    where
      put_none : put_one write clock seed c key s ≡ none
      put_none = put_one_bad key s bad

  outer_overrun :
      (fuel key : ℕ) (keys : List ℕ) (s : State Db)
      → 0 < c.batch
      → ¬ IsGoodSize c.value_size
      → outer write clock seed c (suc fuel) (key ∷ keys) s ≡ overrun
  unfolding outer
  outer_overrun fuel key keys s positive bad = rw (fill_overrun key keys s positive bad, outer)

  -- With a batch size of 0 the inner loop takes no key.
  outer_stuck :
      (fuel key : ℕ) (keys : List ℕ) (s : State Db)
      → c.batch ≡ 0
      → outer write clock seed c fuel (key ∷ keys) s ≡ stuck
  unfolding outer
  outer_stuck zero key keys s e = refl
  outer_stuck (suc fuel) key keys s e = elim (Option-cases (count_batch write clock seed c 0 s)) [
    | inl none_e ↦ rw (idle, outer) (rw (none_e, outer))
    | inr (t, some_e) ↦ rw (idle, outer) (rw (some_e, outer) (outer_stuck fuel key keys t e))
  ]
    where
      idle : fill write clock seed c (key ∷ keys) 0 s ≡ some (key ∷ keys, 0, s)
      idle = fill_idle key keys s e

  -- If the batch size is 0, DoSimpleRandomWrite does not come back when the worker has keys,
  -- whatever the fuel.
  pub simple_random_write-stuck :
      (fuel : ℕ) (st : Stats) (db₀ : Db) (key : ℕ) (keys : List ℕ)
      → c.batch ≡ 0
      → simple_random_write write clock seed c fuel st db₀ (key ∷ keys) ≡ stuck
  unfolding simple_random_write
  simple_random_write-stuck fuel st db₀ key keys e = rw (
    outer_stuck fuel key keys (begin write clock seed c st db₀ (length (key ∷ keys))) e,
    simple_random_write,
  )

  -- If the batch size is positive and the value size is neither 8 nor at least 16,
  -- DoSimpleRandomWrite writes past the end of the first value.
  pub simple_random_write-overrun :
      (fuel : ℕ) (st : Stats) (db₀ : Db) (key : ℕ) (keys : List ℕ)
      → 0 < c.batch
      → ¬ IsGoodSize c.value_size
      → simple_random_write write clock seed c (suc fuel) st db₀ (key ∷ keys) ≡ overrun
  unfolding simple_random_write
  simple_random_write-overrun fuel st db₀ key keys positive bad = rw (
    outer_overrun fuel key keys (begin write clock seed c st db₀ (length (key ∷ keys))) positive
        bad,
    simple_random_write,
  )
