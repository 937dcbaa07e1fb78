-- ===== src/Workload/Iterating.antt =====
-- An `Iterator` goes once round its range.
use mathlib.Core.Option
use native.Mathlib.Nat.{mod-lt}
use fdp_rocks.Base.{
  ℕ, zero, suc, ◌+◌, ◌-◌, ◌%◌, ◌<◌, ◌≤◌, ◌≡◌, refl, sym, ap, ◌∙◌, Bool, true, false, some, ◌++◌,
  arith, leb, ltb, u64, map, get_elem?, ◌∷◌, ◌^◌, ◌==◌,
}
use fdp_rocks.KeyOrder.{range_from}
use fdp_rocks.Workload.{
  Iterator, visit, trace_at, new_trace, iterate_between, read_range, RangeIterator, range_valid,
  roll_back,
}

module _ (range s : ℕ) (inside : s < range) where
  at : ℕ → Bool → Iterator
  at i b = record { range = range; end_index = s; cur_index = i; begin = b }

  -- From an index before the start, up to the start.
  visit-below :
      (n i fuel : ℕ) → i + n ≡ s → n ≤ fuel → visit fuel (at i false) ≡ some (range_from i n)
  unfolding visit at range_from
  visit-below zero i zero e h = ground arith
  visit-below zero i (suc fuel) e h = ground arith
  visit-below (suc n) i zero e h = absurd (omega arith)
  visit-below (suc n) i (suc fuel) e h =
      let differs : (i == s) ≡ false = ground arith in
      let stays : leb range (i + 1) ≡ false = ground arith in
      rw differs
        (rw stays (rw (visit-below n (i + 1) fuel (omega arith) (omega arith), Option.map) refl))

  -- From an index behind the start, to the end of the range and on from its beginning.
  visit-above :
      (n i fuel : ℕ)
      → i + suc n ≡ range
      → s < i
      → suc n + s ≤ fuel
      → visit fuel (at i false) ≡ some (range_from i (suc n) ++ range_from 0 s)
  unfolding visit at range_from
  visit-above n i zero e l h = absurd (omega arith)
  visit-above zero i (suc fuel) e l h =
      let differs : (i == s) ≡ false = ground arith in
      let wraps : leb range (i + 1) ≡ true = ground arith in
      rw differs (rw wraps (rw (visit-below s 0 fuel (omega arith) (omega arith), Option.map) refl))
  visit-above (suc n) i (suc fuel) e l h =
      let differs : (i == s) ≡ false = ground arith in
      let stays : leb range (i + 1) ≡ false = ground arith in
      rw differs (
        rw stays (
          rw (visit-above n (i + 1) fuel (omega arith) (omega arith) (omega arith), Option.map)
            refl))

  -- The start counts as valid the first time.
  visit-start :
      (n fuel : ℕ)
      → s + suc n ≡ range
      → n + s ≤ fuel
      → visit (suc fuel) (at s true) ≡ some (range_from s (suc n) ++ range_from 0 s)
  unfolding visit at range_from
  visit-start zero fuel e h =
      let wraps : leb range (s + 1) ≡ true = ground arith in
      rw wraps (rw (visit-below s 0 fuel (omega arith) (omega arith), Option.map) refl)
  visit-start (suc n) fuel e h =
      let stays : leb range (s + 1) ≡ false = ground arith in
      rw stays
        (rw (visit-above n (s + 1) fuel (omega arith) (omega arith) (omega arith), Option.map) refl)

-- For a positive range, the loop that calls Next while an Iterator is valid ends after range
-- rounds, and has seen the indices from start modulo range to the end of the range and then
-- those from 0 up to where it began.
pub trace_at-visit :
    (start range : ℕ)
    → 0 < range
    → Option.map (visit range) (trace_at start range)
      ≡ some (
          some (range_from (start % range) (range - start % range) ++ range_from 0 (start % range)))
unfolding trace_at at
trace_at-visit start range h =
    let test : (range == 0) ≡ false = ground arith in
    let s = start % range in
    let inside : s < range = mod-lt start h in
    let n = range - s - 1 in
    let size : suc n ≡ range - s = omega arith in
    let fuel : suc (range - 1) ≡ range = omega arith in
    let run : visit (suc (range - 1)) (at range s inside s true)
        ≡ some (range_from s (suc n) ++ range_from 0 s) =
      visit-start range s inside n (range - 1) (omega arith) (omega arith) in
    rw test (
      ap some (
        ap (λ k. visit k (at range s inside s true)) (sym fuel)
        ∙ run
        ∙ ap (λ k. some (range_from s k ++ range_from 0 s)) size))

-- What is read of a sequential trace.
sequential-get :
    (n start i : ℕ)
    → i < n
    → get_elem? (map (λ k. k + 1) (range_from start n)) i ≡ some (start + i + 1)
unfolding range_from
sequential-get zero start i h = absurd (omega arith)
sequential-get (suc n) start zero h = ap some (omega arith)
sequential-get (suc n) start (suc i) h =
    sequential-get n (start + 1) i (omega arith) ∙ ap some (omega arith)

read_range-sequential :
    (n i count end : ℕ) (draw : ℕ → ℕ)
    → i + n ≡ end
    → end ≤ count
    → count < 2 ^ 64
    → read_range n (new_trace true count draw) (iterate_between i end) ≡ some (range_from (i + 1) n)
unfolding read_range iterate_between new_trace range_from
read_range-sequential zero i count end draw e h k =
    let over : ltb i end ≡ false = ground arith in rw over refl
read_range-sequential (suc n) i count end draw e h k =
    let more : ltb i end ≡ true = ground arith in
    let whole : u64 (i + 1) ≡ i + 1 = omega arith in
    rw
      (
        more,
        sequential-get count 0 i (omega arith),
        whole,
        read_range-sequential n (i + 1) count end draw (omega arith) h k,
      )
      (ap (λ m. some (m ∷ range_from (i + 1 + 1) n)) (omega arith))

-- For a positive range, the loop that calls Next while an Iterator is valid ends after range
-- rounds, and has seen the indices from start modulo range to the end of the range and then
-- those from 0 up to where it began. For first up to end, end up to count and count below 2^64,
-- the loop that calls Next while a RangeIterator between first and end is valid ends after end -
-- first rounds, and has read of a sequential trace of count keys the keys from first + 1 to end.
pub iterators_lem :
    (start range first end count : ℕ) (draw : ℕ → ℕ)
    → 0 < range
    → first ≤ end
    → end ≤ count
    → count < 2 ^ 64
    → (Option.map (visit range) (trace_at start range)
        ≡ some (
            some
              (range_from (start % range) (range - start % range) ++ range_from 0 (start % range))))
      × (read_range (end - first) (new_trace true count draw) (iterate_between first end)
          ≡ some (range_from (first + 1) (end - first)))
iterators_lem start range first end count draw h a b k = (
  trace_at-visit start range h,
  read_range-sequential (end - first) first count end draw (omega arith) b k,
)

-- `RollBack` goes back by 6000 elements, but from one of the first 6000 it wraps around, and the
-- iterator is at its end.
roll_back_back :
    (it : RangeIterator)
    → 6000 ≤ it.cur_index
    → it.cur_index < 2 ^ 64
    → (roll_back it).cur_index ≡ it.cur_index - 6000
unfolding roll_back
roll_back_back it h k = omega arith

roll_back_wraps :
    (it : RangeIterator)
    → it.cur_index < 6000
    → it.end_index + 6000 ≤ 2 ^ 64
    → range_valid (roll_back it) ≡ false
unfolding roll_back range_valid
roll_back_wraps it h k = ground arith
