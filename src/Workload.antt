-- ===== src/Workload.antt =====
-- src/benchmark/util.h: the key arrays and iterators of `RandomKeyTrace`.
mod Iterating
mod Rotating
mod Segments
mod Phases
mod Creating
mod Zipfian
mod Intervals
mod Tests
use fdp_rocks.Base.{
  ℕ, zero, suc, ◌+◌, ◌-◌, ◌*◌, ◌/◌, ◌%◌, ◌^◌, Bool, true, false, not, ◌||◌, Option, none, some,
  List, [], ◌∷◌, ◌++◌, ltb, leb, ◌==◌, if◌then◌else◌, length, take, drop, get_elem?, set, map, u64,
}
use mathlib.Core.Option
use fdp_rocks.KeyOrder.{range_from}
use fdp_rocks.Base.Chain.{◌>>=◌}

-- `Iterator`, without the pointer to the vector.
pub record Iterator : Type 0 where
  pub range : ℕ
  pub end_index : ℕ
  pub cur_index : ℕ
  pub begin : Bool

-- `Iterator (pkey_vec, start_index, range)`; `none` is the division by zero.
unfoldable pub trace_at : ℕ → ℕ → Option Iterator
trace_at start_index range =
    if range == 0
    then none
    else some (record {
      range = range;
      end_index = start_index % range;
      cur_index = start_index % range;
      begin = true;
    })

-- `Valid`
unfoldable pub valid : Iterator → Bool
valid it = it.begin || not (it.cur_index == it.end_index)

-- `Next`: the index of the element that it refers to, and the iterator after it.
unfoldable pub next : Iterator → ℕ × Iterator
next it = (
  it.cur_index,
  record it {
    begin = false;
    cur_index = if leb it.range (it.cur_index + 1) then 0 else it.cur_index + 1;
  },
)

-- The loop `while (it.Valid ()) it.Next ()`: the indices that it sees, `none` if the fuel runs out.
unfoldable pub visit : ℕ → Iterator → Option (List ℕ)
unfolding valid next
visit zero it = if valid it then none else some []
visit (suc fuel) it =
    let rest = visit fuel (next it).1 in
    if valid it then Option.map (λ is. (next it).0 ∷ is) rest else some []

-- `std::move_backward (keys.begin (), keys.begin () + n, keys.end ())`, for `n` up to the length.
unfoldable pub move_backward : ℕ → List ℕ → List ℕ
move_backward n keys = take (length keys - n) keys ++ take n keys

-- `std::copy (temp.begin (), temp.end (), keys.begin ())`
unfoldable pub copy_front : List ℕ → List ℕ → List ℕ
copy_front temp keys = temp ++ drop (length temp) keys

-- The shift between two phases of `CreateReadWorkloadWithLocalSequential4Workloads`.
unfoldable pub shift_phases : List ℕ → List ℕ
unfolding move_backward copy_front
shift_phases keys =
    let phase_length = length keys / 4 in
    let temp = drop (3 * phase_length) keys in
    copy_front temp (move_backward (3 * phase_length) keys)

-- The inner loop of a copy of segments: `n` keys from `start` on go to `at` and on. `none` is a read
-- past the end of the keys.
unfoldable pub copy_keys : ℕ → ℕ → ℕ → List ℕ → List ℕ → Option (List ℕ)
copy_keys zero at start keys out = some out
copy_keys (suc n) at start keys out = elim (get_elem? keys start) [
  | none ↦ none
  | some key ↦ copy_keys n (at + 1) (start + 1) keys (set out at key)
]

-- The outer loop, from the `j`-th round on, over `segmentIndex[read_i_[j] - 1]` of the rounds. The
-- output has room for all rounds in the source, so no write is out of range.
unfoldable pub copy_segments : ℕ → ℕ → List ℕ → List ℕ → List ℕ → Option (List ℕ)
unfolding copy_keys
copy_segments segment_length j [] keys out = some out
copy_segments segment_length j (segment ∷ segments) keys out =
    elim (copy_keys segment_length (j * segment_length) (segment * segment_length) keys out) [
      | none ↦ none
      | some out' ↦ copy_segments segment_length (j + 1) segments keys out'
    ]

-- The four phases of `CreateReadWorkloadWithLocalSequential4Workloads`, over the segments that its
-- rounds have drawn, with what the four outputs hold before: the outputs and the keys after it.
unfoldable pub four_workloads :
    ℕ
    → List ℕ
    → List ℕ
    → List ℕ
    → List ℕ
    → List ℕ
    → List ℕ
    → Option (List ℕ × List ℕ × List ℕ × List ℕ × List ℕ)
four_workloads segment_length segments keys v1 v2 v3 v4 = do
  w1 ← copy_segments segment_length 0 segments keys v1
  let keys2 = shift_phases keys
  w2 ← copy_segments segment_length 0 segments keys2 v2
  let keys3 = shift_phases keys2
  w3 ← copy_segments segment_length 0 segments keys3 v3
  let keys4 = shift_phases keys3
  w4 ← copy_segments segment_length 0 segments keys4 v4
  some (w1, w2, w3, w4, keys4)

-- The second loop of `CreateReadWorkloadWithZipfianDistribution`, over the draws of the first, on the
-- shuffled keys. `none` is a read past their end.
unfoldable pub zipfian_workload : List ℕ → List ℕ → Option (List ℕ)
zipfian_workload keys [] = some []
zipfian_workload keys (i ∷ read_i) = do
  key ← get_elem? keys i
  read_keys ← zipfian_workload keys read_i
  some (key ∷ read_keys)

-- The inner loop of `CreateReadWorkloadWithInterval`, `n` rounds from `k` on: the place of the next
-- key, and the workload.
unfoldable pub interval_row : ℕ → ℕ → ℕ → ℕ → ℕ → List ℕ → ℕ → List ℕ → Option (ℕ × List ℕ)
interval_row zero k j interval read_dataset_length keys cur out = some (cur, out)
interval_row (suc n) k j interval read_dataset_length keys cur out =
    let row = interval_row n (k + 1) j interval read_dataset_length keys in
    if ltb cur read_dataset_length
    then (do
      key ← get_elem? keys (j + k * interval)
      if leb read_dataset_length (cur + 1)
          then some (cur + 1, set out cur key)
          else row (cur + 1) (set out cur key))
    else row cur out

-- The outer loop, `m` rounds from `j` on.
unfoldable pub interval_rows : ℕ → ℕ → ℕ → ℕ → ℕ → List ℕ → ℕ → List ℕ → Option (List ℕ)
interval_rows zero j interval count read_dataset_length keys cur out = some out
interval_rows (suc m) j interval count read_dataset_length keys cur out = do
  (cur', out') ← interval_row (count / interval) 0 j interval read_dataset_length keys cur out
  if leb read_dataset_length cur'
      then some out'
      else interval_rows m (j + 1) interval count read_dataset_length keys cur' out'

-- `CreateReadWorkloadWithInterval`, with what `read_keys_` holds when it is resized.
unfoldable pub interval_workload : ℕ → List ℕ → List ℕ → Option (List ℕ)
interval_workload interval keys out =
    interval_rows interval 0 interval (length keys) (length out) keys 0 out

-- The constructor of `RandomKeyTrace`: the numbers from 1 on, or draws of the uniform distribution.
unfoldable pub new_trace : Bool → ℕ → (ℕ → ℕ) → List ℕ
new_trace is_seq count draw =
    if is_seq then map (λ i. i + 1) (range_from 0 count) else map draw (range_from 0 count)

-- `RangeIterator`, without the pointer to the vector.
pub record RangeIterator : Type 0 where
  pub end_index : ℕ
  pub cur_index : ℕ

-- `iterate_between`, on any of the vectors.
unfoldable pub iterate_between : ℕ → ℕ → RangeIterator
iterate_between start end = record { end_index = end; cur_index = start }

-- `Valid`
unfoldable pub range_valid : RangeIterator → Bool
range_valid it = ltb it.cur_index it.end_index

-- `Next`: the element, `none` for one out of range, and the iterator after it.
unfoldable pub range_next : List ℕ → RangeIterator → Option ℕ × RangeIterator
range_next keys it = (get_elem? keys it.cur_index, record it { cur_index = u64 (it.cur_index + 1) })

-- `RollBack`, in `size_t`.
unfoldable pub roll_back : RangeIterator → RangeIterator
roll_back it = record it { cur_index = u64 (it.cur_index + 2 ^ 64 - 6000) }

-- The loop `while (it.Valid ()) it.Next ()`: the elements that it sees.
unfoldable pub read_range : ℕ → List ℕ → RangeIterator → Option (List ℕ)
unfolding range_valid range_next
read_range zero keys it = if range_valid it then none else some []
read_range (suc fuel) keys it =
    let rest = read_range fuel keys (range_next keys it).1 in
    if range_valid it
    then (do key ← (range_next keys it).0; seen ← rest; some (key ∷ seen))
    else some []
