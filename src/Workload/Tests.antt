-- ===== src/Workload/Tests.antt =====
-- An iterator over five keys from the third on, and a shift of nine keys.
use mathlib.Core.List.{Perm, reverse}
use native.Mathlib.Nat.{mod-lt}
use mathlib.Core.Option
use fdp_rocks.Base.{
  true, length, map, All, ◌⊎◌, ◌<◌, ◌+◌, ◌%◌, ℕ, ◌≡◌, refl, none, some, List, [], ◌∷◌, ◌++◌, arith,
  take, drop, replicate,
}
use fdp_rocks.Base.Permutation.{reverse-Perm, Below}
use fdp_rocks.KeyOrder.{range_from}
use fdp_rocks.Workload.{
  read_range, new_trace, iterate_between, four_workloads, interval_workload, interval_rows,
  interval_row, shift_phases,
}
use fdp_rocks.Workload.Creating.{Draws, segments_at, segment_index, drawn_segments, local_workloads}
use fdp_rocks.Workload.Zipfian.{create_zipfian, BehindFirst, create_zipfian_lem}
use fdp_rocks.Workload.Intervals.{interval_workload_lem}
use fdp_rocks.Workload.{visit, trace_at, shift_phases, copy_segments, copy_keys}
use fdp_rocks.Workload.Iterating.{iterators_lem}
use fdp_rocks.Workload.Rotating.{shift_phases_lem}

visit_test : Option.map (visit 5) (trace_at 12 5) ≡ some (some (2 ∷ 3 ∷ 4 ∷ 0 ∷ 1 ∷ []))
unfolding visit trace_at
visit_test = refl

iterators_lem_example :
    (Option.map (visit 5) (trace_at 12 5) ≡ some (some (range_from 2 3 ++ range_from 0 2)))
    × (read_range 3 (new_trace true 8 (λ i. i)) (iterate_between 2 5) ≡ some (range_from 3 3))
iterators_lem_example =
    iterators_lem 12 5 2 5 8 (λ i. i) (omega arith) (omega arith) (omega arith) (omega arith)

read_range_test :
    read_range 3 (new_trace true 8 (λ i. i)) (iterate_between 2 5) ≡ some (3 ∷ 4 ∷ 5 ∷ [])
unfolding read_range new_trace iterate_between range_from
read_range_test = refl

abbrev nine : List ℕ
nine = 1 ∷ 2 ∷ 3 ∷ 4 ∷ 5 ∷ 6 ∷ 7 ∷ 8 ∷ 9 ∷ []

shift_test : shift_phases nine ≡ 7 ∷ 8 ∷ 9 ∷ 1 ∷ 2 ∷ 3 ∷ 4 ∷ 5 ∷ 6 ∷ []
unfolding shift_phases
shift_test = refl

shift_phases_lem_example :
    (shift_phases nine ≡ drop 6 nine ++ take 6 nine) × Perm (shift_phases nine) nine
shift_phases_lem_example = shift_phases_lem nine

abbrev five_zeros : List ℕ
five_zeros = 0 ∷ 0 ∷ 0 ∷ 0 ∷ 0 ∷ []

copy_segments_test : copy_segments 2 0 (3 ∷ 0 ∷ []) nine five_zeros ≡ some (7 ∷ 8 ∷ 1 ∷ 2 ∷ 0 ∷ [])
unfolding copy_segments
copy_segments_test = refl

past_the_end_test : copy_segments 2 0 (4 ∷ []) nine five_zeros ≡ none
unfolding copy_segments
past_the_end_test = refl

abbrev eight : List ℕ
eight = 1 ∷ 2 ∷ 3 ∷ 4 ∷ 5 ∷ 6 ∷ 7 ∷ 8 ∷ []

abbrev room : List ℕ
room = 0 ∷ 0 ∷ 0 ∷ 0 ∷ []

-- A shuffle that turns the list round, and draws that count up.
abbrev draws : Draws
draws = record {
  shuffle = reverse;
  draw = λ n j. j % n + 1;
  shuffle-Perm = λ xs. reverse-Perm xs;
  draw-positive = λ n j h. omega arith;
  draw-le = λ n j h. omega (arith, mod-lt j h);
}

local_workloads_test :
    local_workloads draws 2 eight room room room room
    ≡ some (
      7 ∷ 8 ∷ 5 ∷ 6 ∷ [],
      5 ∷ 6 ∷ 3 ∷ 4 ∷ [],
      3 ∷ 4 ∷ 1 ∷ 2 ∷ [],
      1 ∷ 2 ∷ 7 ∷ 8 ∷ [],
      3 ∷ 4 ∷ 5 ∷ 6 ∷ 7 ∷ 8 ∷ 1 ∷ 2 ∷ [],
    )
unfolding local_workloads drawn_segments segment_index segments_at four_workloads copy_segments
    copy_keys shift_phases range_from
local_workloads_test = refl

-- The eighth draw is 8, and reads past the end of the eight keys.
create_zipfian_test :
    (create_zipfian draws 7 eight ≡ some (7 ∷ 6 ∷ 5 ∷ 4 ∷ 3 ∷ 2 ∷ 1 ∷ []))
    × (create_zipfian draws 8 eight ≡ none)
unfolding create_zipfian range_from
create_zipfian_test = (refl, refl)

create_zipfian_lem_example :
    ((read_keys : List ℕ) × (create_zipfian draws 8 eight ≡ some read_keys)
      × (length read_keys ≡ 8)
      × All (BehindFirst (draws.shuffle eight)) read_keys
      × Below (length eight) (map (draws.draw (length eight)) (range_from 0 8)))
    ⊎ ((create_zipfian draws 8 eight ≡ none)
        × (j : ℕ) × (j < 8)
        × (draws.draw (length eight) j ≡ length eight))
create_zipfian_lem_example = create_zipfian_lem draws 8 eight (omega arith) (omega arith)

interval_workload_lem_example :
    interval_workload 3 eight (0 ∷ 0 ∷ 0 ∷ 0 ∷ 0 ∷ []) ≡ some (1 ∷ 4 ∷ 2 ∷ 5 ∷ 3 ∷ [])
interval_workload_lem_example = interval_workload_lem 3 eight (0 ∷ 0 ∷ 0 ∷ 0 ∷ 0 ∷ [])

interval_test :
    interval_workload 3 eight (replicate 8 0) ≡ some (1 ∷ 4 ∷ 2 ∷ 5 ∷ 3 ∷ 6 ∷ 0 ∷ 0 ∷ [])
unfolding interval_workload interval_rows interval_row
interval_test = refl
