-- ===== src/Workload/Creating.antt =====
-- src/benchmark/util.h: `CreateReadWorkloadWithSegments` and
-- `CreateReadWorkloadWithLocalSequential4Workloads` as a whole, from the drawing of the segments on.
use mathlib.Core.List.{Perm}
use mathlib.Core.List.Perm
use fdp_rocks.Base.{
  ℕ, ◌+◌, ◌-◌, ◌*◌, ◌/◌, ◌^◌, ◌≤◌, ◌<◌, ◌≡◌, Bool, true, Option, none, some, List, [], ◌∷◌, ◌++◌,
  length, drop, get_elem?, map, ◌==◌, if◌then◌else◌, u64,
}
use fdp_rocks.Base.Chain.{◌>>=◌}
use fdp_rocks.Base.Permutation.{Below}
use fdp_rocks.KeyOrder.{range_from}
use fdp_rocks.Workload.{copy_segments, four_workloads}
use fdp_rocks.Workload.Phases.{phase_workload, phase_keys}
use fdp_rocks.Workload.Segments.{segment_keys}

-- `std::random_shuffle`, and the draws of the distribution from 1 to a number: the `j`-th of them.
pub record Draws : Type 0 where
  pub shuffle : List ℕ → List ℕ
  pub draw : ℕ → ℕ → ℕ
  pub shuffle-Perm : (xs : List ℕ) → Perm (shuffle xs) xs
  pub draw-positive : (n j : ℕ) → 0 < n → 0 < draw n j
  pub draw-le : (n j : ℕ) → 0 < n → draw n j ≤ n

-- `segmentIndex[i - 1]` for each draw; `none` is an index out of range. The subtraction is in `size_t`.
unfoldable pub segments_at : List ℕ → List ℕ → Option (List ℕ)
segments_at index [] = some []
segments_at index (i ∷ read_i) = do
  segment ← get_elem? index (u64 (i + 2 ^ 64 - 1))
  segments ← segments_at index read_i
  some (segment ∷ segments)

module _ (d : Draws) where
  -- `segmentIndex`, shuffled or not.
  unfoldable pub segment_index : Bool → ℕ → List ℕ
  segment_index shuffled n_segments =
      if shuffled then d.shuffle (range_from 0 n_segments) else range_from 0 n_segments

  -- The segments of the rounds; `none` is also the division by zero.
  unfoldable pub drawn_segments : Bool → ℕ → ℕ → ℕ → Option (List ℕ)
  unfolding segment_index segments_at
  drawn_segments shuffled count read_dataset_length segment_length =
      if segment_length == 0
      then none
      else segments_at (segment_index shuffled (count / segment_length)) (
          map (d.draw (count / segment_length))
            (range_from 0 (read_dataset_length / segment_length)))

  -- `CreateReadWorkloadWithSegments`, with `read_keys_` as it is after its `resize`.
  unfoldable pub segment_workload : Bool → ℕ → List ℕ → List ℕ → Option (List ℕ)
  unfolding drawn_segments
  segment_workload is_sparse_hot_spot segment_length keys out = do
    segments ← drawn_segments is_sparse_hot_spot (length keys) (length out) segment_length
    copy_segments segment_length 0 segments keys out

  -- `CreateReadWorkloadWithLocalSequential4Workloads`, with the four vectors as they are after their
  -- `resize` to one length.
  unfoldable pub local_workloads :
      ℕ
      → List ℕ
      → List ℕ
      → List ℕ
      → List ℕ
      → List ℕ
      → Option (List ℕ × List ℕ × List ℕ × List ℕ × List ℕ)
  unfolding drawn_segments
  local_workloads segment_length keys v1 v2 v3 v4 = do
    segments ← drawn_segments true (length keys) (length v1) segment_length
    four_workloads segment_length segments keys v1 v2 v3 v4

module _ (d : Draws) where
  -- What is drawn for the rounds: as many segments as there are rounds, all of them whole ones.
  abbrev pub Picked : Bool → ℕ → ℕ → ℕ → List ℕ → Type 0
  Picked shuffled count read_dataset_length segment_length segments =
      (drawn_segments d shuffled count read_dataset_length segment_length ≡ some segments)
      × Below (count / segment_length) segments
      × (length segments ≡ read_dataset_length / segment_length)

  -- The workload is that of the segments that are drawn, before what `read_keys_` holds behind them.
  abbrev pub SegmentsRead : Bool → ℕ → List ℕ → List ℕ → Type 0
  SegmentsRead is_sparse_hot_spot n keys out =
      (segments : List ℕ) × Picked is_sparse_hot_spot (length keys) (length out) n segments
      × (segment_workload d is_sparse_hot_spot n keys out
          ≡ some (segment_keys n segments keys ++ drop (length segments * n) out))

  -- So are the workloads of the phases, each on the keys of its phase.
  abbrev pub PhasesRead : ℕ → List ℕ → List ℕ → List ℕ → List ℕ → List ℕ → Type 0
  PhasesRead n keys v1 v2 v3 v4 =
      (segments : List ℕ) × Picked true (length keys) (length v1) n segments
      × (local_workloads d n keys v1 v2 v3 v4
          ≡ some (
            phase_workload 0 n segments keys v1,
            phase_workload 1 n segments keys v2,
            phase_workload 2 n segments keys v3,
            phase_workload 3 n segments keys v4,
            phase_keys 3 keys,
          ))
