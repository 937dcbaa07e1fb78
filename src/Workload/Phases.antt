-- ===== src/Workload/Phases.antt =====
-- The read workloads of the four phases, and the Zipfian one.
use mathlib.Core.List.{Perm}
use mathlib.Core.List.Perm
use fdp_rocks.Base.{
  ℕ, zero, suc, ◌*◌, ◌≤◌, ◌≡◌, refl, sym, none, some, List, [], ◌∷◌, ◌++◌, arith, length, drop,
  get_elem?,
}
use fdp_rocks.Base.Permutation.{length-Perm}
use fdp_rocks.Workload.{shift_phases, copy_segments, four_workloads}
use fdp_rocks.Workload.Segments.{segment_keys, Within, copy_segments_lem}
use fdp_rocks.Workload.Rotating.{shift_phases_lem}

-- The keys of phase `p`, from 0 on.
abbrev pub phase_keys : ℕ → List ℕ → List ℕ
phase_keys zero keys = keys
phase_keys (suc p) keys = shift_phases (phase_keys p keys)

phase_keys-Perm : (p : ℕ) (keys : List ℕ) → Perm (phase_keys p keys) keys
phase_keys-Perm zero keys = Perm.refl keys
phase_keys-Perm (suc p) keys =
    Perm.trans (shift_phases_lem (phase_keys p keys)).1 (phase_keys-Perm p keys)

-- What a phase leaves in its output.
abbrev pub phase_workload : ℕ → ℕ → List ℕ → List ℕ → List ℕ → List ℕ
phase_workload p n segments keys out =
    segment_keys n segments (phase_keys p keys) ++ drop (length segments * n) out

Within-length :
    (n : ℕ) (keys keys' segments : List ℕ)
    → length keys ≡ length keys'
    → Within n keys segments
    → Within n keys' segments
Within-length n keys keys' [] e w = tt
Within-length n keys keys' (g ∷ gs) e w = (omega (arith, w.0), Within-length n keys keys' gs e w.1)

copy_phase :
    (p n : ℕ) (segments keys out : List ℕ)
    → Within n keys segments
    → length segments * n ≤ length out
    → copy_segments n 0 segments (phase_keys p keys) out
      ≡ some (phase_workload p n segments keys out)
copy_phase p n segments keys out w h =
    copy_segments_lem n segments (phase_keys p keys) out
      (Within-length n keys (phase_keys p keys) segments
        (sym (length-Perm (phase_keys-Perm p keys))) w)
      h

-- If every segment lies within the keys and each of the four outputs has room for as many
-- segments, then the four phases read no key out of range, and phase p, counted from 0, gives
-- the keys of the segments, taken from the keys after p shifts, one behind the other, followed
-- by what its output held behind them; three shifts are left done.
pub four_workloads_lem :
    (n : ℕ) (segments keys v1 v2 v3 v4 : List ℕ)
    → Within n keys segments
    → length segments * n ≤ length v1
    → length segments * n ≤ length v2
    → length segments * n ≤ length v3
    → length segments * n ≤ length v4
    → four_workloads n segments keys v1 v2 v3 v4
      ≡ some (
        phase_workload 0 n segments keys v1,
        phase_workload 1 n segments keys v2,
        phase_workload 2 n segments keys v3,
        phase_workload 3 n segments keys v4,
        phase_keys 3 keys,
      )
unfolding four_workloads
four_workloads_lem n segments keys v1 v2 v3 v4 w h1 h2 h3 h4 =
    rw
      (
        copy_phase 0 n segments keys v1 w h1,
        copy_phase 1 n segments keys v2 w h2,
        copy_phase 2 n segments keys v3 w h3,
        copy_phase 3 n segments keys v4 w h4,
      )
      refl

pub get_elem-none : (xs : List ℕ) (i : ℕ) → length xs ≤ i → get_elem? xs i ≡ none
get_elem-none [] i h = refl
get_elem-none (x ∷ xs) zero h = absurd (omega arith)
get_elem-none (x ∷ xs) (suc i) h = get_elem-none xs i (omega arith)
