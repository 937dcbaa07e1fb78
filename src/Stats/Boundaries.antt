-- ===== src/Stats/Boundaries.antt =====
-- `FinishedBatchOp`: the loop over the 10,000-operation boundaries ends, and the thresholds of the
-- reports keep ahead.
use fdp_rocks.Base.{
  ℕ, zero, suc, ◌+◌, ◌*◌, ◌/◌, ◌%◌, ◌^◌, ◌≤◌, ◌<◌, min, ◌≡◌, refl, Bool, true, false, inl, inr,
  some, arith, leb, u64, Bool-cases, dec_lt, ◌⊎◌, leb→le, ◌∙◌, ◌&&◌, ◌==◌,
}
use fdp_rocks.Stats.{
  Flags, Stats, IsReportable, start_at, bump_report, pass_boundaries, report, finished_batch_op,
}

-- The boundary is the least multiple of 10,000 above the count.
pub record IsAligned (s : Stats) : Type 0 where
  pub multiple : s.next_10k_boundary % 10000 ≡ 0
  pub above : s.done < s.next_10k_boundary
  pub near : s.next_10k_boundary ≤ s.done + 10000

pub start_at-IsAligned : (flags : Flags) (s : Stats) (now : ℕ) → IsAligned (start_at flags s now)
unfolding start_at
start_at-IsAligned flags s now = record {
  multiple = omega arith;
  above = omega arith;
  near = omega arith;
}

-- What the loop leaves behind: the boundary is passed and the other counters are as they were.
record Passed (s s' : Stats) : Type 0 where
  aligned : IsAligned s'
  same_done : s'.done ≡ s.done
  same_report : s'.next_report ≡ s.next_report
  same_time : s'.next_report_time ≡ s.next_report_time

-- One round of the loop.
abbrev advance : (ℕ → ℕ) → ℕ → Stats → Stats
advance clock k s = record s {
  prev_10k_time = s.curr_10k_time;
  curr_10k_time = clock k;
  next_10k_boundary = u64 (s.next_10k_boundary + 10000);
}

pass_boundaries-Passed :
    (clock : ℕ → ℕ) (fuel k : ℕ) (s : Stats)
    → s.next_10k_boundary % 10000 ≡ 0
    → s.next_10k_boundary ≤ s.done + 10000
    → s.done + 20000 < 2 ^ 64
    → s.done + 10000 < s.next_10k_boundary + fuel * 10000
    → (k' : ℕ) × (s' : Stats) × (pass_boundaries clock fuel k s ≡ some (k', s')) × Passed s s'
unfolding pass_boundaries
pass_boundaries-Passed clock zero k s m near room h = absurd (omega arith)
pass_boundaries-Passed clock (suc fuel) k s m near room h =
    elim (Bool-cases (leb s.next_10k_boundary s.done)) [
      | inl again ↦
          let le : s.next_10k_boundary ≤ s.done = leb→le _ _ again in
          let (k', s', e, p) =
            pass_boundaries-Passed clock fuel (k + 1) (advance clock k s) (omega arith)
              (omega arith) room (omega arith) in
          (
            k',
            s',
            rw again e,
            record {
              aligned = p.aligned;
              same_done = p.same_done;
              same_report = p.same_report;
              same_time = p.same_time;
            },
          )
      | inr over ↦ (
        k,
        s,
        rw over,
        record {
          aligned = record { multiple = m; above = ground arith; near = near };
          same_done = refl;
          same_report = refl;
          same_time = refl;
        },
      )
    ]

pub bump_report_bounds :
    (r : ℕ)
    → 100 ≤ r
    → r < 2 ^ 63
    → (min (r + r / 10) (r + 100000) ≤ bump_report r) × (bump_report r ≤ 2 * r)
unfolding bump_report
bump_report_bounds r lo hi = ground arith

-- What one call of `FinishedBatchOp` makes of the object.
pub record Finished (flags : Flags) (batch : ℕ) (s s' : Stats) (result : Bool) : Type 0 where
  pub counted : s'.done ≡ s.done + batch
  pub aligned : IsAligned s'
  pub threshold :
      ((s.done + batch < s.next_report) × (s'.next_report ≡ s.next_report))
      ⊎ ((s.next_report ≤ s.done + batch)
          × (min (s.next_report + s.next_report / 10) (s.next_report + 100000) ≤ s'.next_report)
          × (s'.next_report ≤ 2 * s.next_report))
  pub timing :
      ((result ≡ true) × (0 < flags.report_interval) × (s.next_report_time < s'.next_report_time))
      ⊎ ((result ≡ false) × (s'.next_report_time ≡ s.next_report_time))

report-Finished :
    (flags : Flags) (clock : ℕ → ℕ) (k batch : ℕ) (s t : Stats)
    → IsReportable flags
    → 100 ≤ s.next_report
    → s.next_report < 2 ^ 63
    → t.done ≡ s.done + batch
    → t.next_report ≡ s.next_report
    → t.next_report_time ≡ s.next_report_time
    → IsAligned t
    → (b : Bool) × (k' : ℕ) × (t' : Stats) × (report flags clock k t ≡ some (b, k', t'))
      × Finished flags batch s t' b
unfolding report
report-Finished flags clock k batch s t (small, positive) lo hi e f g a =
    let no_fault : (leb t.next_report t.done
          && (flags.report_interval == 0 && flags.stats_interval == 0))
        ≡ false =
      ground (arith, positive) in
    rw no_fault (
      _,
      _,
      _,
      refl,
      record {
        counted = ground arith;
        aligned = ground arith;
        threshold = elim (dec_lt (s.done + batch) s.next_report) [
          | yes h ↦ inl (h, ground arith)
          | no h ↦ inr (
            omega arith,
            ground (arith, bump_report_bounds t.next_report (omega arith) (omega arith)),
            ground (arith, bump_report_bounds t.next_report (omega arith) (omega arith)),
          )
        ];
        timing = ground arith;
      },
    )

-- On counters whose boundary is aligned, with the count, the batch and 20000 together below
-- 2^64, a report interval below 2^40, a report interval or a stats interval that is not 0 and
-- the next report from 100 up and below 2^63, a call of FinishedBatchOp returns (the loop ends
-- within the fuel): the batch is counted, the boundary is again the least multiple of 10,000
-- above the count, the next report moves only if it is reached, and then by a tenth of itself
-- (at most 100,000) or more and to no more than its double, and the result is true with a later
-- report time (only under a positive interval) or false with the same.
pub finished_batch_op-Finished :
    (flags : Flags) (clock : ℕ → ℕ) (k batch : ℕ) (s : Stats)
    → IsAligned s
    → s.done + batch + 20000 < 2 ^ 64
    → IsReportable flags
    → 100 ≤ s.next_report
    → s.next_report < 2 ^ 63
    → (b : Bool) × (k' : ℕ) × (s' : Stats) × (finished_batch_op flags clock k s batch
        ≡ some (b, k', s'))
      × Finished flags batch s s' b
unfolding finished_batch_op
finished_batch_op-Finished flags clock k batch s a room small lo hi =
    let e : u64 (s.done + batch) ≡ s.done + batch = omega arith in
    let counted : Stats = record s { done = u64 (s.done + batch) } in
    let (k', t, passed, p) =
      pass_boundaries-Passed clock (counted.done / 10000 + 1) k counted a.multiple (omega arith)
        (omega arith) (omega arith) in
    let (b, k'', t', reported, f) =
      report-Finished flags clock k' batch s t small lo hi (p.same_done ∙ e) p.same_report
        p.same_time p.aligned in
    (b, k'', t', rw (passed, finished_batch_op) reported, f)
