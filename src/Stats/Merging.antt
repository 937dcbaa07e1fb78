-- ===== src/Stats/Merging.antt =====
-- `Merge`, as `RunBenchmark` uses it: the totals of a run do not depend on the order of the threads.
use mathlib.Core.List.{Perm, Permᴰ}
use mathlib.Core.Logic.{∥∥₁_elim}
use fdp_rocks.Base.{
  ℕ, ◌+◌, ◌%◌, ◌^◌, ◌≤◌, ◌<◌, ◌≡◌, refl, ◌∙◌, ap, ap₂, List, [], ◌∷◌, arith, ltb, if◌then◌else◌,
  u64,
}
use fdp_rocks.Stats.{Stats, no_seconds, merge, merge_all}

-- The sum of the counts.
unfoldable pub ops : List Stats → ℕ
ops [] = 0
ops (t ∷ ts) = t.done + ops ts

earlier_swap :
    (a b c : ℕ)
    → (if ltb c (if ltb b a then b else a) then c else if ltb b a then b else a)
      ≡ (if ltb b (if ltb c a then c else a) then b else if ltb c a then c else a)
earlier_swap a b c = ground arith

later_swap :
    (a b c : ℕ)
    → (if ltb (if ltb a b then b else a) c then c else if ltb a b then b else a)
      ≡ (if ltb (if ltb a c then c else a) b then b else if ltb a c then c else a)
later_swap a b c = ground arith

count_swap : (a b c : ℕ) → u64 (u64 (a + b) + c) ≡ u64 (u64 (a + c) + b)
count_swap a b c = omega arith

-- An object but for `seconds_`.
abbrev pub without_seconds : Stats → Stats
without_seconds s = record s { seconds = no_seconds }

-- Merging two others in either order gives the same object, but for `seconds_`.
merge_swap :
    (s t u : Stats) → without_seconds (merge (merge s t) u) ≡ without_seconds (merge (merge s u) t)
unfolding merge
merge_swap s t u = λ i. record s {
  done = count_swap s.done t.done u.done i;
  seconds = no_seconds;
  start = earlier_swap s.start t.start u.start i;
  finish = later_swap s.finish t.finish u.finish i;
}

-- A merge does not look at `seconds_`.
merge-without_seconds :
    (s s' t : Stats)
    → without_seconds s ≡ without_seconds s'
    → without_seconds (merge s t) ≡ without_seconds (merge s' t)
unfolding merge
merge-without_seconds s s' t e = ap (λ r. without_seconds (merge r t)) e

merge_all-without_seconds :
    (s s' : Stats) (ts : List Stats)
    → without_seconds s ≡ without_seconds s'
    → without_seconds (merge_all s ts) ≡ without_seconds (merge_all s' ts)
unfolding merge_all
merge_all-without_seconds s s' [] e = e
merge_all-without_seconds s s' (t ∷ ts) e =
    merge_all-without_seconds (merge s t) (merge s' t) ts (merge-without_seconds s s' t e)

Stats-set : IsSet Stats
Stats-set = hlevel

merge_all-Permᴰ :
    (s : Stats) {ts us : List Stats}
    → Permᴰ ts us
    → without_seconds (merge_all s ts) ≡ without_seconds (merge_all s us)
unfolding merge_all
merge_all-Permᴰ s Permᴰ.nil = refl
merge_all-Permᴰ s (Permᴰ.cons {a = a} {l₂ = l₂} e p) =
    merge_all-Permᴰ (merge s a) p ∙ ap (λ t. without_seconds (merge_all (merge s t) l₂)) e
merge_all-Permᴰ s (Permᴰ.swap {a = a} {b = b} {l = l} e f) =
    merge_all-without_seconds (merge (merge s a) b) (merge (merge s b) a) l (merge_swap s a b)
    ∙ ap₂ (λ t u. without_seconds (merge_all (merge (merge s t) u) l)) f e
merge_all-Permᴰ s (Permᴰ.trans p q) = merge_all-Permᴰ s p ∙ merge_all-Permᴰ s q

merge_all-Perm :
    (s : Stats) {ts us : List Stats}
    → Perm ts us
    → without_seconds (merge_all s ts) ≡ without_seconds (merge_all s us)
merge_all-Perm s p = ∥∥₁_elim p (Stats-set _ _) (merge_all-Permᴰ s)

pub done-merge_all :
    (s : Stats) (ts : List Stats) → (merge_all s ts).done % 2 ^ 64 ≡ u64 (s.done + ops ts)
unfolding merge_all merge ops
done-merge_all s [] = omega arith
done-merge_all s (t ∷ ts) = omega (arith, done-merge_all (merge s t) ts)

-- A count below 2^64 stays below it.
pub done-merge_all-lt :
    (s : Stats) (ts : List Stats) → s.done < 2 ^ 64 → (merge_all s ts).done < 2 ^ 64
unfolding merge_all merge
done-merge_all-lt s [] h = h
done-merge_all-lt s (t ∷ ts) h = done-merge_all-lt (merge s t) ts (omega arith)

-- No merged thread started before the result's start or finished after its finish.
pub Spans : ℕ → ℕ → List Stats → Type 0
Spans start finish [] = Unit
Spans start finish (t ∷ ts) = (start ≤ t.start) × (t.finish ≤ finish) × Spans start finish ts

span-merge_all :
    (s : Stats) (ts : List Stats)
    → ((merge_all s ts).start ≤ s.start) × (s.finish ≤ (merge_all s ts).finish)
unfolding merge_all merge
span-merge_all s [] = (omega arith, omega arith)
span-merge_all s (t ∷ ts) =
    (ground (arith, span-merge_all (merge s t) ts), ground (arith, span-merge_all (merge s t) ts))

Spans-merge_all :
    (s : Stats) (ts : List Stats) → Spans (merge_all s ts).start (merge_all s ts).finish ts
unfolding merge_all merge Spans
Spans-merge_all s [] = tt
Spans-merge_all s (t ∷ ts) = (
  ground (arith, span-merge_all (merge s t) ts),
  ground (arith, span-merge_all (merge s t) ts),
  Spans-merge_all (merge s t) ts,
)

-- The merges of RunBenchmark give the same object for the other threads in any other order, but
-- for seconds_, a sum that is rounded in floating point; its count is the sum of all counts
-- (modulo 2^64), and its interval contains that of every thread.
pub merge_all_lem :
    (s : Stats) (ts us : List Stats)
    → Perm ts us
    → (without_seconds (merge_all s ts) ≡ without_seconds (merge_all s us))
      × ((merge_all s ts).done % 2 ^ 64 ≡ u64 (s.done + ops ts))
      × Spans (merge_all s ts).start (merge_all s ts).finish (s ∷ ts)
unfolding Spans
merge_all_lem s ts us p = (
  merge_all-Perm s p,
  done-merge_all s ts,
  ((span-merge_all s ts).0, (span-merge_all s ts).1, Spans-merge_all s ts),
)
