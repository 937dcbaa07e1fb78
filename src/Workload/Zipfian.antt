-- ===== src/Workload/Zipfian.antt =====
-- src/benchmark/util.h: `CreateReadWorkloadWithZipfianDistribution` as a whole, from the draws on.
use fdp_rocks.Base.{
  ℕ, zero, suc, ◌+◌, ◌^◌, u32, ◌≤◌, ◌<◌, ◌≡◌, refl, ap, ◌⊎◌, inl, inr, Option, none, some, List, [],
  ◌∷◌, arith, length, drop, get_elem?, map, All, dec_lt,
}
use fdp_rocks.Base.Permutation.{Below, length-Perm}
use fdp_rocks.KeyOrder.{range_from}
use fdp_rocks.Workload.{zipfian_workload}
use fdp_rocks.Workload.Creating.{Draws}
use fdp_rocks.Workload.Phases.{get_elem-none}

-- The workload of `n` keys: the draws from 1 to `count_`, made an `int`, the shuffle, and the keys at
-- the draws. From 2^31 keys on, the `int` is not that of the model.
unfoldable pub create_zipfian : Draws → ℕ → List ℕ → Option (List ℕ)
unfolding zipfian_workload
create_zipfian d n keys =
    zipfian_workload (d.shuffle keys) (map (d.draw (u32 (length keys))) (range_from 0 n))

-- A key stands behind the first one of a list.
abbrev pub BehindFirst : List ℕ → ℕ → Type 0
BehindFirst keys key = (i : ℕ) × (get_elem? (drop 1 keys) i ≡ some key)

get_elem-some :
    (keys : List ℕ) (i : ℕ)
    → 0 < i
    → i < length keys
    → (key : ℕ) × (get_elem? keys i ≡ some key) × BehindFirst keys key
get_elem-some [] i h k = absurd (omega arith)
get_elem-some (x ∷ xs) zero h k = absurd (omega arith)
get_elem-some (x ∷ xs) (suc i) h k = let (key, e) = found xs i (omega arith) in (key, e, (i, e))
  where
    found : (ys : List ℕ) (j : ℕ) → j < length ys → (key : ℕ) × (get_elem? ys j ≡ some key)
    found [] j l = absurd (omega arith)
    found (y ∷ ys) zero l = (y, refl)
    found (y ∷ ys) (suc j) l = found ys j (omega arith)

module _ (count : ℕ) (draw : ℕ → ℕ) where
  -- The workload of the draws from `a` on, `n` of them, or the first read past the end.
  abbrev Picks : List ℕ → ℕ → ℕ → Type 0
  Picks keys a n =
      ((read_keys : List ℕ) × (zipfian_workload keys (map draw (range_from a n)) ≡ some read_keys)
        × (length read_keys ≡ n)
        × All (BehindFirst keys) read_keys
        × Below count (map draw (range_from a n)))
      ⊎ ((zipfian_workload keys (map draw (range_from a n)) ≡ none)
          × (j : ℕ) × (a ≤ j)
          × (j < a + n)
          × (draw j ≡ count))

  zipfian_workload-Picks :
      (keys : List ℕ)
      → length keys ≡ count
      → ((j : ℕ) → 0 < draw j)
      → ((j : ℕ) → draw j ≤ count)
      → (a n : ℕ) → Picks keys a n
  unfolding zipfian_workload range_from
  zipfian_workload-Picks keys e p h a zero = inl ([], refl, refl, tt, tt)
  zipfian_workload-Picks keys e p h a (suc n) = elim (dec_lt (draw a) count) [
    | no last ↦
        let outside = get_elem-none keys (draw a) (omega (arith, last)) in
        inr (rw outside refl, a, omega arith, omega arith, omega (arith, last, h a))
    | yes inside ↦
        let (key, found, behind) = get_elem-some keys (draw a) (p a) (omega (arith, inside)) in
        elim (zipfian_workload-Picks keys e p h (a + 1) n) [
          | inl (read_keys, rest, size, all, below) ↦
              inl (
                key ∷ read_keys,
                rw (found, rest) refl,
                ap suc size,
                (behind, all),
                (inside, below),
              )
          | inr (rest, j, low, high, last) ↦
              inr (rw (found, rest) refl, j, omega (arith, low), omega (arith, high), last)
        ]
  ]

-- For at least one key and fewer than 2^31, and draws from 1 to the number of keys, the Zipfian
-- read workload either reads nothing out of range, and then has the asked number of keys, none
-- of which is read at the first place of the shuffled keys, and no draw is the number of keys;
-- or it reads out of range, and one of the draws is the number of keys.
pub create_zipfian_lem :
    (d : Draws) (n : ℕ) (keys : List ℕ)
    → 0 < length keys
    → length keys < 2 ^ 31
    → ((read_keys : List ℕ) × (create_zipfian d n keys ≡ some read_keys)
        × (length read_keys ≡ n)
        × All (BehindFirst (d.shuffle keys)) read_keys
        × Below (length keys) (map (d.draw (length keys)) (range_from 0 n)))
      ⊎ ((create_zipfian d n keys ≡ none)
          × (j : ℕ) × (j < n)
          × (d.draw (length keys) j ≡ length keys))
unfolding create_zipfian
create_zipfian_lem d n keys h small =
    let whole : u32 (length keys) ≡ length keys = omega arith in
    rw whole
      (elim (zipfian_workload-Picks (length keys) (d.draw (length keys)) (d.shuffle keys)
        (length-Perm (d.shuffle-Perm keys)) (λ j. d.draw-positive (length keys) j h)
        (λ j. d.draw-le (length keys) j h) 0 n) [
          | inl result ↦ inl result
          | inr (past, j, low, high, last) ↦ inr (past, j, omega (arith, high), last)
        ])
