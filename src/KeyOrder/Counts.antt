-- ===== src/KeyOrder/Counts.antt =====
-- The arrays of the workers: how many keys they have, and in which range.
use mathlib.Core.List.{reverse, Perm}
use mathlib.Core.List.Perm
use fdp_rocks.Base.Text.{codes, text_eq}
use fdp_rocks.Base.{
  ℕ, zero, suc, ◌+◌, ◌*◌, ◌/◌, ◌≡◌, ◌<◌, ◌≤◌, refl, ap, ◌∙◌, Bool, true, false, Option, List, [],
  ◌∷◌, ◌++◌, ap₂, u64, arith, if◌then◌else◌, length, length-append, ℕ_discrete,
}
use fdp_rocks.Base.Family.{update}
use fdp_rocks.Base.Permutation.{length-Perm, reverse-Perm, Below}
use fdp_rocks.KeyOrder.{KeyFlags, Rng, is_empty, range_from, fixed_seed}
use fdp_rocks.KeyOrder.Prepare.{
  zipf_space, zipf_loop, zipfian_keys, hotspot_key, hotspot_loop, join_buckets, hotspot_keys,
  expected_count, shuffle_seed, uniform_keys, generated_keys,
}

pub length-range_from : (start n : ℕ) → length (range_from start n) ≡ n
unfolding range_from
length-range_from start zero = refl
length-range_from start (suc n) = ap suc (length-range_from (start + 1) n)

module _ (r : Rng) (f : KeyFlags) where
  open r use {Gen}

  length-zipf_loop : (n : ℕ) (g : Gen) → length (zipf_loop r f n g) ≡ n
  unfolding zipf_loop
  length-zipf_loop zero g = refl
  length-zipf_loop (suc n) g = ap suc (length-zipf_loop n _)

  pub Below-zipf_loop : (n : ℕ) (g : Gen) → Below (zipf_space r f + 1) (zipf_loop r f n g)
  unfolding zipf_loop
  Below-zipf_loop zero g = tt
  Below-zipf_loop (suc n) g = (r.zipf_draw-lt _ g (omega arith), Below-zipf_loop n _)

  -- All keys in `n` buckets from `id` on.
  bucket_sum : ℕ → ℕ → (ℕ → List ℕ) → ℕ
  bucket_sum zero id b = 0
  bucket_sum (suc n) id b = length (b id) + bucket_sum n (id + 1) b

  bucket_sum-below :
      (n id : ℕ) (b : ℕ → List ℕ) (i : ℕ) (ks : List ℕ)
      → i < id
      → bucket_sum n id (update b i ks) ≡ bucket_sum n id b
  unfolding bucket_sum
  bucket_sum-below zero id b i ks h = refl
  bucket_sum-below (suc n) id b i ks h =
      ground (arith, bucket_sum-below n (id + 1) b i ks (omega arith))

  -- A key more in a bucket is a key more in the sum.
  bucket_sum-push :
      (n id : ℕ) (b : ℕ → List ℕ) (i k : ℕ)
      → id ≤ i
      → i < id + n
      → bucket_sum n id (update b i (b i ++ k ∷ [])) ≡ bucket_sum n id b + 1
  unfolding bucket_sum
  bucket_sum-push zero id b i k h l = absurd (omega arith)
  bucket_sum-push (suc n) id b i k h l = elim (ℕ_discrete i id) [
    | yes e ↦ ground (
      arith,
      length-append (b i) (k ∷ []),
      bucket_sum-below n (id + 1) b i (b i ++ k ∷ []) (omega arith),
    )
    | no ne ↦ ground (arith, bucket_sum-push n (id + 1) b i k (omega arith) (omega arith))
  ]

  bucket_sum-empty : (n id : ℕ) → bucket_sum n id (λ _. []) ≡ 0
  unfolding bucket_sum
  bucket_sum-empty zero id = refl
  bucket_sum-empty (suc n) id = omega (arith, bucket_sum-empty n (id + 1))

  length-join_buckets :
      (n id : ℕ) (b : ℕ → List ℕ) (g : Gen) → length (join_buckets r f n id b g) ≡ bucket_sum n id b
  unfolding join_buckets bucket_sum
  length-join_buckets zero id b g = refl
  length-join_buckets (suc n) id b g =
      length-append (shuffled (b id)).0 _
      ∙ ap₂ (λ x y. x + y) (same (b id)) (length-join_buckets n (id + 1) b (shuffled (b id)).1)
    where
      shuffled : List ℕ → List ℕ × Gen
      shuffled ks = if is_empty ks then ([], g) else r.shuffle g ks

      same : (ks : List ℕ) → length (shuffled ks).0 ≡ length ks
      same [] = refl
      same (k ∷ ks) = length-Perm (r.shuffle-Perm g (k ∷ ks))

  hotspot_key-id : (i : ℕ) (g : Gen) → (hotspot_key r f i g).0 < 61
  unfolding hotspot_key
  hotspot_key-id i g = ground arith

  bucket_sum-hotspot_loop :
      (n i : ℕ) (g : Gen) (b : ℕ → List ℕ)
      → bucket_sum 61 0 (hotspot_loop r f n i g b) ≡ bucket_sum 61 0 b + n
  unfolding hotspot_loop
  bucket_sum-hotspot_loop zero i g b = omega arith
  bucket_sum-hotspot_loop (suc n) i g b =
      let (id, key, g') = hotspot_key r f i g in
      omega (
        arith,
        bucket_sum-hotspot_loop n (i + 1) g' (update b id (b id ++ key ∷ [])),
        bucket_sum-push 61 0 b id key (omega arith) (omega (arith, hotspot_key-id i g)),
      )

  -- GenerateHotspotZipfianKeys makes as many keys as it is asked for.
  pub length-hotspot_keys : (tid n : ℕ) → length (hotspot_keys r f tid n) ≡ n
  unfolding hotspot_keys
  length-hotspot_keys tid n =
      let start = u64 (tid * (f.num / f.worker_threads)) in
      let b = hotspot_loop r f n start (r.mt19937 (u64 (fixed_seed + tid))) (λ _. []) in
      let g = r.mt19937 (u64 (fixed_seed + tid + 0x1000)) in
      let all : bucket_sum 61 0 b ≡ n = omega (
        arith,
        bucket_sum-hotspot_loop n start (r.mt19937 (u64 (fixed_seed + tid))) (λ _. []),
        bucket_sum-empty 61 0,
      ) in
      length-join_buckets 61 0 b g ∙ all

  -- Whatever the order asked for, the uniform keys are the numbers of the worker's range.
  pub uniform_keys-Perm :
      (stoull : List ℕ → Option ℕ) (tid : ℕ)
      → Perm
          (uniform_keys r f stoull tid)
          (range_from (u64 (tid * (f.num / f.worker_threads) + 1)) (expected_count r f tid))
  unfolding uniform_keys
  uniform_keys-Perm stoull tid =
      by_sort (text_eq f.key_sort (codes "ascending")) (text_eq f.key_sort (codes "descending"))
    where
      keys : List ℕ
      keys = range_from (u64 (tid * (f.num / f.worker_threads) + 1)) (expected_count r f tid)

      by_sort :
          (a b : Bool)
          → Perm
              (if a
                then keys
                else if b
                then reverse keys
                else (r.shuffle (r.mt19937 (shuffle_seed r f stoull tid)) keys).0)
              keys
      by_sort true b = Perm.refl keys
      by_sort false true = reverse-Perm keys
      by_sort false false = r.shuffle-Perm _ keys

  pub length-generated_keys :
      (stoull : List ℕ → Option ℕ) (tid : ℕ)
      → length (generated_keys r f stoull tid) ≡ expected_count r f tid
  unfolding generated_keys zipfian_keys
  length-generated_keys stoull tid =
      by_name (text_eq f.key_distribution (codes "uniform"))
        (text_eq f.key_distribution (codes "zipfian"))
    where
      by_name :
          (u z : Bool)
          → length (
              if u
              then uniform_keys r f stoull tid
              else if z
              then zipfian_keys r f tid (expected_count r f tid)
              else hotspot_keys r f tid (expected_count r f tid))
            ≡ expected_count r f tid
      by_name true z =
          length-Perm (uniform_keys-Perm stoull tid) ∙ length-range_from _ (expected_count r f tid)
      by_name false true = length-zipf_loop (expected_count r f tid) _
      by_name false false = length-hotspot_keys tid (expected_count r f tid)
