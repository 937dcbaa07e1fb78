-- ===== src/KeyOrder/Bounds.antt =====
-- src/benchmark/rocksdb_bench.cpp: the ranges of the keys that the generators make.
use mathlib.Core.List.Perm
use native.Mathlib.Nat.{div-add-mod}
use fdp_rocks.Base.{
  ℕ, zero, suc, ◌+◌, ◌-◌, ◌*◌, ◌/◌, ◌^◌, ◌≡◌, ◌<◌, ◌≤◌, Bool, true, false, Option, List, [], ◌∷◌,
  ◌++◌, arith, ◌==◌, if◌then◌else◌, All-append, u64, ℕ_discrete,
}
use fdp_rocks.Base.Family.{update}
use fdp_rocks.Base.Permutation.{Below, Below-Perm}
use fdp_rocks.Base.Text.{codes, text_eq}
use fdp_rocks.KeyOrder.{KeyFlags, Rng, is_empty, range_from}
use fdp_rocks.KeyOrder.Counts.{uniform_keys-Perm, Below-zipf_loop}
use fdp_rocks.KeyOrder.Prepare.{
  zipf_space, zipfian_keys, hotspot_key, hotspot_loop, join_buckets, hotspot_keys, expected_count,
  uniform_keys, generated_keys,
}

-- A run of numbers lies below its end.
pub Below-range_from : (start n bound : ℕ) → start + n ≤ bound → Below bound (range_from start n)
unfolding range_from
Below-range_from start zero bound h = tt
Below-range_from start (suc n) bound h =
    (omega arith, Below-range_from (start + 1) n bound (omega arith))

Below-le : (m n : ℕ) (ks : List ℕ) → m ≤ n → Below m ks → Below n ks
Below-le m n [] h b = tt
Below-le m n (k ∷ ks) h b = (omega (arith, b.0), Below-le m n ks h b.1)

module _ (r : Rng) (f : KeyFlags) where
  open r use {Gen}

  hotspot_key-lt : (i : ℕ) (g : Gen) → (hotspot_key r f i g).1 < 60000000
  unfolding hotspot_key
  hotspot_key-lt i g =
      ground (arith, r.hotspot_draw-lt g, r.uniform_draw-le 0 59999999 g (omega arith))

  BelowAll : (ℕ → List ℕ) → Type 0
  BelowAll b = (i : ℕ) → Below 60000000 (b i)

  BelowAll-hotspot_loop :
      (n i : ℕ) (g : Gen) (b : ℕ → List ℕ) → BelowAll b → BelowAll (hotspot_loop r f n i g b)
  unfolding hotspot_loop BelowAll
  BelowAll-hotspot_loop zero i g b h = h
  BelowAll-hotspot_loop (suc n) i g b h =
      let (id, key, g') = hotspot_key r f i g in
      BelowAll-hotspot_loop n (i + 1) g' (update b id (b id ++ key ∷ [])) (λ j.
        pushed (j == id) j _
          (All-append (λ (k : ℕ). k < 60000000) (b id) (key ∷ []) (h id) (hotspot_key-lt i g, tt)))
    where
      pushed :
          (same : Bool) (j : ℕ) (ks : List ℕ)
          → Below 60000000 ks
          → Below 60000000 (if same then ks else b j)
      pushed true j ks k = k
      pushed false j ks k = h j

  Below-join_buckets :
      (n id : ℕ) (b : ℕ → List ℕ) (g : Gen)
      → BelowAll b
      → Below 60000000 (join_buckets r f n id b g)
  unfolding join_buckets BelowAll
  Below-join_buckets zero id b g h = tt
  Below-join_buckets (suc n) id b g h =
      All-append (λ (k : ℕ). k < 60000000) (shuffled (b id)).0 _ (kept (b id) (h id))
        (Below-join_buckets n (id + 1) b (shuffled (b id)).1 h)
    where
      shuffled : List ℕ → List ℕ × Gen
      shuffled ks = if is_empty ks then ([], g) else r.shuffle g ks

      kept : (ks : List ℕ) → Below 60000000 ks → Below 60000000 (shuffled ks).0
      kept [] k = tt
      kept (k ∷ ks) below = Below-Perm 60000000 (Perm.symm (r.shuffle-Perm g (k ∷ ks))) below

  pub Below-hotspot_keys : (tid n : ℕ) → Below 60000000 (hotspot_keys r f tid n)
  unfolding hotspot_keys BelowAll
  Below-hotspot_keys tid n =
      Below-join_buckets 61 0 _ _ (BelowAll-hotspot_loop n _ _ (λ _. []) (λ i. tt))

  pub range_end :
      (tid : ℕ)
      → tid < f.worker_threads
      → tid * (f.num / f.worker_threads) + 1 + expected_count r f tid ≤ f.num + 1
  unfolding expected_count
  range_end tid h = elim (ℕ_discrete tid (f.worker_threads - 1)) [
    | yes e ↦
        let last : (tid == f.worker_threads - 1) ≡ true = ground arith in
        let size : f.worker_threads ≡ tid + 1 = omega arith in
        rw last (grind (arith, size, div-add-mod f.num f.worker_threads))
    | no ne ↦
        let other : (tid == f.worker_threads - 1) ≡ false = ground arith in
        let size : f.worker_threads ≡ tid + 2 + (f.worker_threads - tid - 2) = omega arith in
        rw other (grind (arith, size, div-add-mod f.num f.worker_threads))
  ]

  Below-uniform_keys :
      (stoull : List ℕ → Option ℕ) (tid : ℕ)
      → tid < f.worker_threads
      → f.num + 1 < 2 ^ 64
      → Below (f.num + 1) (uniform_keys r f stoull tid)
  Below-uniform_keys stoull tid h k =
      let start = tid * (f.num / f.worker_threads) + 1 in
      let small : u64 start ≡ start = omega (arith, range_end tid h) in
      Below-Perm (f.num + 1) (Perm.symm (uniform_keys-Perm r f stoull tid)) (
        Below-range_from (u64 start) (expected_count r f tid) (f.num + 1)
          (omega (arith, range_end tid h, small)))

  -- What the keys of the distribution lie below.
  abbrev pub key_bound : ℕ
  key_bound =
      if text_eq f.key_distribution (codes "uniform")
      then f.num + 1
      else if text_eq f.key_distribution (codes "zipfian")
      then zipf_space r f + 1
      else 60000000

  -- For a worker whose number is below worker_threads and num below 2^64 - 1, the generated keys
  -- lie below a bound: num + 1 for the uniform distribution, zipf_space + 1 for the Zipfian one,
  -- and 60,000,000 for the hotspots.
  pub Below-generated_keys :
      (stoull : List ℕ → Option ℕ) (tid : ℕ)
      → tid < f.worker_threads
      → f.num + 1 < 2 ^ 64
      → Below key_bound (generated_keys r f stoull tid)
  unfolding generated_keys zipfian_keys
  Below-generated_keys stoull tid h k =
      by_name (text_eq f.key_distribution (codes "uniform"))
        (text_eq f.key_distribution (codes "zipfian"))
    where
      by_name :
          (u z : Bool)
          → Below (if u then f.num + 1 else if z then zipf_space r f + 1 else 60000000) (
              if u
              then uniform_keys r f stoull tid
              else if z
              then zipfian_keys r f tid (expected_count r f tid)
              else hotspot_keys r f tid (expected_count r f tid))
      by_name true z = Below-uniform_keys stoull tid h k
      by_name false true = Below-zipf_loop r f (expected_count r f tid) _
      by_name false false = Below-hotspot_keys tid (expected_count r f tid)

  key_bound-small : f.num + 1 < 2 ^ 64 → key_bound < 2 ^ 64
  unfolding zipf_space
  key_bound-small h = ground arith

  -- So they are 64-bit numbers, as the file takes them.
  pub Below64-generated_keys :
      (stoull : List ℕ → Option ℕ) (tid : ℕ)
      → tid < f.worker_threads
      → f.num + 1 < 2 ^ 64
      → Below (2 ^ 64) (generated_keys r f stoull tid)
  Below64-generated_keys stoull tid h k =
      Below-le key_bound (2 ^ 64) _ (omega (arith, key_bound-small k))
        (Below-generated_keys stoull tid h k)
