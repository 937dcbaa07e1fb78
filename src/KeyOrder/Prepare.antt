-- ===== src/KeyOrder/Prepare.antt =====
-- The generators of key orders and `PrepareShuffledKeys`, for `num_` below 2^64 - 1: at that number
-- the loop over the range of the last worker has no end.
use mathlib.Core.List.{reverse}
use fdp_rocks.Base.{
  ℕ, zero, suc, ◌+◌, ◌-◌, ◌*◌, ◌/◌, ◌%◌, Bool, true, false, ◌&&◌, ◌||◌, Option, none, some, List,
  [], ◌∷◌, ◌++◌, leb, ◌==◌, if◌then◌else◌, length, u64, drop, take,
}
use fdp_rocks.Base.Family.{update}
use fdp_rocks.Base.Text.{codes, text_eq}
use fdp_rocks.KeyOrder.{
  KeyFlags, Disk, Rng, load_keys, save_keys, is_empty, range_from, fixed_seed, num_hotspots,
  hotspot_size, keys_per_hotspot,
}

module _ (r : Rng) (f : KeyFlags) where
  open r use {Gen, mt19937, shuffle, zipf_draw, hotspot_draw, uniform_draw}

  -- `key_space_size` of the Zipfian keys.
  unfoldable pub zipf_space : ℕ
  zipf_space = if (f.num / 4) == 0 then 1 else f.num / 4

  unfoldable pub zipf_loop : ℕ → Gen → List ℕ
  unfolding zipf_space
  zipf_loop zero g = []
  zipf_loop (suc n) g = let (key, g') = zipf_draw (zipf_space + 1) g in key ∷ zipf_loop n g'

  -- `GenerateZipfianKeys`
  unfoldable pub zipfian_keys : ℕ → ℕ → List ℕ
  zipfian_keys tid key_count = zipf_loop key_count (mt19937 (u64 (fixed_seed + tid)))

  -- One round of the loop over the key indices: the bucket and the key.
  unfoldable pub hotspot_key : ℕ → Gen → ℕ × ℕ × Gen
  hotspot_key key_idx g =
      let id = key_idx / keys_per_hotspot in
      if leb num_hotspots id
      then (let (key, g') = uniform_draw 0 (60000000 - 1) g in (num_hotspots, key, g'))
      else (let (offset, g') = hotspot_draw g in (id, id * hotspot_size + offset, g'))

  -- The loop, over `n` indices from `key_idx` on: keys are pushed at the end of their bucket.
  unfoldable pub hotspot_loop : ℕ → ℕ → Gen → (ℕ → List ℕ) → ℕ → List ℕ
  hotspot_loop zero key_idx g buckets = buckets
  hotspot_loop (suc n) key_idx g buckets =
      let (id, key, g') = hotspot_key key_idx g in
      hotspot_loop n (key_idx + 1) g' (update buckets id (buckets id ++ key ∷ []))

  -- The shuffled buckets from `id` on, one behind the other, `n` of them.
  unfoldable pub join_buckets : ℕ → ℕ → (ℕ → List ℕ) → Gen → List ℕ
  join_buckets zero id buckets g = []
  join_buckets (suc n) id buckets g =
      let (keys, g') = if is_empty (buckets id) then ([], g) else shuffle g (buckets id) in
      keys ++ join_buckets n (id + 1) buckets g'

  -- `GenerateHotspotZipfianKeys`
  unfoldable pub hotspot_keys : ℕ → ℕ → List ℕ
  hotspot_keys tid key_count =
      let start = u64 (tid * (f.num / f.worker_threads)) in
      let buckets = hotspot_loop key_count start (mt19937 (u64 (fixed_seed + tid))) (λ _. []) in
      join_buckets (num_hotspots + 1) 0 buckets (mt19937 (u64 (fixed_seed + tid + 0x1000)))

  -- The keys that a worker is to have.
  unfoldable pub expected_count : ℕ → ℕ
  expected_count tid =
      f.num / f.worker_threads
      + (if tid == f.worker_threads - 1 then f.num % f.worker_threads else 0)

  -- The seed of the shuffle; `stoull` stands for `std::stoull`, with `none` for its exceptions.
  unfoldable pub shuffle_seed : (List ℕ → Option ℕ) → ℕ → ℕ
  shuffle_seed stoull tid =
      if text_eq (take 11 f.key_sort) (codes "random_seed")
      then if is_empty (drop 11 f.key_sort)
        then u64 (fixed_seed + tid)
        else elim (stoull (drop 11 f.key_sort)) [
          | none ↦ u64 (fixed_seed + tid)
          | some offset ↦ u64 (fixed_seed + tid + offset * 0x1000000)
        ]
      else u64 (fixed_seed + tid)

  -- The branch of the uniform distribution.
  unfoldable pub uniform_keys : (List ℕ → Option ℕ) → ℕ → List ℕ
  uniform_keys stoull tid =
      let keys = range_from (u64 (tid * (f.num / f.worker_threads) + 1)) (expected_count tid) in
      if text_eq f.key_sort (codes "ascending")
      then keys
      else if text_eq f.key_sort (codes "descending")
      then reverse keys
      else (shuffle (mt19937 (shuffle_seed stoull tid)) keys).0

  unfoldable pub generated_keys : (List ℕ → Option ℕ) → ℕ → List ℕ
  generated_keys stoull tid =
      if text_eq f.key_distribution (codes "uniform")
      then uniform_keys stoull tid
      else if text_eq f.key_distribution (codes "zipfian")
      then zipfian_keys tid (expected_count tid)
      else hotspot_keys tid (expected_count tid)

  -- The first loop at a worker: whether its keys count as loaded, and its array.
  unfoldable pub load_worker : Disk → ℕ → Bool × List ℕ
  load_worker disk tid =
      let (fine, keys) = load_keys f disk tid [] in
      if fine
      then if length keys == expected_count tid then (true, keys) else (false, [])
      else (false, keys)

  -- The first loop, over `n` workers from `tid` on.
  unfoldable pub load_all : Disk → ℕ → ℕ → Bool × List (List ℕ)
  load_all disk zero tid = (true, [])
  load_all disk (suc n) tid =
      let (fine, keys) = load_worker disk tid in
      let (all_fine, arrays) = load_all disk n (tid + 1) in (fine && all_fine, keys ∷ arrays)

  -- The second loop, over the arrays of the workers from `tid` on.
  unfoldable pub generate_all :
      (List ℕ → Option ℕ) → Disk → ℕ → List (List ℕ) → List (List ℕ) × Disk
  generate_all stoull disk tid [] = ([], disk)
  generate_all stoull disk tid (keys ∷ arrays) =
      let made = if is_empty keys then generated_keys stoull tid else keys in
      let disk' = if is_empty keys then (save_keys f disk tid made).1 else disk in
      let (rest, disk'') = generate_all stoull disk' (tid + 1) arrays in (made ∷ rest, disk'')

  -- How the function comes out: `exit (1)` on the name of the distribution, a division by zero
  -- without workers, or the arrays and the file system.
  pub data Prepared : Type 0 where
    bad_distribution : Prepared
    zero_division : Prepared
    arrays : List (List ℕ) → Disk → Prepared

  unfoldable pub is_distribution : Bool
  is_distribution =
      text_eq f.key_distribution (codes "uniform")
      || (text_eq f.key_distribution (codes "zipfian")
          || text_eq f.key_distribution (codes "hotspot_zipfian"))

  -- `PrepareShuffledKeys`
  unfoldable pub prepare_shuffled_keys : (List ℕ → Option ℕ) → Disk → Prepared
  prepare_shuffled_keys stoull disk =
      if is_distribution
      then if f.worker_threads == 0
        then zero_division
        else (let (all_loaded, loaded) = load_all disk f.worker_threads 0 in
            let (made, disk') = generate_all stoull disk 0 loaded in
            if all_loaded then arrays loaded disk else arrays made disk')
      else bad_distribution
