-- ===== src/KeyOrder/Printed.antt =====
-- `PrintKeySpaceInfo`: the range of the keys that the benchmark prints, and the keys that it makes.
use mathlib.Core.List.Perm
use native.Mathlib.Bridge.{le_prop}
use fdp_rocks.Base.{
  ℕ, zero, suc, ◌+◌, ◌*◌, ◌/◌, ◌^◌, ◌≡◌, ◌<◌, ◌≤◌, refl, Bool, true, false, ◌||◌, Option, List, [],
  ◌∷◌, arith, ◌==◌, if◌then◌else◌, All, u64, length,
}
use fdp_rocks.Base.Permutation.{Below, All-Perm}
use fdp_rocks.Base.Text.{codes, text_eq}
use fdp_rocks.KeyOrder.{KeyFlags, Disk, Rng, absent, is_empty, range_from}
use fdp_rocks.KeyOrder.Allotment.{length-load_all}
use fdp_rocks.KeyOrder.Bounds.{Below-hotspot_keys, range_end}
use fdp_rocks.KeyOrder.Counts.{uniform_keys-Perm, Below-zipf_loop}
use fdp_rocks.KeyOrder.Partition.{arrays_of, load_worker-absent}
use fdp_rocks.KeyOrder.Prepare.{
  arrays, zero_division, bad_distribution, zipf_space, zipfian_keys, hotspot_keys, expected_count,
  uniform_keys, generated_keys, load_all, generate_all, is_distribution, prepare_shuffled_keys,
}

-- The bounds that are printed.
unfoldable pub key_space : KeyFlags → ℕ × ℕ
key_space f =
    if text_eq f.key_distribution (codes "uniform")
    then (1, f.num)
    else if text_eq f.key_distribution (codes "zipfian")
    then (0, f.num / 4)
    else if text_eq f.key_distribution (codes "hotspot_zipfian")
    then (0, 60000000)
    else (1, f.num)

-- Every key lies within the bounds.
abbrev pub Within : ℕ × ℕ → List ℕ → Type 0
Within (low, high) = All (λ (k : ℕ). (low ≤ k) × (k ≤ high))

Within-range_from :
    (low high start n : ℕ)
    → low ≤ start
    → start + n ≤ high + 1
    → Within (low, high) (range_from start n)
unfolding range_from
Within-range_from low high start zero h k = tt
Within-range_from low high start (suc n) h k = (
  (omega arith, omega arith),
  Within-range_from low high (start + 1) n (omega arith) (omega arith),
)

Within-Below : (n high : ℕ) (ks : List ℕ) → n ≤ high + 1 → Below n ks → Within (0, high) ks
Within-Below n high [] h b = tt
Within-Below n high (k ∷ ks) h b = ((omega arith, omega (arith, b.0)), Within-Below n high ks h b.1)

module _ (r : Rng) (f : KeyFlags) (stoull : List ℕ → Option ℕ) (room : f.num + 1 < 2 ^ 64) where
  Within-uniform_keys :
      (tid : ℕ) → tid < f.worker_threads → Within (1, f.num) (uniform_keys r f stoull tid)
  Within-uniform_keys tid h =
      let start = tid * (f.num / f.worker_threads) + 1 in
      let small : u64 start ≡ start = omega (arith, range_end r f tid h) in
      All-Perm (λ k. (1 ≤ k) × (k ≤ f.num)) (λ k. hlevel (le_prop, le_prop))
        (Perm.symm (uniform_keys-Perm r f stoull tid))
        (Within-range_from 1 f.num (u64 start) (expected_count r f tid) (omega (arith, small))
          (omega (arith, range_end r f tid h, small)))

  module _ (known : is_distribution r f ≡ true) (four : 4 ≤ f.num) where
    space : zipf_space r f ≡ f.num / 4
    unfolding zipf_space
    space = let positive : ((f.num / 4) == 0) ≡ false = ground arith in rw positive refl

    Within-generated_keys :
        (tid : ℕ) → tid < f.worker_threads → Within (key_space f) (generated_keys r f stoull tid)
    unfolding generated_keys zipfian_keys key_space is_distribution
    Within-generated_keys tid h =
        by_name (text_eq f.key_distribution (codes "uniform"))
          (text_eq f.key_distribution (codes "zipfian"))
          (text_eq f.key_distribution (codes "hotspot_zipfian")) known
      where
        by_name :
            (u z s : Bool)
            → (u || (z || s)) ≡ true
            → Within
                (if u
                  then (1, f.num)
                  else if z
                  then (0, f.num / 4)
                  else if s
                  then (0, 60000000)
                  else (1, f.num))
                (if u
                  then uniform_keys r f stoull tid
                  else if z
                  then zipfian_keys r f tid (expected_count r f tid)
                  else hotspot_keys r f tid (expected_count r f tid))
        by_name true z s k = Within-uniform_keys tid h
        by_name false true s k =
            Within-Below (zipf_space r f + 1) (f.num / 4) _ (omega (arith, space))
              (Below-zipf_loop r f (expected_count r f tid) _)
        by_name false false true k =
            Within-Below 60000000 60000000 _ (omega arith)
              (Below-hotspot_keys r f tid (expected_count r f tid))
        by_name false false false k = absurd (ground (arith, k))

    -- Without files, the first loop leaves nothing and the second the generated keys.
    Within-load_all :
        (disk : Disk) (n tid : ℕ)
        → ((path : List ℕ) → disk.files path ≡ absent)
        → All (Within (key_space f)) (load_all r f disk n tid).1
    unfolding load_all
    Within-load_all disk zero tid absent_all = tt
    Within-load_all disk (suc n) tid absent_all =
        rw (load_worker-absent r f stoull disk tid absent_all)
          (tt, Within-load_all disk n (tid + 1) absent_all)

    Within-generate_all :
        (kss : List (List ℕ)) (disk : Disk) (tid : ℕ)
        → tid + length kss ≤ f.worker_threads
        → All (Within (key_space f)) kss
        → All (Within (key_space f)) (generate_all r f stoull disk tid kss).0
    unfolding generate_all
    Within-generate_all [] disk tid h all = tt
    Within-generate_all (ks ∷ kss) disk tid h all =
        (made ks all.0, Within-generate_all kss _ (tid + 1) (omega arith) all.1)
      where
        made :
            (ks : List ℕ)
            → Within (key_space f) ks
            → Within (key_space f) (if is_empty ks then generated_keys r f stoull tid else ks)
        made [] w = Within-generated_keys tid (omega arith)
        made (k ∷ ks) w = w

    -- For one of the three distributions, num from 4 up and below 2^64 - 1 and no key file at
    -- any path, every key in the arrays that PrepareShuffledKeys leaves lies in the key space
    -- range that PrintKeySpaceInfo prints.
    pub prepare_shuffled_keys-Within :
        (disk : Disk)
        → ((path : List ℕ) → disk.files path ≡ absent)
        → All (Within (key_space f)) (arrays_of r f stoull (prepare_shuffled_keys r f stoull disk))
    unfolding prepare_shuffled_keys
    prepare_shuffled_keys-Within disk absent_all =
        by_tests (is_distribution r f) (f.worker_threads == 0) loaded.0
      where
        loaded : Bool × List (List ℕ)
        loaded = load_all r f disk f.worker_threads 0

        nothing : All (Within (key_space f)) loaded.1
        nothing = Within-load_all disk f.worker_threads 0 absent_all

        made : List (List ℕ) × Disk
        made = generate_all r f stoull disk 0 loaded.1

        by_tests :
            (d z l : Bool)
            → All (Within (key_space f)) (
                arrays_of r f stoull (
                  if d
                  then if z
                    then zero_division
                    else if l
                    then arrays loaded.1 disk
                    else arrays made.0 made.1
                  else bad_distribution))
        by_tests false z l = tt
        by_tests true true l = tt
        by_tests true false true = nothing
        by_tests true false false =
            Within-generate_all loaded.1 disk 0
              (omega (arith, length-load_all r f disk f.worker_threads 0)) nothing
