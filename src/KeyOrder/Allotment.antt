-- ===== src/KeyOrder/Allotment.antt =====
-- What `PrepareShuffledKeys` leaves: for each worker an array with its number of keys.
use fdp_rocks.Base.{
  ℕ, zero, suc, ◌+◌, ◌^◌, ◌≡◌, ◌<◌, refl, ap, ◌∙◌, Bool, true, false, Option, List, [], ◌⊎◌, inl,
  inr, ◌∷◌, arith, ◌==◌, if◌then◌else◌, length, ℕ_discrete,
}
use fdp_rocks.KeyOrder.{
  KeyFlags, Disk, Rng, Reading, absent, readable, failing, load_keys, load_from,
  key_order_file_path, is_empty,
}
use fdp_rocks.KeyOrder.Prepare.{
  expected_count, generated_keys, load_worker, load_all, generate_all, prepare_shuffled_keys,
  Prepared, bad_distribution, zero_division, arrays, is_distribution,
}
use fdp_rocks.KeyOrder.Counts.{length-generated_keys}

module _ (r : Rng) (f : KeyFlags) where
  -- The arrays of the workers from `tid` on have the expected numbers of keys.
  abbrev pub HasCounts : ℕ → List (List ℕ) → Type 0
  HasCounts tid [] = Unit
  HasCounts tid (ks ∷ kss) = (length ks ≡ expected_count r f tid) × HasCounts (tid + 1) kss

  -- The same of the arrays that the first loop leaves, where an empty one stands for none.
  HasCountsOrNone : ℕ → List (List ℕ) → Type 0
  HasCountsOrNone tid [] = Unit
  HasCountsOrNone tid (ks ∷ kss) =
      ((is_empty ks ≡ true) ⊎ (length ks ≡ expected_count r f tid)) × HasCountsOrNone (tid + 1) kss

  pub load_from-count :
      (found : Reading) → (load_from found []).0 ≡ false → (load_from found []).1 ≡ []
  unfolding load_from
  load_from-count absent e = refl
  load_from-count (readable bs) e = ground arith
  load_from-count (failing bs) e = ground arith

  load_worker-count :
      (disk : Disk) (tid : ℕ)
      → (is_empty (load_worker r f disk tid).1 ≡ true)
        ⊎ (length (load_worker r f disk tid).1 ≡ expected_count r f tid)
  unfolding load_worker load_keys
  load_worker-count disk tid =
      let found = disk.files (key_order_file_path f tid) in
      by_load (load_from found []).0 (load_from found []).1 (load_from-count found)
    where
      by_load :
          (fine : Bool) (ks : List ℕ)
          → (fine ≡ false → ks ≡ [])
          → (is_empty
                (if◌then◌else◌ {A = Bool × List ℕ} fine
                  (if length ks == expected_count r f tid then (true, ks) else (false, []))
                  (false, ks)).1
              ≡ true)
            ⊎ (length
                  (if◌then◌else◌ {A = Bool × List ℕ} fine
                    (if length ks == expected_count r f tid then (true, ks) else (false, []))
                    (false, ks)).1
                ≡ expected_count r f tid)
      by_load false ks h = inl (ap is_empty (h refl))
      by_load true ks h = elim (ℕ_discrete (length ks) (expected_count r f tid)) [
        | yes e ↦ inr (ground arith)
        | no ne ↦ inl (ground arith)
      ]

  load_worker-fine :
      (disk : Disk) (tid : ℕ)
      → (load_worker r f disk tid).0 ≡ true
      → length (load_worker r f disk tid).1 ≡ expected_count r f tid
  unfolding load_worker
  load_worker-fine disk tid = by_load (load_keys f disk tid []).0 (load_keys f disk tid []).1
    where
      by_load :
          (fine : Bool) (ks : List ℕ)
          → (if◌then◌else◌ {A = Bool × List ℕ} fine
              (if length ks == expected_count r f tid then (true, ks) else (false, []))
              (false, ks)).0
            ≡ true
          → length
              (if◌then◌else◌ {A = Bool × List ℕ} fine
                (if length ks == expected_count r f tid then (true, ks) else (false, []))
                (false, ks)).1
            ≡ expected_count r f tid
      by_load false ks e = ground arith
      by_load true ks e = ground arith

  load_all-HasCountsOrNone :
      (disk : Disk) (n tid : ℕ) → HasCountsOrNone tid (load_all r f disk n tid).1
  unfolding load_all HasCountsOrNone
  load_all-HasCountsOrNone disk zero tid = tt
  load_all-HasCountsOrNone disk (suc n) tid =
      (load_worker-count disk tid, load_all-HasCountsOrNone disk n (tid + 1))

  load_all-HasCounts :
      (disk : Disk) (n tid : ℕ)
      → (load_all r f disk n tid).0 ≡ true
      → HasCounts tid (load_all r f disk n tid).1
  unfolding load_all
  load_all-HasCounts disk zero tid e = tt
  load_all-HasCounts disk (suc n) tid e =
      (load_worker-fine disk tid (ground arith), load_all-HasCounts disk n (tid + 1) (ground arith))

  pub length-load_all : (disk : Disk) (n tid : ℕ) → length (load_all r f disk n tid).1 ≡ n
  unfolding load_all
  length-load_all disk zero tid = refl
  length-load_all disk (suc n) tid = ap suc (length-load_all disk n (tid + 1))

  module _ (stoull : List ℕ → Option ℕ) where
    generate_all-HasCounts :
        (kss : List (List ℕ)) (disk : Disk) (tid : ℕ)
        → HasCountsOrNone tid kss
        → HasCounts tid (generate_all r f stoull disk tid kss).0
    unfolding generate_all HasCountsOrNone
    generate_all-HasCounts [] disk tid h = tt
    generate_all-HasCounts (ks ∷ kss) disk tid h =
        (made_count ks h.0, generate_all-HasCounts kss _ (tid + 1) h.1)
      where
        made_count :
            (ks : List ℕ)
            → (is_empty ks ≡ true) ⊎ (length ks ≡ expected_count r f tid)
            → length (if is_empty ks then generated_keys r f stoull tid else ks)
              ≡ expected_count r f tid
        made_count [] h = length-generated_keys r f stoull tid
        made_count (k ∷ ks) (inl e) = ground arith
        made_count (k ∷ ks) (inr e) = e

    pub length-generate_all :
        (kss : List (List ℕ)) (disk : Disk) (tid : ℕ)
        → length (generate_all r f stoull disk tid kss).0 ≡ length kss
    unfolding generate_all
    length-generate_all [] disk tid = refl
    length-generate_all (ks ∷ kss) disk tid = ap suc (length-generate_all kss _ (tid + 1))

  -- How `PrepareShuffledKeys` may come out: the name of the distribution is unknown, there are no
  -- workers, or each worker has an array with its number of keys.
  abbrev pub Allotted : Prepared r f → Type 0
  Allotted bad_distribution = is_distribution r f ≡ false
  Allotted zero_division = f.worker_threads ≡ 0
  Allotted (arrays kss disk) = (length kss ≡ f.worker_threads) × HasCounts 0 kss

  -- For num below 2^64 - 1 and whatever the key files hold, PrepareShuffledKeys leaves each
  -- worker an array with num / worker_threads keys, the last one with the remainder more; or the
  -- name of the distribution is unknown; or there are no workers, and it divides by zero.
  pub prepare_shuffled_keys-Allotted :
      (stoull : List ℕ → Option ℕ) (disk : Disk)
      → f.num + 1 < 2 ^ 64
      → Allotted (prepare_shuffled_keys r f stoull disk)
  unfolding prepare_shuffled_keys
  prepare_shuffled_keys-Allotted stoull disk k =
      by_tests (is_distribution r f) (f.worker_threads == 0) _ refl refl refl
    where
      loaded : Bool × List (List ℕ)
      loaded = load_all r f disk f.worker_threads 0

      made : List (List ℕ) × Disk
      made = generate_all r f stoull disk 0 loaded.1

      by_tests :
          (d z l : Bool)
          → is_distribution r f ≡ d
          → (f.worker_threads == 0) ≡ z
          → loaded.0 ≡ l
          → Allotted (
              if d
              then if z
                then zero_division
                else if l
                then arrays loaded.1 disk
                else arrays made.0 made.1
              else bad_distribution)
      by_tests false z l a b c = a
      by_tests true true l a b c = ground arith
      by_tests true false true a b c =
          (length-load_all disk f.worker_threads 0, load_all-HasCounts disk f.worker_threads 0 c)
      by_tests true false false a b c = (
        length-generate_all stoull loaded.1 disk 0 ∙ length-load_all disk f.worker_threads 0,
        generate_all-HasCounts stoull loaded.1 disk 0
            (load_all-HasCountsOrNone disk f.worker_threads 0),
      )
