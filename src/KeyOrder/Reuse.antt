-- ===== src/KeyOrder/Reuse.antt =====
-- src/benchmark/rocksdb_bench.cpp: what a second run of `PrepareShuffledKeys` finds in the files that
-- the first has left.
use fdp_rocks.Base.{
  ℕ, zero, suc, ◌+◌, ◌^◌, ◌<◌, ◌≤◌, ◌≡◌, ◌≢◌, refl, ap, ◌∙◌, subst, Bool, true, false, Option, List,
  [], ◌∷◌, ◌⊎◌, inl, inr, arith, ◌==◌, if◌then◌else◌, length,
}
use fdp_rocks.KeyOrder.{
  KeyFlags, Disk, Rng, readable, is_empty, key_order_file_path, bytes_of_keys, load_from, load_keys,
  save_keys,
}
use fdp_rocks.KeyOrder.Prepare.{
  expected_count, generated_keys, load_worker, load_all, generate_all, prepare_shuffled_keys,
  Prepared, bad_distribution, zero_division, arrays, is_distribution,
}
use fdp_rocks.KeyOrder.Counts.{length-generated_keys}
use fdp_rocks.KeyOrder.Bounds.{Below64-generated_keys}
use fdp_rocks.KeyOrder.Allotment.{load_from-count, length-load_all}
use fdp_rocks.KeyOrder.Files.{load_from-readable, key_order_file_path-injective}
use fdp_rocks.KeyOrder.Saving.{Writable, Saved-save_keys}

same_test : (m n : ℕ) → m ≡ n → (m == n) ≡ true
same_test m n e = ground (arith, e)

module _ (r : Rng) (f : KeyFlags) where
  load_worker-files :
      (disk disk' : Disk) (tid : ℕ)
      → disk'.files (key_order_file_path f tid) ≡ disk.files (key_order_file_path f tid)
      → load_worker r f disk' tid ≡ load_worker r f disk tid
  unfolding load_worker load_keys
  load_worker-files disk disk' tid e = rw e refl

  -- The arrays of the workers from `tid` on, where an empty one stands for none, are what their
  -- files hold.
  Kept : Disk → ℕ → List (List ℕ) → Type 0
  Kept disk tid [] = Unit
  Kept disk tid (ks ∷ kss) =
      ((is_empty ks ≡ true) ⊎ (load_worker r f disk tid ≡ (true, ks))) × Kept disk (tid + 1) kss

  load_worker-Kept :
      (disk : Disk) (tid : ℕ)
      → (is_empty (load_worker r f disk tid).1 ≡ true)
        ⊎ (load_worker r f disk tid ≡ (true, (load_worker r f disk tid).1))
  unfolding load_worker load_keys
  load_worker-Kept disk tid =
      let found = disk.files (key_order_file_path f tid) in
      by_load (load_from found []).0 (load_from found []).1 (load_from-count r f found)
    where
      loaded : Bool → List ℕ → Bool × List ℕ
      loaded fine ks =
          if fine
          then if length ks == expected_count r f tid then (true, ks) else (false, [])
          else (false, ks)

      by_count :
          (same : Bool) (ks : List ℕ)
          → (is_empty (if◌then◌else◌ {A = Bool × List ℕ} same (true, ks) (false, [])).1 ≡ true)
            ⊎ ((if◌then◌else◌ {A = Bool × List ℕ} same (true, ks) (false, []))
                ≡ (true, (if◌then◌else◌ {A = Bool × List ℕ} same (true, ks) (false, [])).1))
      by_count true ks = inr refl
      by_count false ks = inl refl

      by_load :
          (fine : Bool) (ks : List ℕ)
          → (fine ≡ false → ks ≡ [])
          → (is_empty (loaded fine ks).1 ≡ true) ⊎ (loaded fine ks ≡ (true, (loaded fine ks).1))
      by_load false ks h = inl (ap is_empty (h refl))
      by_load true ks h = by_count (length ks == expected_count r f tid) ks

  load_all-Kept : (disk : Disk) (n tid : ℕ) → Kept disk tid (load_all r f disk n tid).1
  unfolding load_all Kept
  load_all-Kept disk zero tid = tt
  load_all-Kept disk (suc n) tid = (load_worker-Kept disk tid, load_all-Kept disk n (tid + 1))

  Kept-files :
      (disk disk' : Disk) (kss : List (List ℕ)) (tid : ℕ)
      → ((i : ℕ)
          → tid ≤ i
          → i < tid + length kss
          → disk'.files (key_order_file_path f i) ≡ disk.files (key_order_file_path f i))
      → Kept disk tid kss
      → Kept disk' tid kss
  unfolding Kept
  Kept-files disk disk' [] tid same h = tt
  Kept-files disk disk' (ks ∷ kss) tid same h = (
    again h.0,
    Kept-files disk disk' kss (tid + 1) (λ i low high. same i (omega arith) (omega arith)) h.1,
  )
    where
      again :
          (is_empty ks ≡ true) ⊎ (load_worker r f disk tid ≡ (true, ks))
          → (is_empty ks ≡ true) ⊎ (load_worker r f disk' tid ≡ (true, ks))
      again (inl e) = inl e
      again (inr e) =
          inr (load_worker-files disk disk' tid (same tid (omega arith) (omega arith)) ∙ e)

  module _ (stoull : List ℕ → Option ℕ) where
    -- What the second loop makes of the array of a worker, and of the file system.
    abbrev made : ℕ → List ℕ → List ℕ
    made tid ks = if is_empty ks then generated_keys r f stoull tid else ks

    abbrev disk_after : Disk → ℕ → List ℕ → Disk
    disk_after disk tid ks = if is_empty ks then (save_keys f disk tid (made tid ks)).1 else disk

    load_worker-generated :
        (disk : Disk) (tid : ℕ)
        → tid < f.worker_threads
        → f.num + 1 < 2 ^ 64
        → disk.files (key_order_file_path f tid)
          ≡ readable (bytes_of_keys (generated_keys r f stoull tid))
        → load_worker r f disk tid ≡ (true, generated_keys r f stoull tid)
    unfolding load_worker load_keys
    load_worker-generated disk tid h k e =
        let keys = generated_keys r f stoull tid in
        let fits : (length keys == expected_count r f tid) ≡ true =
          same_test _ _ (length-generated_keys r f stoull tid) in
        rw (e, load_from-readable keys [] (Below64-generated_keys r f stoull tid h k), fits) refl

    generate_one :
        (disk : Disk) (tid : ℕ) (ks : List ℕ)
        → tid < f.worker_threads
        → f.num + 1 < 2 ^ 64
        → Writable disk
        → (is_empty ks ≡ true) ⊎ (load_worker r f disk tid ≡ (true, ks))
        → Writable (disk_after disk tid ks)
          × (load_worker r f (disk_after disk tid ks) tid ≡ (true, made tid ks))
          × ((p : List ℕ)
              → key_order_file_path f tid ≢ p
              → (disk_after disk tid ks).files p ≡ disk.files p)
    generate_one disk tid [] h k w kept =
        let (writable, file, others) =
          Saved-save_keys f disk tid (generated_keys r f stoull tid) w in
        (writable, load_worker-generated _ tid h k file, others)
    generate_one disk tid (x ∷ ks) h k w (inl e) = absurd (ground (arith, e))
    generate_one disk tid (x ∷ ks) h k w (inr e) = (w, e, λ p n. refl)

    module _ (own : f.key_file_path ≡ []) (few : f.worker_threads ≤ 2 ^ 32)
        (k : f.num + 1 < 2 ^ 64) where
      generate_all-reload :
          (kss : List (List ℕ)) (disk : Disk) (tid : ℕ)
          → tid + length kss ≤ f.worker_threads
          → Writable disk
          → Kept disk tid kss
          → (load_all r f (generate_all r f stoull disk tid kss).1 (length kss) tid
              ≡ (true, (generate_all r f stoull disk tid kss).0))
            × ((i : ℕ)
                → i < tid
                → (generate_all r f stoull disk tid kss).1.files (key_order_file_path f i)
                  ≡ disk.files (key_order_file_path f i))
      unfolding generate_all load_all Kept
      generate_all-reload [] disk tid h w kept = (refl, λ i l. refl)
      generate_all-reload (ks ∷ kss) disk tid h w kept =
          let (writable, mine, others) = generate_one disk tid ks (omega arith) k w kept.0 in
          let disk' = disk_after disk tid ks in
          let path = key_order_file_path f in
          let differs = λ (i : ℕ) (l : i < f.worker_threads) (n : tid ≢ i).
            key_order_file_path-injective f tid i own (omega arith) (omega arith) n in
          let later =
            Kept-files disk disk' kss (tid + 1)
              (λ i low high. others (path i) (differs i (omega arith) (omega arith))) kept.1 in
          let (all, before) =
            generate_all-reload kss disk' (tid + 1) (omega arith) writable later in
          let last = (generate_all r f stoull disk' (tid + 1) kss).1 in
          (
            rw (load_worker-files disk' last tid (before tid (omega arith)), mine, all) refl,
            λ i l. before i (omega arith) ∙ others (path i) (differs i (omega arith) (omega arith)),
          )

  module _ (stoull stoull' : List ℕ → Option ℕ) where
    -- What the next run makes of what a run has left.
    abbrev pub next_run : Prepared r f → Prepared r f
    next_run bad_distribution = bad_distribution
    next_run zero_division = zero_division
    next_run (arrays kss disk) = prepare_shuffled_keys r f stoull' disk

    next_run-loaded :
        (disk : Disk) (kss : List (List ℕ))
        → is_distribution r f ≡ true
        → (f.worker_threads == 0) ≡ false
        → load_all r f disk f.worker_threads 0 ≡ (true, kss)
        → prepare_shuffled_keys r f stoull' disk ≡ arrays kss disk
    unfolding prepare_shuffled_keys
    next_run-loaded disk kss d z e = rw (d, z, e) refl

    -- Without --key_file_path, with at most 2^32 workers and num below 2^64 - 1, and if the
    -- directory is there or can be made and every file can be written: whatever the key files
    -- held, a run of PrepareShuffledKeys after another, with the same flags, comes out as the
    -- other did, with the same arrays and the same files.
    pub prepare_shuffled_keys-next_run :
        (disk : Disk)
        → f.key_file_path ≡ []
        → f.worker_threads ≤ 2 ^ 32
        → f.num + 1 < 2 ^ 64
        → Writable disk
        → next_run (prepare_shuffled_keys r f stoull disk) ≡ prepare_shuffled_keys r f stoull disk
    unfolding prepare_shuffled_keys
    prepare_shuffled_keys-next_run disk own few k w =
        by_tests (is_distribution r f) (f.worker_threads == 0) loaded.0 refl refl refl
      where
        loaded : Bool × List (List ℕ)
        loaded = load_all r f disk f.worker_threads 0

        after : List (List ℕ) × Disk
        after = generate_all r f stoull disk 0 loaded.1

        size : length loaded.1 ≡ f.worker_threads
        size = length-load_all r f disk f.worker_threads 0

        reloaded : load_all r f after.1 f.worker_threads 0 ≡ (true, after.0)
        reloaded =
            subst (λ n. load_all r f after.1 n 0 ≡ (true, after.0)) size
              (generate_all-reload stoull own few k loaded.1 disk 0 (omega (arith, size)) w
                (load_all-Kept disk f.worker_threads 0)).0

        outcome : Bool → Bool → Bool → Prepared r f
        outcome d z all =
            if d
            then if z
              then zero_division
              else (if all then arrays loaded.1 disk else arrays after.0 after.1)
            else bad_distribution

        by_tests :
            (d z all : Bool)
            → is_distribution r f ≡ d
            → (f.worker_threads == 0) ≡ z
            → loaded.0 ≡ all
            → next_run (outcome d z all) ≡ outcome d z all
        by_tests false z all ed ez ea = refl
        by_tests true true all ed ez ea = refl
        by_tests true false true ed ez ea =
            next_run-loaded disk loaded.1 ed ez (ap (λ b. (b, loaded.1)) ea)
        by_tests true false false ed ez ea = next_run-loaded after.1 after.0 ed ez reloaded
