-- ===== src/Benchmark/Status.antt =====
-- How the program ends, for all its flags.
use fdp_rocks.Base.{
  ℕ, zero, suc, ◌+◌, ◌^◌, ◌≤◌, ◌<◌, ◌≡◌, refl, subst, ◌⊎◌, inl, inr, Bool, true, false, Option,
  none, some, List, [], ◌∷◌, arith, ◌==◌, length, Bool-cases, ltb, ℕ_discrete, dec_lt,
}
use fdp_rocks.KeyOrder.{KeyFlags, Disk, Rng, is_empty}
use fdp_rocks.KeyOrder.Allotment.{Allotted, prepare_shuffled_keys-Allotted}
use fdp_rocks.KeyOrder.Partition.{joined}
use fdp_rocks.KeyOrder.Prepare.{
  Prepared, bad_distribution, zero_division, arrays, is_distribution, prepare_shuffled_keys,
}
use fdp_rocks.Stats.{IsReportable}
use fdp_rocks.Writer.Value.{IsGoodSize}
use fdp_rocks.Benchmark.{WriteFlags, Surroundings, run_benchmark, after_prepare, run}
use fdp_rocks.Benchmark.Main.{
  after_open, value_size_of, Exit, exit_code, broken, exit_of, negative_size, run_with, main,
}
use fdp_rocks.Benchmark.Workers.{length-joined, Faulty, run_benchmark-Faulty, run_benchmark-good}

is_empty-positive : (ks : List ℕ) → 0 < length ks → is_empty ks ≡ false
is_empty-positive [] h = absurd (omega arith)
is_empty-positive (k ∷ ks) h = refl

module _ (env : Surroundings) (r : Rng) (f : KeyFlags) (stoull : List ℕ → Option ℕ)
    (w : WriteFlags) where
  -- The run gets as far as starting its workers.
  abbrev pub CanStart : Bool → Type 0
  CanStart opens = (opens ≡ true) × (0 < f.num) × (is_distribution r f ≡ true)

  -- The flags that the program does not check are as the workers need them.
  abbrev pub Usable : Type 0
  Usable =
      (0 < f.worker_threads)
      × (f.worker_threads < 2 ^ 31)
      × (0 < w.batch)
      × ((size : ℕ) × (value_size_of w.value_size ≡ some size) × IsGoodSize size)

  -- What an exit of the program tells of the flags.
  abbrev pub EndsAs : Bool → Exit → Type 0
  EndsAs opens (exit_code zero) = (CanStart opens) × Usable
  EndsAs opens (exit_code (suc n)) =
      (n ≡ 0) × ((opens ≡ false) ⊎ ((f.num ≡ 0) ⊎ (is_distribution r f ≡ false)))
  EndsAs opens broken = (CanStart opens) × (¬ Usable)

  module _ (disk : Disk) (fuel : ℕ) (small : IsReportable w.stats) (room : f.num + 20000 < 2 ^ 61)
      (enough : f.num ≤ fuel) where
    abbrev sized : ℕ → WriteFlags
    sized size = record w { value_size = size }

    dec_good : (size : ℕ) → ((0 < w.batch) × IsGoodSize size) ⊎ Faulty (sized size) env
    dec_good size = elim (dec_lt 0 w.batch) [
      | no h ↦ inr (inl (omega (arith, h)))
      | yes positive ↦ elim (ℕ_discrete size 8) [
        | yes e ↦ inl (positive, inl e)
        | no other ↦ elim (dec_lt 15 size) [
          | yes large ↦ inl (positive, inr (omega (arith, large)))
          | no small_size ↦ inr (inr (neither other small_size))
        ]
      ]
    ]
      where
        neither : ¬ (size ≡ 8) → ¬ (15 < size) → ¬ IsGoodSize size
        neither other small_size (inl e) = other e
        neither other small_size (inr h) = small_size (omega (arith, h))

    Faulty-Usable :
        (size : ℕ) → value_size_of w.value_size ≡ some size → Faulty (sized size) env → ¬ Usable
    Faulty-Usable size v (inl e) (t, few, positive, (size', v', good)) = omega (arith, e, positive)
    Faulty-Usable size v (inr bad) (t, few, positive, (size', v', good)) =
        let same : size' ≡ size = cc (v, v') in bad (subst IsGoodSize same good)

    arrays-EndsAs :
        (size : ℕ) (kss : List (List ℕ)) (d : Disk)
        → value_size_of w.value_size ≡ some size
        → 0 < f.num
        → 0 < f.worker_threads
        → f.worker_threads < 2 ^ 31
        → is_distribution r f ≡ true
        → Allotted r f (arrays kss d)
        → EndsAs true (exit_of (run_benchmark (sized size) env fuel kss))
    arrays-EndsAs size kss d v k p few known a =
        let count = length-joined r f kss p a.0 a.1 in
        elim (dec_good size) [
          | inl (positive, good) ↦
              rw
                (run_benchmark-good (sized size) env fuel kss positive good small
                  (omega (arith, count)) (omega (arith, count)) (omega (arith, a.0)))
                ((refl, k, known), (p, few, positive, (size, v, good)))
          | inr faulty ↦
              rw
                (run_benchmark-Faulty (sized size) env fuel kss faulty (omega arith)
                  (omega (arith, count)))
                ((refl, k, known), Faulty-Usable size v faulty)
        ]

    after_prepare-EndsAs :
        (size : ℕ) (p : Prepared r f)
        → value_size_of w.value_size ≡ some size
        → 0 < f.num
        → 0 < f.worker_threads
        → is_distribution r f ≡ true
        → Allotted r f p
        → EndsAs true (exit_of (after_prepare (sized size) env r f fuel p))
    unfolding after_prepare exit_of
    after_prepare-EndsAs size bad_distribution v k t known a = (refl, inr (inr a))
    after_prepare-EndsAs size zero_division v k t known a =
        ((refl, k, known), λ usable. omega (arith, a, usable.0))
    after_prepare-EndsAs size (arrays kss d) v k t known a =
        elim (dec_lt f.worker_threads (2 ^ 31)) [
          | yes few ↦
              let test : ltb f.worker_threads (2 ^ 31) ≡ true = ground arith in
              rw test (arrays-EndsAs size kss d v k t few known a)
          | no many ↦
              let test : ltb f.worker_threads (2 ^ 31) ≡ false = ground arith in
              rw test ((refl, k, known), λ usable. many usable.1)
        ]

    without_size :
        0 < f.num
        → is_distribution r f ≡ true
        → value_size_of w.value_size ≡ none
        → EndsAs true broken
    without_size k known v = (
      (refl, k, known),
      λ usable. let (t, few, positive, (size, v', good)) = usable in cc (v, v'),
    )

    negative_size-EndsAs :
        (p : Prepared r f)
        → value_size_of w.value_size ≡ none
        → 0 < f.num
        → 0 < f.worker_threads
        → is_distribution r f ≡ true
        → Allotted r f p
        → EndsAs true (negative_size r f p)
    unfolding negative_size
    negative_size-EndsAs bad_distribution v k t known a = (refl, inr (inr a))
    negative_size-EndsAs zero_division v k t known a =
        ((refl, k, known), λ usable. omega (arith, a, usable.0))
    negative_size-EndsAs (arrays kss d) v k t known a =
        let count = length-joined r f kss t a.0 a.1 in
        elim (Bool-cases (ltb f.worker_threads (2 ^ 31))) [
          | inl few ↦
              rw (few, is_empty-positive (joined kss) (omega (arith, count)))
                (without_size k known v)
          | inr many ↦ rw many (without_size k known v)
        ]

    no_workers :
        f.worker_threads ≡ 0
        → is_distribution r f ≡ true
        → prepare_shuffled_keys r f stoull disk ≡ zero_division
    unfolding prepare_shuffled_keys
    no_workers e known =
        let none_there : (f.worker_threads == 0) ≡ true = ground arith in
        rw (known, none_there) refl

    without_workers :
        0 < f.num → is_distribution r f ≡ true → f.worker_threads ≡ 0 → EndsAs true broken
    without_workers k known e = ((refl, k, known), λ usable. omega (arith, e, usable.0))

    run_with-EndsAs :
        (size : Option ℕ)
        → value_size_of w.value_size ≡ size
        → 0 < f.num
        → is_distribution r f ≡ true
        → EndsAs true (run_with env r f stoull w disk fuel size)
    unfolding run_with run after_prepare negative_size exit_of
    run_with-EndsAs none v k known =
        let some_key : (f.num == 0) ≡ false = ground arith in
        rw some_key (elim (dec_lt 0 f.worker_threads) [
          | yes t ↦
              negative_size-EndsAs (prepare_shuffled_keys r f stoull disk) v k t known
                (prepare_shuffled_keys-Allotted r f stoull disk (omega arith))
          | no h ↦
              rw (no_workers (omega (arith, h)) known, negative_size)
                (without_workers k known (omega (arith, h)))
        ])
    run_with-EndsAs (some size) v k known =
        let some_key : (f.num == 0) ≡ false = ground arith in
        rw some_key (elim (dec_lt 0 f.worker_threads) [
          | yes t ↦
              after_prepare-EndsAs size (prepare_shuffled_keys r f stoull disk) v k t known
                (prepare_shuffled_keys-Allotted r f stoull disk (omega arith))
          | no h ↦
              rw (no_workers (omega (arith, h)) known, after_prepare)
                (without_workers k known (omega (arith, h)))
        ])

    run_with-no_keys :
        (size : Option ℕ) → f.num ≡ 0 → run_with env r f stoull w disk fuel size ≡ exit_code 1
    unfolding run_with run exit_of
    run_with-no_keys none e = let no_key : (f.num == 0) ≡ true = ground arith in rw no_key refl
    run_with-no_keys (some size) e =
        let no_key : (f.num == 0) ≡ true = ground arith in rw no_key refl

    run_with-unknown :
        (size : Option ℕ)
        → 0 < f.num
        → is_distribution r f ≡ false
        → run_with env r f stoull w disk fuel size ≡ exit_code 1
    unfolding run_with run exit_of after_prepare negative_size prepare_shuffled_keys
    run_with-unknown none k u =
        let some_key : (f.num == 0) ≡ false = ground arith in rw (some_key, u) refl
    run_with-unknown (some size) k u =
        let some_key : (f.num == 0) ≡ false = ground arith in rw (some_key, u) refl

    -- For num below 2^61 - 20000, a report interval below 2^40 and a report interval or a stats
    -- interval that is not 0, with fuel num for each worker, any key files, any distribution and
    -- any statuses of the database: main ends with the code 0 exactly if the database opens, num
    -- is positive, the name of the distribution is known, there are from 1 to 2^31 - 1 workers,
    -- the batch size is positive and the value size is stored as 8 or as 16 or more; with the
    -- code 1 exactly if one of the first three fails; and else it breaks, by a division by zero,
    -- a negative number of workers or size, a value that is written past its end, or a loop
    -- without end.
    pub main-EndsAs : (opens : Bool) → EndsAs opens (main env r f stoull opens w disk fuel)
    unfolding main after_open
    main-EndsAs false = (refl, inl refl)
    main-EndsAs true = elim (dec_lt 0 f.num) [
      | no h ↦
          rw (run_with-no_keys (value_size_of w.value_size) (omega (arith, h)))
            (refl, inr (inl (omega (arith, h))))
      | yes k ↦ elim (Bool-cases (is_distribution r f)) [
        | inl known ↦ run_with-EndsAs (value_size_of w.value_size) refl k known
        | inr unknown ↦
            rw (run_with-unknown (value_size_of w.value_size) k unknown) (refl, inr (inr unknown))
      ]
    ]
