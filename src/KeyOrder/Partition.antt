-- ===== src/KeyOrder/Partition.antt =====
-- The uniform keys of all workers together.
use mathlib.Core.List.{Perm, append-nil}
use mathlib.Core.List.Perm
use native.Mathlib.Nat.{div-add-mod, div-add-mod'}
use fdp_rocks.Base.{
  ℕ, zero, suc, ◌+◌, ◌-◌, ◌*◌, ◌/◌, ◌%◌, ◌^◌, ◌≡◌, ◌<◌, refl, sym, ap, ◌∙◌, subst, ap₂, true, false,
  Option, List, [], ◌∷◌, ◌++◌, arith, ◌==◌, u64,
}
use fdp_rocks.Base.Text.{codes, text_eq}
use fdp_rocks.KeyOrder.{
  KeyFlags, Disk, Rng, absent, load_keys, key_order_file_path, load_from, range_from,
}
use fdp_rocks.KeyOrder.Counts.{uniform_keys-Perm}
use fdp_rocks.KeyOrder.Prepare.{
  expected_count, uniform_keys, generated_keys, load_worker, load_all, generate_all,
  prepare_shuffled_keys, Prepared, arrays, bad_distribution, zero_division, is_distribution,
}

range_from-append :
    (start m n : ℕ) → range_from start m ++ range_from (start + m) n ≡ range_from start (m + n)
unfolding range_from
range_from-append start zero n = ground arith
range_from-append start (suc m) n =
    let e : start + suc m ≡ start + 1 + m = omega arith in
    let k : suc m + n ≡ suc (m + n) = omega arith in
    rw k (rw e (ap (λ xs. start ∷ xs) (range_from-append (start + 1) m n)))

-- All arrays, one behind the other.
abbrev pub joined : List (List ℕ) → List ℕ
joined [] = []
joined (ks ∷ kss) = ks ++ joined kss

module _ (r : Rng) (f : KeyFlags) (stoull : List ℕ → Option ℕ) where
  -- The uniform arrays of `n` workers from `tid` on.
  uniform_from : ℕ → ℕ → List (List ℕ)
  uniform_from zero tid = []
  uniform_from (suc n) tid = uniform_keys r f stoull tid ∷ uniform_from n (tid + 1)

  -- A worker's keys, where no number wraps around.
  uniform_keys-range :
      (tid n : ℕ)
      → tid < f.worker_threads
      → f.num < 2 ^ 64
      → expected_count r f tid ≡ n
      → Perm (uniform_keys r f stoull tid) (range_from (tid * (f.num / f.worker_threads) + 1) n)
  uniform_keys-range tid n h k e =
      subst (λ s. Perm (uniform_keys r f stoull tid) s) (ap₂ range_from small e)
        (uniform_keys-Perm r f stoull tid)
    where
      small : u64 (tid * (f.num / f.worker_threads) + 1) ≡ tid * (f.num / f.worker_threads) + 1
      small = grind (arith, div-add-mod f.num f.worker_threads)

  expected_count-last :
      (tid : ℕ)
      → tid + 1 ≡ f.worker_threads
      → expected_count r f tid ≡ f.num / f.worker_threads * 1 + f.num % f.worker_threads
  unfolding expected_count
  expected_count-last tid h = ground arith

  expected_count-other :
      (tid : ℕ) → tid + 1 < f.worker_threads → expected_count r f tid ≡ f.num / f.worker_threads
  unfolding expected_count
  expected_count-other tid h = ground arith

  joined-uniform_from :
      (n tid : ℕ)
      → tid + suc n ≡ f.worker_threads
      → f.num < 2 ^ 64
      → Perm (joined (uniform_from (suc n) tid)) (
          range_from
            (tid * (f.num / f.worker_threads) + 1)
            (f.num / f.worker_threads * suc n + f.num % f.worker_threads))
  unfolding uniform_from
  joined-uniform_from zero tid h k =
      let q = f.num / f.worker_threads in
      let m = q * 1 + f.num % f.worker_threads in
      subst (λ xs. Perm xs (range_from (tid * q + 1) m))
        (sym (append-nil (uniform_keys r f stoull tid)))
        (uniform_keys-range tid m (omega arith) k (expected_count-last tid h))
  joined-uniform_from (suc n) tid h k =
      let q = f.num / f.worker_threads in
      let m = q * suc n + f.num % f.worker_threads in
      let start : (tid + 1) * q + 1 ≡ tid * q + 1 + q = grind arith in
      let both : q + m ≡ q * suc (suc n) + f.num % f.worker_threads = grind arith in
      let rest : Perm (joined (uniform_from (suc n) (tid + 1))) (range_from (tid * q + 1 + q) m) =
        subst (λ s. Perm (joined (uniform_from (suc n) (tid + 1))) (range_from s m)) start
          (joined-uniform_from n (tid + 1) (omega arith) k) in
      subst (λ xs. Perm (joined (uniform_from (suc (suc n)) tid)) xs)
        (range_from-append (tid * q + 1) q m ∙ ap (range_from (tid * q + 1)) both)
        (Perm.append
          (uniform_keys-range tid q (omega arith) k (expected_count-other tid (omega arith))) rest)

  -- Without files, nothing is loaded.
  pub load_worker-absent :
      (disk : Disk) (tid : ℕ)
      → ((path : List ℕ) → disk.files path ≡ absent)
      → load_worker r f disk tid ≡ (false, [])
  unfolding load_worker load_keys load_from
  load_worker-absent disk tid h = rw (h (key_order_file_path f tid), load_from) refl

  generate_all-absent :
      (n : ℕ) (disk disk' : Disk) (tid : ℕ)
      → text_eq f.key_distribution (codes "uniform") ≡ true
      → ((path : List ℕ) → disk.files path ≡ absent)
      → (generate_all r f stoull disk' tid (load_all r f disk n tid).1).0 ≡ uniform_from n tid
  unfolding generate_all load_all uniform_from generated_keys
  generate_all-absent zero disk disk' tid e h = refl
  generate_all-absent (suc n) disk disk' tid e h = rw (load_worker-absent disk tid h) (
      rw e (
        ap (λ kss. uniform_keys r f stoull tid ∷ kss) (generate_all-absent n disk _ (tid + 1) e h)))

  -- The arrays of an outcome.
  abbrev pub arrays_of : Prepared r f → List (List ℕ)
  arrays_of bad_distribution = []
  arrays_of zero_division = []
  arrays_of (arrays kss disk) = kss

  prepare_shuffled_keys-absent :
      (n : ℕ) (disk : Disk)
      → suc n ≡ f.worker_threads
      → text_eq f.key_distribution (codes "uniform") ≡ true
      → ((path : List ℕ) → disk.files path ≡ absent)
      → arrays_of (prepare_shuffled_keys r f stoull disk) ≡ uniform_from (suc n) 0
  unfolding prepare_shuffled_keys is_distribution load_all
  prepare_shuffled_keys-absent n disk w e h =
      let t : (f.worker_threads == 0) ≡ false = ground arith in
      let fail : (load_all r f disk f.worker_threads 0).0 ≡ false =
        rw (sym w, load_all) (rw (load_worker-absent disk 0 h) refl) in
      rw e (
        rw t (
          rw fail (
            generate_all-absent f.worker_threads disk disk 0 e h
            ∙ ap (λ k. uniform_from k 0) (sym w))))

  -- With the uniform distribution, at least one worker, num below 2^64 - 1 and no key file at
  -- any path, PrepareShuffledKeys leaves arrays that together hold the numbers from 1 to num,
  -- each once, for every order that key_sort asks for and every seed.
  pub prepare_shuffled_keys-partition :
      (disk : Disk)
      → text_eq f.key_distribution (codes "uniform") ≡ true
      → 0 < f.worker_threads
      → f.num + 1 < 2 ^ 64
      → ((path : List ℕ) → disk.files path ≡ absent)
      → Perm (joined (arrays_of (prepare_shuffled_keys r f stoull disk))) (range_from 1 f.num)
  prepare_shuffled_keys-partition disk e w k h =
      let n = f.worker_threads - 1 in
      let s : suc n ≡ f.worker_threads = omega arith in
      let q = f.num / f.worker_threads in
      let count : q * suc n + f.num % f.worker_threads ≡ f.num =
        ap (λ t. q * t + f.num % f.worker_threads) s ∙ div-add-mod' f.num f.worker_threads in
      let start : 0 * q + 1 ≡ 1 = grind arith in
      subst (λ kss. Perm (joined kss) (range_from 1 f.num))
        (sym (prepare_shuffled_keys-absent n disk s e h))
        (subst (Perm (joined (uniform_from (suc n) 0))) (ap₂ range_from start count)
          (joined-uniform_from n 0 (omega arith) (omega arith)))
