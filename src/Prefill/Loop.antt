-- ===== src/Prefill/Loop.antt =====
-- The write loop of the prefill tool: how a run ends from a point of the loop on.
use fdp_rocks.Base.{
  ℕ, zero, suc, ◌+◌, ◌-◌, ◌%◌, ◌^◌, ◌<◌, ◌≤◌, ◌≡◌, ◌≢◌, refl, ap, ◌∙◌, Bool, true, false, ◌||◌,
  none, some, List, [], ◌∷◌, ◌++◌, arith, dec_lt, ltb, ◌==◌, if◌then◌else◌, u64, min, ◌⊎◌, inl, inr,
  All, replicate,
}
use fdp_rocks.Base.Int.{pos, negsuc, pos_part}
use fdp_rocks.Prefill.{
  Result, Event, opened, allocated, wrote, progress, freed, closed, Run, Calls, buffer_size,
  fill_byte, after_events, progress_of, fail_write, finish, after_write, write_loop,
}

-- What an event adds to the files that are open, and what it takes from them.
abbrev pub opening : Event → ℕ
opening opened = 1
opening e = 0

abbrev pub closing : Event → ℕ
closing closed = 1
closing e = 0

-- The same for the buffer.
abbrev pub allocating : Event → ℕ
allocating allocated = 1
allocating e = 0

abbrev pub freeing : Event → ℕ
freeing freed = 1
freeing e = 0

-- The bytes that a call of `write` is asked for.
abbrev pub asked : Event → ℕ
asked (wrote size) = size
asked e = 0

abbrev pub total : (Event → ℕ) → List Event → ℕ
total weight [] = 0
total weight (e ∷ es) = weight e + total weight es

-- How a run ends, from a point where `files` files are open and as many buffers allocated.
pub record Ends (target files : ℕ) (r : Run) : Type 0 where
  pub exit : ℕ
  pub returns : r.code ≡ some exit
  pub closes_all : total closing r.events ≡ total opening r.events + files
  pub frees_all : total freeing r.events ≡ total allocating r.events + files
  pub in_buffer : All (λ e. asked e ≤ buffer_size) r.events
  pub within : r.written ≤ target
  pub contents :
      ((r.file ≡ none) × (r.written ≡ 0)) ⊎ (r.file ≡ some (replicate r.written fill_byte))
  pub complete :
      (exit ≢ 0)
      ⊎ ((r.file ≡ some (replicate target fill_byte)) × (0 < target) × (target % 4096 ≡ 0))

replicate-append : (m n b : ℕ) → replicate m b ++ replicate n b ≡ replicate (m + n) b
replicate-append zero n b = ap (λ k. replicate k b) (omega arith)
replicate-append (suc m) n b =
    let e : suc (m + n) ≡ suc m + n = omega arith in
    ap (λ bs. b ∷ bs) (replicate-append m n b) ∙ ap (λ k. replicate k b) e

module _ (target : ℕ) (positive : 0 < target) (aligned : target % 4096 ≡ 0) where
  finish-Ends :
      (result : Result) → Ends target 1 (finish result target (replicate target fill_byte))
  unfolding finish
  finish-Ends (pos zero) = record {
    exit = 0;
    returns = refl;
    closes_all = refl;
    frees_all = refl;
    in_buffer = omega arith;
    within = omega arith;
    contents = inr refl;
    complete = inr (refl, positive, aligned);
  }
  finish-Ends (pos (suc n)) = record {
    exit = 1;
    returns = refl;
    closes_all = refl;
    frees_all = refl;
    in_buffer = omega arith;
    within = omega arith;
    contents = inr refl;
    complete = inl (omega arith);
  }
  finish-Ends (negsuc n) = record {
    exit = 1;
    returns = refl;
    closes_all = refl;
    frees_all = refl;
    in_buffer = omega arith;
    within = omega arith;
    contents = inr refl;
    complete = inl (omega arith);
  }

  fail_write-Ends :
      (size written : ℕ)
      → size ≤ buffer_size
      → written ≤ target
      → Ends target 1 (fail_write size written (replicate written fill_byte))
  unfolding fail_write
  fail_write-Ends size written b h = record {
    exit = 1;
    returns = refl;
    closes_all = refl;
    frees_all = refl;
    in_buffer = omega arith;
    within = h;
    contents = inr refl;
    complete = inl (omega arith);
  }

  -- A step of the loop does not change what is open.
  step-Ends :
      (size written : ℕ) (r : Run)
      → size ≤ buffer_size
      → Ends target 1 r
      → Ends target 1 (after_events (wrote size ∷ progress_of target written) r)
  unfolding after_events progress_of
  step-Ends size written r b e = by_test ((written % 2 ^ 30) == 0 || written == target)
    where
      by_test :
          (shown : Bool)
          → Ends target 1
              (after_events (wrote size ∷ (if shown then progress written ∷ [] else [])) r)
      by_test true = record {
        exit = e.exit;
        returns = e.returns;
        closes_all = omega (arith, e.closes_all);
        frees_all = omega (arith, e.frees_all);
        in_buffer = (b, (omega arith, e.in_buffer));
        within = e.within;
        contents = e.contents;
        complete = e.complete;
      }
      by_test false = record {
        exit = e.exit;
        returns = e.returns;
        closes_all = omega (arith, e.closes_all);
        frees_all = omega (arith, e.frees_all);
        in_buffer = (b, e.in_buffer);
        within = e.within;
        contents = e.contents;
        complete = e.complete;
      }

  after_write-Ends :
      (result : Result) (written size : ℕ) (rest : ℕ → List ℕ → Run)
      → target < 2 ^ 64
      → size ≤ buffer_size
      → written + size ≤ target
      → pos_part result ≤ size
      → ((n : ℕ) → written < n → n ≤ target → Ends target 1 (rest n (replicate n fill_byte)))
      → Ends target 1 (after_write result target size written (replicate written fill_byte) rest)
  unfolding after_write
  after_write-Ends (pos zero) written size rest t b h p r =
      fail_write-Ends size written b (omega arith)
  after_write-Ends (pos (suc n)) written size rest t b h p r =
      let small : u64 (written + suc n) ≡ written + suc n = omega arith in
      rw small (
        rw (replicate-append written (suc n) fill_byte)
          (step-Ends size (written + suc n) _ b (r (written + suc n) (omega arith) (omega arith))))
  after_write-Ends (negsuc n) written size rest t b h p r =
      fail_write-Ends size written b (omega arith)

  module _ (k : Calls) (honest : (i n : ℕ) → pos_part (k.write_result i n) ≤ n) where
    pub write_loop-Ends :
        (fuel i written : ℕ)
        → target < 2 ^ 64
        → written ≤ target
        → target - written < fuel
        → Ends target 1 (write_loop k target fuel i written (replicate written fill_byte))
    unfolding write_loop
    write_loop-Ends zero i written t h e = absurd (omega arith)
    write_loop-Ends (suc fuel) i written t h e = elim (dec_lt written target) [
      | yes p ↦
          let test : ltb written target ≡ true = ground arith in
          let size = min buffer_size (target - written) in
          rw test (
            after_write-Ends (k.write_result i size) written size (write_loop k target fuel (i + 1))
              t (omega arith) (omega arith) (honest i size)
              (λ n lt le. write_loop-Ends fuel (i + 1) n t le (omega arith)))
      | no np ↦
          let test : ltb written target ≡ false = ground arith in
          let all : written ≡ target = omega arith in rw test (rw all (finish-Ends k.sync_result))
    ]
