-- ===== src/Prefill/Total.antt =====
-- Runs of `main` of the prefill tool: they end, and with what.
use fdp_rocks.Base.{
  ℕ, ◌%◌, ◌^◌, ◌<◌, ◌≤◌, ◌≡◌, refl, Bool, true, false, not, ◌||◌, Option, none, some, List, [], ◌∷◌,
  arith, ◌==◌, if◌then◌else◌, inl, All,
}
use fdp_rocks.Base.Int.{pos_part}
use fdp_rocks.Prefill.{
  split_last, unit_factor, scaled, with_unit, parse_size, Event, usage, size_refused, create_failed,
  opened, memory_refused, allocated, closed, unlinked, Calls, buffer_size, after_events, write_loop,
  give_up, fill_target, fill_main,
}
use fdp_rocks.Prefill.Loop.{
  opening, closing, allocating, freeing, asked, total, Ends, write_loop-Ends,
}

scaled-small : (n : Option ℕ) (m : ℕ) → scaled n m < 2 ^ 64
unfolding scaled
scaled-small none m = omega arith
scaled-small (some n) m = omega arith

with_unit-small :
    (stoull : List ℕ → Option ℕ) (cs : List ℕ) (u : Option ℕ) → with_unit stoull cs u < 2 ^ 64
unfolding with_unit
with_unit-small stoull cs none = omega arith
with_unit-small stoull cs (some n) = scaled-small (stoull cs) n

pub parse_size-small :
    (stoull : List ℕ → Option ℕ) (size : List ℕ) → parse_size stoull size < 2 ^ 64
unfolding parse_size
parse_size-small stoull [] = omega arith
parse_size-small stoull (c ∷ cs) =
    let (front, unit) = split_last c cs in
    ground
      (arith, scaled-small (stoull (c ∷ cs)) 1, with_unit-small stoull front (unit_factor unit))

give_up-Ends :
    (target code : ℕ) (es : List Event)
    → 0 < code
    → total closing es ≡ total opening es
    → total freeing es ≡ total allocating es
    → All (λ e. asked e ≤ buffer_size) es
    → Ends target 0 (give_up code es)
unfolding give_up
give_up-Ends target code es h e f b = record {
  exit = code;
  returns = refl;
  closes_all = omega (arith, e);
  frees_all = omega (arith, f);
  in_buffer = b;
  within = omega arith;
  contents = inl (refl, refl);
  complete = inl (omega arith);
}

fill_target-Ends :
    (k : Calls) (fuel target : ℕ)
    → ((i n : ℕ) → pos_part (k.write_result i n) ≤ n)
    → target < 2 ^ 64
    → target < fuel
    → Ends target 0 (fill_target k fuel target)
unfolding fill_target after_events
fill_target-Ends k fuel target honest small enough =
    by_tests (target == 0 || not (target % 4096 == 0)) (not k.open_fine) (not k.memalign_fine) refl
  where
    loop_Ends :
        (target == 0 || not (target % 4096 == 0)) ≡ false
        → Ends target 0 (after_events (opened ∷ allocated ∷ []) (write_loop k target fuel 0 0 []))
    loop_Ends e =
        let end =
          write_loop-Ends target (ground (arith, e)) (ground (arith, e)) k honest fuel 0 0 small
            (omega arith) (omega (arith, enough)) in
        record {
          exit = end.exit;
          returns = end.returns;
          closes_all = omega (arith, end.closes_all);
          frees_all = omega (arith, end.frees_all);
          in_buffer = (omega arith, (omega arith, end.in_buffer));
          within = end.within;
          contents = end.contents;
          complete = end.complete;
        }

    by_tests :
        (bad no_file no_memory : Bool)
        → (target == 0 || not (target % 4096 == 0)) ≡ bad
        → Ends target 0 (
            if bad
            then give_up 2 (size_refused ∷ [])
            else if no_file
            then give_up 1 (create_failed ∷ [])
            else if no_memory
            then give_up 1 (opened ∷ memory_refused ∷ closed ∷ unlinked ∷ [])
            else after_events (opened ∷ allocated ∷ []) (write_loop k target fuel 0 0 []))
    by_tests true o m e =
        give_up-Ends target 2 (size_refused ∷ []) (omega arith) refl refl (omega arith)
    by_tests false true m e =
        give_up-Ends target 1 (create_failed ∷ []) (omega arith) refl refl (omega arith)
    by_tests false false true e =
        give_up-Ends target 1 (opened ∷ memory_refused ∷ closed ∷ unlinked ∷ []) (omega arith) refl
          refl (omega arith)
    by_tests false false false e = loop_Ends e

-- The size that the arguments ask for.
abbrev pub size_of : (List ℕ → Option ℕ) → List (List ℕ) → ℕ
size_of stoull (program ∷ size ∷ path ∷ []) = parse_size stoull size
size_of stoull args = 0

-- If no call of write reports more bytes than it was asked for, the prefill tool returns with
-- fuel for one call of write for each byte of the size that its arguments ask for, and one more.
-- Every file that it opened is closed once and every buffer freed once, and no call of write
-- asks for more than the buffer holds. It leaves no file, or one with as many bytes 0x55 as it
-- counts as written, and if the exit code is 0 then the size was positive and a multiple of 4096
-- and the file has all its bytes.
pub fill_main-Ends :
    (stoull : List ℕ → Option ℕ) (k : Calls) (fuel : ℕ) (args : List (List ℕ))
    → ((i n : ℕ) → pos_part (k.write_result i n) ≤ n)
    → size_of stoull args < fuel
    → Ends (size_of stoull args) 0 (fill_main stoull k fuel args)
unfolding fill_main
fill_main-Ends stoull k fuel (program ∷ size ∷ path ∷ []) honest enough =
    fill_target-Ends k fuel (parse_size stoull size) honest (parse_size-small stoull size) enough
fill_main-Ends stoull k fuel args honest enough =
    give_up-Ends 0 2 (usage ∷ []) (omega arith) refl refl (omega arith)
