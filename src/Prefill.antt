-- ===== src/Prefill.antt =====
-- src/prefill/fill.cpp: `ParseSize` and `main`, which fills a device with a file of a given size.
--
-- The C library's calls are what they answer: `open` and `posix_memalign` succeed or not, the calls
-- of `write` give a stream of results, and `fsync` a number. A `write` that takes n bytes appends the
-- first n bytes of the buffer to the file. The process is its exit code, the file and the log of what
-- it does; of a message the log keeps the number of bytes in it, not the clock and the percentage.
mod Sizes
mod Loop
mod Total
mod Success
mod Tests
use fdp_rocks.Base.{
  ℕ, zero, suc, ◌+◌, ◌-◌, ◌*◌, ◌%◌, ◌^◌, Bool, true, false, not, ◌&&◌, ◌||◌, Option, none, some,
  List, [], ◌∷◌, ◌++◌, replicate, ltb, leb, ◌==◌, if◌then◌else◌, u64, min,
}
use fdp_rocks.Base.Int.{ℤ, pos, negsuc}

unfoldable pub is_digit : ℕ → Bool
is_digit c = leb b'0' c && leb c b'9'

-- Its last character, and what stands before it.
unfoldable pub split_last : ℕ → List ℕ → List ℕ × ℕ
split_last c [] = ([], c)
split_last c (d ∷ ds) = let (front, last) = split_last d ds in (c ∷ front, last)

-- The factor of a unit.
unfoldable pub unit_factor : ℕ → Option ℕ
unit_factor c =
    if c == b'K' || c == b'k'
    then some (2 ^ 10)
    else if c == b'M' || c == b'm'
    then some (2 ^ 20)
    else if c == b'G' || c == b'g'
    then some (2 ^ 30)
    else if c == b'T' || c == b't'
    then some (2 ^ 40)
    else none

-- `std::stoull(number) * multiplier`, with 0 for an exception.
unfoldable pub scaled : Option ℕ → ℕ → ℕ
scaled none multiplier = 0
scaled (some n) multiplier = u64 (n * multiplier)

unfoldable pub with_unit : (List ℕ → Option ℕ) → List ℕ → Option ℕ → ℕ
unfolding scaled
with_unit stoull front none = 0
with_unit stoull front (some factor) = scaled (stoull front) factor

-- `ParseSize`, where `stoull` stands for `std::stoull`, with `none` for its exceptions.
unfoldable pub parse_size : (List ℕ → Option ℕ) → List ℕ → ℕ
unfolding split_last unit_factor with_unit is_digit
parse_size stoull [] = 0
parse_size stoull (c ∷ cs) =
    let (front, unit) = split_last c cs in
    if is_digit unit then scaled (stoull (c ∷ cs)) 1 else with_unit stoull front (unit_factor unit)

-- What a call of `write` or `fsync` returns.
abbrev pub Result : Type 0
Result = ℤ

-- What the process does that others see: its calls on the file and the buffer, and its messages.
pub data Event : Type 0 where
  usage : Event
  size_refused : Event
  create_failed : Event
  opened : Event
  memory_refused : Event
  allocated : Event
  wrote : (size : ℕ) → Event
  write_failed : (written : ℕ) → Event
  progress : (written : ℕ) → Event
  synced : Event
  freed : Event
  closed : Event
  unlinked : Event
  sync_failed : Event
  reported : (written : ℕ) → Event

-- How the process ends: its exit code, `written`, the bytes of the file that it made, if there is
-- one, and what it did. `none` for the code: the fuel ran out.
pub record Run : Type 0 where
  pub code : Option ℕ
  pub written : ℕ
  pub file : Option (List ℕ)
  pub events : List Event

abbrev pub buffer_size : ℕ
buffer_size = 4194304

-- Every byte of the buffer, after `memset`.
abbrev pub fill_byte : ℕ
fill_byte = 0x55

-- The answers of the C library.
pub record Calls : Type 0 where
  pub open_fine : Bool
  pub memalign_fine : Bool
  pub write_result : ℕ → ℕ → Result
  pub sync_result : Result

unfoldable pub after_events : List Event → Run → Run
after_events es r = record r { events = es ++ r.events }

-- From the call of `fsync` on.
unfoldable pub finish : Result → ℕ → List ℕ → Run
finish (pos zero) written file = record {
  code = some 0;
  written = written;
  file = some file;
  events = synced ∷ freed ∷ closed ∷ reported written ∷ [];
}
finish (pos (suc n)) written file = record {
  code = some 1;
  written = written;
  file = some file;
  events = synced ∷ freed ∷ closed ∷ sync_failed ∷ [];
}
finish (negsuc n) written file = record {
  code = some 1;
  written = written;
  file = some file;
  events = synced ∷ freed ∷ closed ∷ sync_failed ∷ [];
}

-- The percentage is printed at each GiB and at the end.
unfoldable pub progress_of : ℕ → ℕ → List Event
progress_of target written =
    if (written % 2 ^ 30) == 0 || written == target then progress written ∷ [] else []

unfoldable pub fail_write : ℕ → ℕ → List ℕ → Run
fail_write size written file = record {
  code = some 1;
  written = written;
  file = some file;
  events = wrote size ∷ write_failed written ∷ freed ∷ closed ∷ [];
}

-- What follows a call of `write` for `size` bytes: the return on a failure, or the rest of the loop
-- with the bytes of the buffer that the call took.
unfoldable pub after_write : Result → ℕ → ℕ → ℕ → List ℕ → (ℕ → List ℕ → Run) → Run
unfolding after_events progress_of fail_write
after_write (pos zero) target size written file rest = fail_write size written file
after_write (pos (suc n)) target size written file rest =
    let written' = u64 (written + suc n) in
    after_events (wrote size ∷ progress_of target written')
      (rest written' (file ++ replicate (suc n) fill_byte))
after_write (negsuc n) target size written file rest = fail_write size written file

-- The loop, from the `i`-th call of `write` on.
unfoldable pub write_loop : Calls → ℕ → ℕ → ℕ → ℕ → List ℕ → Run
unfolding finish after_write
write_loop k target zero i written file = record {
  code = none;
  written = written;
  file = some file;
  events = [];
}
write_loop k target (suc fuel) i written file =
    let rest = write_loop k target fuel (i + 1) in
    let size = min buffer_size (target - written) in
    if ltb written target
    then after_write (k.write_result i size) target size written file rest
    else finish k.sync_result written file

-- A return before the loop.
unfoldable pub give_up : ℕ → List Event → Run
give_up code events = record { code = some code; written = 0; file = none; events = events }

-- `main`, on the size that `ParseSize` gives.
unfoldable pub fill_target : Calls → ℕ → ℕ → Run
unfolding give_up after_events write_loop
fill_target k fuel target =
    if target == 0 || not (target % 4096 == 0)
    then give_up 2 (size_refused ∷ [])
    else if not k.open_fine
    then give_up 1 (create_failed ∷ [])
    else if not k.memalign_fine
    then give_up 1 (opened ∷ memory_refused ∷ closed ∷ unlinked ∷ [])
    else after_events (opened ∷ allocated ∷ []) (write_loop k target fuel 0 0 [])

-- `main`, on its arguments.
unfoldable pub fill_main : (List ℕ → Option ℕ) → Calls → ℕ → List (List ℕ) → Run
unfolding fill_target parse_size
fill_main stoull k fuel (program ∷ size ∷ path ∷ []) = fill_target k fuel (parse_size stoull size)
fill_main stoull k fuel args = give_up 2 (usage ∷ [])
