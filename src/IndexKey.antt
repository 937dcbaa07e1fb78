-- ===== src/IndexKey.antt =====
-- src/benchmark/indexkey.h: `IndexKey`, a key that keeps up to 64 bytes in the object and longer ones
-- in an array of its own.
--
-- The objects and the arrays are numbered. The build defines `NDEBUG`, so that there are no assertions.
-- A step gives `none` where the behaviour of the source is undefined: a write past the buffer in the
-- object, `delete[]` of what `new[]` has not made or of what is gone, a read of bytes through a null or
-- dangling pointer. What a fresh buffer holds is an argument.
pub mod Shapes
pub mod Forms
pub mod Ownership
pub mod Filling
pub mod Moving
pub mod Operations
pub mod Copying
pub mod Refinement
pub mod Equality
pub mod Serial
mod Tests
use fdp_rocks.Base.{
  ℕ, ◌+◌, ◌*◌, ◌≡◌, Bool, true, false, Option, none, some, List, [], ◌∷◌, ◌++◌, map, ltb, leb, ◌==◌,
  if◌then◌else◌, length, take, drop, u32, ◌-◌,
}
use fdp_rocks.Base.Chain.{◌>>=◌}
use fdp_rocks.Base.Family.{update}
use fdp_rocks.Base.Bytes.{memcmp}
use fdp_rocks.Slice.{is_zero}

-- `data_`: null, the buffer in an object, or an array.
pub data Pointer : Type 0 where
  null : Pointer
  buffer : ℕ → Pointer
  array : ℕ → Pointer

-- `IndexKey`
pub record Key : Type 0 where
  pub len : ℕ
  pub data_ptr : Pointer
  pub stack_key : List ℕ

-- The objects that live, the arrays that `new[]` has made and `delete[]` not yet taken, and the number
-- of the next one.
pub record Store : Type 0 where
  pub keys : ℕ → Option Key
  pub heap : ℕ → Option (List ℕ)
  pub next : ℕ

-- `stackLen_`
abbrev pub stack_len : ℕ
stack_len = 64

unfoldable pub put : ℕ → Key → Store → Store
put i k s = record s { keys = update s.keys i (some k) }

unfoldable pub delete_array : Pointer → Store → Option Store
delete_array null s = some s
delete_array (buffer i) s = none
delete_array (array a) s = do bs ← s.heap a; some (record s { heap = update s.heap a none })

-- Free the array of a key that is longer than the buffer.
unfoldable pub release : Key → Store → Option Store
release k s = if ltb stack_len k.len then delete_array k.data_ptr s else some s

-- `new uint8_t[length bs]`, filled with `bs`.
unfoldable pub new_array : List ℕ → Store → Store
new_array bs s = record s { heap = update s.heap s.next (some bs); next = s.next + 1 }

-- `memcpy (to, from, n)`
abbrev pub copy_into : List ℕ → List ℕ → ℕ → List ℕ
copy_into to from n = take n from ++ drop n to

-- The default constructor, with what the buffer happens to hold.
unfoldable pub construct : ℕ → List ℕ → Store → Option Store
construct i junk s = some (put i (record { len = 0; data_ptr = null; stack_key = junk }) s)

-- The move constructor.
unfoldable pub move_construct : ℕ → ℕ → List ℕ → Store → Option Store
move_construct i j junk s = do
  key ← s.keys j
  some (
      if ltb stack_len key.len
      then put i (record { len = key.len; data_ptr = key.data_ptr; stack_key = junk })
          (put j (record key { data_ptr = null }) s)
      else put i
          (record {
            len = key.len;
            data_ptr = buffer i;
            stack_key = copy_into junk key.stack_key key.len;
          })
          s)

-- The move assignment. Of an object to itself, it takes the pointer and then sets it to null.
unfoldable pub move_assign : ℕ → ℕ → Store → Option Store
move_assign i j s = do
  this ← s.keys i
  key ← s.keys j
  freed ← release this s
  some (
      if ltb stack_len key.len
      then if i == j
        then put i (record this { data_ptr = null }) freed
        else put i (record this { len = key.len; data_ptr = key.data_ptr })
            (put j (record key { data_ptr = null }) freed)
      else put i
          (record {
            len = key.len;
            data_ptr = buffer i;
            stack_key = copy_into this.stack_key key.stack_key key.len;
          })
          freed)

-- The constructor from a `std::string`.
unfoldable pub from_string : ℕ → List ℕ → List ℕ → Store → Option Store
from_string i bs junk s =
    if leb (length bs) stack_len
    then some (
        put i
          (record {
            len = u32 (length bs);
            data_ptr = buffer i;
            stack_key = copy_into junk bs (length bs);
          })
          s)
    else none

-- `set`
unfoldable pub set : ℕ → List ℕ → Store → Option Store
set i bs s = do
  this ← s.keys i
  freed ← release this s
  some (
      if leb (length bs) stack_len
      then put i
          (record {
            len = u32 (length bs);
            data_ptr = buffer i;
            stack_key = copy_into this.stack_key bs (length bs);
          })
          freed
      else put i (record this { len = u32 (length bs); data_ptr = array freed.next })
          (new_array bs freed))

-- `setKeyLen` from the length in 32 bits on, with what a new array of that length happens to hold.
unfoldable pub set_len : ℕ → List ℕ → Store → Option Store
set_len i fresh s = do
  this ← s.keys i
  if this.len == length fresh then some s else (do
    freed ← release this s
    some (
        if ltb stack_len (length fresh)
        then put i (record this { len = length fresh; data_ptr = array freed.next })
            (new_array fresh freed)
        else put i (record this { len = length fresh; data_ptr = buffer i }) freed))

-- `setKeyLen (length fresh)`: the parameter `newLen` is a `uint32_t`.
unfoldable pub set_key_len : ℕ → List ℕ → Store → Option Store
unfolding set_len
set_key_len i fresh s = set_len i (take (u32 (length fresh)) fresh) s

-- The destructor; the object is gone after it.
unfoldable pub destroy : ℕ → Store → Option Store
destroy i s = do
  this ← s.keys i
  freed ← release this s
  some (record freed { keys = update freed.keys i none })

-- `len_` bytes from `data_` on.
unfoldable pub read : Store → ℕ → Pointer → Option (List ℕ)
read s n null = if n == 0 then some [] else none
read s n (buffer i) = do k ← s.keys i; if leb n stack_len then some (take n k.stack_key) else none
read s n (array a) = do bs ← s.heap a; if leb n (length bs) then some (take n bs) else none

-- The conversion to `std::string`.
unfoldable pub to_string : Store → ℕ → Option (List ℕ)
to_string s i = do k ← s.keys i; read s k.len k.data_ptr

-- `operator==` of `i` and `j`: `&k[0]` is where `data_` of `k` points to, and `memcmp` of no bytes
-- finds no difference.
unfoldable pub equals : ℕ → ℕ → Store → Option Bool
equals i j s = do
  this ← s.keys i
  k ← s.keys j
  if k.len == this.len
      then (do
        theirs ← read s k.len k.data_ptr
        mine ← read s this.len this.data_ptr
        some (is_zero (memcmp theirs mine this.len)))
      else some false

-- `CopyForSerialization` of `i` to `target`: it points to the buffer in `i`.
unfoldable pub copy_for_serialization : ℕ → ℕ → Store → Option Store
copy_for_serialization i target s = do
  this ← s.keys i
  other ← s.keys target
  if leb this.len stack_len
      then some (
          put target
            (record {
              len = this.len;
              data_ptr = buffer i;
              stack_key = copy_into other.stack_key this.stack_key this.len;
            })
            s)
      else none

-- `FixForDeserialize`
unfoldable pub fix_for_deserialize : ℕ → Store → Option Store
fix_for_deserialize i s = do this ← s.keys i; some (put i (record this { data_ptr = buffer i }) s)
