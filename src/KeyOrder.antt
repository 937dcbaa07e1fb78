-- ===== src/KeyOrder.antt =====
-- src/benchmark/rocksdb_bench.cpp: the key orders of the workers: `GetKeyOrderFilePath`,
-- `LoadKeysFromFile`, `SaveKeysToFile`, `GenerateZipfianKeys`, `GenerateHotspotZipfianKeys` and
-- `PrepareShuffledKeys`.
--
-- The C++ library's generators are the parameter `Rng`: seeded engines, `std::shuffle`, and draws
-- from the two weighted distributions and the uniform one. The weights themselves, which the source
-- computes in `double`s, belong to those draws. The file system is a record of what each call meets.
-- A file is read on the little-endian machine that wrote it.
pub mod Files
pub mod Prepare
pub mod Counts
pub mod Bounds
pub mod Printed
pub mod Saving
pub mod Reuse
pub mod Allotment
pub mod Partition
mod Tests
use mathlib.Core.List.{Perm}
use fdp_rocks.Base.{
  ℕ, zero, suc, ◌+◌, ◌-◌, ◌*◌, ◌/◌, ◌%◌, ◌^◌, ◌<◌, ◌≤◌, Bool, true, false, ◌&&◌, ◌||◌, Option, none,
  some, List, [], ◌∷◌, ◌++◌, ltb, ◌==◌, if◌then◌else◌, length, u32, u64,
}
use fdp_rocks.Base.Bytes.{le_bytes, of_le_bytes}
use fdp_rocks.Base.Family.{update}
use fdp_rocks.Base.Text.{codes, text_eq, decimal, decimal_int}

-- The flags that these functions read, with `num_`.
pub record KeyFlags : Type 0 where
  pub num : ℕ
  pub worker_threads : ℕ
  pub key_order_dir : List ℕ
  pub key_distribution : List ℕ
  pub key_sort : List ℕ
  pub key_file_path : List ℕ

abbrev pub is_empty {ℓ} : {A : Type ℓ} → List A → Bool
is_empty [] = true
is_empty (x ∷ xs) = false

-- What comes before the number of the worker in a generated path.
unfoldable pub path_prefix : KeyFlags → List ℕ
path_prefix f =
    f.key_order_dir
    ++ (codes "/keys_num_"
        ++ (decimal f.num
            ++ (codes "_threads_"
                ++ (decimal f.worker_threads
                    ++ (codes "_dist_"
                        ++ (f.key_distribution
                            ++ ((if text_eq f.key_distribution (codes "uniform")
                                  then codes "_sort_" ++ f.key_sort
                                  else [])
                                ++ codes "_tid_")))))))

-- `GetKeyOrderFilePath`, whose parameter `tid` is an `int`.
unfoldable pub key_order_file_path : KeyFlags → ℕ → List ℕ
unfolding path_prefix decimal_int
key_order_file_path f tid =
    if is_empty f.key_file_path
    then path_prefix f ++ (decimal_int tid ++ codes ".bin")
    else f.key_file_path

-- What an input stream meets at a path: no file, one that reads well, or one whose read fails.
pub data Reading : Type 0 where
  absent : Reading
  readable : List ℕ → Reading
  failing : List ℕ → Reading

-- What `stat` and `mkdir` say of the directory.
pub data Directory : Type 0 where
  missing : Directory
  uncreatable : Directory
  directory : Directory
  other : Directory

pub record Disk : Type 0 where
  pub files : List ℕ → Reading
  pub dir : Directory
  pub opens : List ℕ → Bool
  pub writes : List ℕ → Bool

-- The `uint64_t`s in the bytes of a file.
unfoldable pub keys_of_bytes : List ℕ → List ℕ
keys_of_bytes (a ∷ b ∷ c ∷ d ∷ e ∷ f ∷ g ∷ h ∷ bs) =
    of_le_bytes (a ∷ b ∷ c ∷ d ∷ e ∷ f ∷ g ∷ h ∷ []) ∷ keys_of_bytes bs
keys_of_bytes bs = []

unfoldable pub bytes_of_keys : List ℕ → List ℕ
bytes_of_keys [] = []
bytes_of_keys (k ∷ ks) = le_bytes 8 k ++ bytes_of_keys ks

-- `LoadKeysFromFile` after the path is known: the result, and `keys`.
unfoldable pub load_from : Reading → List ℕ → Bool × List ℕ
unfolding keys_of_bytes
load_from absent keys = (false, keys)
load_from (readable bs) keys =
    if (length bs % 8) == 0 then (true, keys_of_bytes bs) else (false, keys)
load_from (failing bs) keys = if (length bs % 8) == 0 then (false, []) else (false, keys)

-- `LoadKeysFromFile`
unfoldable pub load_keys : KeyFlags → Disk → ℕ → List ℕ → Bool × List ℕ
unfolding load_from key_order_file_path
load_keys f disk tid keys = load_from (disk.files (key_order_file_path f tid)) keys

unfoldable pub set_file : Disk → List ℕ → Reading → Disk
set_file disk path r = record disk { files = λ p. if text_eq p path then r else disk.files p }

-- The write of `SaveKeysToFile`, with the directory there. What a failed write leaves is a file that
-- does not read well.
unfoldable pub write_keys : KeyFlags → Disk → ℕ → List ℕ → Bool × Disk
unfolding key_order_file_path set_file bytes_of_keys
write_keys f disk tid keys =
    let path = key_order_file_path f tid in
    if disk.opens path
    then if disk.writes path
      then (true, set_file disk path (readable (bytes_of_keys keys)))
      else (false, set_file disk path (failing (bytes_of_keys keys)))
    else (false, disk)

-- The rest of `SaveKeysToFile`, by what it finds at the directory's path.
unfoldable pub save_in : Directory → KeyFlags → Disk → ℕ → List ℕ → Bool × Disk
unfolding write_keys
save_in missing f disk tid keys = write_keys f (record disk { dir = directory }) tid keys
save_in uncreatable f disk tid keys = (false, disk)
save_in directory f disk tid keys = write_keys f disk tid keys
save_in other f disk tid keys = (false, disk)

-- `SaveKeysToFile`
unfoldable pub save_keys : KeyFlags → Disk → ℕ → List ℕ → Bool × Disk
unfolding save_in
save_keys f disk tid keys = save_in disk.dir f disk tid keys

-- The generators of <random> and `std::shuffle`, with what their documentation says of them.
-- `zipf_draw n` draws an index below `n` with the weights of `GenerateZipfianKeys`, `hotspot_draw`
-- one below 1,000,000 with those of `GenerateHotspotZipfianKeys`, `uniform_draw lo hi` a number from
-- `lo` to `hi`.
pub record Rng : Type 1 where
  pub Gen : Type 0
  pub mt19937 : ℕ → Gen
  pub shuffle : Gen → List ℕ → List ℕ × Gen
  pub zipf_draw : ℕ → Gen → ℕ × Gen
  pub hotspot_draw : Gen → ℕ × Gen
  pub uniform_draw : ℕ → ℕ → Gen → ℕ × Gen
  pub shuffle-Perm : (g : Gen) (xs : List ℕ) → Perm (shuffle g xs).0 xs
  pub zipf_draw-lt : (n : ℕ) (g : Gen) → 0 < n → (zipf_draw n g).0 < n
  pub hotspot_draw-lt : (g : Gen) → (hotspot_draw g).0 < 1000000
  pub uniform_draw-le : (lo hi : ℕ) (g : Gen) → lo ≤ hi → (uniform_draw lo hi g).0 ≤ hi

abbrev pub fixed_seed : ℕ
fixed_seed = 0x1234567890ABCDEF

abbrev pub num_hotspots : ℕ
num_hotspots = 60

abbrev pub hotspot_size : ℕ
hotspot_size = 1000000

abbrev pub keys_per_hotspot : ℕ
keys_per_hotspot = 4000000

-- `for (key = start; key < start + n; ++key)`
unfoldable pub range_from : ℕ → ℕ → List ℕ
range_from start zero = []
range_from start (suc n) = start ∷ range_from (start + 1) n
