-- ===== src/KeyOrder/Saving.antt =====
-- src/benchmark/rocksdb_bench.cpp: what `SaveKeysToFile` leaves of the other files, where every file
-- can be written.
use fdp_rocks.Base.{ℕ, ◌≡◌, ◌≢◌, refl, sym, Bool, true, false, List, arith, if◌then◌else◌}
use fdp_rocks.Base.Text.{text_eq_sound, text_eq}
use fdp_rocks.KeyOrder.{
  KeyFlags, Disk, Reading, readable, Directory, missing, uncreatable, directory, other,
  key_order_file_path, bytes_of_keys, set_file, write_keys, save_in, save_keys,
}
use fdp_rocks.KeyOrder.Files.{set_file-same}

set_file-other :
    (disk : Disk) (path p : List ℕ) (found : Reading)
    → path ≢ p
    → (set_file disk path found).files p ≡ disk.files p
unfolding set_file
set_file-other disk path p found n = by_test (text_eq p path) (text_eq_sound p path)
  where
    by_test :
        (same : Bool)
        → (same ≡ true → p ≡ path)
        → (if same then found else disk.files p) ≡ disk.files p
    by_test true h = absurd (n (sym (h refl)))
    by_test false h = refl

-- The directory is there or can be made.
abbrev pub creatable : Directory → Bool
creatable missing = true
creatable uncreatable = false
creatable directory = true
creatable other = false

-- Every file can be written.
abbrev pub Writable : Disk → Type 0
Writable disk =
    (creatable disk.dir ≡ true)
    × ((path : List ℕ) → disk.opens path ≡ true)
    × ((path : List ℕ) → disk.writes path ≡ true)

-- A save that has worked: the file is there, and the others are as they were.
abbrev pub Saved : Disk → List ℕ → List ℕ → Bool × Disk → Type 0
Saved disk path bs out =
    Writable out.1
    × (out.1.files path ≡ readable bs)
    × ((p : List ℕ) → path ≢ p → out.1.files p ≡ disk.files p)

set_file-Writable :
    (disk : Disk) (path : List ℕ) (found : Reading)
    → Writable disk
    → Writable (set_file disk path found)
unfolding set_file
set_file-Writable disk path found w = w

Saved-write_keys :
    (f : KeyFlags) (disk : Disk) (tid : ℕ) (ks : List ℕ)
    → Writable disk
    → Saved disk (key_order_file_path f tid) (bytes_of_keys ks) (write_keys f disk tid ks)
unfolding write_keys
Saved-write_keys f disk tid ks w =
    let path = key_order_file_path f tid in
    let found = readable (bytes_of_keys ks) in
    rw (w.1 path, w.2 path)
      (
        set_file-Writable disk path found w,
        set_file-same disk path found,
        λ p n. set_file-other disk path p found n,
      )

pub Saved-save_keys :
    (f : KeyFlags) (disk : Disk) (tid : ℕ) (ks : List ℕ)
    → Writable disk
    → Saved disk (key_order_file_path f tid) (bytes_of_keys ks) (save_keys f disk tid ks)
unfolding save_keys save_in
Saved-save_keys f disk tid ks w = by_dir disk.dir w.0
  where
    by_dir :
        (d : Directory)
        → creatable d ≡ true
        → Saved disk (key_order_file_path f tid) (bytes_of_keys ks) (save_in d f disk tid ks)
    by_dir missing e = Saved-write_keys f (record disk { dir = directory }) tid ks (refl, w.1, w.2)
    by_dir uncreatable e = absurd (ground (arith, e))
    by_dir directory e = Saved-write_keys f disk tid ks w
    by_dir other e = absurd (ground (arith, e))
