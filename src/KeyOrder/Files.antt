-- ===== src/KeyOrder/Files.antt =====
-- What `LoadKeysFromFile` reads of what `SaveKeysToFile` wrote, and the paths of the workers.
use fdp_rocks.Base.{
  ℕ, ◌*◌, ◌%◌, ◌^◌, ◌<◌, ◌≡◌, refl, sym, ap, ◌∙◌, Bool, true, false, List, [], ◌∷◌, ◌++◌, arith,
  ◌==◌, if◌then◌else◌, length, ◌≢◌,
}
use fdp_rocks.Base.Bytes.{of_le_bytes-le_bytes}
use fdp_rocks.Base.Permutation.{Below}
use fdp_rocks.Base.Text.{text_eq_refl, codes, decimal_int, decimal_int-injective}
use fdp_rocks.KeyOrder.{
  KeyFlags, Disk, Reading, readable, Directory, missing, uncreatable, directory, other, path_prefix,
  key_order_file_path, keys_of_bytes, bytes_of_keys, load_keys, load_from, save_keys, save_in,
  set_file, write_keys,
}

keys_of_bytes-bytes_of_keys :
    (ks : List ℕ) → Below (2 ^ 64) ks → keys_of_bytes (bytes_of_keys ks) ≡ ks
unfolding keys_of_bytes bytes_of_keys
keys_of_bytes-bytes_of_keys [] h = refl
keys_of_bytes-bytes_of_keys (k ∷ ks) h =
    rw (of_le_bytes-le_bytes 8 k h.0, keys_of_bytes-bytes_of_keys ks h.1)

length-bytes_of_keys : (ks : List ℕ) → length (bytes_of_keys ks) ≡ 8 * length ks
unfolding bytes_of_keys
length-bytes_of_keys [] = omega arith
length-bytes_of_keys (k ∷ ks) = omega (arith, length-bytes_of_keys ks)

pub set_file-same :
    (disk : Disk) (path : List ℕ) (r : Reading) → (set_file disk path r).files path ≡ r
unfolding set_file
set_file-same disk path r = rw (text_eq_refl path)

write_keys-files :
    (f : KeyFlags) (disk : Disk) (tid : ℕ) (ks : List ℕ)
    → (write_keys f disk tid ks).0 ≡ true
    → (write_keys f disk tid ks).1.files (key_order_file_path f tid) ≡ readable (bytes_of_keys ks)
unfolding write_keys
write_keys-files f disk tid ks =
    by_tests (disk.opens path) (disk.writes path) _ _ _
      (set_file-same disk path (readable (bytes_of_keys ks)))
  where
    path : List ℕ
    path = key_order_file_path f tid

    by_tests :
        (o w : Bool) (a b c : Disk)
        → a.files path ≡ readable (bytes_of_keys ks)
        → (if◌then◌else◌ {A = Bool × Disk} o (if w then (true, a) else (false, b)) (false, c)).0
          ≡ true
        → (if◌then◌else◌ {A = Bool × Disk} o
              (if w then (true, a) else (false, b))
              (false, c)).1.files
            path
          ≡ readable (bytes_of_keys ks)
    by_tests false w a b c h e = ground arith
    by_tests true false a b c h e = ground arith
    by_tests true true a b c h e = h

pub load_from-readable :
    (ks old : List ℕ) → Below (2 ^ 64) ks → load_from (readable (bytes_of_keys ks)) old ≡ (true, ks)
unfolding load_from
load_from-readable ks old h =
    let test : (length (bytes_of_keys ks) % 8 == 0) ≡ true =
      ground (arith, length-bytes_of_keys ks) in
    rw test (ap (λ xs. (true, xs)) (keys_of_bytes-bytes_of_keys ks h))

save_in-files :
    (d : Directory) (f : KeyFlags) (disk : Disk) (tid : ℕ) (ks : List ℕ)
    → (save_in d f disk tid ks).0 ≡ true
    → (save_in d f disk tid ks).1.files (key_order_file_path f tid) ≡ readable (bytes_of_keys ks)
unfolding save_in
save_in-files missing f disk tid ks = write_keys-files f (record disk { dir = directory }) tid ks
save_in-files uncreatable f disk tid ks = λ e. absurd (ground (arith, e))
save_in-files directory f disk tid ks = write_keys-files f disk tid ks
save_in-files other f disk tid ks = λ e. absurd (ground (arith, e))

-- If SaveKeysToFile reports success on 64-bit keys, then LoadKeysFromFile of the same worker
-- reports success with these keys, whatever its vector held before.
pub load_keys-save_keys :
    (f : KeyFlags) (disk : Disk) (tid : ℕ) (ks old : List ℕ)
    → Below (2 ^ 64) ks
    → (save_keys f disk tid ks).0 ≡ true
    → load_keys f (save_keys f disk tid ks).1 tid old ≡ (true, ks)
unfolding load_keys save_keys
load_keys-save_keys f disk tid ks old h e =
    ap (λ r. load_from r old) (save_in-files disk.dir f disk tid ks e) ∙ load_from-readable ks old h

generated_path :
    (f : KeyFlags) (k : ℕ)
    → f.key_file_path ≡ []
    → key_order_file_path f k ≡ path_prefix f ++ (decimal_int k ++ codes ".bin")
unfolding key_order_file_path
generated_path f k e = rw e refl

-- Without --key_file_path, two workers with different numbers below 2^32, which are made ints,
-- have different key files.
pub key_order_file_path-injective :
    (f : KeyFlags) (i j : ℕ)
    → f.key_file_path ≡ []
    → i < 2 ^ 32
    → j < 2 ^ 32
    → i ≢ j
    → key_order_file_path f i ≢ key_order_file_path f j
key_order_file_path-injective f i j e hi hj n h = n (
    decimal_int-injective (path_prefix f) b'.' (b'b' ∷ b'i' ∷ b'n' ∷ []) i j (omega arith) hi hj
      (sym (generated_path f i e) ∙ h ∙ generated_path f j e))
