-- ===== src/TransformKey/Order.antt =====
-- The encoding is big-endian, so that the order of the stored keys is that of their numbers.
use native.Mathlib.Nat.{pow-suc}
use fdp_rocks.Base.{
  ℕ, zero, suc, ◌+◌, ◌*◌, ◌/◌, ◌%◌, ◌^◌, ◌<◌, ◌≡◌, refl, sym, ap, ap₂, ◌∙◌, List, [], ◌∷◌, ◌++◌,
  arith, length, length-append,
}
use fdp_rocks.Base.Bytes.{be_bytes, three_way, then_by, memcmp, memcmp-snoc}
use fdp_rocks.TransformKey.{bswap64, transform_key}

length-be_bytes : (n x : ℕ) → length (be_bytes n x) ≡ n
length-be_bytes zero x = refl
length-be_bytes (suc n) x =
    omega
      (arith, length-append (be_bytes n (x / 256)) ((x % 256) ∷ []), length-be_bytes n (x / 256))

three_way-digits :
    (x y : ℕ)
    → three_way x y ≡ then_by (three_way (x / 256) (y / 256)) (three_way (x % 256) (y % 256))
three_way-digits x y = ground arith

memcmp-be_bytes :
    (n x y : ℕ) → x < 256 ^ n → y < 256 ^ n → memcmp (be_bytes n x) (be_bytes n y) n ≡ three_way x y
unfolding memcmp
memcmp-be_bytes zero x y hx hy = ground arith
memcmp-be_bytes (suc n) x y hx hy =
    memcmp-snoc (be_bytes n (x / 256)) (be_bytes n (y / 256)) (x % 256) (y % 256) n
      (length-be_bytes n (x / 256)) (length-be_bytes n (y / 256))
    ∙ ap (λ c. then_by c (three_way (x % 256) (y % 256)))
        (memcmp-be_bytes n (x / 256) (y / 256) (omega (arith, pow-suc 256 n))
          (omega (arith, pow-suc 256 n)))
    ∙ sym (three_way-digits x y)

transform_key-be_bytes : (x : ℕ) → transform_key x ≡ be_bytes 8 x
unfolding transform_key bswap64
transform_key-be_bytes x = ground arith

-- The order of the keys.
memcmp-transform_key :
    (x y : ℕ)
    → x < 2 ^ 64
    → y < 2 ^ 64
    → memcmp (transform_key x) (transform_key y) 8 ≡ three_way x y
memcmp-transform_key x y hx hy =
    ap₂ (λ a b. memcmp a b 8) (transform_key-be_bytes x) (transform_key-be_bytes y)
    ∙ memcmp-be_bytes 8 x y (omega arith) (omega arith)

-- The number that a big-endian byte string stands for.
pub decode_from : ℕ → List ℕ → ℕ
decode_from acc [] = acc
decode_from acc (b ∷ bs) = decode_from (acc * 256 + b) bs

decode_from-snoc :
    (acc : ℕ) (bs : List ℕ) (b : ℕ) → decode_from acc (bs ++ b ∷ []) ≡ decode_from acc bs * 256 + b
unfolding decode_from
decode_from-snoc acc [] b = refl
decode_from-snoc acc (c ∷ bs) b = decode_from-snoc (acc * 256 + c) bs b

decode_from-be_bytes : (n x : ℕ) → x < 256 ^ n → decode_from 0 (be_bytes n x) ≡ x
unfolding decode_from
decode_from-be_bytes zero x h = omega arith
decode_from-be_bytes (suc n) x h = omega (
  arith,
  decode_from-snoc 0 (be_bytes n (x / 256)) (x % 256),
  decode_from-be_bytes n (x / 256) (omega (arith, pow-suc 256 n)),
)

-- The length of a key, and the way back.
pub decode_from-transform_key :
    (x : ℕ) → x < 2 ^ 64 → (length (transform_key x) ≡ 8) × (decode_from 0 (transform_key x) ≡ x)
decode_from-transform_key x h =
    rw (transform_key-be_bytes x) (length-be_bytes 8 x, decode_from-be_bytes 8 x (omega arith))

-- The stored keys of two 64-bit numbers compare under memcmp, the order of the default
-- comparator of RocksDB, as the numbers do; each has eight bytes, and read as a big-endian
-- number they give the number back.
pub transform_key_lem :
    (x y : ℕ)
    → x < 2 ^ 64
    → y < 2 ^ 64
    → (memcmp (transform_key x) (transform_key y) 8 ≡ three_way x y)
      × (length (transform_key x) ≡ 8)
      × (decode_from 0 (transform_key x) ≡ x)
transform_key_lem x y hx hy =
    let (size, back) = decode_from-transform_key x hx in
    (memcmp-transform_key x y hx hy, size, back)
