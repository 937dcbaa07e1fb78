-- ===== src/TransformKey.antt =====
-- src/benchmark/rocksdb_bench.cpp: `TransformKey`, the encoding of a 64-bit key number as the eight
-- bytes that RocksDB stores and compares. The machine is little-endian, as that function assumes.
pub mod Order
mod Tests
use fdp_rocks.Base.{ℕ, ◌+◌, ◌*◌, ◌/◌, ◌%◌, ◌^◌, List}
use fdp_rocks.Base.Bytes.{le_bytes}

-- `__builtin_bswap64`
unfoldable pub bswap64 : ℕ → ℕ
bswap64 x =
    x % 256 * 2 ^ 56
    + x / 2 ^ 8 % 256 * 2 ^ 48
    + x / 2 ^ 16 % 256 * 2 ^ 40
    + x / 2 ^ 24 % 256 * 2 ^ 32
    + x / 2 ^ 32 % 256 * 2 ^ 24
    + x / 2 ^ 40 % 256 * 2 ^ 16
    + x / 2 ^ 48 % 256 * 2 ^ 8
    + x / 2 ^ 56 % 256

-- The bytes of the key after the eight-byte store of the swapped number.
unfoldable pub transform_key : ℕ → List ℕ
unfolding bswap64
transform_key rid = le_bytes 8 (bswap64 rid)
