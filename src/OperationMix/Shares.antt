-- ===== src/OperationMix/Shares.antt =====
-- The shares of the operations: over a full block of 1024 random numbers, and so over all numbers of
-- 32 bits.
use fdp_rocks.Base.{ℕ, zero, suc, ◌+◌, ◌*◌, ◌%◌, ◌≡◌, refl, sym, ap, ◌∙◌, arith}
use fdp_rocks.OperationMix.{
  YcsbOpType, ycsb_write, ycsb_read, ycsb_query, ycsb_read_modify_write, choose_a, choose_b,
  choose_d, choose_e, choose_f,
}

-- 1 for one operation, and 0 for the others.
unfoldable pub is_write : YcsbOpType → ℕ
is_write ycsb_write = 1
is_write ycsb_read = 0
is_write ycsb_query = 0
is_write ycsb_read_modify_write = 0

unfoldable pub is_read : YcsbOpType → ℕ
is_read ycsb_write = 0
is_read ycsb_read = 1
is_read ycsb_query = 0
is_read ycsb_read_modify_write = 0

unfoldable pub is_query : YcsbOpType → ℕ
is_query ycsb_write = 0
is_query ycsb_read = 0
is_query ycsb_query = 1
is_query ycsb_read_modify_write = 0

unfoldable pub is_modify : YcsbOpType → ℕ
is_modify ycsb_write = 0
is_modify ycsb_read = 0
is_modify ycsb_query = 0
is_modify ycsb_read_modify_write = 1

-- How many of the random numbers below `n` choose an operation.
unfoldable pub among : (YcsbOpType → ℕ) → (ℕ → YcsbOpType) → ℕ → ℕ
among w choose zero = 0
among w choose (suc n) = w (choose n) + among w choose n

among_none : (w : YcsbOpType → ℕ) (choose : ℕ → YcsbOpType) → among w choose (1024 * 0) ≡ 0
unfolding among
among_none w choose = refl

-- The numbers of writes, reads, queries and read-modify-writes.
unfoldable pub shares : (ℕ → YcsbOpType) → ℕ → ℕ × ℕ × ℕ × ℕ
shares choose n = (
  among is_write choose n,
  among is_read choose n,
  among is_query choose n,
  among is_modify choose n,
)

module _ (choose : ℕ → YcsbOpType) (periodic : (m k : ℕ) → choose (m + 1024 * k) ≡ choose m) where
  among-add :
      (w : YcsbOpType → ℕ) (m k : ℕ)
      → among w choose (m + 1024 * k) ≡ among w choose m + among w choose (1024 * k)
  unfolding among
  among-add w zero k = let e : 0 + 1024 * k ≡ 1024 * k = omega arith in rw e (omega arith)
  among-add w (suc m) k =
      let e : suc m + 1024 * k ≡ suc (m + 1024 * k) = omega arith in
      rw e (omega (arith, among-add w m k, ap w (periodic m k)))

  among_blocks : (w : YcsbOpType → ℕ) (k : ℕ) → among w choose (1024 * k) ≡ among w choose 1024 * k
  among_blocks w zero = among_none w choose ∙ sym (nothing (among w choose 1024))
    where
      nothing : (n : ℕ) → n * 0 ≡ 0
      nothing n = omega arith
  among_blocks w (suc k) =
      ap (among w choose) (one_more k)
      ∙ among-add w 1024 k
      ∙ ap (λ n. among w choose 1024 + n) (among_blocks w k)
      ∙ sum (among w choose 1024)
    where
      one_more : (k : ℕ) → 1024 * suc k ≡ 1024 + 1024 * k
      one_more k = omega arith

      sum : (n : ℕ) → n + n * k ≡ n * suc k
      sum n = grind arith

  shares_blocks :
      (k writes reads queries modifies : ℕ)
      → shares choose 1024 ≡ (writes, reads, queries, modifies)
      → shares choose (1024 * k) ≡ (writes * k, reads * k, queries * k, modifies * k)
  unfolding shares
  shares_blocks k writes reads queries modifies e =
      rw
        (
          among_blocks is_write k,
          among_blocks is_read k,
          among_blocks is_query k,
          among_blocks is_modify k,
        )
        (ap (λ s. (s.0 * k, s.1 * k, s.2 * k, s.3 * k)) e)

block_a : shares choose_a 1024 ≡ (512, 512, 0, 0)
unfolding shares among choose_a is_write is_read is_query is_modify
block_a = refl

block_b : shares choose_b 1024 ≡ (51, 973, 0, 0)
unfolding shares among choose_b is_write is_read is_query is_modify
block_b = refl

periodic_a : (m k : ℕ) → choose_a (m + 1024 * k) ≡ choose_a m
unfolding choose_a
periodic_a m k = let e : (m + 1024 * k) % 2 ≡ m % 2 = omega arith in rw e refl

periodic_b : (m k : ℕ) → choose_b (m + 1024 * k) ≡ choose_b m
unfolding choose_b
periodic_b m k = let e : (m + 1024 * k) % 1024 ≡ m % 1024 = omega arith in rw e refl

block_d : shares choose_d 1024 ≡ (51, 973, 0, 0)
unfolding shares among choose_d is_write is_read is_query is_modify
block_d = refl

block_e : shares choose_e 1024 ≡ (51, 973, 0, 0)
unfolding shares among choose_e is_write is_read is_query is_modify
block_e = refl

block_f : shares choose_f 1024 ≡ (0, 512, 0, 512)
unfolding shares among choose_f is_write is_read is_query is_modify
block_f = refl

periodic_d : (m k : ℕ) → choose_d (m + 1024 * k) ≡ choose_d m
unfolding choose_d
periodic_d m k = let e : (m + 1024 * k) % 1024 ≡ m % 1024 = omega arith in rw e refl

periodic_e : (m k : ℕ) → choose_e (m + 1024 * k) ≡ choose_e m
unfolding choose_e
periodic_e m k = let e : (m + 1024 * k) % 1024 ≡ m % 1024 = omega arith in rw e refl

periodic_f : (m k : ℕ) → choose_f (m + 1024 * k) ≡ choose_f m
unfolding choose_f
periodic_f m k = let e : (m + 1024 * k) % 2 ≡ m % 2 = omega arith in rw e refl

none_of : (k : ℕ) → 0 * k ≡ 0
none_of k = omega arith

-- Over each full number of blocks of 1024 random numbers, and so over all numbers of 32 bits,
-- NextA chooses half writes and half reads, NextB, NextD and NextE each 51 writes and 973 reads
-- in a block, and NextF half reads and half read-modify-writes; none chooses a query.
pub shares_lem :
    (k : ℕ)
    → (shares choose_a (1024 * k) ≡ (512 * k, 512 * k, 0, 0))
      × (shares choose_b (1024 * k) ≡ (51 * k, 973 * k, 0, 0))
      × (shares choose_d (1024 * k) ≡ (51 * k, 973 * k, 0, 0))
      × (shares choose_e (1024 * k) ≡ (51 * k, 973 * k, 0, 0))
      × (shares choose_f (1024 * k) ≡ (0, 512 * k, 0, 512 * k))
shares_lem k = (
  shares_blocks choose_a periodic_a k 512 512 0 0 block_a
      ∙ ap (λ z. (512 * k, 512 * k, z, z)) (none_of k),
  shares_blocks choose_b periodic_b k 51 973 0 0 block_b
      ∙ ap (λ z. (51 * k, 973 * k, z, z)) (none_of k),
  shares_blocks choose_d periodic_d k 51 973 0 0 block_d
      ∙ ap (λ z. (51 * k, 973 * k, z, z)) (none_of k),
  shares_blocks choose_e periodic_e k 51 973 0 0 block_e
      ∙ ap (λ z. (51 * k, 973 * k, z, z)) (none_of k),
  shares_blocks choose_f periodic_f k 0 512 0 512 block_f
      ∙ ap (λ z. (z, 512 * k, z, 512 * k)) (none_of k),
)
