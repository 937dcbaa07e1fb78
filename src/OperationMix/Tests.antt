-- ===== src/OperationMix/Tests.antt =====
-- The operation mix on some numbers.
use fdp_rocks.Base.{◌*◌, ◌≡◌, refl}
use fdp_rocks.OperationMix.{
  ycsb_read, choose_a, choose_b, choose_d, choose_e, choose_f, wyhash32, advance, fold_product,
  next_a, next_b, next_c, next_d, next_e, next_f,
}
use fdp_rocks.OperationMix.Shares.{shares, shares_lem}

wyhash32_test : wyhash32 1 ≡ (3777035286, 947532124)
unfolding wyhash32 advance fold_product
wyhash32_test = refl

-- The number 947532124 is even, and 348 modulo 1024.
next_test :
    (next_a 1 ≡ (3777035286, ycsb_read))
    × (next_b 1 ≡ (3777035286, ycsb_read))
    × (next_c 1 ≡ (1, ycsb_read))
    × (next_d 1 ≡ (3777035286, ycsb_read))
    × (next_e 1 ≡ (3777035286, ycsb_read))
    × (next_f 1 ≡ (3777035286, ycsb_read))
unfolding next_a next_b next_c next_d next_e next_f choose_a choose_b choose_d choose_e choose_f
    wyhash32 advance fold_product
next_test = (refl, refl, refl, refl, refl, refl)

-- 4194304 blocks are all numbers of 32 bits.
shares_lem_example :
    (shares choose_a (1024 * 4194304) ≡ (512 * 4194304, 512 * 4194304, 0, 0))
    × (shares choose_b (1024 * 4194304) ≡ (51 * 4194304, 973 * 4194304, 0, 0))
    × (shares choose_d (1024 * 4194304) ≡ (51 * 4194304, 973 * 4194304, 0, 0))
    × (shares choose_e (1024 * 4194304) ≡ (51 * 4194304, 973 * 4194304, 0, 0))
    × (shares choose_f (1024 * 4194304) ≡ (0, 512 * 4194304, 0, 512 * 4194304))
shares_lem_example = shares_lem 4194304
