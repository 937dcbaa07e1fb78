-- ===== src/Random/Tests.antt =====
-- Two seeds of the generator.
use fdp_rocks.Base.{ℕ, ◌*◌, ◌%◌, ◌<◌, ◌≡◌, ◌↔◌, refl, arith}
use fdp_rocks.Random.{lehmer_modulus, random_next}
use fdp_rocks.Random.Lehmer.{random_next_lem}

random_next_test : random_next 2333 ≡ 39210731
unfolding random_next
random_next_test = refl

random_next_lem_example :
    (random_next 2333 ≡ 2333 * 16807 % lehmer_modulus)
    × (0 < random_next 2333)
    × (random_next 2333 < lehmer_modulus)
    × ((random_next 2333 ≡ random_next 667) ↔ ◌≡◌ {A = ℕ} 2333 667)
random_next_lem_example =
    random_next_lem 2333 667 (omega arith) (omega arith) (omega arith) (omega arith)
