-- ===== src/TransformKey/Tests.antt =====
-- Keys of concrete numbers.
use fdp_rocks.Base.{◌≡◌, refl, [], ◌∷◌, arith, length}
use fdp_rocks.Base.Int.{negsuc}
use fdp_rocks.Base.Bytes.{memcmp}
use fdp_rocks.TransformKey.{bswap64, transform_key}
use fdp_rocks.TransformKey.Order.{decode_from, transform_key_lem}

key_of_258 : transform_key 258 ≡ 0 ∷ 0 ∷ 0 ∷ 0 ∷ 0 ∷ 0 ∷ 1 ∷ 2 ∷ []
unfolding transform_key bswap64
key_of_258 = refl

transform_key_lem_example :
    (memcmp (transform_key 255) (transform_key 256) 8 ≡ negsuc 0)
    × (length (transform_key 255) ≡ 8)
    × (decode_from 0 (transform_key 255) ≡ 255)
transform_key_lem_example = transform_key_lem 255 256 (omega arith) (omega arith)
