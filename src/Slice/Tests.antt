-- ===== src/Slice/Tests.antt =====
-- Three slices in order.
use fdp_rocks.Base.{◌≡◌, ◌↔◌, ◌||◌, refl, true}
use fdp_rocks.Base.Bytes.{memcmp}
use fdp_rocks.Base.Int.{pos, negsuc}
use fdp_rocks.Base.Text.{codes}
use fdp_rocks.Slice.{compare, slice_eq, slice_lt, slice_gt, slice_ne}
use fdp_rocks.Slice.Order.{lex, opposite, compare_lem}

compare_test : compare (codes "key10") (codes "key9") ≡ negsuc 0
unfolding compare memcmp
compare_test = refl

compare_lem_example :
    (compare (codes "ab") (codes "b") ≡ lex (codes "ab") (codes "b"))
    × ((compare (codes "ab") (codes "b") ≡ pos 0) ↔ (codes "ab" ≡ codes "b"))
    × (compare (codes "b") (codes "ab") ≡ opposite (compare (codes "ab") (codes "b")))
    × ((slice_eq (codes "ab") (codes "b") ≡ true) ↔ (codes "ab" ≡ codes "b"))
    × (slice_gt (codes "ab") (codes "b") ≡ slice_lt (codes "b") (codes "ab"))
    × ((slice_lt (codes "ab") (codes "b") || slice_gt (codes "ab") (codes "b"))
        ≡ slice_ne (codes "ab") (codes "b"))
compare_lem_example = compare_lem (codes "ab") (codes "b")
