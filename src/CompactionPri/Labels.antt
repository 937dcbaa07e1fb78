-- ===== src/CompactionPri/Labels.antt =====
-- The labels that the benchmark prints, read back.
use mathlib.Core.List.{map}
use fdp_rocks.Base.{ℕ, ◌≡◌, refl, ap, ◌∙◌, some, List, [], ◌∷◌, arith, ap₂}
use fdp_rocks.Base.Text.{text_eq}
use fdp_rocks.CompactionPri.{
  CompactionPri, by_compensated_size, oldest_largest_seq_first, oldest_smallest_seq_first,
  min_overlapping_ratio, round_robin, to_upper, parse_label, compaction_pri_from_env,
  compaction_pri_label,
}

to_upper-idempotent : (c : ℕ) → to_upper (to_upper c) ≡ to_upper c
unfolding to_upper
to_upper-idempotent c = ground arith

map-to_upper-idempotent : (cs : List ℕ) → map to_upper (map to_upper cs) ≡ map to_upper cs
map-to_upper-idempotent [] = refl
map-to_upper-idempotent (c ∷ cs) =
    ap₂ (λ x xs. x ∷ xs) (to_upper-idempotent c) (map-to_upper-idempotent cs)

-- The label of a priority names it.
from_env-label : (p : CompactionPri) → compaction_pri_from_env (some (compaction_pri_label p)) ≡ p
unfolding compaction_pri_from_env compaction_pri_label parse_label to_upper text_eq
from_env-label by_compensated_size = refl
from_env-label oldest_largest_seq_first = refl
from_env-label oldest_smallest_seq_first = refl
from_env-label min_overlapping_ratio = refl
from_env-label round_robin = refl

-- Texts that are the same in capitals name the same priority.
from_env-upper :
    (cs ds : List ℕ)
    → map to_upper cs ≡ map to_upper ds
    → compaction_pri_from_env (some cs) ≡ compaction_pri_from_env (some ds)
unfolding compaction_pri_from_env
from_env-upper [] [] e = refl
from_env-upper [] (d ∷ ds) e = ground arith
from_env-upper (c ∷ cs) [] e = ground arith
from_env-upper (c ∷ cs) (d ∷ ds) e = ap parse_label e

-- A value of ROCKSDB_COMPACTION_PRI that spells the printed label of a compaction priority, in
-- whatever capitals, selects that priority.
pub compaction_pri_from_env-label :
    (p : CompactionPri) (cs : List ℕ)
    → map to_upper cs ≡ map to_upper (compaction_pri_label p)
    → compaction_pri_from_env (some cs) ≡ p
compaction_pri_from_env-label p cs e =
    from_env-upper cs (compaction_pri_label p) e ∙ from_env-label p
