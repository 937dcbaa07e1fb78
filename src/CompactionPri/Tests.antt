-- ===== src/CompactionPri/Tests.antt =====
-- Names of priorities.
use fdp_rocks.Base.{◌≡◌, refl, some}
use fdp_rocks.Base.Text.{codes, text_eq}
use fdp_rocks.CompactionPri.{
  round_robin, oldest_smallest_seq_first, to_upper, parse_label, compaction_pri_from_env,
  compaction_pri_label,
}
use fdp_rocks.CompactionPri.Labels.{compaction_pri_from_env-label}

osseq_test : compaction_pri_from_env (some (codes "osSeq")) ≡ oldest_smallest_seq_first
unfolding compaction_pri_from_env parse_label to_upper text_eq
osseq_test = refl

compaction_pri_from_env-label_example :
    compaction_pri_from_env (some (codes "kROUNDrobin")) ≡ round_robin
unfolding compaction_pri_label to_upper
compaction_pri_from_env-label_example =
    compaction_pri_from_env-label round_robin (codes "kROUNDrobin") refl
