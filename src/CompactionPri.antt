-- ===== src/CompactionPri.antt =====
-- src/benchmark/rocksdb_bench.cpp: `CompactionPriFromEnv` and `CompactionPriLabel`.
mod Labels
mod Tests
use fdp_rocks.Base.{
  ℕ, ◌+◌, ◌-◌, Bool, true, false, ◌&&◌, ◌||◌, Option, none, some, List, [], ◌∷◌, map, leb,
  if◌then◌else◌,
}
use fdp_rocks.Base.Text.{codes, text_eq}

-- `rocksdb::CompactionPri`, as far as the source names it.
pub data CompactionPri : Type 0 where
  by_compensated_size : CompactionPri
  oldest_largest_seq_first : CompactionPri
  oldest_smallest_seq_first : CompactionPri
  min_overlapping_ratio : CompactionPri
  round_robin : CompactionPri

-- `toupper` in the C locale.
unfoldable pub to_upper : ℕ → ℕ
to_upper c = if leb b'a' c && leb c b'z' then c - 32 else c

-- The chain of tests on the text in capitals.
unfoldable pub parse_label : List ℕ → CompactionPri
parse_label v =
    if text_eq v (codes "KROUNDROBIN")
      || (text_eq v (codes "ROUNDROBIN") || (text_eq v (codes "RR") || text_eq v (codes "4")))
    then round_robin
    else if text_eq v (codes "KBYCOMPENSATEDSIZE")
        || (text_eq v (codes "BYCOMPENSATEDSIZE")
            || (text_eq v (codes "BCS") || text_eq v (codes "0")))
    then by_compensated_size
    else if text_eq v (codes "KMINOVERLAPPINGRATIO")
        || (text_eq v (codes "MINOVERLAPPING")
            || (text_eq v (codes "MIN") || (text_eq v (codes "MOR") || text_eq v (codes "3"))))
    then min_overlapping_ratio
    else if text_eq v (codes "KOLDESTLARGESTSEQFIRST")
        || (text_eq v (codes "OLSEQ") || text_eq v (codes "1"))
    then oldest_largest_seq_first
    else if text_eq v (codes "KOLDESTSMALLESTSEQFIRST")
        || (text_eq v (codes "OSSEQ") || text_eq v (codes "2"))
    then oldest_smallest_seq_first
    else min_overlapping_ratio

-- `CompactionPriFromEnv`, on what `getenv` gives.
unfoldable pub compaction_pri_from_env : Option (List ℕ) → CompactionPri
compaction_pri_from_env none = min_overlapping_ratio
compaction_pri_from_env (some []) = min_overlapping_ratio
compaction_pri_from_env (some (c ∷ cs)) = parse_label (map to_upper (c ∷ cs))

-- `CompactionPriLabel`
unfoldable pub compaction_pri_label : CompactionPri → List ℕ
compaction_pri_label by_compensated_size = codes "kByCompensatedSize"
compaction_pri_label oldest_largest_seq_first = codes "kOldestLargestSeqFirst"
compaction_pri_label oldest_smallest_seq_first = codes "kOldestSmallestSeqFirst"
compaction_pri_label min_overlapping_ratio = codes "kMinOverlappingRatio"
compaction_pri_label round_robin = codes "kRoundRobin"
