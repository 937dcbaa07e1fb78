-- ===== src/Lib.antt =====
-- The C++ programs of FDP-Rocks: `rocksdb_bench`, which writes keys from several threads into a
-- RocksDB database (src/benchmark), and `fill`, which fills a device with a file (src/prefill).
--
-- A run of the benchmark reads its flags, opens the database, prepares an array of keys for each
-- worker (from files, or from generators) and starts the workers behind a barrier. Each worker writes
-- its keys in batches, counts them in its own statistics, and meets the main thread at the second
-- barrier, which merges the statistics. The parts here, in that order:
--
--   CompactionPri  `CompactionPriFromEnv`, `CompactionPriLabel` of src/benchmark/rocksdb_bench.cpp:
--                  the name of a compaction priority, from the environment and printed.
--   KeyOrder       `GetKeyOrderFilePath`, `LoadKeysFromFile`, `SaveKeysToFile`,
--                  `GenerateZipfianKeys`, `GenerateHotspotZipfianKeys` and `PrepareShuffledKeys`.
--                  `Rng` stands for <random> and `std::shuffle`; the floating-point weights of the
--                  two distributions belong to its draws. A `Disk` is what the files hold and whether
--                  calls on them succeed.
--   Barrier        `SharedState`, `ThreadBody` and `RunBenchmark` as a step relation: a step is a
--                  critical section, and a blocked thread is woken by `notify_all` or spuriously.
--   Writer         `DoSimpleRandomWrite` on any database (a function from a state and a batch to a
--                  status and a state) and any clock, with the exact log of the batches.
--   TransformKey   `TransformKey`: the bytes of a key on a little-endian machine.
--   Stats          the class `Stats`: counters, boundaries and reports; the merge of all threads.
--   Database       what the workers rely on of `rocksdb::DB`, as a record of operations and laws, and
--                  their calls of `Write` in any order that keeps the order of each worker.
--   Benchmark      `Run`: the parts from KeyOrder to Stats and the merge put together, for any statuses
--                  that the database gives to the workers' calls; what the run leaves in the database,
--                  as it is read through the same handle (the WAL is off, and the program ends without
--                  closing the database); and `main` with its exit code, for all flags.
--   Prefill        `ParseSize` and `main` of src/prefill/fill.cpp, on a record of the answers of the
--                  C library.
--   Random         `Trace::Random` of src/benchmark/trace.h.
--   OperationMix   `wyhash32` and `YCSBGenerator` of src/benchmark/util.h: the counter, its hash, and the
--                  choice of each method for a random number.
--   Workload       of `RandomKeyTrace` of src/benchmark/util.h, the constructor, the iterators,
--                  the workloads of segments and of the four phases, and the interval and Zipfian
--                  workloads.
--   IndexKey       `IndexKey` of src/benchmark/indexkey.h: objects with a buffer each, the arrays that
--                  they own, and the operations as steps from store to store.
--   Slice          the comparisons of src/benchmark/slice.h.
--   Base           the lists, tests, texts, bytes and permutations that these share.
--
-- Machine integers: `uint64_t` arithmetic that may wrap is written with a remainder by 2^64, and a
-- theorem that needs a bound states it. Loops over arrays and ranges are structural. Four loops run
-- on fuel: the outer loop of the writer (a round for each key is enough), the boundary loop of
-- `FinishedBatchOp` (one round for each multiple passed), the write loop of the prefill tool (one
-- call for each byte is enough, since each call that does not fail writes at least one), and the
-- visits of an iterator (its range, or the indices that are left). The theorems show that the fuel is enough.
--
-- Not modelled: RocksDB and its options, gflags, the messages and progress texts (their rates and
-- times are floating-point), `getMemory`, the generators of src/benchmark/trace.h that compute with
-- floating-point numbers, src/benchmark/zipfian_int_distribution.h (another author's library),
-- `Randomize` of src/benchmark/util.h, and the scripts and data around the programs.
pub mod Base
pub mod Barrier
pub mod Stats
pub mod TransformKey
pub mod Writer
pub mod KeyOrder
pub mod Prefill
pub mod Database
pub mod Benchmark
pub mod CompactionPri
pub mod Random
pub mod OperationMix
pub mod Workload
pub mod Slice
pub mod IndexKey
