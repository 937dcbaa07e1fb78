-- ===== src/Database.antt =====
-- What the workers of src/benchmark/rocksdb_bench.cpp rely on of `rocksdb::DB`, and their calls of
-- `Write` on one database at the same time.
--
-- The interface states documented behaviour: a `WriteBatch` is applied whole, its puts in order, or,
-- if the status is not ok, not at all; and the calls of several threads take place one after the
-- other, in some order. `Serial` says that there is such an order in which every call gives the
-- status that its worker has seen.
pub mod Lookup
pub mod Contents
pub mod Origin
pub mod Table
use fdp_rocks.Base.{
  ℕ, ◌≡◌, Bool, true, false, Option, none, some, List, [], ◌∷◌, ◌++◌, if◌then◌else◌, All,
}
use fdp_rocks.Base.Text.{text_eq}
use fdp_rocks.Writer.{Put}

-- What is stored at a key when the puts have been applied, from what was there before.
unfoldable pub after_puts : List Put → List ℕ → Option (List ℕ) → Option (List ℕ)
after_puts [] key old = old
after_puts (p ∷ ps) key old = after_puts ps key (if text_eq p.key key then some p.value else old)

pub record Database : Type 1 where
  pub Db : Type 0
  pub write : Db → List Put → Bool × Db
  pub get : Db → List ℕ → Option (List ℕ)
  pub get-write_ok :
      (db : Db) (batch : List Put) (key : List ℕ)
      → (write db batch).0 ≡ true
      → get (write db batch).1 key ≡ after_puts batch key (get db key)
  pub get-write_failed :
      (db : Db) (batch : List Put) (key : List ℕ)
      → (write db batch).0 ≡ false
      → get (write db batch).1 key ≡ get db key

-- The calls of a worker: the batches with the statuses that it has seen.
abbrev pub Log : Type 0
Log = List (List Put × Bool)

module _ (d : Database) where
  open d use {Db, write}

  -- The calls in the logs, each log in its order, can be made one after the other from `db` on, with
  -- the statuses in the logs, and lead to `final`.
  pub data Serial (final : Db) : List Log → Db → Type 0 where
    over :
        {logs : List Log} {db : Db}
        → All (λ (l : Log). l ≡ []) logs
        → db ≡ final
        → Serial final logs db
    call :
        {logs : List Log} {db : Db} (before after : List Log) (batch : List Put) (fine : Bool)
        (rest : Log)
        → logs ≡ before ++ ((batch, fine) ∷ rest) ∷ after
        → (write db batch).0 ≡ fine
        → Serial final (before ++ rest ∷ after) (write db batch).1
        → Serial final logs db

-- The puts of the batches that the database has accepted.
unfoldable pub accepted_puts : Log → List Put
accepted_puts [] = []
accepted_puts ((batch, fine) ∷ log) = (if fine then batch else []) ++ accepted_puts log

unfoldable pub all_puts : List Log → List Put
unfolding accepted_puts
all_puts [] = []
all_puts (log ∷ logs) = accepted_puts log ++ all_puts logs

-- The value of the first put at a key.
unfoldable pub find : List ℕ → List Put → Option (List ℕ)
find key [] = none
find key (p ∷ ps) = if text_eq p.key key then some p.value else find key ps

abbrev pub or_old : Option (List ℕ) → Option (List ℕ) → Option (List ℕ)
or_old none old = old
or_old (some v) old = some v
