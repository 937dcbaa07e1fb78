-- ===== src/Database/Table.antt =====
-- A database in memory, which shows that the interface can hold: a function from keys to values, and
-- the number of the calls so far, which decides whether a call is refused.
use fdp_rocks.Base.{ℕ, ◌+◌, ◌≡◌, refl, Bool, true, false, Option, List, if◌then◌else◌}
use fdp_rocks.Writer.{Put}
use fdp_rocks.Database.{Database, after_puts}

abbrev pub Table : Type 0
Table = ℕ × (List ℕ → Option (List ℕ))

module _ (accepts : ℕ → Bool) where
  unfoldable pub write_table : Table → List Put → Bool × Table
  write_table (n, g) batch =
      (accepts n, (n + 1, if accepts n then (λ key. after_puts batch key (g key)) else g))

  pub write_table_ok :
      (db : Table) (batch : List Put) (key : List ℕ)
      → (write_table db batch).0 ≡ true
      → (write_table db batch).1.1 key ≡ after_puts batch key (db.1 key)
  unfolding write_table
  write_table_ok (n, g) batch key e = rw e refl

  pub write_table_failed :
      (db : Table) (batch : List Put) (key : List ℕ)
      → (write_table db batch).0 ≡ false
      → (write_table db batch).1.1 key ≡ db.1 key
  unfolding write_table
  write_table_failed (n, g) batch key e = rw e refl

  abbrev pub table : Database
  table = record {
    Db = Table;
    write = write_table;
    get = λ db. db.1;
    get-write_ok = write_table_ok;
    get-write_failed = write_table_failed;
  }
