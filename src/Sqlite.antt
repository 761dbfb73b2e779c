-- ===== src/Sqlite.antt =====
-- The calls of SQLite (server/vendor, vendored) that the whitelist makes, as an interface.
pub mod Table
use poco_echo.Base.{
  ℕ, ◌==◌, if◌then◌else◌, ◌≡◌, Option, some, List, [], ◌∷◌, ◌++◌, map, Bytes, codes, elem, false,
  bytes_erase, bytes_elem,
}

abbrev pub sqlite_ok : ℕ
sqlite_ok = 0

-- What `sqlite3_exec` gives: its code, the rows for which it called back, and the database after it.
pub record Exec (Db : Type 0) : Type 0 where
  pub code : ℕ
  pub rows : List (List (Option Bytes))
  pub db : Db

-- `addresses` are the values in the column Address of the table whitelist, in order.
pub record Sqlite : Type 1 where
  pub Db : Type 0
  pub open_file : Bytes → ℕ × Db
  pub exec : Db → Bytes → Exec Db
  pub addresses : Db → List Bytes

-- The statements of CWhiteList.cpp.
abbrev pub create_sql : Bytes
create_sql =
    codes "CREATE TABLE IF NOT EXISTS whitelist ("
    ++ (codes "id INTEGER PRIMARY KEY AUTOINCREMENT,"
        ++ (codes "Address VARCHAR(32) NOT NULL" ++ codes ");"))

abbrev pub select_sql : Bytes
select_sql = codes "SELECT Address FROM whitelist;"

-- The statement for an address, by the text of its C string, which `%s` takes.
abbrev pub insert_sql : Bytes → Bytes
insert_sql ip = codes "INSERT INTO whitelist (Address) VALUES ('" ++ (ip ++ codes "')")

abbrev pub delete_sql : Bytes → Bytes
delete_sql ip = codes "DELETE FROM whitelist WHERE Address = '" ++ (ip ++ codes "'")

-- A text that may stand between quotes in a statement.
abbrev pub IsQuotable : Bytes → Type 0
IsQuotable ip = elem 39 ip ≡ false

-- What the documentation of SQL and of `sqlite3_exec` promises of these statements: one that fails
-- changes nothing.
pub record IsSqlite (S : Sqlite) : Type 0 where
  pub addresses-create : (d : S.Db) → S.addresses (S.exec d create_sql).db ≡ S.addresses d
  pub addresses-select : (d : S.Db) → S.addresses (S.exec d select_sql).db ≡ S.addresses d
  pub rows-select :
      (d : S.Db)
      → (S.exec d select_sql).code ≡ sqlite_ok
      → (S.exec d select_sql).rows ≡ map (λ a. some a ∷ []) (S.addresses d)
  pub addresses-insert :
      (d : S.Db) (ip : Bytes)
      → IsQuotable ip
      → S.addresses (S.exec d (insert_sql ip)).db ≡ (
          if (S.exec d (insert_sql ip)).code == sqlite_ok
          then S.addresses d ++ (ip ∷ [])
          else S.addresses d)
  pub addresses-delete :
      (d : S.Db) (ip : Bytes)
      → IsQuotable ip
      → S.addresses (S.exec d (delete_sql ip)).db ≡ (
          if (S.exec d (delete_sql ip)).code == sqlite_ok
          then bytes_erase ip (S.addresses d)
          else S.addresses d)
