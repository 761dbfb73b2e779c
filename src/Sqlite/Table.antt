-- ===== src/Sqlite/Table.antt =====
-- A list of addresses that answers the statements of the whitelist as SQLite is described to.
use poco_echo.Base.{
  ◌≡◌, refl, ap, ◌==◌, if◌then◌else◌, false, Option, none, some, List, [], ◌∷◌, ◌++◌, map, arith,
  Bytes, codes, elem, bytes_eq, bytes_erase,
}
use poco_echo.Sqlite.{Exec, Sqlite, IsSqlite, sqlite_ok, create_sql, select_sql}

abbrev strip_prefix : Bytes → Bytes → Option Bytes
strip_prefix [] s = some s
strip_prefix (p ∷ ps) [] = none
strip_prefix (p ∷ ps) (c ∷ s) = let rest = strip_prefix ps s in if p == c then rest else none

-- What stands in front of the next quote.
abbrev quoted : Bytes → Bytes
quoted [] = []
quoted (c ∷ s) = let rest = c ∷ quoted s in if 39 == c then [] else rest

quoted-append : (ip rest : Bytes) → elem 39 ip ≡ false → quoted (ip ++ (39 ∷ rest)) ≡ ip
quoted-append [] rest h = refl
quoted-append (c ∷ ip) rest h = ground (arith, quoted-append ip rest)

abbrev answer : List Bytes → Option Bytes → Option Bytes → Exec (List Bytes)
answer d (some rest) s = record { code = sqlite_ok; rows = []; db = d ++ (quoted rest ∷ []) }
answer d none (some rest) = record { code = sqlite_ok; rows = []; db = bytes_erase (quoted rest) d }
answer d none none = record { code = 1; rows = []; db = d }

abbrev exec_table : List Bytes → Bytes → Exec (List Bytes)
exec_table d sql =
    if bytes_eq sql create_sql
    then record { code = sqlite_ok; rows = []; db = d }
    else if bytes_eq sql select_sql
    then record { code = sqlite_ok; rows = map (λ a. some a ∷ []) d; db = d }
    else answer d (strip_prefix (codes "INSERT INTO whitelist (Address) VALUES ('") sql)
        (strip_prefix (codes "DELETE FROM whitelist WHERE Address = '") sql)

abbrev pub table : Sqlite
table = record {
  Db = List Bytes;
  open_file = λ name. (sqlite_ok, []);
  exec = exec_table;
  addresses = λ d. d;
}

pub table-IsSqlite : IsSqlite table
table-IsSqlite = record {
  addresses-create = λ d. refl;
  addresses-select = λ d. refl;
  rows-select = λ d ok. refl;
  addresses-insert = λ d ip h. ap (λ t. d ++ (t ∷ [])) (quoted-append ip (codes ")") h);
  addresses-delete = λ d ip h. ap (λ t. bytes_erase t d) (quoted-append ip [] h);
}
