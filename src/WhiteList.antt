-- ===== src/WhiteList.antt =====
-- `CWhiteList` (server/src/CWhiteList.cpp): the accepted addresses in memory and in the database.
pub mod Laws
pub mod Mirror
pub mod Life
pub mod Session
use poco_echo.Base.{
  ℕ, ◌==◌, if◌then◌else◌, ltb, Bool, true, false, Option, none, some, List, [], ◌∷◌, Bytes, length,
  Outcome, done, fault, assertion, bad_pointer, over_write, or_fault, ◌>>=◌, codes, bytes_elem,
  bytes_erase,
}
use poco_echo.Sqlite.{Sqlite, sqlite_ok, create_sql, select_sql, insert_sql, delete_sql}

-- The keys of `m_acceptList`, whose values are all `true`, and `m_pDatabase`.
pub record WhiteList (S : Sqlite) : Type 0 where
  pub accept_list : List Bytes
  pub database : Option S.Db

-- `m_acceptList.emplace(ip, true)`, which keeps an entry that is there.
abbrev pub emplace : Bytes → List Bytes → List Bytes
emplace ip xs = if bytes_elem ip xs then xs else ip ∷ xs

-- `sprintf` into `char szSql[64]`.
abbrev pub sql_buffer : Bytes → Outcome Bytes
sql_buffer sql = if ltb (length sql) 64 then done sql else fault over_write

-- `OnWhiteListLoad` for one row.
abbrev pub on_white_list_load : List (Option Bytes) → List Bytes → Outcome (List Bytes)
on_white_list_load [] xs = done xs
on_white_list_load (none ∷ argv) xs = fault assertion
on_white_list_load (some a ∷ argv) xs = on_white_list_load argv (emplace a xs)

-- The calls of `OnWhiteListLoad` that `sqlite3_exec` makes, a row each.
abbrev pub load_rows : List (List (Option Bytes)) → List Bytes → Outcome (List Bytes)
load_rows [] xs = done xs
load_rows (row ∷ rows) xs = on_white_list_load row xs >>= λ ys. load_rows rows ys

-- `OnIpAdd` and `OnIpRemove`, the callbacks of the other two statements: they let every row pass.
abbrev pub on_ip_add : List (Option Bytes) → ℕ
on_ip_add argv = sqlite_ok

abbrev pub on_ip_remove : List (Option Bytes) → ℕ
on_ip_remove argv = sqlite_ok

module _ (S : Sqlite) where
  abbrev pub new_white_list : WhiteList S
  new_white_list = record { accept_list = []; database = none }

  -- The destructor closes the database. A handle that a later `Initialize` has overwritten is lost.
  abbrev pub destroy_white_list : WhiteList S → WhiteList S
  destroy_white_list w = record w { database = none }

  unfoldable pub initialize : WhiteList S → WhiteList S × Bool
  initialize w =
      let (code, d) = S.open_file (codes "whitelist.sql") in
      if code == sqlite_ok then (record w { database = some d }, true) else (w, false)

  -- The second block of `TryGetList`: the rows come in while the statement runs, also if it fails
  -- in the end.
  load_list : S.Db → WhiteList S → Outcome (WhiteList S × Bool)
  load_list d w = do
    let r = S.exec d select_sql
    xs ← load_rows r.rows w.accept_list
    done (record { accept_list = xs; database = some r.db }, r.code == sqlite_ok)

  unfoldable pub try_get_list : WhiteList S → Outcome (WhiteList S × Bool)
  unfolding load_list
  try_get_list w = do
    d ← or_fault assertion w.database
    let r = S.exec d create_sql
    if r.code == sqlite_ok
        then load_list r.db w
        else done (record w { database = some r.db }, false)

  unfoldable pub is_ip_can_connect : WhiteList S → Bytes → Bool
  is_ip_can_connect w ip = bytes_elem ip w.accept_list

  -- `Add` from the statement on.
  insert_ip : WhiteList S → Bytes → Outcome (WhiteList S × Bool)
  insert_ip w ip = do
    sql ← sql_buffer (insert_sql ip)
    d ← or_fault bad_pointer w.database
    let r = S.exec d sql
    if r.code == sqlite_ok
        then done (record { accept_list = emplace ip w.accept_list; database = some r.db }, true)
        else done (record w { database = some r.db }, false)

  unfoldable pub add : WhiteList S → Bytes → Outcome (WhiteList S × Bool)
  unfolding is_ip_can_connect insert_ip
  add w ip = if is_ip_can_connect w ip then done (w, false) else insert_ip w ip

  -- `Remove` from the statement on.
  delete_ip : WhiteList S → Bytes → Outcome (WhiteList S × Bool)
  delete_ip w ip = do
    sql ← sql_buffer (delete_sql ip)
    d ← or_fault bad_pointer w.database
    let r = S.exec d sql
    if r.code == sqlite_ok
        then done
            (record { accept_list = bytes_erase ip w.accept_list; database = some r.db }, true)
        else done (record w { database = some r.db }, false)

  unfoldable pub remove : WhiteList S → Bytes → Outcome (WhiteList S × Bool)
  unfolding is_ip_can_connect delete_ip
  remove w ip = if is_ip_can_connect w ip then delete_ip w ip else done (w, false)
