-- ===== src/WhiteList/Mirror.antt =====
-- The accepted addresses and the table of the database hold the same addresses.
use poco_echo.Base.{
  ◌≡◌, refl, Bool, true, Option-cases, Outcome-cases, Option, inl, inr, some, List, [], ◌∷◌, map,
  Bytes, done, arith, bytes_elem, bytes_elem-append, bytes_elem-erase, ◌||◌, none,
}
use poco_echo.Sqlite.{Sqlite, IsSqlite, IsQuotable, create_sql, select_sql}
use poco_echo.WhiteList.{
  WhiteList, emplace, load_rows, is_ip_can_connect, try_get_list, add, remove,
}
use poco_echo.WhiteList.Laws.{bytes_elem-emplace}

-- The addresses in the open database.
abbrev pub stored : (S : Sqlite) → Option S.Db → List Bytes
stored S none = []
stored S (some d) = S.addresses d

-- The white list accepts just the addresses of its database.
pub record IsMirror {S : Sqlite} (w : WhiteList S) : Type 0 where
  pub same : (a : Bytes) → bytes_elem a w.accept_list ≡ bytes_elem a (stored S w.database)

-- Loading the rows of a table adds its addresses.
pub load_rows-addresses :
    (ips xs ys : List Bytes) (a : Bytes)
    → load_rows (map (λ b. some b ∷ []) ips) xs ≡ done ys
    → bytes_elem a ys ≡ (bytes_elem a ips || bytes_elem a xs)
load_rows-addresses [] xs ys a e = ground arith
load_rows-addresses (b ∷ ips) xs ys a e =
    ground (arith, load_rows-addresses ips (emplace b xs) ys a, bytes_elem-emplace a b xs)

pub load_rows-done :
    (ips xs : List Bytes)
    → (ys : List Bytes) × (load_rows (map (λ b. some b ∷ []) ips) xs ≡ done ys)
load_rows-done [] xs = (xs, refl)
load_rows-done (b ∷ ips) xs = load_rows-done ips (emplace b xs)

module _ {S : Sqlite} (L : IsSqlite S) where
  -- `Add` keeps memory and database alike, whatever the database answers.
  pub add-IsMirror :
      (w w' : WhiteList S) (ip : Bytes) (ok : Bool)
      → IsQuotable ip
      → IsMirror w
      → add S w ip ≡ done (w', ok)
      → IsMirror w'
  unfolding add is_ip_can_connect
  add-IsMirror w w' ip ok q v e = record {
    same = λ a. elim (Option-cases w.database) [
      | inl shut ↦ ground (arith, v.same a)
      | inr (d, opened) ↦ ground (
        arith,
        v.same a,
        bytes_elem-emplace a ip w.accept_list,
        bytes_elem-append a (S.addresses d) (ip ∷ []),
        L.addresses-insert d ip q,
      )
    ];
  }

  pub remove-IsMirror :
      (w w' : WhiteList S) (ip : Bytes) (ok : Bool)
      → IsQuotable ip
      → IsMirror w
      → remove S w ip ≡ done (w', ok)
      → IsMirror w'
  unfolding remove is_ip_can_connect
  remove-IsMirror w w' ip ok q v e = record {
    same = λ a. elim (Option-cases w.database) [
      | inl shut ↦ ground (arith, v.same a)
      | inr (d, opened) ↦ ground (
        arith,
        v.same a,
        bytes_elem-erase a ip w.accept_list,
        bytes_elem-erase a ip (S.addresses d),
        L.addresses-delete d ip q,
      )
    ];
  }

  -- Where TryGetList returns true on a white list that accepts nobody yet, the white list then
  -- accepts just the addresses of its database.
  pub try_get_list-IsMirror :
      (w w' : WhiteList S) → w.accept_list ≡ [] → try_get_list S w ≡ done (w', true) → IsMirror w'
  unfolding try_get_list
  try_get_list-IsMirror w w' fresh e = record {
    same = λ a. elim (Option-cases w.database) [
      | inl shut ↦ absurd (ground arith)
      | inr (d, opened) ↦
          let c : S.Db = (S.exec d create_sql).db in
          let (ys, ran) = load_rows-done (S.addresses c) [] in
          ground (
            arith,
            L.rows-select c,
            L.addresses-select c,
            load_rows-addresses (S.addresses c) [] ys a ran,
          )
    ];
  }

  -- `TryGetList` leaves the addresses in the database alone, also where it fails.
  pub try_get_list-stored :
      (w w' : WhiteList S) (ok : Bool)
      → try_get_list S w ≡ done (w', ok)
      → stored S w'.database ≡ stored S w.database
  unfolding try_get_list
  try_get_list-stored w w' ok e = elim (Option-cases w.database) [
    | inl shut ↦ absurd (ground arith)
    | inr (d, opened) ↦
        let c : S.Db = (S.exec d create_sql).db in
        let rows : List (List (Option Bytes)) = (S.exec c select_sql).rows in
        elim (Outcome-cases (load_rows rows w.accept_list)) [
          | inl (xs, ran) ↦ ground (arith, L.addresses-create d, L.addresses-select c)
          | inr (x, failed) ↦ ground (arith, L.addresses-create d)
        ]
  ]
