-- ===== src/WhiteList/Life.antt =====
-- A white list from its construction to its destruction: every operation of `CWhiteList`
-- (server/src/CWhiteList.cpp), in any order.
use poco_echo.Base.{
  ◌≡◌, refl, ◌==◌, Bool, false, Bool-cases, inl, inr, Option, none, some, List, [], ◌∷◌, Bytes,
  Outcome, done, ◌>>=◌, bytes_elem, bytes_erase, bytes_elem-erase, Ensures, Ensures-bind,
  Ensures-step, Ensures-done, done-injective, >>=-eq-done, codes, arith, or_fault, assertion,
  bad_pointer,
}
use poco_echo.Sqlite.{Sqlite, sqlite_ok, create_sql, select_sql, insert_sql, delete_sql}
use poco_echo.WhiteList.{
  WhiteList, emplace, sql_buffer, on_white_list_load, load_rows, new_white_list, destroy_white_list,
  initialize, try_get_list, is_ip_can_connect, add, remove, on_ip_add, on_ip_remove,
}

pub data Operation : Type 0 where
  initializes loads : Operation
  adds removes asks : Bytes → Operation
  adds_row removes_row : List (Option Bytes) → Operation

module _ (S : Sqlite) where
  -- An operation and its answer, for a callback whether it lets its row pass.
  unfoldable pub operate : WhiteList S → Operation → Outcome (WhiteList S × Bool)
  operate w initializes = done (initialize S w)
  operate w loads = try_get_list S w
  operate w (adds ip) = add S w ip
  operate w (removes ip) = remove S w ip
  operate w (asks ip) = done (w, is_ip_can_connect S w ip)
  operate w (adds_row argv) = done (w, on_ip_add argv == sqlite_ok)
  operate w (removes_row argv) = done (w, on_ip_remove argv == sqlite_ok)

  unfoldable pub operate_all : WhiteList S → List Operation → Outcome (WhiteList S)
  operate_all w [] = done w
  operate_all w (o ∷ os) = operate w o >>= λ r. operate_all r.0 os

  -- A life, from the constructor to the destructor.
  unfoldable pub live_through : List Operation → Outcome (WhiteList S)
  live_through os = operate_all (new_white_list S) os >>= λ w. done (destroy_white_list S w)

-- No key stands twice, as in a map.
abbrev pub IsKeyed : List Bytes → Type 0
IsKeyed [] = Unit
IsKeyed (x ∷ xs) = (bytes_elem x xs ≡ false) × IsKeyed xs

emplace-IsKeyed : (ip : Bytes) (xs : List Bytes) → IsKeyed xs → IsKeyed (emplace ip xs)
emplace-IsKeyed ip xs k = elim (Bool-cases (bytes_elem ip xs)) [
  | inl old ↦ rw old k
  | inr new ↦ rw new (new, k)
]

erase-IsKeyed : (ip : Bytes) (xs : List Bytes) → IsKeyed xs → IsKeyed (bytes_erase ip xs)
erase-IsKeyed ip [] k = tt
erase-IsKeyed ip (x ∷ xs) k = ground (arith, bytes_elem-erase x ip xs, erase-IsKeyed ip xs k.1)

on_white_list_load-IsKeyed :
    (argv : List (Option Bytes)) (xs : List Bytes)
    → IsKeyed xs
    → Ensures IsKeyed (on_white_list_load argv xs)
on_white_list_load-IsKeyed [] xs k = k
on_white_list_load-IsKeyed (none ∷ argv) xs k = tt
on_white_list_load-IsKeyed (some a ∷ argv) xs k =
    on_white_list_load-IsKeyed argv (emplace a xs) (emplace-IsKeyed a xs k)

load_rows-IsKeyed :
    (rows : List (List (Option Bytes))) (xs : List Bytes)
    → IsKeyed xs
    → Ensures IsKeyed (load_rows rows xs)
load_rows-IsKeyed [] xs k = k
load_rows-IsKeyed (row ∷ rows) xs k =
    Ensures-bind IsKeyed IsKeyed (on_white_list_load row xs) (λ ys. load_rows rows ys)
      (on_white_list_load-IsKeyed row xs k) (λ ys. load_rows-IsKeyed rows ys)

module _ {S : Sqlite} where
  -- The accept list is one of distinct keys.
  abbrev Keeps : WhiteList S × Bool → Type 0
  Keeps r = IsKeyed r.0.accept_list

  add-IsKeyed : (w : WhiteList S) (ip : Bytes) → IsKeyed w.accept_list → Ensures Keeps (add S w ip)
  unfolding add is_ip_can_connect
  add-IsKeyed w ip k = elim (Bool-cases (bytes_elem ip w.accept_list)) [
    | inl old ↦ rw old k
    | inr new ↦ rw new (
        Ensures-step Keeps (sql_buffer (insert_sql ip)) _ λ sql.
          Ensures-step Keeps (or_fault bad_pointer w.database) _ λ d.
            elim (Bool-cases ((S.exec d sql).code == sqlite_ok)) [
              | inl ok ↦ rw ok (new, k)
              | inr failed ↦ rw failed k
            ])
  ]

  remove-IsKeyed :
      (w : WhiteList S) (ip : Bytes) → IsKeyed w.accept_list → Ensures Keeps (remove S w ip)
  unfolding remove is_ip_can_connect
  remove-IsKeyed w ip k = elim (Bool-cases (bytes_elem ip w.accept_list)) [
    | inl old ↦ rw old (
        Ensures-step Keeps (sql_buffer (delete_sql ip)) _ λ sql.
          Ensures-step Keeps (or_fault bad_pointer w.database) _ λ d.
            elim (Bool-cases ((S.exec d sql).code == sqlite_ok)) [
              | inl ok ↦ rw ok (erase-IsKeyed ip w.accept_list k)
              | inr failed ↦ rw failed k
            ])
    | inr new ↦ rw new k
  ]

  try_get_list-IsKeyed :
      (w : WhiteList S) → IsKeyed w.accept_list → Ensures Keeps (try_get_list S w)
  unfolding try_get_list
  try_get_list-IsKeyed w k = Ensures-step Keeps (or_fault assertion w.database) _ λ d.
      let c : S.Db = (S.exec d create_sql).db in
      elim (Bool-cases ((S.exec d create_sql).code == sqlite_ok)) [
        | inl ok ↦ rw ok (
            Ensures-bind IsKeyed Keeps (load_rows (S.exec c select_sql).rows w.accept_list) _
              (load_rows-IsKeyed (S.exec c select_sql).rows w.accept_list k) λ xs k'. k')
        | inr failed ↦ rw failed k
      ]

  operate-IsKeyed :
      (w : WhiteList S) (o : Operation) → IsKeyed w.accept_list → Ensures Keeps (operate S w o)
  unfolding operate initialize
  operate-IsKeyed w initializes k =
      elim (Bool-cases ((S.open_file (codes "whitelist.sql")).0 == sqlite_ok)) [
        | inl ok ↦ rw ok k
        | inr failed ↦ rw failed k
      ]
  operate-IsKeyed w loads k = try_get_list-IsKeyed w k
  operate-IsKeyed w (adds ip) k = add-IsKeyed w ip k
  operate-IsKeyed w (removes ip) k = remove-IsKeyed w ip k
  operate-IsKeyed w (asks ip) k = k
  operate-IsKeyed w (adds_row argv) k = k
  operate-IsKeyed w (removes_row argv) k = k

  pub operate_all-IsKeyed :
      (os : List Operation) (w w' : WhiteList S)
      → IsKeyed w.accept_list
      → operate_all S w os ≡ done w'
      → IsKeyed w'.accept_list
  unfolding operate_all
  operate_all-IsKeyed [] w w' k e = (rw (← done-injective e) k)
  operate_all-IsKeyed (o ∷ os) w w' k e =
      let (r, now, later) = >>=-eq-done (operate S w o) (λ r. operate_all S r.0 os) e in
      operate_all-IsKeyed os r.0 w'
        (Ensures-done Keeps (operate S w o) r (operate-IsKeyed w o k) now) later

  -- After a life of a white list, from its constructor through any operations in any order in
  -- which no call faults to its destructor, no address stands twice in its accept list, and its
  -- database is closed.
  pub live_through-IsKeyed :
      (os : List Operation) (w : WhiteList S)
      → live_through S os ≡ done w
      → IsKeyed w.accept_list × (w.database ≡ none)
  unfolding live_through
  live_through-IsKeyed os w e =
      let (v, lived, closed) = >>=-eq-done (operate_all S (new_white_list S) os) _ e in
      let gone : destroy_white_list S v ≡ w = done-injective closed in
      (rw (← gone) (operate_all-IsKeyed os (new_white_list S) v tt lived), rw (← gone) refl)
