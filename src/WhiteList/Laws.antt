-- ===== src/WhiteList/Laws.antt =====
-- What `Add` and `Remove` do to the addresses that may connect, and to the statement buffer.
use poco_echo.Base.{
  ◌+◌, ◌≤◌, ◌≡◌, le→ltb, if◌then◌else◌, Bool, false, ◌||◌, ◌&&◌, not, List, Bytes, length,
  length-append, done, fault, over_write, arith, bytes_eq, bytes_eq_iff, bytes_elem,
  bytes_elem-erase, codes,
}
use poco_echo.Sqlite.{Sqlite, insert_sql, delete_sql}
use poco_echo.WhiteList.{WhiteList, emplace, is_ip_can_connect, add, remove}

pub bytes_elem-emplace :
    (a ip : Bytes) (xs : List Bytes)
    → bytes_elem a (emplace ip xs) ≡ (bytes_eq a ip || bytes_elem a xs)
bytes_elem-emplace a ip xs = ground (arith, bytes_eq_iff a ip)

pub length-insert_sql : (ip : Bytes) → length (insert_sql ip) ≡ length ip + 43
length-insert_sql ip = omega (arith, length-append ip (codes "')"))

pub length-delete_sql : (ip : Bytes) → length (delete_sql ip) ≡ length ip + 40
length-delete_sql ip = omega (arith, length-append ip (codes "'"))

module _ {S : Sqlite} (w : WhiteList S) (ip : Bytes) where
  -- After a call of Add that returns, an address may connect if it could before or if Add returned
  -- true and it is the one added.
  pub add-is_ip_can_connect :
      (w' : WhiteList S) (ok : Bool) (a : Bytes)
      → add S w ip ≡ done (w', ok)
      → is_ip_can_connect S w' a
        ≡ (if ok then bytes_eq a ip || is_ip_can_connect S w a else is_ip_can_connect S w a)
  unfolding add is_ip_can_connect
  add-is_ip_can_connect w' ok a e = ground (arith, bytes_elem-emplace a ip w.accept_list)

  -- After a call of Remove that returns, an address may connect if it could before and Remove did
  -- not return true for this very address.
  pub remove-is_ip_can_connect :
      (w' : WhiteList S) (ok : Bool) (a : Bytes)
      → remove S w ip ≡ done (w', ok)
      → is_ip_can_connect S w' a
        ≡ (if ok then not (bytes_eq a ip) && is_ip_can_connect S w a else is_ip_can_connect S w a)
  unfolding remove is_ip_can_connect
  remove-is_ip_can_connect w' ok a e = ground (arith, bytes_elem-erase a ip w.accept_list)

  -- Add of an address of 21 bytes or more that is not accepted yet writes past its statement
  -- buffer of 64 bytes.
  pub add_overflow :
      is_ip_can_connect S w ip ≡ false → 21 ≤ length ip → add S w ip ≡ fault over_write
  unfolding add
  add_overflow new long =
      rw (new, le→ltb (length (insert_sql ip)) 64 (omega (arith, length-insert_sql ip)))
