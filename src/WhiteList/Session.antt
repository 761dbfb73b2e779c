-- ===== src/WhiteList/Session.antt =====
-- Histories of the administrator's commands on the white list, and a restart after one.
use poco_echo.Base.{
  bytes_erase, bytes_eq, not, ◌||◌, ◌&&◌, ap, false, ◌==◌, ◌≤◌, ◌≡◌, refl, sym, ◌∙◌, if◌then◌else◌,
  Bool, true, some, List, [], ◌∷◌, Bytes, length, Outcome, done, >>=-eq-done, ◌>>=◌, arith,
  bytes_elem, All,
}
use poco_echo.Sqlite.{Sqlite, IsSqlite, IsQuotable, sqlite_ok, insert_sql, delete_sql}
use poco_echo.WhiteList.{WhiteList, emplace, is_ip_can_connect, try_get_list, add, remove}
use poco_echo.WhiteList.Laws.{
  add-is_ip_can_connect, remove-is_ip_can_connect, length-insert_sql, length-delete_sql,
}
use poco_echo.WhiteList.Mirror.{
  IsMirror, add-IsMirror, remove-IsMirror, try_get_list-IsMirror, try_get_list-stored,
}

pub data Command : Type 0 where
  adds removes : Bytes → Command

abbrev pub address : Command → Bytes
address (adds ip) = ip
address (removes ip) = ip

module _ (S : Sqlite) where
  unfoldable pub perform : WhiteList S → Command → Outcome (WhiteList S × Bool)
  perform w (adds ip) = add S w ip
  perform w (removes ip) = remove S w ip

  -- The commands in turn. A fault ends the program.
  unfoldable pub perform_all : WhiteList S → List Command → Outcome (WhiteList S)
  perform_all w [] = done w
  perform_all w (c ∷ cs) = perform w c >>= λ r. perform_all r.0 cs

-- Whether an address is accepted after a command with its result, if `b` says whether it was.
abbrev pub accepted_after : Command → Bool → Bytes → Bool → Bool
accepted_after (adds ip) ok a b = if ok then bytes_eq a ip || b else b
accepted_after (removes ip) ok a b = if ok then not (bytes_eq a ip) && b else b

-- After a call of Add or Remove that returns, an address may connect just if it could before, but
-- for the address of a call that returned true: after Add it may connect, and after Remove it may
-- not.
pub perform-is_ip_can_connect :
    {S : Sqlite} (w w' : WhiteList S) (c : Command) (ok : Bool) (a : Bytes)
    → perform S w c ≡ done (w', ok)
    → is_ip_can_connect S w' a ≡ accepted_after c ok a (is_ip_can_connect S w a)
unfolding perform
perform-is_ip_can_connect w w' (adds ip) ok a e = add-is_ip_can_connect w ip w' ok a e
perform-is_ip_can_connect w w' (removes ip) ok a e = remove-is_ip_can_connect w ip w' ok a e

module _ {S : Sqlite} (L : IsSqlite S) where
  pub perform-IsMirror :
      (w w' : WhiteList S) (c : Command) (ok : Bool)
      → IsQuotable (address c)
      → IsMirror w
      → perform S w c ≡ done (w', ok)
      → IsMirror w'
  unfolding perform
  perform-IsMirror w w' (adds ip) ok q v e = add-IsMirror L w w' ip ok q v e
  perform-IsMirror w w' (removes ip) ok q v e = remove-IsMirror L w w' ip ok q v e

  -- If the white list accepts just the addresses of its database, it does so after any history of
  -- Add and Remove on addresses without a quote in which no call faults, whatever codes the
  -- database returns.
  pub perform_all-IsMirror :
      (cs : List Command) (w w' : WhiteList S)
      → All (λ c. IsQuotable (address c)) cs
      → IsMirror w
      → perform_all S w cs ≡ done w'
      → IsMirror w'
  unfolding perform_all
  perform_all-IsMirror [] w w' q v e = rw (← e') v
    where
      e' : w ≡ w'
      e' = ground arith
  perform_all-IsMirror (c ∷ cs) w w' q v e =
      let (r, now, later) = >>=-eq-done (perform S w c) (λ r. perform_all S r.0 cs) e in
      perform_all-IsMirror cs r.0 w' q.1 (perform-IsMirror w r.0 c r.1 q.0 v now) later

  -- A white list is loaded from a database, goes through any history of Add and Remove on
  -- addresses without a quote in which no call faults, and a second white list is loaded from the
  -- database as it is then: both accept the same addresses.
  pub restart-is_ip_can_connect :
      (cs : List Command) (w₀ w₁ w₂ w₃ : WhiteList S) (ip : Bytes)
      → All (λ c. IsQuotable (address c)) cs
      → w₀.accept_list ≡ []
      → try_get_list S w₀ ≡ done (w₁, true)
      → perform_all S w₁ cs ≡ done w₂
      → try_get_list S (record { accept_list = []; database = w₂.database }) ≡ done (w₃, true)
      → is_ip_can_connect S w₃ ip ≡ is_ip_can_connect S w₂ ip
  unfolding is_ip_can_connect
  restart-is_ip_can_connect cs w₀ w₁ w₂ w₃ ip q fresh loaded ran again =
      let anew : WhiteList S = record { accept_list = []; database = w₂.database } in
      (try_get_list-IsMirror L anew w₃ refl again).same ip
      ∙ ap (bytes_elem ip) (try_get_list-stored L anew w₃ true again)
      ∙ sym (
          (perform_all-IsMirror cs w₁ w₂ q (try_get_list-IsMirror L w₀ w₁ fresh loaded) ran).same
            ip)

module _ (S : Sqlite) (w : WhiteList S) (ip : Bytes) (d : S.Db) where
  -- The results of a command on an open database, by what the database answers.
  abbrev added : WhiteList S × Bool
  added =
      let r = S.exec d (insert_sql ip) in
      if bytes_elem ip w.accept_list
      then (w, false)
      else if r.code == sqlite_ok
      then (record { accept_list = emplace ip w.accept_list; database = some r.db }, true)
      else (record w { database = some r.db }, false)

  abbrev removed : WhiteList S × Bool
  removed =
      let r = S.exec d (delete_sql ip) in
      if bytes_elem ip w.accept_list
      then if r.code == sqlite_ok
        then (record { accept_list = bytes_erase ip w.accept_list; database = some r.db }, true)
        else (record w { database = some r.db }, false)
      else (w, false)

  add-added : w.database ≡ some d → length ip ≤ 20 → add S w ip ≡ done added
  unfolding add is_ip_can_connect
  add-added opened short = ground (arith, length-insert_sql ip)

  remove-removed : w.database ≡ some d → length ip ≤ 20 → remove S w ip ≡ done removed
  unfolding remove is_ip_can_connect
  remove-removed opened short = ground (arith, length-delete_sql ip)

module _ {S : Sqlite} where
  -- On an open database each command on an address of at most 20 characters returns, and leaves
  -- the database open.
  pub perform_total :
      (w : WhiteList S) (c : Command) (d : S.Db)
      → w.database ≡ some d
      → length (address c) ≤ 20
      → (r : WhiteList S × Bool) × (d' : S.Db) × (perform S w c ≡ done r) × (r.0.database ≡ some d')
  unfolding perform
  perform_total w (adds ip) d opened short = (
    added S w ip d,
    (if bytes_elem ip w.accept_list then d else (S.exec d (insert_sql ip)).db),
    add-added S w ip d opened short,
    ground arith,
  )
  perform_total w (removes ip) d opened short = (
    removed S w ip d,
    (if bytes_elem ip w.accept_list then (S.exec d (delete_sql ip)).db else d),
    remove-removed S w ip d opened short,
    ground arith,
  )

  -- On an open database every history of Add and Remove on addresses of at most 20 bytes runs to
  -- its end without a fault.
  pub perform_all_total :
      (cs : List Command) (w : WhiteList S) (d : S.Db)
      → w.database ≡ some d
      → All (λ c. length (address c) ≤ 20) cs
      → (w' : WhiteList S) × (perform_all S w cs ≡ done w')
  unfolding perform_all
  perform_all_total [] w d opened short = (w, refl)
  perform_all_total (c ∷ cs) w d opened short =
      let (r, d', now, still) = perform_total w c d opened short.0 in
      let (w', later) = perform_all_total cs r.0 d' still short.1 in (w', rw (now, later))
