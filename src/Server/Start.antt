-- ===== src/Server/Start.antt =====
-- The start of the server, `main` (server/src/main.cpp) up to the two threads. The console's loop ends
-- by `exit` alone, so that `Run` does not return from them.
use poco_echo.Base.{
  ◌≡◌, ◌≢◌, refl, if◌then◌else◌, Bool, true, false, Option, none, some, List, [], ◌∷◌, ◌++◌,
  Outcome, done, fault, assertion, ◌>>=◌, arith, codes, >>=-eq-done, done-injective, sym, ◌∙◌, ap,
}
use poco_echo.Poco.{Socket}
use poco_echo.Effect.{Effect}
use poco_echo.Sqlite.{Sqlite, IsSqlite, sqlite_ok}
use poco_echo.WhiteList.{WhiteList, new_white_list, initialize, try_get_list}
use poco_echo.WhiteList.Mirror.{IsMirror, try_get_list-IsMirror}
use poco_echo.Network.Handlers.{add_packet_handler, get_list_index_of_packet_handler}
use poco_echo.Network.LifeCycle.{live, close, try_start}
use poco_echo.Singleton.{Class, Objects, no_objects, create, ServerObject, construct_server}
use poco_echo.Singleton.Once.{IsWired, wired, wiring, construct_server-wired, wired-IsWired}
use poco_echo.Server.Callbacks.{packet_handler_address}
use poco_echo.Server.Control.{
  Server, new_server, connect_handler_address, server_try_start, server_run, server_close,
  destroy_server,
}

-- The end of `main` with what it has closed, or the white list, the objects, their registry and the
-- server with which the threads run.
pub data Started (S : Sqlite) : Type 0 where
  leaves : List Effect → Started S
  runs : WhiteList S → ServerObject → Objects → Server → Started S

module _ (S : Sqlite) where
  -- From the answer of `Run` on. A server that does not run is closed and deleted.
  abbrev after_run :
      WhiteList S → ServerObject → Objects → List Effect → Server × Bool → Outcome (Started S)
  after_run w s o effects (server, true) = done (runs w s o server)
  after_run w s o effects (server, false) = do
    r ← server_close server
    last ← destroy_server r.0
    done (leaves (effects ++ (r.2 ++ last)))

  -- From the answer of `TryStart` on.
  abbrev run_started :
      WhiteList S → ServerObject → Objects → Server × Bool × List Effect → Outcome (Started S)
  run_started w s o (server, true, effects) = after_run w s o effects (server_run server)
  run_started w s o (server, false, effects) = do
    last ← destroy_server server
    done (leaves (effects ++ last))

  -- The result of `Initialize` is not looked at.
  unfoldable pub server_main : Option Socket → Outcome (Started S)
  server_main bound = do
    (list, o) ← create Class.white_list no_objects
    let (w, opened) = initialize S (new_white_list S)
    (w', loaded) ← try_get_list S w
    if loaded
        then (do
          (s, o') ← construct_server (some list) o
          r ← server_try_start bound new_server
          run_started w' s o' r)
        else done (leaves [])

  -- The server that `Run` runs on a socket.
  abbrev pub running : Socket → Server
  running s = record {
    network = some (record {
      network = record {
        socket = some s;
        thread = live;
        close_requested = false;
        packet_handlers = packet_handler_address ∷ [];
      };
      registered = some connect_handler_address;
    });
  }

  server_try_start-running :
      (bound : Option Socket) (w : WhiteList S) (s : ServerObject) (o : Objects)
      → (server_try_start bound new_server >>= run_started w s o)
        ≡ done
            (elim bound as (λ b. Started S) [ none ↦ leaves [] | some c ↦ runs w s o (running c) ])
  unfolding server_try_start try_start add_packet_handler get_list_index_of_packet_handler close
      server_close destroy_server
  server_try_start-running none w s o = refl
  server_try_start-running (some c) w s o = refl

  -- The registry when `main` constructs the server, and the white list's address in it.
  abbrev listed : Objects
  listed = record { next = 2; instances = (Class.white_list, 1) ∷ [] }

  constructed : construct_server (some 1) listed ≡ done (wired 2 1, wiring listed)
  constructed = construct_server-wired listed 1 refl refl refl refl

  -- `main` once the white list is loaded or not.
  abbrev loaded_main : Option Socket → WhiteList S × Bool → Outcome (Started S)
  loaded_main bound (w, loaded) =
      if loaded
      then (do
        (s, o') ← construct_server (some 1) listed
        r ← server_try_start bound new_server
        run_started w s o' r)
      else done (leaves [])

  loaded_main-running :
      (bound : Option Socket) (w : WhiteList S)
      → loaded_main bound (w, true)
        ≡ done (elim bound as (λ b. Started S) [
          | none ↦ leaves []
          | some c ↦ runs w (wired 2 1) (wiring listed) (running c)
        ])
  loaded_main-running bound w =
      rw (constructed, server_try_start-running bound w (wired 2 1) (wiring listed)) refl

  server_main-loaded_main :
      (bound : Option Socket)
      → server_main bound
        ≡ (try_get_list S (initialize S (new_white_list S)).0 >>= loaded_main bound)
  unfolding server_main create
  server_main-loaded_main bound = refl

  -- Where sqlite3_open fails, main ends in a failed assertion, whether or not the port could be
  -- had.
  pub server_main-fault :
      (bound : Option Socket)
      → (S.open_file (codes "whitelist.sql")).0 ≢ sqlite_ok
      → server_main bound ≡ fault assertion
  unfolding server_main initialize try_get_list create
  server_main-fault bound bad = ground arith

  started-runs :
      (bound : Option Socket) (w w' : WhiteList S) (s : ServerObject) (o : Objects)
      (server : Server) (loaded : Bool)
      → loaded_main bound (w', loaded) ≡ done (runs w s o server)
      → (loaded ≡ true)
        × (w' ≡ w)
        × (s ≡ wired 2 1)
        × (o ≡ wiring listed)
        × ((c : Socket) × (bound ≡ some c) × (server ≡ running c))
  started-runs bound w w' s o server false e = absurd (ground arith)
  started-runs none w w' s o server true e = absurd (ground (arith, loaded_main-running none w'))
  started-runs (some c) w w' s o server true e =
      let same : runs w' (wired 2 1) (wiring listed) (running c) ≡ runs w s o server =
        done-injective (sym (loaded_main-running (some c) w') ∙ e) in
      (refl, ground arith, ground arith, ground arith, (c, refl, ground arith))

  initialize-accept_list : (initialize S (new_white_list S)).0.accept_list ≡ []
  unfolding initialize
  initialize-accept_list = ground arith

module _ {S : Sqlite} (L : IsSqlite S) where
  -- Where main gets as far as the two threads: its white list accepts just the addresses of its
  -- database; its objects refer to one another, to the white list and to the server, and the
  -- server, the packet handler, the packet translator, the action manager and the white list are
  -- the instances of their classes; the listening socket could be had; and the network of its
  -- server has this socket, the server's packet handler alone, and the server's connect handler.
  pub server_main-runs :
      (bound : Option Socket) (w : WhiteList S) (s : ServerObject) (o : Objects) (server : Server)
      → server_main S bound ≡ done (runs w s o server)
      → IsMirror w × IsWired 1 s o × ((c : Socket) × (bound ≡ some c) × (server ≡ running S c))
  server_main-runs bound w s o server e =
      let w₀ : WhiteList S = (initialize S (new_white_list S)).0 in
      let (r, loads, runs_on) =
        >>=-eq-done (try_get_list S w₀) (loaded_main S bound)
          (sym (server_main-loaded_main S bound) ∙ e) in
      let (loaded, same, objects, registry, listens) =
        started-runs S bound w r.0 s o server r.1 runs_on in
      let answer : r ≡ (w, true) = ground arith in
      (
        try_get_list-IsMirror L w₀ w (initialize-accept_list S) (loads ∙ ap done answer),
        rw (objects, registry) (wired-IsWired (listed S) 1 refl),
        listens,
      )
