-- ===== src/Server/Control.antt =====
-- `CServer::TryStart`, `Run` up to the threads, `Close` and the destructor (server/src/CServer.cpp).
use poco_echo.Base.{
  ℕ, All, Ensures-bind, Ensures, Ensures-step, Ensures-done, ◌≡◌, refl, if◌then◌else◌, Bool, true,
  false, Option, none, some, List, [], Outcome, done, ◌>>=◌,
}
use poco_echo.Poco.{Socket}
use poco_echo.Effect.{Effect, IsSilent}
use poco_echo.Network.LifeCycle.Effects.{close-IsSilent}
use poco_echo.Network.Handlers.{Handler, add_packet_handler}
use poco_echo.Network.LifeCycle.{
  Closing, close, Network, NetworkServer, new_network, is_initialized, start_update_thread,
  try_start, register_socket_connect_handler,
}
use poco_echo.Server.Callbacks.{packet_handler_address}

-- `m_pNetwork`.
pub record Server : Type 0 where
  pub network : Option NetworkServer

abbrev pub new_server : Server
new_server = record { network = none }

-- `SERVER_PORT`, which the code uses nowhere: `TryStart` listens at the default port.
abbrev pub server_port : ℕ
server_port = 28210

-- The address of `CServer::ConnectHandler`.
abbrev pub connect_handler_address : Handler
connect_handler_address = 2

-- The two registrations, where the network has started.
abbrev register : Network × Bool × List Effect → Server × Bool × List Effect
register (n, true, effects) = (
  record {
    network = some (
        register_socket_connect_handler connect_handler_address (record {
          network = record n {
            packet_handlers = add_packet_handler n.packet_handlers packet_handler_address;
          };
          registered = none;
        }));
  },
  true,
  effects,
)
register (n, false, effects) =
    (record { network = some (record { network = n; registered = none }) }, false, effects)

-- The network that was there before is leaked.
unfoldable pub server_try_start : Option Socket → Server → Outcome (Server × Bool × List Effect)
server_try_start bound server = try_start bound new_network >>= λ r. done (register r)

-- Whether the threads start, and the server then.
abbrev run_network : Option NetworkServer → Server × Bool
run_network none = (record { network = none }, false)
run_network (some ns) =
    if is_initialized ns.network
    then (record { network = some (record ns { network = start_update_thread ns.network }) }, true)
    else (record { network = some ns }, false)

abbrev pub server_run : Server → Server × Bool
server_run server = run_network server.network

-- `Close`. The network is deleted. Its destructor has nothing left to close where the thread has run
-- `Exit`; where an exception has ended the thread it calls `Close` again, whose `join` then returns at
-- once, and the socket stays open. No value stands for the answer `false`.
close_network : Option NetworkServer → Outcome (Server × Option Closing × List Effect)
close_network none = done (new_server, none, [])
close_network (some ns) = do
  (n, closing, effects) ← close ns.network
  done (new_server, some closing, effects)

unfoldable pub server_close : Server → Outcome (Server × Option Closing × List Effect)
unfolding close_network
server_close server = close_network server.network

close_network-new_server :
    (network : Option NetworkServer) → Ensures (λ r. r.0 ≡ new_server) (close_network network)
unfolding close_network
close_network-new_server none = refl
close_network-new_server (some ns) =
    Ensures-step (λ r. r.0 ≡ new_server) (close ns.network) _ λ r. refl

-- A server that was closed is as a new one, and there is nothing to close in that.
server_close-again :
    (server server' : Server) (closing : Option Closing) (effects : List Effect)
    → server_close server ≡ done (server', closing, effects)
    → server_close server' ≡ done (new_server, none, [])
unfolding server_close
server_close-again server server' closing effects e =
    let same : server' ≡ new_server =
      Ensures-done (λ r. r.0 ≡ new_server) (server_close server) (server', closing, effects)
        (close_network-new_server server.network) e in
    rw (same) refl

-- The destructor.
unfoldable pub destroy_server : Server → Outcome (List Effect)
destroy_server server = do r ← server_close server; done r.2

pub server_try_start-IsSilent :
    (bound : Option Socket) (server : Server)
    → Ensures (λ r. All IsSilent r.2) (server_try_start bound server)
unfolding server_try_start try_start close
server_try_start-IsSilent none server = tt
server_try_start-IsSilent (some s) server = tt

close_network-IsSilent :
    (network : Option NetworkServer) → Ensures (λ r. All IsSilent r.2) (close_network network)
unfolding close_network
close_network-IsSilent none = tt
close_network-IsSilent (some ns) =
    Ensures-bind (λ r. All IsSilent r.2) (λ r. All IsSilent r.2) (close ns.network) _
      (close-IsSilent ns.network) λ r h. h

pub server_close-IsSilent :
    (server : Server) → Ensures (λ r. All IsSilent r.2) (server_close server)
unfolding server_close
server_close-IsSilent server = close_network-IsSilent server.network

pub destroy_server-IsSilent : (server : Server) → Ensures (All IsSilent) (destroy_server server)
unfolding destroy_server
destroy_server-IsSilent server =
    Ensures-bind (λ r. All IsSilent r.2) (All IsSilent) (server_close server) _
      (server_close-IsSilent server) λ r h. h
