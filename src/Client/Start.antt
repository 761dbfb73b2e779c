-- ===== src/Client/Start.antt =====
-- The start of the client, `main` (client/src/main.cpp) up to the two threads. The console's loop ends
-- by `exit` alone, so that `Run` does not return from them.
use poco_echo.Base.{
  ℕ, suc, ◌≡◌, refl, if◌then◌else◌, Bool, true, false, some, List, [], ◌∷◌, ◌++◌, Bytes, length,
  Outcome, done, ◌>>=◌, ℤ, arith,
}
use poco_echo.Poco.{Receipt, Memory, IsMemory, Socket}
use poco_echo.Packets.{default_server_port}
use poco_echo.Effect.{Effect, closed}
use poco_echo.Network.LifeCycle.{live, new_network}
use poco_echo.Client.Option.{new_options, parse_options, valid_port}
use poco_echo.Client.Option.Laws.{parse_options-address}
use poco_echo.Network.LifeCycle.{close}
use poco_echo.Singleton.{
  Class, Objects, no_objects, create, ClientObject, construct_client, construct_client_actions,
}
use poco_echo.Client.Connect.{
  disconnect, destroy_client, Client, new_client, client_handler_address, try_connect, client_run,
  lets_in, afterwards, try_connect-afterwards,
}

-- The end of `main` with what it has closed, or the objects, their registry and the client with which
-- the threads run.
pub data ClientStarted : Type 0 where
  leaves : List Effect → ClientStarted
  runs : ClientObject → Objects → Client → ClientStarted

-- From the answer of `Run` on: `main` disconnects a client that does not run, and deletes it.
abbrev after_run : ClientObject → Objects → List Effect → Client × Bool → Outcome ClientStarted
after_run user o effects (client, true) = done (runs user o client)
after_run user o effects (client, false) = do
  r ← disconnect client
  last ← destroy_client r.0
  done (leaves (effects ++ (r.3 ++ last)))

-- From the answer of `TryConnect` on.
abbrev run_started : ClientObject → Objects → Client × Bool × List Effect → Outcome ClientStarted
run_started user o (client, true, effects) = after_run user o effects (client_run client)
run_started user o (client, false, effects) = do
  last ← destroy_client client
  done (leaves (effects ++ last))

module _ (m : Memory) (overflow : Bytes → ℤ) where
  unfoldable pub client_main :
      List Bytes → Socket → Bytes → (Bytes → ℕ → Receipt) → Outcome ClientStarted
  client_main argv s junk dial = do
    (this, o) ← create Class.option no_objects
    (options, parsed) ← parse_options m overflow argv new_options
    if parsed
        then (do
          (user, o') ← construct_client o
          r ← try_connect options.server_address options.server_port s junk dial new_client
          run_started user o' r)
        else done (leaves [])

-- The objects of `main`: the options have the address 1.
abbrev pub user : ClientObject
user = record { this = 2; action_manager = record { this = 3; client = 2 } }

abbrev pub registry : Objects
registry = record {
  next = 4;
  instances = (Class.client_actions, 3) ∷ (Class.client, 2) ∷ (Class.option, 1) ∷ [];
}

-- The client that `Run` runs on a socket.
abbrev pub running : Socket → Client
running s = record {
  network = some (record new_network {
    socket = some s;
    thread = live;
    packet_handlers = client_handler_address ∷ [];
  });
}

run_started-afterwards :
    (b : Bool) (s : Socket)
    → run_started user registry (afterwards b s, true, if b then [] else closed s ∷ [])
      ≡ done (if b then runs user registry (running s) else leaves (closed s ∷ []))
unfolding disconnect destroy_client close
run_started-afterwards true s = refl
run_started-afterwards false s = refl

-- Given a program name, an address whose block can be had and a valid port, the client's main gets
-- as far as its threads just if the server at this address and the default port lets it in,
-- whatever the port was; otherwise it closes its socket and ends.
pub client_main-default_server_port :
    {m : Memory} (overflow : Bytes → ℤ)
    → IsMemory m
    → (program address port block : Bytes) (more : List Bytes) (s : Socket) (junk : Bytes)
      (dial : Bytes → ℕ → Receipt)
    → m.fresh (suc (length address)) ≡ some block
    → valid_port overflow port ≡ true
    → client_main m overflow (program ∷ address ∷ port ∷ more) s junk dial
      ≡ done (
          if lets_in junk (dial (address ++ (0 ∷ [])) default_server_port)
          then runs user registry (running s)
          else leaves (closed s ∷ []))
unfolding client_main create construct_client construct_client_actions
client_main-default_server_port {m} overflow M program address port block more s junk dial got
      valid =
    let reply : Receipt = dial (address ++ (0 ∷ [])) default_server_port in
    rw
      (
        (parse_options-address m overflow M program address port block more new_options got
            valid).0,
        try_connect-afterwards (address ++ (0 ∷ [])) default_server_port s junk dial new_client
            (omega arith) (omega arith),
      )
      (run_started-afterwards (lets_in junk reply) s)
