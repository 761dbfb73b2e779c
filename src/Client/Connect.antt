-- ===== src/Client/Connect.antt =====
-- `CClient::TryConnect`, `Run` and `Disconnect` (client/src/CClient.cpp).
use poco_echo.Base.{
  All, Ensures, Ensures-step, Ensures-bind, or_fault, assertion, ℕ, ◌==◌, ◌<◌, ◌≡◌, refl,
  if◌then◌else◌, Bool, true, false, not, ◌&&◌, assert, Option, none, some, List, [], ◌∷◌, Bytes,
  length, take, Outcome, done, ◌>>=◌, ◌>>◌, word32, overlay, ltb, Bool-cases, inl, inr, lt→ltb,
}
use poco_echo.Poco.{Receipt, throws, blocks, brings, Socket}
use poco_echo.Packets.{word_size}
use poco_echo.Packets.PacketType
use poco_echo.Network.LifeCycle.Effects.{close-IsSilent}
use poco_echo.Effect.{IsSilent, Effect, closed}
use poco_echo.Network.Handlers.{Handler, add_packet_handler, get_list_index_of_packet_handler}
use poco_echo.Network.LifeCycle.{
  Network, Closing, refuses, new_network, is_initialized, close, start_update_thread,
  try_client_start, exit,
}

-- `m_pNetwork`.
pub record Client : Type 0 where
  pub network : Option Network

abbrev pub new_client : Client
new_client = record { network = none }

-- The address of `CClient::PacketHandler`.
abbrev pub client_handler_address : Handler
client_handler_address = 1

-- The packet handler is registered where the network has started. The answer is true either way.
abbrev register : Network × Bool × List Effect → Client × Bool × List Effect
register (n, true, effects) = (
  record {
    network = some (record n {
      packet_handlers = add_packet_handler n.packet_handlers client_handler_address;
    });
  },
  true,
  effects,
)
register (n, false, effects) = (record { network = some n }, true, effects)

-- On the block of an address, a port, the socket that the network makes, the bytes of `packetType`,
-- and what the first receive from an address and a port comes to. The network that was there before is leaked.
unfoldable pub try_connect :
    Option Bytes
    → ℕ
    → Socket
    → Bytes
    → (Bytes → ℕ → Receipt)
    → Client
    → Outcome (Client × Bool × List Effect)
try_connect server_address server_port s junk dial client = do
  address ← or_fault assertion server_address
  assert (ltb 0 server_port && ltb server_port 65536)
  r ← try_client_start s junk (dial address server_port) new_network
  done (register r)

abbrev run_network : Option Network → Client × Bool
run_network none = (record { network = none }, false)
run_network (some n) =
    if is_initialized n
    then (record { network = some (start_update_thread n) }, true)
    else (record { network = some n }, false)

-- Whether the threads start, and the client then.
abbrev pub client_run : Client → Client × Bool
client_run client = run_network client.network

-- The network is deleted after `Close`. Its destructor has nothing left to close where the thread has
-- run `Exit`; where an exception has ended the thread it calls `Close` again, whose `join` then returns
-- at once, and the socket stays open.
disconnect_network : Option Network → Outcome (Client × Bool × Closing × List Effect)
disconnect_network none = done (record { network = none }, false, refuses, [])
disconnect_network (some n) = do
  (n', closing, effects) ← close n
  done (record { network = none }, true, closing, effects)

unfoldable pub disconnect : Client → Outcome (Client × Bool × Closing × List Effect)
unfolding disconnect_network
disconnect client = disconnect_network client.network

-- The destructor.
unfoldable pub destroy_client : Client → Outcome (List Effect)
destroy_client client = do r ← disconnect client; done r.3

-- The client takes it that the server lets it in: by the bytes that came over `packetType`, or by what
-- was in it where nothing has come.
abbrev pub lets_in : Bytes → Receipt → Bool
lets_in junk throws = false
lets_in junk blocks = word32 junk == PacketType.accept
lets_in junk (brings bs) =
    not (length bs == 0) && (word32 (overlay junk (take word_size bs)) == PacketType.accept)

-- The client after a call of `TryConnect`.
abbrev pub afterwards : Bool → Socket → Client
afterwards true s = record {
  network =
      some (record new_network { socket = some s; packet_handlers = client_handler_address ∷ [] });
}
afterwards false s = record { network = some new_network }

pub runs-afterwards : (b : Bool) (s : Socket) → (client_run (afterwards b s)).1 ≡ b
runs-afterwards true s = refl
runs-afterwards false s = refl

register-afterwards :
    (s : Socket) (junk : Bytes) (reply : Receipt)
    → (try_client_start s junk reply new_network >>= λ r. done (register r))
      ≡ done (
        afterwards (lets_in junk reply) s,
        true,
        if lets_in junk reply then [] else closed s ∷ [],
      )
unfolding try_client_start close exit add_packet_handler get_list_index_of_packet_handler
register-afterwards s junk throws = refl
register-afterwards s junk blocks = elim (Bool-cases (word32 junk == PacketType.accept)) [
  | inl a ↦ rw a refl
  | inr a ↦ rw a refl
]
register-afterwards s junk (brings bs) = elim (Bool-cases (length bs == 0)) [
  | inl e ↦ rw (e) refl
  | inr e ↦ elim (Bool-cases (word32 (overlay junk (take word_size bs)) == PacketType.accept)) [
    | inl a ↦ rw (e, a) refl
    | inr a ↦ rw (e, a) refl
  ]
]

-- On a port from 1 to 65535 TryConnect answers true whatever comes back; the client's threads then
-- start just if it lets the client in, and the socket was closed otherwise.
pub try_connect-afterwards :
    (address : Bytes) (server_port : ℕ) (s : Socket) (junk : Bytes) (dial : Bytes → ℕ → Receipt)
    (client : Client)
    → 0 < server_port
    → server_port < 65536
    → try_connect (some address) server_port s junk dial client
      ≡ done (
        afterwards (lets_in junk (dial address server_port)) s,
        true,
        if lets_in junk (dial address server_port) then [] else closed s ∷ [],
      )
unfolding try_connect
try_connect-afterwards address port s junk dial client low high =
    rw (lt→ltb 0 port low, lt→ltb port 65536 high) (register-afterwards s junk (dial address port))

-- Given an address and a port from 1 to 65535 TryConnect answers true whatever its first receive
-- comes to, an exception, nothing yet or bytes; the client's threads then start just if no call
-- has thrown, the connection was not at its end, and the packet-type local is an accept, of the
-- bytes received as far as they go and else of what was in it before; the socket was closed
-- otherwise.
pub try_connect-client_run :
    (address : Bytes) (server_port : ℕ) (s : Socket) (junk : Bytes) (dial : Bytes → ℕ → Receipt)
    (client : Client)
    → 0 < server_port
    → server_port < 65536
    → (c : Client) × (try_connect (some address) server_port s junk dial client
        ≡ done (c, true, if lets_in junk (dial address server_port) then [] else closed s ∷ []))
      × ((client_run c).1 ≡ lets_in junk (dial address server_port))
try_connect-client_run address port s junk dial client low high = (
  afterwards (lets_in junk (dial address port)) s,
  try_connect-afterwards address port s junk dial client low high,
  runs-afterwards (lets_in junk (dial address port)) s,
)

-- None of the calls sends anything.
pub try_connect-IsSilent :
    (address : Option Bytes) (server_port : ℕ) (s : Socket) (junk : Bytes)
    (dial : Bytes → ℕ → Receipt) (client : Client)
    → Ensures (λ r. All IsSilent r.2) (try_connect address server_port s junk dial client)
unfolding try_connect
try_connect-IsSilent address server_port s junk dial client =
    Ensures-step (λ r. All IsSilent r.2) (or_fault assertion address) _
      λ block.
        Ensures-step (λ r. All IsSilent r.2) (assert (ltb 0 server_port && ltb server_port 65536)) _
          λ ok.
            rw (register-afterwards s junk (dial block server_port))
              (quiet (lets_in junk (dial block server_port)))
  where
    quiet : (b : Bool) → All IsSilent (if b then [] else closed s ∷ [])
    quiet true = tt
    quiet false = (tt, tt)

disconnect_network-IsSilent :
    (network : Option Network) → Ensures (λ r. All IsSilent r.3) (disconnect_network network)
unfolding disconnect_network
disconnect_network-IsSilent none = tt
disconnect_network-IsSilent (some n) =
    Ensures-bind (λ r. All IsSilent r.2) (λ r. All IsSilent r.3) (close n) _ (close-IsSilent n)
      λ r h. h

pub disconnect-IsSilent : (client : Client) → Ensures (λ r. All IsSilent r.3) (disconnect client)
unfolding disconnect
disconnect-IsSilent client = disconnect_network-IsSilent client.network

pub destroy_client-IsSilent : (client : Client) → Ensures (All IsSilent) (destroy_client client)
unfolding destroy_client
destroy_client-IsSilent client =
    Ensures-bind (λ r. All IsSilent r.3) (All IsSilent) (disconnect client) _
      (disconnect-IsSilent client) λ r h. h
