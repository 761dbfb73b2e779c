-- ===== src/Echo/Handshake.antt =====
-- A client that asks to be let in: CNetworkServer::OnUpdate with CServer::ConnectHandler on one side,
-- CClient::TryConnect and Run on the other.
use poco_echo.Base.{
  ℕ, ◌≤◌, ◌<◌, ◌≡◌, refl, ◌==◌, ==-same, if◌then◌else◌, Bool, true, false, some, List, [], ◌∷◌,
  ◌++◌, length, drop-all, ap, ◌∙◌, Bytes, done, arith, bytes32,
}
use poco_echo.Poco.{brings, Fifo, Memory, IsMemory, HasRoom, Socket, Peers}
use poco_echo.Packets.{max_buffer_length, word_size}
use poco_echo.Packets.PacketType
use poco_echo.Effect.{Effect, printed, sent, closed, asks_to_connect, allowed, not_allowed}
use poco_echo.Sqlite.{Sqlite}
use poco_echo.WhiteList.{WhiteList, is_ip_can_connect}
use poco_echo.Network.Handlers.{Handler}
use poco_echo.Network.LifeCycle.{new_network, start_update_thread}
use poco_echo.Network.Update.{Loop, Turn, visit, accept_client}
use poco_echo.Server.Callbacks.{server_invoke, server_connect, connect_handler}
use poco_echo.Client.Connect.{
  Client, try_connect, client_run, afterwards, lets_in, try_connect-afterwards, runs-afterwards,
  client_handler_address,
}
use poco_echo.Echo.World.{IsJoined}

-- The packet that answers a client, by whether it may connect.
abbrev pub verdict : Bool → Bytes
verdict can = bytes32 (if can then PacketType.accept else PacketType.kick)

-- What the server shows and sends for it.
abbrev pub admission : Bytes → Socket → Bool → List Effect
admission host client can =
    printed (asks_to_connect host)
    ∷ printed (if can then allowed else not_allowed)
    ∷ sent client (verdict can)
    ∷ (if can then [] else closed client ∷ [])

lets_in-verdict :
    (junk : Bytes) (can : Bool)
    → length junk ≡ word_size
    → lets_in junk (brings (verdict can)) ≡ can
lets_in-verdict junk true four = rw (drop-all 4 junk (omega arith)) refl
lets_in-verdict junk false four = rw (drop-all 4 junk (omega arith)) refl

-- TryConnect and Run on the verdict.
try_connect-verdict :
    (can : Bool) (address : Bytes) (server_port : ℕ) (s : Socket) (junk : Bytes) (before : Client)
    → 0 < server_port
    → server_port < 65536
    → length junk ≡ word_size
    → (try_connect (some address) server_port s junk (λ a p. brings (verdict can)) before
        ≡ done (afterwards can s, true, if can then [] else closed s ∷ []))
      × ((client_run (afterwards can s)).1 ≡ can)
try_connect-verdict can address port s junk before low high four =
    let same : lets_in junk (brings (verdict can)) ≡ can = lets_in-verdict junk can four in
    (
      try_connect-afterwards address port s junk (λ a p. brings (verdict can)) before low high
          ∙ ap (λ b. done (afterwards b s, true, if b then [] else closed s ∷ [])) same,
      runs-afterwards can s,
    )

module _ {S : Sqlite} (w : WhiteList S) (F : Fifo) (m : Memory) (peers : Peers) (hs : List Handler)
    (server client : Socket) (host : Bytes) (known : peers client ≡ some host) (turn : Turn)
    (accepted : turn.accepted ≡ some client) (l : Loop) where
  -- The server's visit of its own socket.
  visit-admission :
      (can : Bool)
      → is_ip_can_connect S w host ≡ can
      → visit F (server_invoke F m peers) hs (server_connect w peers) peers server turn server l
        ≡ done (record l {
          clients = if can then l.clients ++ (client ∷ []) else l.clients;
          packet_type = verdict can;
          log = l.log ++ admission host client can;
        })
  unfolding visit accept_client connect_handler
  visit-admission true e = rw (==-same server, accepted, known, e) refl
  visit-admission false e = rw (==-same server, accepted, known, e) refl

  -- A client whose connection the server accepts, with a known host, and that calls TryConnect
  -- with an address and a port from 1 to 65535 and then Run: the server shows the request, then
  -- whether it is allowed, and then sends the client one packet, an accept just if the white list
  -- accepts the host; it lists a client that is allowed, behind the others, and closes one that is
  -- not, and nothing else of the loop changes but the packet type, which has the bytes sent; and
  -- the client whose first receive brings this packet starts its threads just if the white list
  -- accepts its host, on its socket and with its packet handler alone, and has closed its socket
  -- otherwise. TryConnect answers true either way. The client's local for the packet type has four
  -- bytes.
  pub handshake :
      (address : Bytes) (server_port : ℕ) (s : Socket) (junk : Bytes) (before : Client)
      → 0 < server_port
      → server_port < 65536
      → length junk ≡ word_size
      → let can = is_ip_can_connect S w host in
        (visit F (server_invoke F m peers) hs (server_connect w peers) peers server turn server l
          ≡ done (record l {
            clients = if can then l.clients ++ (client ∷ []) else l.clients;
            packet_type = verdict can;
            log =
                l.log
                ++ (printed (asks_to_connect host)
                    ∷ printed (if can then allowed else not_allowed)
                    ∷ sent client (verdict can)
                    ∷ (if can then [] else closed client ∷ []));
          }))
        × (try_connect (some address) server_port s junk (λ a p. brings (verdict can)) before
            ≡ done (afterwards can s, true, if can then [] else closed s ∷ []))
        × ((client_run (afterwards can s)).1 ≡ can)
  handshake address server_port s junk before low high four =
      let can : Bool = is_ip_can_connect S w host in
      let (ran, starts) = try_connect-verdict can address server_port s junk before low high four in
      (visit-admission can refl, ran, starts)

-- A client that was let in and runs can take part in every order of Echo.World.
pub afterwards-IsJoined :
    (peers : Peers) (server client s : Socket) (m : Memory) (host packet_type : Bytes)
    → IsMemory m
    → 2 ≤ length m.beyond
    → HasRoom m max_buffer_length
    → peers client ≡ some host
    → (client == server) ≡ false
    → length packet_type ≡ word_size
    → IsJoined peers server client (record {
      memory = m;
      user = (client_run (afterwards true s)).0;
      network =
          start_update_thread
            (record new_network { socket = some s; packet_handlers = client_handler_address ∷ [] });
      to = s;
      host = host;
      packet_type = packet_type;
    })
afterwards-IsJoined peers server client s m host packet_type M two room known apart four = record {
  memory = M;
  two = two;
  room = room;
  there = refl;
  connected = refl;
  known = known;
  apart = apart;
  four = four;
}
