-- ===== src/Echo/World.antt =====
-- A server and its connected clients, in every order of what they do: users answer their menus
-- (client/src/CActionManager.cpp), the server's update thread serves a socket, and the loops of the
-- clients take a packet (shared/include/Network/CNetwork.cpp). A connection gives the packets of its
-- sender whole, each once and in order.
pub mod Histories
pub mod Talks
pub mod Told
pub mod Delivery
pub mod Pending
pub mod Next
pub mod Drains
use poco_echo.Base.{
  ◌≤◌, ◌==◌, ◌≡◌, if◌then◌else◌, Bool, true, false, some, List, [], ◌∷◌, ◌++◌, All, elem, length,
  take, drop, Bytes, done,
}
use poco_echo.Poco.{Receipt, throws, blocks, brings, Fifo, Memory, IsMemory, HasRoom, Socket, Peers}
use poco_echo.Packets.{max_buffer_length, word_size}
use poco_echo.Effect.{Effect, printed, sent, closed}
use poco_echo.Console.{Answer}
use poco_echo.Network.LifeCycle.{Network}
use poco_echo.Network.Update.{Turn, Loop, ConnectHandler, visit}
use poco_echo.Server.Callbacks.{server_invoke, packet_handler_address}
use poco_echo.Client.Action.{new_action_manager}
use poco_echo.Client.Connect.{Client}
use poco_echo.Client.Console.{Prompt, Desk, get_action}
use poco_echo.Client.Console.Prompts.{IsWord}
use poco_echo.Client.Receive.{ClientTurn, client_pass, goes_on}

-- The packets that go to a socket.
abbrev pub sends : Socket → List Effect → List Bytes
sends s [] = []
sends s (printed line ∷ es) = sends s es
sends s (sent to bs ∷ es) = if s == to then bs ∷ sends s es else sends s es
sends s (closed to ∷ es) = sends s es

-- The value at one socket replaced.
abbrev pub put {ℓ} : {A : Type ℓ} → Socket → A → (Socket → A) → Socket → A
put s a f k = if s == k then a else f k

-- A client process: what its memory holds, its client with the network, the client's end of the
-- connection, its host, and the four bytes of its packet type before the first packet.
pub record Party : Type 0 where
  pub memory : Memory
  pub user : Client
  pub network : Network
  pub to : Socket
  pub host : Bytes
  pub packet_type : Bytes

-- A party that is connected to the server over a socket `c` of the server.
pub record IsJoined (peers : Peers) (server c : Socket) (p : Party) : Type 0 where
  pub memory : IsMemory p.memory
  pub two : 2 ≤ length p.memory.beyond
  pub room : HasRoom p.memory max_buffer_length
  pub there : p.user.network ≡ some p.network
  pub connected : p.network.socket ≡ some p.to
  pub known : peers c ≡ some p.host
  pub apart : (c == server) ≡ false
  pub four : length p.packet_type ≡ word_size

-- A client in its course: the console, the prompts so far, the packets that the server has taken of
-- it, those that it has taken of the server, the packet type of its loop, and what the loop has
-- shown.
pub record Site : Type 0 where
  pub desk : Desk
  pub asked : List Prompt
  pub heard : List Bytes
  pub read : List Bytes
  pub packet_type : Bytes
  pub shown : List Effect

-- The loop of the server, and the clients behind its sockets.
pub record World : Type 0 where
  pub loop : Loop
  pub site : Socket → Site

-- A pass of the client's loop that takes a packet.
abbrev pub piece : Bytes → ClientTurn
piece bs = record {
  close_requested = false;
  type_bytes = brings (take word_size bs);
  rest = brings (drop word_size bs);
}

module _ (F : Fifo) (m : Memory) (peers : Peers) (connect_handler : ConnectHandler)
    (server : Socket) (parties : Socket → Party) (clients : List Socket) where
  -- A prompt of a user, a visit of the server's thread, or a pass of a client's loop.
  pub data Step (w : World) : World → Type 0 where
    enters :
        (c : Socket) (p : Prompt) (d : Desk) (answer : Answer)
        → elem c clients ≡ true
        → All IsWord p.words
        → (p.action == 2) ≡ false
        → get_action F (parties c).memory (w.site c).desk p ≡ done (d, answer)
        → Step w (record w {
          site =
              put c (record (w.site c) { desk = d; asked = (w.site c).asked ++ (p ∷ []) }) w.site;
        })
    hears :
        (c : Socket) (turn : Turn) (bs : Bytes) (rest : List Bytes) (l : Loop)
        → elem c clients ≡ true
        → sends (parties c).to (w.site c).desk.log ≡ (w.site c).heard ++ (bs ∷ rest)
        → turn.received c ≡ some bs
        → visit F
            (server_invoke F m peers)
            (packet_handler_address ∷ [])
            connect_handler
            peers
            server
            turn
            c
            w.loop
          ≡ done l
        → Step w (record w {
          loop = l;
          site = put c (record (w.site c) { heard = (w.site c).heard ++ (bs ∷ []) }) w.site;
        })
    reads :
        (c : Socket) (bs packet_type : Bytes) (rest : List Bytes) (effects : List Effect)
        → elem c clients ≡ true
        → sends c w.loop.log ≡ (w.site c).read ++ (bs ∷ rest)
        → client_pass F (parties c).memory (w.site c).packet_type (piece bs)
          ≡ done (goes_on packet_type effects)
        → Step w (record w {
          site =
              put c
                (record (w.site c) {
                  read = (w.site c).read ++ (bs ∷ []);
                  packet_type = packet_type;
                  shown = (w.site c).shown ++ effects;
                })
                w.site;
        })

  -- The clients are connected, and nobody has said anything.
  abbrev pub opened : Loop → World
  opened l = record {
    loop = record l { log = [] };
    site = λ c. record {
      desk = record { manager = new_action_manager; client = (parties c).user; log = [] };
      asked = [];
      heard = [];
      read = [];
      packet_type = (parties c).packet_type;
      shown = [];
    };
  }

  -- Some steps from one world to another.
  pub data Steps (w : World) : World → Type 0 where
    here : Steps w w
    further : {v u : World} → Steps w v → Step v u → Steps w u
