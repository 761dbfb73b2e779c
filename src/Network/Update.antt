-- ===== src/Network/Update.antt =====
-- `CNetworkServer::OnUpdate`. What `select` and the sockets give in a round is its `Turn`.
use poco_echo.Base.{
  ℕ, ◌==◌, if◌then◌else◌, Bool, true, Option, none, some, List, [], ◌∷◌, ◌++◌, map, length, take,
  Bytes, Outcome, done, poco_exception, or_fault, ◌>>=◌, bytes32, word32, overlay, elem,
  remove_first,
}
use poco_echo.Poco.{Fifo, Socket, Peers}
use poco_echo.Packets.{max_buffer_length, word_size}
use poco_echo.Packets.PacketType
use poco_echo.Effect.{Effect, printed, sent, closed, dropped}
use poco_echo.Network.Handlers.{Handler}

-- One round: the count that `select` returns, the sockets that it leaves in `readList`, the socket
-- that `acceptConnection` returns, and the bytes that a socket gives to `receiveBytes`. No value
-- stands for an exception.
pub record Turn : Type 0 where
  pub count : ℕ
  pub ready : List Socket
  pub accepted : Option Socket
  pub received : Socket → Option Bytes

-- The locals of `OnUpdate`: `clients`, the four bytes of `packetType`, and `dropList`, with the
-- effects so far.
pub record Loop : Type 0 where
  pub clients : List Socket
  pub packet_type : Bytes
  pub drop_list : List Socket
  pub log : List Effect

-- `m_pConnectHandler`: null, or a function.
abbrev pub ConnectHandler : Type 0
ConnectHandler = Option (Socket → Outcome (Bool × List Effect))

-- `m_pConnectHandler && !m_pConnectHandler(&client)`, negated.
abbrev pub admits : ConnectHandler → Socket → Outcome (Bool × List Effect)
admits none client = done (true, [])
admits (some handler) client = handler client

-- The two answers to a client that asks to be let in, after the effects of the question.
abbrev pub let_in : Socket → List Effect → Loop → Loop
let_in client es l = record l {
  clients = l.clients ++ (client ∷ []);
  packet_type = bytes32 PacketType.accept;
  log = l.log ++ (es ++ (sent client (bytes32 PacketType.accept) ∷ []));
}

abbrev pub kick_out : Socket → List Effect → Loop → Loop
kick_out client es l = record l {
  packet_type = bytes32 PacketType.kick;
  log = l.log ++ (es ++ (sent client (bytes32 PacketType.kick) ∷ closed client ∷ []));
}

-- The branch of a readable server socket.
unfoldable pub accept_client : ConnectHandler → Turn → Loop → Outcome Loop
accept_client connect_handler turn l = do
  client ← or_fault poco_exception turn.accepted
  verdict ← admits connect_handler client
  done (if verdict.0 then let_in client verdict.1 l else kick_out client verdict.1 l)

-- What the packet handlers of the list do, each a function on a client, a buffer and a packet type.
abbrev pub Invoke : Fifo → Type 0
Invoke F = Handler → Socket → F.Buffer → ℕ → Outcome (F.Buffer × List Effect)

module _ (F : Fifo) (invoke : Invoke F) where
  -- The handlers in turn, on one buffer.
  unfoldable pub run_handlers :
      List Handler → Socket → F.Buffer → ℕ → Outcome (F.Buffer × List Effect)
  run_handlers [] client b packet_type = done (b, [])
  run_handlers (h ∷ hs) client b packet_type = do
    r ← invoke h client b packet_type
    r' ← run_handlers hs client r.0 packet_type
    done (r'.0, r.1 ++ r'.1)

  -- The bytes of a client: a packet type, of which only what came is new, and the rest for the
  -- handlers.
  unfoldable pub handle_bytes : List Handler → Socket → Bytes → Loop → Outcome Loop
  handle_bytes packet_handlers client bs l = do
    let (ts, b) = F.read (F.write (F.create max_buffer_length) bs) word_size
    let packet_type = overlay l.packet_type ts
    r ← run_handlers packet_handlers client b (word32 packet_type)
    done (record l { packet_type = packet_type; log = l.log ++ r.1 })

  -- The branch of a readable client. `receiveBytes` takes no more than the buffer holds.
  unfoldable pub receive_client : List Handler → Turn → Socket → Loop → Outcome Loop
  receive_client packet_handlers turn client l = do
    bs ← or_fault poco_exception (turn.received client)
    let received = take max_buffer_length bs
    if length received == 0
        then done (record l { drop_list = l.drop_list ++ (client ∷ []) })
        else handle_bytes packet_handlers client received l

-- The locals before the first round; `junk` is what `packetType` holds before its first write.
abbrev pub start : Socket → Bytes → Loop
start server_socket junk = record {
  clients = server_socket ∷ [];
  packet_type = junk;
  drop_list = [];
  log = [];
}

module _ (peers : Peers) where
  -- The first socket of `clients` that equals a dropped one goes.
  unfoldable pub drop_client : Socket → Loop → Outcome Loop
  drop_client s l =
      if elem s l.clients
      then (do
        host ← or_fault poco_exception (peers s)
        done (record l {
          clients = remove_first s l.clients;
          log = l.log ++ (printed (dropped host) ∷ []);
        }))
      else done l

  unfoldable pub drop_clients : List Socket → Loop → Outcome Loop
  drop_clients [] l = done l
  drop_clients (s ∷ ss) l = drop_client s l >>= λ l'. drop_clients ss l'

module _ (F : Fifo) (invoke : Invoke F) (packet_handlers : List Handler)
    (connect_handler : ConnectHandler) (peers : Peers) (server_socket : Socket) where
  unfoldable pub visit : Turn → Socket → Loop → Outcome Loop
  visit turn s l =
      if s == server_socket
      then accept_client connect_handler turn l
      else receive_client F invoke packet_handlers turn s l

  unfoldable pub visit_all : Turn → List Socket → Loop → Outcome Loop
  visit_all turn [] l = done l
  visit_all turn (s ∷ ss) l = visit turn s l >>= λ l'. visit_all turn ss l'

  -- A round after the test of `m_bCloseRequested`.
  unfoldable pub update_round : Turn → Loop → Outcome Loop
  update_round turn l = if turn.count == 0 then done l else (do
    l' ← visit_all turn turn.ready (record l { drop_list = [] })
    drop_clients peers l'.drop_list l')

  -- The rounds until the close request.
  unfoldable pub update_rounds : List Turn → Loop → Outcome Loop
  update_rounds [] l = done l
  update_rounds (turn ∷ turns) l = update_round turn l >>= λ l'. update_rounds turns l'

  -- The whole loop, with the clients closed behind it. `Exit` closes the server socket once more.
  unfoldable pub on_update : Bytes → List Turn → Outcome (List Effect)
  on_update junk turns = do
    l ← update_rounds turns (start server_socket junk)
    done (l.log ++ (map closed l.clients ++ (closed server_socket ∷ [])))
