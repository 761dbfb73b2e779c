-- ===== src/Server/Access.antt =====
-- The update loop with the callbacks of the server: who is answered.
use poco_echo.Base.{
  ℕ, ◌≡◌, refl, ◌⊎◌, inl, inr, ◌==◌, Bool, true, false, Bool-cases, Option-cases, elem, Option,
  none, some, List, All, All-append, Bytes, done, Ensures, Ensures-bind, Ensures-catch,
  Ensures-step, signed32, or_fault, assertion, poco_exception, arith,
}
use poco_echo.Poco.{Fifo, Memory, Socket, Peers, new_array, read_word, text_at}
use poco_echo.Packets.{max_buffer_length}
use poco_echo.Packets.PacketType
use poco_echo.Effect.{AnswersOnly, Effect}
use poco_echo.Sqlite.{Sqlite}
use poco_echo.WhiteList.{WhiteList, is_ip_can_connect}
use poco_echo.Network.Handlers.{Handler}
use poco_echo.Network.Update.{Loop}
use poco_echo.Network.Admission.{AreHandlers, IsAllowed, Admitted}
use poco_echo.Network.Reach.{Reach, Reach-IsGuarded}
use poco_echo.Server.Packet.{
  MessagePacket, Packet, message_packet, message_send_packet, new_message_packet,
}
use poco_echo.Server.Packet.Read.{read, read_fields}
use poco_echo.Server.Packet.Write.{new_message_send_packet, write}
use poco_echo.Server.Translator.{
  keep_if_read, translate, packet_message, process_packet, packet_handler,
}
use poco_echo.Server.Callbacks.{
  connect_handler-IsSilent, connect_handler, server_connect, server_invoke, packet_handler_address,
}

-- A packet that belongs to a client.
abbrev IsFrom : Socket → Option Packet → Type 0
IsFrom client none = Unit
IsFrom client (some (message_packet p)) = p.socket ≡ some client
IsFrom client (some (message_send_packet p)) = Unit

module _ (F : Fifo) (m : Memory) where
  -- `Read` does not touch the packet's socket.
  read-socket :
      (p : MessagePacket) (b : F.Buffer) → Ensures (λ r. r.0.socket ≡ p.socket) (read F m p b)
  unfolding read read_fields
  read-socket p b =
      Ensures-catch (λ r. r.0.socket ≡ p.socket) (read_fields F m p b) (done (p, b, false))
        (Ensures-step (λ r. r.0.socket ≡ p.socket) (new_array m (signed32 (read_word F m b).0)) _
          λ block. refl)
        refl

  keep_if_read-IsFrom :
      (client : Socket) (r : MessagePacket × F.Buffer × Bool)
      → r.0.socket ≡ some client
      → IsFrom client (keep_if_read F m r).0
  unfolding keep_if_read
  keep_if_read-IsFrom client (p, b, true) e = e
  keep_if_read-IsFrom client (p, b, false) e = tt

  translate-IsFrom :
      (t : ℕ) (client : Socket) (b : F.Buffer)
      → Ensures (λ r. IsFrom client r.0 × All (AnswersOnly client) r.2) (translate F m t client b)
  unfolding translate
  translate-IsFrom t client b = elim (Bool-cases (t == PacketType.message)) [
    | inl message ↦ rw message (
        Ensures-bind (λ r. r.0.socket ≡ some client)
          (λ r. IsFrom client r.0 × All (AnswersOnly client) r.2)
          (read F m (record new_message_packet { socket = some client }) b) _
          (read-socket (record new_message_packet { socket = some client }) b)
          λ r e. (keep_if_read-IsFrom client r e, tt))
    | inr other ↦ rw other (tt, (tt, tt))
  ]

  module _ (peers : Peers) where
    packet_message-AnswersOnly :
        (client : Socket) (p : MessagePacket)
        → p.socket ≡ some client
        → Ensures (All (AnswersOnly client)) (packet_message F m peers p)
    unfolding packet_message
    packet_message-AnswersOnly client p e = rw e (
        Ensures-step (All (AnswersOnly client)) (or_fault assertion p.message) _ λ block.
          Ensures-step (All (AnswersOnly client)) (or_fault poco_exception (peers client)) _ λ peer.
            Ensures-step (All (AnswersOnly client)) (text_at m block) _ λ text.
              Ensures-step (All (AnswersOnly client)) (new_message_send_packet m block) _ λ packet.
                Ensures-step (All (AnswersOnly client))
                  (write F m packet (F.create max_buffer_length)) _ λ r. (tt, (refl, tt)))

    process_packet-AnswersOnly :
        (client : Socket) (p : Option Packet)
        → IsFrom client p
        → Ensures (All (AnswersOnly client)) (process_packet F m peers p)
    unfolding process_packet
    process_packet-AnswersOnly client none h = tt
    process_packet-AnswersOnly client (some (message_packet p)) h =
        packet_message-AnswersOnly client p h
    process_packet-AnswersOnly client (some (message_send_packet p)) h = tt

    pub packet_handler-AnswersOnly :
        (client : Socket) (b : F.Buffer) (t : ℕ)
        → Ensures (λ r. All (AnswersOnly client) r.1) (packet_handler F m peers client b t)
    unfolding packet_handler
    packet_handler-AnswersOnly client b t =
        Ensures-bind (λ r. IsFrom client r.0 × All (AnswersOnly client) r.2)
          (λ r. All (AnswersOnly client) r.1) (translate F m t client b) _
          (translate-IsFrom t client b)
          λ r own.
            Ensures-bind (All (AnswersOnly client)) (λ r. All (AnswersOnly client) r.1)
              (process_packet F m peers r.0) _ (process_packet-AnswersOnly client r.0 own.0)
              λ es quiet. All-append (AnswersOnly client) r.2 es own.1 quiet

module _ {S : Sqlite} (F : Fifo) (m : Memory) (w : WhiteList S) (peers : Peers) where
  -- The server's callbacks keep the rules of the update loop.
  pub server_callbacks-AreHandlers :
      AreHandlers F (server_invoke F m peers) (server_connect w peers)
  unfolding connect_handler
  server_callbacks-AreHandlers = record {
    answers = λ h client b t. elim (Bool-cases (h == packet_handler_address)) [
      | inl ours ↦ rw ours (packet_handler-AnswersOnly F m peers client b t)
      | inr other ↦ rw other tt
    ];
    asks = connect_handler-IsSilent w peers;
  }

  -- An admitted client's host stands in the white list.
  pub Admitted-host :
      (client : Socket)
      → Admitted (server_connect w peers) client
      → (host : Bytes) × (peers client ≡ some host) × (is_ip_can_connect S w host ≡ true)
  unfolding connect_handler
  Admitted-host client (es, e) = elim (Option-cases (peers client)) [
    | inl unknown ↦ absurd (ground arith)
    | inr (host, known) ↦ (host, known, ground arith)
  ]

  -- The host of a client stands in the white list.
  abbrev pub IsWhite : Socket → Type 0
  IsWhite client = (host : Bytes) × (peers client ≡ some host) × (is_ip_can_connect S w host ≡ true)

  -- Data goes to clients from the white list, and to others the kick alone.
  abbrev pub IsServed : Effect → Type 0
  IsServed = IsAllowed IsWhite

  -- In every state that the server's update loop can reach at the head of a round, whatever the
  -- sockets do within what select promises: the server socket is listed, each other listed socket
  -- has a known host in the white list, and every byte sent so far went to such a socket or was
  -- the kick. The white list is one and the same in all rounds.
  pub Reach-IsServed :
      (hs : List Handler) (server : Socket) (junk : Bytes) (l : Loop)
      → Reach F (server_invoke F m peers) hs (server_connect w peers) peers server junk l
      → (elem server l.clients ≡ true)
        × All (λ c. (c ≡ server) ⊎ IsWhite c) l.clients
        × All IsServed l.log
  Reach-IsServed hs server junk l r =
      let g =
        Reach-IsGuarded server_callbacks-AreHandlers IsWhite Admitted-host hs peers server r in
      (g.listens, g.members, g.traffic)
