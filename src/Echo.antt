-- ===== src/Echo.antt =====
-- Client and server together: a message on its way to the server and back.
pub mod Conversation
pub mod World
pub mod Handshake
use mathlib.Core.List.{append_assoc}
use poco_echo.Base.{
  ℕ, suc, ◌+◌, ◌≤◌, ◌<◌, ◌≡◌, ◌==◌, false, some, [], ◌∷◌, ◌++◌, length, take, take-all, drop,
  drop-all, length-append, length-take, take-append_more, Bytes, done, arith, bytes32, IsText,
  c_string, c_string-append,
}
use poco_echo.Poco.{
  Receipt, throws, blocks, brings, Fifo, IsFifo, Memory, IsMemory, Socket, Peers, HasRoom,
}
use poco_echo.Poco.Laws.{held-received}
use poco_echo.Packets.{max_buffer_length, word_size}
use poco_echo.Packets.PacketType
use poco_echo.Effect.{printed, sent, message_from, message_shown}
use poco_echo.Network.Update.{Loop, Turn, ConnectHandler, handle_bytes, receive_client, visit}
use poco_echo.Server.Callbacks.{server_invoke, packet_handler_address}
use poco_echo.Server.Echo.{reply}
use poco_echo.Server.Respond.{handle_bytes-reply}
use poco_echo.Client.Action.{ActionManager, new_action_manager, message_limit, send_message}
use poco_echo.Client.Receive.{client_packet_handler, client_pass, goes_on}
use poco_echo.Client.Packet.{request, send_message_lem, show_message-shown}

-- The client's packet, read as the server reads it.
request-text :
    (m : Memory) (text : Bytes)
    → IsText text
    → 2 ≤ length m.beyond
    → (beyond : Bytes)
    → c_string (take (length text + 2) (text ++ (0 ∷ take 2 m.beyond)) ++ beyond) ≡ some text
request-text m text t two beyond =
    rw (take-append_more text (0 ∷ take 2 m.beyond) 2, append_assoc)
      (c_string-append text (take 1 (take 2 m.beyond) ++ beyond) t)

module _ {F : Fifo} (L : IsFifo F) {m : Memory} (M : IsMemory m) where
  -- A pass of the client's loop over a whole reply shows its text.
  pub client_pass-reply :
      (packet_type text : Bytes)
      → length packet_type ≡ word_size
      → IsText text
      → length text < message_limit
      → HasRoom m max_buffer_length
      → client_pass F m packet_type (record {
        close_requested = false;
        type_bytes = brings (take word_size (reply text));
        rest = brings (drop word_size (reply text));
      })
        ≡ done (goes_on (bytes32 PacketType.message) (printed (message_shown text) ∷ []))
  unfolding client_pass client_packet_handler
  client_pass-reply packet_type text four t short room =
      let n : ℕ = suc (length text) in
      let body : Bytes = text ++ (0 ∷ []) in
      let size : length body ≡ n = omega (arith, length-append text (0 ∷ [])) in
      let some_bytes : (suc (suc (suc (suc (length body)))) == 0) ≡ false = ground arith in
      let read : c_string (take n body ++ m.beyond) ≡ some text =
        rw (take-all n body (omega arith), append_assoc) (c_string-append text m.beyond t) in
      let (block, got) = room n (omega arith) in
      rw (
        some_bytes,
        drop-all 4 packet_type (omega arith),
        take-all 1020 body (omega arith),
        show_message-shown L M (F.write (F.create max_buffer_length) (bytes32 n ++ body)) n body
            block text (held-received L (bytes32 n ++ body) (omega arith)) (omega arith)
            (omega arith) got read,
      )

-- The server answers a request that it receives in one piece.
pub handle_bytes-request :
    {F : Fifo} (L : IsFifo F) (mc : Memory) {ms : Memory} (Ms : IsMemory ms) (peers : Peers)
    (l : Loop) (client : Socket) (text host : Bytes)
    → IsText text
    → length text < message_limit
    → 2 ≤ length mc.beyond
    → HasRoom ms max_buffer_length
    → length l.packet_type ≡ word_size
    → peers client ≡ some host
    → handle_bytes F
        (server_invoke F ms peers)
        (packet_handler_address ∷ [])
        client
        (request mc text)
        l
      ≡ done (record l {
        packet_type = bytes32 PacketType.message;
        log = l.log ++ (printed (message_from host text) ∷ sent client (reply text) ∷ []);
      })
handle_bytes-request L mc {ms} Ms peers l client text host t short two rs four known =
    let size : length (text ++ (0 ∷ take 2 mc.beyond)) ≡ length text + 3 =
      omega (arith, length-append text (0 ∷ take 2 mc.beyond), length-take 2 mc.beyond) in
    rw (← take-all max_buffer_length (reply text) (omega (arith, length-append text (0 ∷ [])))) (
      handle_bytes-reply L Ms peers l client (length text + 2) (text ++ (0 ∷ take 2 mc.beyond)) host
        text four (omega (arith, size)) (omega (arith, size)) (request-text mc text t two ms.beyond)
        (omega arith) rs known)

-- The server's visit of a client whose request has arrived.
pub visit-request :
    {F : Fifo} (L : IsFifo F) (mc : Memory) {ms : Memory} (Ms : IsMemory ms) (peers : Peers)
    (connect_handler : ConnectHandler) (server client : Socket) (text host : Bytes) (turn : Turn)
    (l : Loop)
    → IsText text
    → length text < message_limit
    → 2 ≤ length mc.beyond
    → HasRoom ms max_buffer_length
    → length l.packet_type ≡ word_size
    → peers client ≡ some host
    → (client == server) ≡ false
    → turn.received client ≡ some (request mc text)
    → visit F
        (server_invoke F ms peers)
        (packet_handler_address ∷ [])
        connect_handler
        peers
        server
        turn
        client
        l
      ≡ done (record l {
        packet_type = bytes32 PacketType.message;
        log = l.log ++ (printed (message_from host text) ∷ sent client (reply text) ∷ []);
      })
unfolding visit receive_client
visit-request L mc Ms peers ch server client text host turn l t short two rs four known other got =
    let fits : take max_buffer_length (request mc text) ≡ request mc text =
      take-all max_buffer_length (request mc text)
        (omega (arith, length-append text (0 ∷ take 2 mc.beyond), length-take 2 mc.beyond)) in
    let some_bytes : (length (take max_buffer_length (request mc text)) == 0) ≡ false =
      ground arith in
    rw (other, got, some_bytes, fits)
      (handle_bytes-request L mc Ms peers l client text host t short two rs four known)

-- A text of fewer than 256 bytes, none of them 0, sent by the client while two bytes lie behind
-- its block and blocks up to 1024 bytes can be had, leaves as one packet; the server that receives
-- this packet in one piece, with the client's host known, shows the text and the host and answers
-- with the text; and the client whose loop receives the answer's type and the rest of it shows the
-- text.
pub echo_round_trip :
    {F : Fifo} (L : IsFifo F) {mc ms : Memory} (Mc : IsMemory mc) (Ms : IsMemory ms) (peers : Peers)
    (a : ActionManager) (l : Loop) (server client : Socket) (packet_type text host : Bytes)
    → IsText text
    → length text < message_limit
    → 2 ≤ length mc.beyond
    → HasRoom mc max_buffer_length
    → HasRoom ms max_buffer_length
    → length l.packet_type ≡ word_size
    → length packet_type ≡ word_size
    → peers client ≡ some host
    → (send_message F mc server text a
        ≡ done (new_action_manager, sent server (request mc text) ∷ []))
      × (handle_bytes F
            (server_invoke F ms peers)
            (packet_handler_address ∷ [])
            client
            (request mc text)
            l
          ≡ done (record l {
            packet_type = bytes32 PacketType.message;
            log = l.log ++ (printed (message_from host text) ∷ sent client (reply text) ∷ []);
          }))
      × (client_pass F mc packet_type (record {
        close_requested = false;
        type_bytes = brings (take word_size (reply text));
        rest = brings (drop word_size (reply text));
      })
          ≡ done (goes_on (bytes32 PacketType.message) (printed (message_shown text) ∷ [])))
echo_round_trip L {mc} {ms} Mc Ms peers a l server client packet_type text host t short two rc rs
      four four' known =
    let (block, got) = rc (suc (length text)) (omega arith) in
    (
      send_message_lem L Mc server a text block short got,
      handle_bytes-request L mc Ms peers l client text host t short two rs four known,
      client_pass-reply L Mc packet_type text four' t short rc,
    )
