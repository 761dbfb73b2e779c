-- ===== src/Server/Respond.antt =====
-- What the server's loop does with the bytes of one receive.
use poco_echo.Base.{
  ℕ, suc, ◌-◌, ◌≤◌, ◌<◌, ◌≡◌, ◌∙◌, some, [], ◌∷◌, ◌++◌, length, take, drop, drop-all, Bytes, done,
  arith, bytes32, c_string,
}
use poco_echo.Poco.{Fifo, IsFifo, Memory, IsMemory, Socket, Peers, HasRoom}
use poco_echo.Poco.Laws.{held-received}
use poco_echo.Packets.{max_buffer_length, word_size}
use poco_echo.Packets.PacketType
use poco_echo.Effect.{printed, sent, message_from}
use poco_echo.Network.Update.{Loop, handle_bytes, run_handlers}
use poco_echo.Server.Callbacks.{server_invoke, packet_handler_address}
use poco_echo.Server.Echo.{reply}
use poco_echo.Server.Answer.{packet_handler-reply}

module _ {F : Fifo} (L : IsFifo F) where
  -- A receive into a new buffer, and the read of its packet type.
  pub received-type :
      (bs : Bytes)
      → length bs ≤ max_buffer_length
      → let b = F.write (F.create max_buffer_length) bs in
        ((F.read b word_size).0 ≡ take word_size bs)
        × (F.held (F.read b word_size).1 ≡ drop word_size bs)
  received-type bs fits =
      let b : F.Buffer = F.write (F.create max_buffer_length) bs in
      let holds : F.held b ≡ bs = held-received L bs fits in
      (L.read-bytes b word_size ∙ rw holds, L.held-read b word_size ∙ rw holds)

module _ {F : Fifo} (L : IsFifo F) {m : Memory} (M : IsMemory m) (peers : Peers) where
  -- One receive of the server that begins with a message packet, of a length that was received
  -- whole, is answered once: by the C string at the packet's bytes or at what lies behind their
  -- block, cut to 1024 bytes. Whatever was received behind the packet has no effect. The receive
  -- is of at most 1024 bytes, the text shorter than that, blocks up to 1024 bytes can be had, and
  -- the client's host is known.
  pub handle_bytes-reply :
      (l : Loop) (client : Socket) (n : ℕ) (body host text : Bytes)
      → length l.packet_type ≡ word_size
      → length body ≤ max_buffer_length - 8
      → n ≤ length body
      → c_string (take n body ++ m.beyond) ≡ some text
      → length text < max_buffer_length
      → HasRoom m max_buffer_length
      → peers client ≡ some host
      → handle_bytes F
          (server_invoke F m peers)
          (packet_handler_address ∷ [])
          client
          (bytes32 PacketType.message ++ (bytes32 n ++ body))
          l
        ≡ done (record l {
          packet_type = bytes32 PacketType.message;
          log =
              l.log
              ++ (printed (message_from host text)
                  ∷ sent client (take max_buffer_length (reply text))
                  ∷ []);
        })
  unfolding handle_bytes run_handlers
  handle_bytes-reply l client n body host text four fits enough e short room known =
      let bs : Bytes = bytes32 PacketType.message ++ (bytes32 n ++ body) in
      let (typed, rest) = received-type L bs (omega arith) in
      let (block, got) = room n (omega arith) in
      let (copy, got') = room (suc (length text)) short in
      let (b, ran, left) =
        packet_handler-reply L M peers client
          (F.read (F.write (F.create max_buffer_length) bs) word_size).1 n body block copy host text
          rest (omega arith) enough e (omega arith) got got' known in
      rw (typed, drop-all 4 l.packet_type (omega arith), ran)
