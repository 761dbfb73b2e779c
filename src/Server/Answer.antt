-- ===== src/Server/Answer.antt =====
-- The whole path of a message packet through the server, from the received buffer to the answer.
use poco_echo.Base.{
  ℕ, suc, ◌^◌, ◌≤◌, ◌<◌, ◌≡◌, none, some, [], ◌∷◌, ◌++◌, length, take, drop, Bytes, done, bytes32,
  c_string,
}
use poco_echo.Poco.{Fifo, IsFifo, Memory, IsMemory, Socket, Peers}
use poco_echo.Packets.{max_buffer_length}
use poco_echo.Packets.PacketType
use poco_echo.Effect.{printed, sent, message_from}
use poco_echo.Server.Translator.{packet_message, packet_handler, keep_if_read, process_message}
use poco_echo.Server.Echo.{reply, read-done, new_message_send_packet-done, write-reply}

module _ {F : Fifo} (L : IsFifo F) {m : Memory} (M : IsMemory m) (peers : Peers) where
  -- The text is what C reads at the block, which may run on behind it.
  pub packet_message-reply :
      (client : Socket) (src copy host text : Bytes)
      → peers client ≡ some host
      → c_string (src ++ m.beyond) ≡ some text
      → m.fresh (suc (length text)) ≡ some copy
      → suc (length text) < 2 ^ 31
      → packet_message F m peers (record { socket = some client; message = some src })
        ≡ done (
            printed (message_from host text)
            ∷ sent client (take max_buffer_length (reply text))
            ∷ [])
  unfolding packet_message
  packet_message-reply client src copy host text known e got small =
      let (b, wrote, holds) =
        write-reply L M (F.create max_buffer_length) (src ++ m.beyond) text
          (L.held-create max_buffer_length) (L.size-create max_buffer_length) e small in
      rw (known, e, new_message_send_packet-done L M src text copy e got, wrote, holds)

  -- The server's handler answers a message packet whose length is not negative and within the
  -- buffer by the C string that it finds at the packet's bytes, running on into what lies behind
  -- their block, as a packet cut to 1024 bytes, and leaves in the buffer what stands behind the
  -- packet; the two blocks that it asks for can be had, the text's size fits an int, and the
  -- client's host is known.
  pub packet_handler-reply :
      (client : Socket) (b : F.Buffer) (n : ℕ) (body block copy host text : Bytes)
      → F.held b ≡ bytes32 n ++ body
      → n < 2 ^ 31
      → n ≤ length body
      → c_string (take n body ++ m.beyond) ≡ some text
      → suc (length text) < 2 ^ 31
      → m.fresh n ≡ some block
      → m.fresh (suc (length text)) ≡ some copy
      → peers client ≡ some host
      → (b' : F.Buffer) × (packet_handler F m peers client b PacketType.message
          ≡ done (
            b',
            printed (message_from host text)
                ∷ sent client (take max_buffer_length (reply text))
                ∷ [],
          ))
        × (F.held b' ≡ drop n body)
  unfolding packet_handler keep_if_read process_message
  packet_handler-reply client b n body block copy host text hb small enough e short got got' known =
      let (b', ran, left) =
        read-done L M (record { socket = some client; message = none }) b n block body hb small
          enough got in
      (
        b',
        rw (ran, packet_message-reply client (take n body) copy host text known e got' short),
        left,
      )
