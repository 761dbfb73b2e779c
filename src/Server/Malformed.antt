-- ===== src/Server/Malformed.antt =====
-- Packets that a client of the program would not send.
use poco_echo.Base.{
  ℕ, ◌^◌, ◌≤◌, ◌<◌, ◌≡◌, ◌==◌, le→ltb, none, some, [], ◌∷◌, ◌++◌, false, length, take, Bytes, done,
  fault, bad_alloc, over_read, bytes32, c_string,
}
use poco_echo.Poco.{Fifo, IsFifo, Memory, IsMemory, Socket, Peers}
use poco_echo.Poco.Laws.{read_word-bytes32}
use poco_echo.Packets.PacketType
use poco_echo.Effect.{printed, unknown_packet}
use poco_echo.Server.Packet.Read.{read, read_fields}
use poco_echo.Server.Echo.{read-done}
use poco_echo.Server.Translator.{
  keep_if_read, translate, packet_message, process_message, packet_handler,
}

module _ {F : Fifo} (L : IsFifo F) {m : Memory} (M : IsMemory m) (peers : Peers) where
  -- A message packet with a negative length makes new throw an exception that no handler of the
  -- server catches.
  pub packet_handler-negative_length :
      (client : Socket) (b : F.Buffer) (n : ℕ) (body : Bytes)
      → F.held b ≡ bytes32 n ++ body
      → 2 ^ 31 ≤ n
      → n < 2 ^ 32
      → packet_handler F m peers client b PacketType.message ≡ fault bad_alloc
  unfolding packet_handler translate read read_fields
  packet_handler-negative_length client b n body hb negative word =
      rw ((read_word-bytes32 L M b n body hb word).0, le→ltb n (2 ^ 31) negative)

  -- A message packet of a length within the buffer, with no NUL in its bytes nor behind their
  -- block, makes the server read past the end of memory; its block can be had and the client's
  -- host is known.
  pub packet_handler-unterminated :
      (client : Socket) (b : F.Buffer) (n : ℕ) (body block host : Bytes)
      → F.held b ≡ bytes32 n ++ body
      → n < 2 ^ 31
      → n ≤ length body
      → m.fresh n ≡ some block
      → peers client ≡ some host
      → c_string (take n body ++ m.beyond) ≡ none
      → packet_handler F m peers client b PacketType.message ≡ fault over_read
  unfolding packet_handler keep_if_read process_message packet_message
  packet_handler-unterminated client b n body block host hb small enough got known e =
      let (b', ran, left) =
        read-done L M (record { socket = some client; message = none }) b n block body hb small
          enough got in
      rw (ran, known, e)

  -- A packet of another type is reported, not answered, and left in the buffer.
  pub packet_handler-unknown_type :
      (client : Socket) (b : F.Buffer) (t : ℕ)
      → (t == PacketType.message) ≡ false
      → packet_handler F m peers client b t ≡ done (b, printed (unknown_packet t) ∷ [])
  unfolding packet_handler
  packet_handler-unknown_type client b t other = rw other
