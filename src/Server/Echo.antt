-- ===== src/Server/Echo.antt =====
-- What the server answers to the bytes of a message, on every buffer and memory.
use native.Mathlib.Nat.{mod-eq_of_lt}
use mathlib.Core.List.{append_assoc}
use poco_echo.Base.{
  ℕ, suc, ◌^◌, ◌≤◌, ◌<◌, ◌≡◌, ◌∙◌, true, none, some, [], ◌∷◌, ◌++◌, length, take, drop, Bytes, done,
  arith, bytes32, c_string, c_string-again, strncpy-exact, take-append, length-append, lt→ltb,
}
use poco_echo.Poco.{Fifo, IsFifo, Memory, IsMemory, read_word}
use poco_echo.Poco.Laws.{read_word-bytes32, overlay-read, held-writes}
use poco_echo.Packets.{max_buffer_length}
use poco_echo.Packets.PacketType
use poco_echo.Server.Packet.{MessagePacket}
use poco_echo.Server.Packet.Read.{read, read_fields}
use poco_echo.Server.Packet.Write.{new_message_send_packet, write}

-- The packet that carries a text: its type, its length with the NUL, the text and the NUL.
abbrev pub reply : Bytes → Bytes
reply text = bytes32 PacketType.message ++ (bytes32 (suc (length text)) ++ (text ++ (0 ∷ [])))

module _ {F : Fifo} (L : IsFifo F) {m : Memory} (M : IsMemory m) where
  -- `Read` takes the length and as many bytes as it says.
  pub read-done :
      (p : MessagePacket) (b : F.Buffer) (n : ℕ) (block body : Bytes)
      → F.held b ≡ bytes32 n ++ body
      → n < 2 ^ 31
      → n ≤ length body
      → m.fresh n ≡ some block
      → (b' : F.Buffer) × (read F m p b
          ≡ done (record p { message = some (take n body) }, b', true))
        × (F.held b' ≡ drop n body)
  unfolding read read_fields
  read-done p b n block body hb small enough got =
      let (word, rest) = read_word-bytes32 L M b n body hb (omega arith) in
      let c : F.Buffer = (read_word F m b).1 in
      (
        (F.read c n).1,
        rw (word, lt→ltb n (2 ^ 31) small, got, overlay-read L M c n block body rest enough got),
        L.held-read c n ∙ rw rest,
      )

  pub new_message_send_packet-done :
      (src text block : Bytes)
      → c_string (src ++ m.beyond) ≡ some text
      → m.fresh (suc (length text)) ≡ some block
      → new_message_send_packet m src
        ≡ done (record { socket = none; message = some (text ++ (0 ∷ [])) })
  unfolding new_message_send_packet
  new_message_send_packet-done src text block e got =
      ground (arith, strncpy-exact block text, M.length-fresh (suc (length text)) block got)

  -- `Write` puts the reply into an empty buffer, as far as it has room.
  pub write-reply :
      (b : F.Buffer) (src text : Bytes)
      → F.held b ≡ []
      → F.size b ≡ max_buffer_length
      → c_string src ≡ some text
      → suc (length text) < 2 ^ 31
      → (b' : F.Buffer) × (write F m (record { socket = none; message = some (text ++ (0 ∷ [])) }) b
          ≡ done (b', true))
        × (F.held b' ≡ take max_buffer_length (reply text))
  unfolding write
  write-reply b src text empty roomy e small =
      let n : ℕ = suc (length text) in
      let again : c_string ((text ++ (0 ∷ [])) ++ m.beyond) ≡ some text =
        rw append_assoc (c_string-again src text m.beyond e) in
      let whole : take n ((text ++ (0 ∷ [])) ++ m.beyond) ≡ text ++ (0 ∷ []) =
        take-append n (text ++ (0 ∷ [])) m.beyond (omega (arith, length-append text (0 ∷ []))) in
      (
        F.write (F.write (F.write b (bytes32 PacketType.message)) (bytes32 n)) (text ++ (0 ∷ [])),
        rw (again, mod-eq_of_lt {n = n} {m = 2 ^ 32} (omega arith), lt→ltb n (2 ^ 31) small, whole),
        held-writes L M b PacketType.message n (text ++ (0 ∷ [])) empty roomy,
      )
