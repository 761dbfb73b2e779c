-- ===== src/Server/Leak.antt =====
-- What an answer of the server (CServer::Packet_Message) tells of its memory.
use mathlib.Core.Option
use poco_echo.Base.{
  ℕ, zero, suc, ◌+◌, ◌-◌, ◌≤◌, ◌<◌, ◌≡◌, sym, ◌∙◌, ap, none, some, [], ◌∷◌, ◌++◌, length, take,
  take-all, length-take, length-append, Option-cases, inl, inr, Bytes, done, arith, bytes32,
  c_string, c_string-lt,
}
use poco_echo.Poco.{Fifo, IsFifo, Memory, IsMemory, Socket, Peers, HasRoom}
use poco_echo.Packets.{max_buffer_length, word_size}
use poco_echo.Packets.PacketType
use poco_echo.Effect.{printed, sent, message_from}
use poco_echo.Network.Update.{Loop, handle_bytes}
use poco_echo.Server.Callbacks.{server_invoke, packet_handler_address}
use poco_echo.Server.Echo.{reply}
use poco_echo.Server.Respond.{handle_bytes-reply}

-- A C string that ends within a block, and one that runs on behind it.
c_string-within : (xs ys : Bytes) (s : Bytes) → c_string xs ≡ some s → c_string (xs ++ ys) ≡ some s
c_string-within [] ys s e = cc
c_string-within (zero ∷ xs) ys s e = e
c_string-within (suc x ∷ xs) ys s e = elim (Option-cases (c_string xs)) [
  | inl absent ↦ absurd (ground arith)
  | inr (t, found) ↦ ground (arith, c_string-within xs ys t found)
]

c_string-behind :
    (xs ys : Bytes) (s : Bytes)
    → c_string xs ≡ none
    → c_string ys ≡ some s
    → c_string (xs ++ ys) ≡ some (xs ++ s)
c_string-behind [] ys s e f = f
c_string-behind (zero ∷ xs) ys s e f = cc
c_string-behind (suc x ∷ xs) ys s e f = elim (Option-cases (c_string xs)) [
  | inl absent ↦ ap (Option.map (λ s. suc x ∷ s)) (c_string-behind xs ys s absent f)
  | inr (t, found) ↦ absurd (ground arith)
]

module _ {F : Fifo} (L : IsFifo F) (peers : Peers) (l : Loop) (client : Socket) (n : ℕ)
    (body host : Bytes) (four : length l.packet_type ≡ word_size)
    (fits : length body ≤ max_buffer_length - 8) (enough : n ≤ length body)
    (known : peers client ≡ some host) where
  -- Where a message packet comes whole in one receive of at most 1024 bytes, with a NUL among the
  -- bytes that its length counts, what the server shows and sends does not depend on what its
  -- memory holds: it is the same in any two memories that have blocks up to 1024 bytes. The
  -- client's host is known, and the packet-type local has four bytes.
  pub handle_bytes-same :
      {m m' : Memory} (M : IsMemory m) (M' : IsMemory m') (text : Bytes)
      → c_string (take n body) ≡ some text
      → HasRoom m max_buffer_length
      → HasRoom m' max_buffer_length
      → handle_bytes F
          (server_invoke F m peers)
          (packet_handler_address ∷ [])
          client
          (bytes32 PacketType.message ++ (bytes32 n ++ body))
          l
        ≡ handle_bytes F
            (server_invoke F m' peers)
            (packet_handler_address ∷ [])
            client
            (bytes32 PacketType.message ++ (bytes32 n ++ body))
            l
  handle_bytes-same {m} {m'} M M' text e room room' =
      let short : length text < max_buffer_length =
        omega (arith, c_string-lt (take n body) text e, length-take n body) in
      handle_bytes-reply L M peers l client n body host text four fits enough
        (c_string-within (take n body) m.beyond text e) short room known
      ∙ sym (
          handle_bytes-reply L M' peers l client n body host text four fits enough
            (c_string-within (take n body) m'.beyond text e) short room' known)

  -- Where a message packet comes whole in one receive of at most 1024 bytes, with no NUL among the
  -- bytes that its length counts, the server shows these bytes and behind them what its memory
  -- holds behind their block, up to a NUL, and sends its client one whole answer of the same text,
  -- its NUL included. The length and what the memory holds up to the NUL come to at most 1015
  -- bytes, so that nothing of the answer is cut, blocks up to 1024 bytes can be had, the client's
  -- host is known, and the packet-type local has four bytes.
  pub handle_bytes-leak :
      {m : Memory} (M : IsMemory m) (secret : Bytes)
      → c_string (take n body) ≡ none
      → c_string m.beyond ≡ some secret
      → 9 + n + length secret ≤ max_buffer_length
      → HasRoom m max_buffer_length
      → handle_bytes F
          (server_invoke F m peers)
          (packet_handler_address ∷ [])
          client
          (bytes32 PacketType.message ++ (bytes32 n ++ body))
          l
        ≡ done (record l {
          packet_type = bytes32 PacketType.message;
          log =
              l.log
              ++ (printed (message_from host (take n body ++ secret))
                  ∷ sent client (reply (take n body ++ secret))
                  ∷ []);
        })
  handle_bytes-leak {m} M secret e f short room =
      let text : Bytes = take n body ++ secret in
      let whole : take max_buffer_length (reply text) ≡ reply text =
        take-all max_buffer_length (reply text) (
          omega (
            arith,
            length-append (take n body) secret,
            length-take n body,
            length-append text (0 ∷ []),
          )) in
      handle_bytes-reply L M peers l client n body host text four fits enough
        (c_string-behind (take n body) m.beyond secret e f)
        (omega (arith, length-append (take n body) secret, length-take n body)) room known
      ∙ ap
          (λ packet. done (record l {
            packet_type = bytes32 PacketType.message;
            log = l.log ++ (printed (message_from host text) ∷ sent client packet ∷ []);
          }))
          whole
