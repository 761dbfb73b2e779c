-- ===== src/Client/Packet.antt =====
-- The packets that the client sends, and what it shows of those that it receives.
use mathlib.Core.List.{append_assoc}
use poco_echo.Base.{
  ℕ, suc, ◌+◌, ◌%◌, ◌^◌, ◌≤◌, ◌<◌, ◌≡◌, ◌∙◌, ◌==◌, false, some, [], ◌∷◌, ◌++◌, length, take,
  take-all, length-take, lt→ltb, Bytes, done, arith, bytes32, c_string, put_at-strncpy,
  take-append_more, length-append,
}
use poco_echo.Poco.{Fifo, IsFifo, Memory, IsMemory, Socket}
use poco_echo.Poco.Laws.{read_word-bytes32, overlay-read, held-writes}
use poco_echo.Packets.{max_buffer_length}
use poco_echo.Packets.PacketType
use poco_echo.Effect.{printed, sent, message_shown}
use poco_echo.Client.Action.{
  ActionManager, new_action_manager, message_limit, store_message, send_result, listen_action,
  pop_action_result, send_message,
}
use poco_echo.Client.Receive.{show_message}

-- The packet of a text: a length that counts the NUL and one byte more, the text, the NUL, and the
-- two bytes that lie behind its block.
abbrev pub request : Memory → Bytes → Bytes
request m text =
    bytes32 PacketType.message ++ (bytes32 (length text + 2) ++ (text ++ (0 ∷ take 2 m.beyond)))

module _ {F : Fifo} (L : IsFifo F) {m : Memory} (M : IsMemory m) where
  pub store_message-stored :
      (a : ActionManager) (text block : Bytes)
      → m.fresh (suc (length text)) ≡ some block
      → store_message m text a
        ≡ done (record {
          action_type = 1;
          action_result = some (text ++ (0 ∷ []));
          action_result_size = suc (length text);
        })
  unfolding store_message
  store_message-stored a text block got =
      rw (got, put_at-strncpy block text (M.length-fresh (suc (length text)) block got))

  -- The bytes that are written for a result, one more than its raised size.
  written :
      (text : Bytes)
      → take (length text + 3) ((text ++ (0 ∷ [])) ++ m.beyond) ≡ text ++ (0 ∷ take 2 m.beyond)
  written text =
      let size : length text + 3 ≡ length (text ++ (0 ∷ [])) + 2 =
        omega (arith, length-append text (0 ∷ [])) in
      rw size (
        take-append_more (text ++ (0 ∷ [])) m.beyond 2
        ∙ append_assoc text (0 ∷ []) (take 2 m.beyond))

  fits : (text : Bytes) → length text < message_limit → length (request m text) ≤ max_buffer_length
  fits text short = omega (arith, length-append text (0 ∷ take 2 m.beyond), length-take 2 m.beyond)

  send_result-request :
      (server : Socket) (text : Bytes)
      → length text < message_limit
      → send_result F m server
          (record { action_type = 1; result = text ++ (0 ∷ []); size = suc (length text) })
        ≡ sent server (request m text) ∷ []
  unfolding send_result
  send_result-request server text short =
      let k : ℕ = length text in
      let raised : (suc k + 1) % 2 ^ 32 ≡ k + 2 = omega arith in
      let count : (k + 2 + 1) % 2 ^ 32 ≡ k + 3 = omega arith in
      rw (
        raised,
        count,
        lt→ltb (k + 3) (2 ^ 31) (omega arith),
        written text,
        held-writes L M (F.create max_buffer_length) PacketType.message (k + 2)
            (text ++ (0 ∷ take 2 m.beyond)) (L.held-create max_buffer_length)
            (L.size-create max_buffer_length),
        take-all max_buffer_length (request m text) (fits text short),
      )

  -- What a C string in `szMessage` is sent as.
  pub send_message_lem :
      (server : Socket) (a : ActionManager) (text block : Bytes)
      → length text < message_limit
      → m.fresh (suc (length text)) ≡ some block
      → send_message F m server text a
        ≡ done (new_action_manager, sent server (request m text) ∷ [])
  unfolding send_message listen_action pop_action_result
  send_message_lem server a text block short got =
      let size : suc (length text) % 2 ^ 32 ≡ suc (length text) = omega arith in
      let full : (suc (length text) == 0) ≡ false = ground arith in
      rw (store_message-stored a text block got, size, full, send_result-request server text short)

  -- A message packet is shown as the C string at its bytes.
  pub show_message-shown :
      (b : F.Buffer) (n : ℕ) (body block text : Bytes)
      → F.held b ≡ bytes32 n ++ body
      → n < 2 ^ 31
      → n ≤ length body
      → m.fresh n ≡ some block
      → c_string (take n body ++ m.beyond) ≡ some text
      → show_message F m b ≡ done (printed (message_shown text) ∷ [])
  unfolding show_message
  show_message-shown b n body block text hb small enough got e =
      let (word, rest) = read_word-bytes32 L M b n body hb (omega arith) in
      rw (word, lt→ltb n (2 ^ 31) small, got, overlay-read L M _ n block body rest enough got, e)
