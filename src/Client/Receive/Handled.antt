-- ===== src/Client/Receive/Handled.antt =====
-- What the client does with whatever bytes it receives (CClient::PacketHandler and CNetwork::OnUpdate), told
-- on the bytes.
use poco_echo.Base.{
  ℕ, ◌^◌, ◌≡◌, refl, ◌∙◌, ap, ◌==◌, ltb, if◌then◌else◌, Bool-cases, inl, inr, false, List, [], ◌∷◌,
  ◌++◌, length, map, All, take-all, ◌≤◌, take, drop, Bytes, Outcome, Outcome-cases, done, bad_alloc,
  over_read, or_fault, ◌>>=◌, word32, overlay, c_string,
}
use poco_echo.Poco.{brings, Fifo, IsFifo, Memory, Socket, read_word}
use poco_echo.Poco.Laws.{held-received}
use poco_echo.Poco.Lengths.{length_in, block_for, read_word-length_in}
use poco_echo.Packets.{max_buffer_length, word_size}
use poco_echo.Packets.PacketType
use poco_echo.Effect.{Effect, printed, connected, message_shown, unknown_packet}
use poco_echo.Client.Receive.{
  show_message, client_packet_handler, ClientTurn, client_pass, client_on_update, goes_on,
}

-- The message of a packet, by its bytes.
abbrev pub shown : Memory → Bytes → Outcome (List Effect)
shown m bs = do
  let n = length_in m bs
  block ← or_fault bad_alloc (block_for m n)
  text ← or_fault over_read (c_string (overlay block (take n (drop word_size bs)) ++ m.beyond))
  done (printed (message_shown text) ∷ [])

-- A packet of a type: an accept is followed by a message, whatever bytes there are.
abbrev pub handled : Memory → ℕ → Bytes → Outcome (List Effect)
handled m packet_type bs =
    if packet_type == PacketType.accept
    then (do effects ← shown m bs; done (printed connected ∷ effects))
    else if packet_type == PacketType.message
    then shown m bs
    else done (printed (unknown_packet packet_type) ∷ [])

-- What the loop shows for packets that each come in two receives, the type and the rest.
abbrev pub told : Memory → Bytes → List (Bytes × Bytes) → Outcome (List Effect)
told m packet_type [] = done []
told m packet_type ((ts, bs) ∷ ps) = do
  let packet_type' = overlay packet_type (take word_size ts)
  effects ← handled m (word32 packet_type') bs
  more ← told m packet_type' ps
  done (effects ++ more)

-- Both receives give something, and no more than their buffers hold.
abbrev pub IsGiven : Bytes × Bytes → Type 0
IsGiven (ts, bs) =
    ((length ts == 0) ≡ false) × ((length bs == 0) ≡ false) × (length bs ≤ max_buffer_length)

abbrev pub gives : Bytes × Bytes → ClientTurn
gives (ts, bs) = record { close_requested = false; type_bytes = brings ts; rest = brings bs }

module _ {F : Fifo} (L : IsFifo F) (m : Memory) where
  show_message-shown_text : (b : F.Buffer) → show_message F m b ≡ shown m (F.held b)
  unfolding show_message
  show_message-shown_text b =
      let n : ℕ = length_in m (F.held b) in
      let (word, rest) = read_word-length_in L m b in
      let c : F.Buffer = (read_word F m b).1 in
      let taken : (F.read c n).0 ≡ take n (drop word_size (F.held b)) =
        L.read-bytes c n ∙ ap (take n) rest in
      elim (Bool-cases (ltb n (2 ^ 31))) [
        | inl pos ↦ rw (word, pos, taken) refl
        | inr neg ↦ rw (word, neg) refl
      ]

  client_packet_handler-handled :
      (b : F.Buffer) (packet_type : ℕ)
      → client_packet_handler F m b packet_type ≡ handled m packet_type (F.held b)
  unfolding client_packet_handler
  client_packet_handler-handled b packet_type = rw (show_message-shown_text b) refl

  -- A pass whose receives both give something.
  pub client_pass-handled :
      (packet_type : Bytes) (p : Bytes × Bytes)
      → IsGiven p
      → let packet_type' = overlay packet_type (take word_size p.0) in
        client_pass F m packet_type (gives p)
        ≡ (handled m (word32 packet_type') p.1 >>= λ es. done (goes_on packet_type' es))
  unfolding client_pass
  client_pass-handled packet_type (ts, bs) (full, more, fits) =
      rw
        (
          full,
          more,
          take-all max_buffer_length bs fits,
          client_packet_handler-handled (F.write (F.create max_buffer_length) bs)
              (word32 (overlay packet_type (take word_size ts))),
          held-received L bs fits,
        )
        refl

  -- The client's loop, on packets that each come in two receives, of any bytes, neither of them
  -- empty and the second of at most 1024: for each, in order, the type takes the bytes of the
  -- first, and what fewer than four leave of the type before; an accept shows that the client is
  -- connected and is then read as a message all the same; a message shows the text up to the first
  -- NUL in the bytes that came, the rest of their block and the memory behind it; another type is
  -- reported. A negative length or no block for it, and bytes without any NUL, end the loop by a
  -- fault.
  pub client_on_update-told :
      (socket : Socket) (packet_type : Bytes) (ps : List (Bytes × Bytes))
      → All IsGiven ps
      → client_on_update F m socket packet_type (map gives ps) ≡ told m packet_type ps
  unfolding client_on_update
  client_on_update-told socket packet_type [] given = refl
  client_on_update-told socket packet_type ((ts, bs) ∷ ps) given =
      let t : Bytes = overlay packet_type (take word_size ts) in
      elim (Outcome-cases (handled m (word32 t) bs)) [
        | inl (es, ran) ↦
            rw
              (
                client_pass-handled packet_type (ts, bs) given.0,
                ran,
                client_on_update-told socket t ps given.1,
              )
              refl
        | inr (e, failed) ↦ rw (client_pass-handled packet_type (ts, bs) given.0, failed) refl
      ]
