-- ===== src/Server/Handled.antt =====
-- What the server does with whatever bytes it receives (CMessagePacket::Read, CServer::PacketHandler and
-- CNetworkServer::OnUpdate), told on the bytes.
use mathlib.Core.List.{append-nil}
use poco_echo.Base.{
  ℕ, suc, ◌+◌, ◌^◌, ◌≤◌, ◌<◌, ◌≡◌, refl, ◌∙◌, ap, ◌==◌, ltb, if◌then◌else◌, Bool-cases,
  Option-cases, inl, inr, true, none, some, List, [], ◌∷◌, ◌++◌, length, take, drop, Bytes, Outcome,
  Outcome-cases, length-drop, length-take, done, fault, bad_alloc, poco_exception, over_read,
  or_fault, ◌>>=◌, arith, word32, overlay, c_string, c_string-lt, length-append, strncpy-exact,
}
use poco_echo.Poco.{Fifo, IsFifo, Memory, IsMemory, Socket, Peers, read_word}
use poco_echo.Poco.Lengths.{length_in, block_for, block_for-fresh, read_word-length_in}
use poco_echo.Packets.{max_buffer_length, word_size}
use poco_echo.Packets.PacketType
use poco_echo.Effect.{Effect, printed, sent, message_from, unknown_packet}
use poco_echo.Network.Update.{Loop, handle_bytes, run_handlers}
use poco_echo.Server.Packet.{MessagePacket}
use poco_echo.Server.Packet.Read.{read, read_fields}
use poco_echo.Server.Packet.Write.{new_message_send_packet}
use poco_echo.Server.Callbacks.{server_invoke, packet_handler_address}
use poco_echo.Server.Echo.{reply, write-reply}
use poco_echo.Server.Respond.{received-type}
use poco_echo.Server.Translator.{keep_if_read, packet_message, process_message, packet_handler}

-- The answer to a message, by its block.
abbrev pub answer : Memory → Peers → Socket → Bytes → Outcome (List Effect)
answer m peers client block = do
  host ← or_fault poco_exception (peers client)
  text ← or_fault over_read (c_string (block ++ m.beyond))
  copy ← or_fault bad_alloc (m.fresh (suc (length text)))
  done (printed (message_from host text) ∷ sent client (take max_buffer_length (reply text)) ∷ [])

-- A packet of a type, by its bytes: those that are left, and what is shown and sent.
abbrev pub handled : Memory → Peers → Socket → ℕ → Bytes → Outcome (Bytes × List Effect)
handled m peers client packet_type bs =
    if packet_type == PacketType.message
    then (do
      let n = length_in m bs
      let body = drop word_size bs
      block ← or_fault bad_alloc (block_for m n)
      effects ← answer m peers client (overlay block (take n body))
      done (drop n body, effects))
    else done (bs, printed (unknown_packet packet_type) ∷ [])

module _ {F : Fifo} (L : IsFifo F) {m : Memory} (M : IsMemory m) (peers : Peers)
    (client : Socket) where
  packet_message-answer :
      (block : Bytes)
      → length block + length m.beyond < 2 ^ 31
      → packet_message F m peers (record { socket = some client; message = some block })
        ≡ answer m peers client block
  unfolding packet_message new_message_send_packet
  packet_message-answer block small = elim (Option-cases (peers client)) [
    | inl unknown ↦ rw unknown refl
    | inr (host, known) ↦ elim (Option-cases (c_string (block ++ m.beyond))) [
      | inl open_end ↦ rw (known, open_end) refl
      | inr (text, e) ↦ elim (Option-cases (m.fresh (suc (length text)))) [
        | inl full ↦ rw (known, e, full) refl
        | inr (copy, got) ↦
            let short : suc (length text) < 2 ^ 31 =
              omega (arith, c_string-lt (block ++ m.beyond) text e, length-append block m.beyond) in
            let (b, wrote, holds) =
              write-reply L M (F.create max_buffer_length) (block ++ m.beyond) text
                (L.held-create max_buffer_length) (L.size-create max_buffer_length) e short in
            rw
              (
                known,
                e,
                got,
                strncpy-exact copy text (M.length-fresh (suc (length text)) copy got),
                wrote,
                holds,
              )
              refl
      ]
    ]
  ]

  -- The read of a message packet, without its block and with it.
  read-bad_alloc :
      (p : MessagePacket) (b : F.Buffer)
      → block_for m (length_in m (F.held b)) ≡ none
      → read F m p b ≡ fault bad_alloc
  unfolding read read_fields
  read-bad_alloc p b e = elim (Bool-cases (ltb (length_in m (F.held b)) (2 ^ 31))) [
    | inl pos ↦ rw ((read_word-length_in L m b).0, pos, (rw pos at e)) refl
    | inr neg ↦ rw ((read_word-length_in L m b).0, neg) refl
  ]

  read-block :
      (p : MessagePacket) (b : F.Buffer) (block : Bytes)
      → block_for m (length_in m (F.held b)) ≡ some block
      → (b' : F.Buffer) × (read F m p b
          ≡ done (
            record p {
              message =
                  some (overlay block (take (length_in m (F.held b)) (drop word_size (F.held b))));
            },
            b',
            true,
          ))
        × (F.held b' ≡ drop (length_in m (F.held b)) (drop word_size (F.held b)))
  unfolding read read_fields
  read-block p b block e = elim (Bool-cases (ltb (length_in m (F.held b)) (2 ^ 31))) [
    | inl pos ↦
        let n : ℕ = length_in m (F.held b) in
        let (word, rest) = read_word-length_in L m b in
        let c : F.Buffer = (read_word F m b).1 in
        let taken : (F.read c n).0 ≡ take n (drop word_size (F.held b)) =
          L.read-bytes c n ∙ ap (take n) rest in
        (
          (F.read c n).1,
          rw (word, pos, (rw pos at e), taken) refl,
          L.held-read c n ∙ ap (drop n) rest,
        )
    | inr neg ↦ absurd (ground arith)
  ]

  packet_handler-handled :
      (b : F.Buffer) (packet_type : ℕ)
      → ((n : ℕ) (block : Bytes) → m.fresh n ≡ some block → n + length m.beyond < 2 ^ 31)
      → (packet_handler F m peers client b packet_type >>= λ r. done (F.held r.0, r.1))
        ≡ handled m peers client packet_type (F.held b)
  unfolding packet_handler keep_if_read process_message
  packet_handler-handled b packet_type small =
      elim (Bool-cases (packet_type == PacketType.message)) [
        | inr other ↦ rw other refl
        | inl message ↦ elim (Option-cases (block_for m (length_in m (F.held b)))) [
          | inl full ↦ rw (message, read-bad_alloc _ b full, full) refl
          | inr (block, got) ↦
              let (b', ran, left) =
                read-block (record { socket = some client; message = none }) b block got in
              let n : ℕ = length_in m (F.held b) in
              let filled : Bytes = overlay block (take n (drop word_size (F.held b))) in
              let there : m.fresh n ≡ some block = block_for-fresh m n block got in
              let whole : length filled ≡ n = omega (
                arith,
                length-append (take n (drop word_size (F.held b)))
                    (drop (length (take n (drop word_size (F.held b)))) block),
                length-drop (length (take n (drop word_size (F.held b)))) block,
                length-take n (drop word_size (F.held b)),
                M.length-fresh n block there,
              ) in
              let same = packet_message-answer filled (omega (arith, whole, small n block there)) in
              elim (Outcome-cases (answer m peers client filled)) [
                | inl (effects, sends) ↦ rw (message, ran, same, got, sends, left) refl
                | inr (e, fails) ↦ rw (message, ran, same, got, fails) refl
              ]
        ]
      ]

  -- Whatever bytes one receive of the server gives, up to 1024: the type takes the first bytes,
  -- and what fewer than four leave of the type before; another type than a message is reported; a
  -- message takes its length from the next bytes, and what is missing from an uninitialised local;
  -- then, in this order, a negative length or no block for it is an exception that the server does
  -- not catch, an unknown host is an exception, and where no NUL stands in the bytes that came,
  -- the rest of the block or the memory behind it, the server reads past the end of memory; a
  -- block for the copy of the text before the NUL that cannot be had is once more such an
  -- exception; otherwise this text is shown with the host and alone is sent back, to this client,
  -- cut to 1024 bytes. What can be had as a block is, with the memory behind it, of fewer than
  -- 2^31 bytes.
  pub handle_bytes-handled :
      (l : Loop) (bs : Bytes)
      → length bs ≤ max_buffer_length
      → ((n : ℕ) (block : Bytes) → m.fresh n ≡ some block → n + length m.beyond < 2 ^ 31)
      → let packet_type = overlay l.packet_type (take word_size bs) in
        handle_bytes F (server_invoke F m peers) (packet_handler_address ∷ []) client bs l ≡ (
          handled m peers client (word32 packet_type) (drop word_size bs) >>= λ r.
          done (record l { packet_type = packet_type; log = l.log ++ r.1 }))
  unfolding handle_bytes run_handlers
  handle_bytes-handled l bs fits small =
      let b : F.Buffer = (F.read (F.write (F.create max_buffer_length) bs) word_size).1 in
      let (typed, rest) = received-type L bs fits in
      let t : ℕ = word32 (overlay l.packet_type (take word_size bs)) in
      let same : (packet_handler F m peers client b t >>= λ r. done (F.held r.0, r.1))
          ≡ handled m peers client t (drop word_size bs) =
        packet_handler-handled b t small ∙ ap (handled m peers client t) rest in
      elim (Outcome-cases (packet_handler F m peers client b t)) [
        | inl ((b', es), ran) ↦ rw (typed, ran, append-nil es, ← same, ran) refl
        | inr (e, failed) ↦ rw (typed, failed, ← same, failed) refl
      ]
