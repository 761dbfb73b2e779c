-- ===== src/Client/Receive/Quiet.antt =====
-- A pass of the client's loop sends nothing.
use poco_echo.Base.{
  Bool-cases, inl, inr, ◌==◌, All, Bytes, length, take, overlay, word32, Ensures, Ensures-bind,
}
use poco_echo.Poco.{Receipt, throws, blocks, brings, Fifo, Memory}
use poco_echo.Packets.{max_buffer_length, word_size}
use poco_echo.Effect.{IsSilent}
use poco_echo.Client.Events.{client_packet_handler-IsSilent}
use poco_echo.Client.Receive.{
  ClientTurn, Pass, goes_on, breaks, caught, client_packet_handler, handle_buffer, receive_rest,
  receive_type, client_pass,
}

-- What a pass shows sends nothing.
abbrev pub IsQuiet : Pass → Type 0
IsQuiet (goes_on t es) = All IsSilent es
IsQuiet breaks = Unit
IsQuiet caught = Unit

module _ (F : Fifo) (m : Memory) where
  handle_buffer-IsQuiet : (t : Bytes) (b : F.Buffer) → Ensures IsQuiet (handle_buffer F m t b)
  unfolding handle_buffer
  handle_buffer-IsQuiet t b =
      Ensures-bind (All IsSilent) IsQuiet (client_packet_handler F m b (word32 t)) _
        (client_packet_handler-IsSilent F m b (word32 t)) λ es quiet. quiet

  receive_rest-IsQuiet : (t : Bytes) (rest : Receipt) → Ensures IsQuiet (receive_rest F m t rest)
  unfolding receive_rest
  receive_rest-IsQuiet t throws = tt
  receive_rest-IsQuiet t blocks = handle_buffer-IsQuiet t (F.create max_buffer_length)
  receive_rest-IsQuiet t (brings bs) = elim (Bool-cases (length bs == 0)) [
    | inl shut ↦ rw shut tt
    | inr more ↦
        rw more (
          handle_buffer-IsQuiet t
            (F.write (F.create max_buffer_length) (take max_buffer_length bs)))
  ]

  receive_type-IsQuiet :
      (t : Bytes) (turn : ClientTurn) (ts : Receipt) → Ensures IsQuiet (receive_type F m t turn ts)
  unfolding receive_type
  receive_type-IsQuiet t turn throws = tt
  receive_type-IsQuiet t turn blocks = receive_rest-IsQuiet t turn.rest
  receive_type-IsQuiet t turn (brings ts) = elim (Bool-cases (length ts == 0)) [
    | inl shut ↦ rw shut tt
    | inr more ↦ rw more (receive_rest-IsQuiet (overlay t (take word_size ts)) turn.rest)
  ]

  pub client_pass-IsQuiet :
      (t : Bytes) (turn : ClientTurn) → Ensures IsQuiet (client_pass F m t turn)
  unfolding client_pass
  client_pass-IsQuiet t turn = elim (Bool-cases turn.close_requested) [
    | inl asked ↦ rw asked tt
    | inr goes ↦ rw goes (receive_type-IsQuiet t turn turn.type_bytes)
  ]
