-- ===== src/Client/Receive.antt =====
-- `CClient::PacketHandler` (client/src/CClient.cpp) and the client's update loop
-- `CNetwork::OnUpdate` (shared/include/Network/CNetwork.cpp).
pub mod Quiet
pub mod Handled
pub mod Ended
use poco_echo.Base.{
  ℕ, ◌==◌, if◌then◌else◌, Bool, Option, none, some, List, [], ◌∷◌, ◌++◌, length, take, Bytes,
  Outcome, done, fault, bad_pointer, or_fault, ◌>>=◌, word32, signed32, size_of_int, overlay,
}
use poco_echo.Poco.{
  Receipt, throws, blocks, brings, Fifo, Memory, Socket, new_array, read_word, text_at,
}
use poco_echo.Packets.{max_buffer_length, word_size}
use poco_echo.Packets.PacketType
use poco_echo.Network.LifeCycle.{Network, new_network, live, exit}
use poco_echo.Effect.{Effect, printed, closed, message_shown, unknown_packet, connected}

module _ (F : Fifo) (m : Memory) where
  -- The case of `PACKET_TYPE_MESSAGE`.
  unfoldable pub show_message : F.Buffer → Outcome (List Effect)
  show_message b = do
    let (length, b₁) = read_word F m b
    block ← new_array m (signed32 length)
    let (bs, b₂) = F.read b₁ (size_of_int length)
    text ← text_at m (overlay block bs)
    done (printed (message_shown text) ∷ [])

  -- The case of `PACKET_TYPE_ACCEPT` has no `break` and runs on into the next.
  unfoldable pub client_packet_handler : F.Buffer → ℕ → Outcome (List Effect)
  client_packet_handler b packet_type =
      if packet_type == PacketType.accept
      then (do effects ← show_message b; done (printed connected ∷ effects))
      else if packet_type == PacketType.message
      then show_message b
      else done (printed (unknown_packet packet_type) ∷ [])

-- One pass of the loop: whether the close request came while it waited, and what the two calls of
-- `receiveBytes` come to, the first of at most four bytes.
pub record ClientTurn : Type 0 where
  pub close_requested : Bool
  pub type_bytes : Receipt
  pub rest : Receipt

-- How a pass ends: the loop goes on, it is left by `break`, or an exception was caught.
pub data Pass : Type 0 where
  goes_on : Bytes → List Effect → Pass
  breaks caught : Pass

module _ (F : Fifo) (m : Memory) where
  -- The call of the packet handler on a buffer.
  handle_buffer : Bytes → F.Buffer → Outcome Pass
  handle_buffer packet_type b = do
    effects ← client_packet_handler F m b (word32 packet_type)
    done (goes_on packet_type effects)

  -- The pass from the second `receiveBytes` on, with the packet type in memory. Only a count of 0 is
  -- tested: with -1 the handler has an empty buffer.
  receive_rest : Bytes → Receipt → Outcome Pass
  unfolding handle_buffer
  receive_rest packet_type throws = done caught
  receive_rest packet_type blocks = handle_buffer packet_type (F.create max_buffer_length)
  receive_rest packet_type (brings bs) =
      if length bs == 0
      then done breaks
      else (handle_buffer packet_type
          (F.write (F.create max_buffer_length) (take max_buffer_length bs)))

  receive_type : Bytes → ClientTurn → Receipt → Outcome Pass
  receive_type packet_type turn throws = done caught
  receive_type packet_type turn blocks = receive_rest packet_type turn.rest
  receive_type packet_type turn (brings ts) =
      if length ts == 0
      then done breaks
      else receive_rest (overlay packet_type (take word_size ts)) turn.rest

  unfoldable pub client_pass : Bytes → ClientTurn → Outcome Pass
  unfolding receive_type receive_rest
  client_pass packet_type turn =
      if turn.close_requested then done breaks else receive_type packet_type turn turn.type_bytes

  -- The network whose thread is in the loop, on its socket.
  abbrev updating : Socket → Network
  updating socket = record new_network { socket = some socket; thread = live }

  after_pass : Socket → Outcome Pass → (Bytes → Outcome (List Effect)) → Outcome (List Effect)
  after_pass socket (fault e) again = fault e
  after_pass socket (done breaks) again = do r ← exit (updating socket); done r.1
  after_pass socket (done caught) again = do
    r ← exit (updating socket)
    still ← or_fault bad_pointer r.0.socket
    done r.1
  after_pass socket (done (goes_on t es)) again = again t >>= λ more. done (es ++ more)

  -- The passes of the loop, behind which `Exit` closes the socket. After a caught exception `Exit` is
  -- called too, and the next pass calls a method of the socket, which is there only if `Exit` has left
  -- it. With no turn left the loop waits.
  unfoldable pub client_on_update : Socket → Bytes → List ClientTurn → Outcome (List Effect)
  unfolding after_pass
  client_on_update socket packet_type [] = done []
  client_on_update socket packet_type (turn ∷ turns) =
      after_pass socket (client_pass packet_type turn) λ t. client_on_update socket t turns
