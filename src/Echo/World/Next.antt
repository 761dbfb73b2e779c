-- ===== src/Echo/World/Next.antt =====
-- A packet that is on its way can be taken.
use mathlib.Core.List.{map-append}
use poco_echo.Base.{◌≡◌, refl, sym, ◌∙◌, ap, true, List, [], ◌∷◌, ◌++◌, map, elem, Bytes, bytes32}
use poco_echo.Poco.{Fifo, IsFifo, Memory, IsMemory, HasRoom, Socket, Peers}
use poco_echo.Packets.{max_buffer_length}
use poco_echo.Packets.PacketType
use poco_echo.Effect.{printed, message_shown}
use poco_echo.Network.Update.{ConnectHandler}
use poco_echo.Server.Echo.{reply}
use poco_echo.Client.Packet.{request}
use poco_echo.Echo.Conversation as Conversation
use poco_echo.Echo.World.{Party, IsJoined, World, Step, hears, reads, sends}
use poco_echo.Echo.World.Histories.{texts_of, sends-answers_to}
use poco_echo.Echo.World.Talks.{Talk}
use poco_echo.Echo.World.Told.{IsTold, answered, sends_up, IsWord-up, IsWord-down}
use poco_echo.Echo.World.Delivery.{heard, read_by, visit-told, client_pass-told}

module _ {F : Fifo} (L : IsFifo F) {m : Memory} (M : IsMemory m) (peers : Peers)
    (ch : ConnectHandler) (server : Socket) (parties : Socket → Party) (clients : List Socket)
    (joined : (c : Socket) → elem c clients ≡ true → IsJoined peers server c (parties c))
    (room : HasRoom m max_buffer_length) where
  module _ {w : World} (t : IsTold parties clients w) (c : Socket)
      (there : elem c clients ≡ true) where
    abbrev pub talk : Talk (parties c) (texts_of c t.history) (w.site c)
    talk = t.talks c there

    pub hears_next :
        (text : Bytes) (up : List Bytes)
        → talk.up ≡ text ∷ up
        → Step F m peers ch server parties clients w (
            heard L M peers ch server parties clients joined room w c
              (answered t c there text)
              (request (parties c).memory text))
    hears_next text up e =
        hears c (Conversation.hears (parties c).memory c text) (request (parties c).memory text)
          (map (request (parties c).memory) up) (answered t c there text) there
          (sends_up talk
            ∙ rw (e, talk.taken)
                (map-append (request (parties c).memory) (texts_of c t.history) (text ∷ up)))
          refl
          (visit-told L M peers ch server parties clients joined room t c there _ text
            (IsWord-up talk text up e) refl)

    pub reads_next :
        (text : Bytes) (down : List Bytes)
        → talk.down ≡ text ∷ down
        → Step F m peers ch server parties clients w (
            read_by L M peers ch server parties clients joined room w c
              (reply text)
              (bytes32 PacketType.message)
              (printed (message_shown text) ∷ []))
    reads_next text down e =
        reads c (reply text) (bytes32 PacketType.message) (map reply down) _ there
          (ap (sends c) t.logged
            ∙ sends-answers_to c parties t.history
            ∙ ap (map reply) (talk.arrived ∙ ap (λ r. talk.read ++ r) e)
            ∙ map-append reply talk.read (text ∷ down)
            ∙ ap (λ r. r ++ (reply text ∷ map reply down)) (sym talk.returned))
          (client_pass-told L M peers ch server parties clients joined room t c there text
            (IsWord-down talk text down e))
