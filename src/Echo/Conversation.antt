-- ===== src/Echo/Conversation.antt =====
-- A conversation: the lines that a user types, through client and server and back to the user.
use mathlib.Core.List.{append_assoc, append-nil}
use poco_echo.Base.{
  ap, suc, sym, ◌∙◌, ℕ, ◌≤◌, ◌<◌, ◌≡◌, refl, ◌==◌, false, some, none, List, [], ◌∷◌, ◌++◌, map, All,
  length, take, drop, Bytes, done, arith, bytes32, IsText, until_nul_all,
}
use poco_echo.Poco.{brings, Fifo, IsFifo, Memory, IsMemory, Socket, Peers, HasRoom}
use poco_echo.Packets.{max_buffer_length, word_size}
use poco_echo.Packets.PacketType
use poco_echo.Effect.{Effect, printed, sent, message_from, message_shown}
use poco_echo.Network.Update.{
  Loop, Turn, ConnectHandler, visit_all, drop_clients, update_round, update_rounds,
}
use poco_echo.Server.Callbacks.{server_invoke, packet_handler_address}
use poco_echo.Server.Echo.{reply}
use poco_echo.Client.Action.{message_limit, new_action_manager}
use poco_echo.Client.Receive.{ClientTurn, client_on_update}
use poco_echo.Client.Packet.{request}
use poco_echo.Client.Console.{Prompt, console}
use poco_echo.Client.Connect.{Client}
use poco_echo.Network.LifeCycle.{Network, live}
use poco_echo.Client.Console.Laws.{speak, run-speak}
use poco_echo.Console.{waits}
use poco_echo.Echo.{visit-request, client_pass-reply}

-- A line can be sent whole: it is not empty, shorter than the buffer of the console, and has no NUL.
pub record IsLine (text : Bytes) : Type 0 where
  pub plain : IsText text
  pub short : length text < message_limit
  pub full : (length text == 0) ≡ false

-- The user's action for a line.
abbrev pub say : Bytes → Prompt
say text = record { action = 1; words = text ∷ [] }

speak-say :
    (said texts : List Bytes)
    → All IsLine texts
    → speak said (map say texts) ≡ waits (said ++ texts)
speak-say said [] lines = ap waits (sym (append-nil said))
speak-say said (t ∷ ts) lines =
    rw (until_nul_all t lines.0.plain, lines.0.full)
      (speak-say (said ++ (t ∷ [])) ts lines.1 ∙ ap waits (append_assoc said (t ∷ []) ts))

-- The server's round for a request that arrives in one piece.
abbrev pub hears : Memory → Socket → Bytes → Turn
hears mc client text = record {
  count = 1;
  ready = client ∷ [];
  accepted = none;
  received = λ s. some (request mc text);
}

-- What the server shows and sends for some lines.
abbrev pub answers : Bytes → Socket → List Bytes → List Effect
answers host client [] = []
answers host client (t ∷ ts) =
    printed (message_from host t) ∷ sent client (reply t) ∷ answers host client ts

module _ {F : Fifo} (L : IsFifo F) (mc : Memory) {ms : Memory} (Ms : IsMemory ms) (peers : Peers)
    (ch : ConnectHandler) (server client : Socket) (host : Bytes) where
  module _ (other : (client == server) ≡ false) (known : peers client ≡ some host)
      (two : 2 ≤ length mc.beyond) (room : HasRoom ms max_buffer_length) where
    update_round-hears :
        (text : Bytes) (l : Loop)
        → IsLine text
        → length l.packet_type ≡ word_size
        → update_round F
            (server_invoke F ms peers)
            (packet_handler_address ∷ [])
            ch
            peers
            server
            (hears mc client text)
            l
          ≡ done (record l {
            packet_type = bytes32 PacketType.message;
            drop_list = [];
            log = l.log ++ (printed (message_from host text) ∷ sent client (reply text) ∷ []);
          })
    unfolding update_round visit_all drop_clients
    update_round-hears text l line four =
        rw
          (visit-request L mc Ms peers ch server client text host (hears mc client text)
            (record l { drop_list = [] }) line.plain line.short two room four known other refl)
          refl

    update_rounds-answers :
        (texts : List Bytes) (l : Loop)
        → All IsLine texts
        → length l.packet_type ≡ word_size
        → (l' : Loop) × (update_rounds F
              (server_invoke F ms peers)
              (packet_handler_address ∷ [])
              ch
              peers
              server
              (map (hears mc client) texts)
              l
            ≡ done l')
          × (l'.clients ≡ l.clients)
          × (l'.log ≡ l.log ++ answers host client texts)
    unfolding update_rounds
    update_rounds-answers [] l lines four = (l, refl, refl, sym (append-nil l.log))
    update_rounds-answers (t ∷ ts) l lines four =
        let es : List Effect = printed (message_from host t) ∷ sent client (reply t) ∷ [] in
        let (l', ran, same, logged) =
          update_rounds-answers ts
            (record l {
              packet_type = bytes32 PacketType.message;
              drop_list = [];
              log = l.log ++ es;
            })
            lines.1 refl in
        (
          l',
          rw (update_round-hears t l lines.0 four) ran,
          same,
          logged ∙ append_assoc l.log es (answers host client ts),
        )

-- The client's pass for a reply that arrives in one piece.
abbrev pub returns : Bytes → ClientTurn
returns text = record {
  close_requested = false;
  type_bytes = brings (take word_size (reply text));
  rest = brings (drop word_size (reply text));
}

client_on_update-shown :
    {F : Fifo} (L : IsFifo F) {mc : Memory} (Mc : IsMemory mc) (socket : Socket)
    (packet_type : Bytes) (texts : List Bytes)
    → HasRoom mc max_buffer_length
    → length packet_type ≡ word_size
    → All IsLine texts
    → client_on_update F mc socket packet_type (map returns texts)
      ≡ done (map (λ t. printed (message_shown t)) texts)
unfolding client_on_update
client_on_update-shown L Mc socket packet_type [] room four lines = refl
client_on_update-shown L Mc socket packet_type (t ∷ ts) room four lines =
    rw
      (
        client_pass-reply L Mc packet_type t four lines.0.plain lines.0.short room,
        client_on_update-shown L Mc socket (bytes32 PacketType.message) ts room refl lines.1,
      )
      refl

length-say : (texts : List Bytes) → length (map say texts) ≡ length texts
length-say [] = refl
length-say (t ∷ ts) = ap suc (length-say ts)

All-say :
    (texts : List Bytes)
    → All IsLine texts
    → All (λ p. All (λ w. length w < message_limit) p.words) (map say texts)
All-say [] lines = tt
All-say (t ∷ ts) lines = ((lines.0.short, tt), All-say ts lines.1)

-- Lines of 1 to 255 bytes without a NUL, typed one after the other at the console of a client that
-- is connected and updates, with more rounds than lines: the console sends one request for each,
-- in order, and waits; a server that receives each request in one piece in a round of its own, on
-- a socket that is not its own and with a known host, shows each text with the host and answers
-- it, in order, and keeps its list of clients; and the client whose loop receives the type of each
-- answer and then the rest of it shows each text, in order. Two bytes lie behind the blocks of the
-- client, blocks up to 1024 bytes can be had on both sides, and the locals for packet types have
-- four bytes.
pub conversation :
    {F : Fifo} (L : IsFifo F) {mc ms : Memory} (Mc : IsMemory mc) (Ms : IsMemory ms) (peers : Peers)
    (ch : ConnectHandler) (user : Client) (network : Network) (to server client : Socket)
    (host packet_type : Bytes) (l : Loop) (rounds : ℕ) (texts : List Bytes)
    → All IsLine texts
    → length texts < rounds
    → user.network ≡ some network
    → network.socket ≡ some to
    → network.thread ≡ live
    → 2 ≤ length mc.beyond
    → HasRoom mc max_buffer_length
    → HasRoom ms max_buffer_length
    → (client == server) ≡ false
    → peers client ≡ some host
    → length l.packet_type ≡ word_size
    → length packet_type ≡ word_size
    → (console F mc rounds user (map say texts)
        ≡ done (
            waits (record {
              manager = new_action_manager;
              client = user;
              log = map (λ t. sent to (request mc t)) texts;
            })))
      × ((l' : Loop) × (update_rounds F
              (server_invoke F ms peers)
              (packet_handler_address ∷ [])
              ch
              peers
              server
              (map (hears mc client) texts)
              l
            ≡ done l')
          × (l'.clients ≡ l.clients)
          × (l'.log ≡ l.log ++ answers host client texts))
      × (client_on_update F mc to packet_type (map returns texts)
          ≡ done (map (λ t. printed (message_shown t)) texts))
conversation L {mc} Mc Ms peers ch user network to server client host packet_type l rounds texts
      lines fuel there connected updates two rc rs other known four four' =
    (
      run-speak L Mc (λ n h. rc n (omega arith)) user network to there connected [] updates
            (map say texts) rounds (omega (arith, length-say texts)) (All-say texts lines)
          ∙ rw (speak-say [] texts lines) refl,
      update_rounds-answers L mc Ms peers ch server client host other known two rs texts l lines
          four,
      client_on_update-shown L Mc to packet_type texts rc four' lines,
    )
