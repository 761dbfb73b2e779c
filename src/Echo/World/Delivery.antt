-- ===== src/Echo/World/Delivery.antt =====
-- What each user of a server is shown, in every order of what users, server and clients do.
use mathlib.Core.Path.{subst}
use poco_echo.Base.{
  ◌==◌, ◌≡◌, refl, sym, ◌∙◌, ap, true, false, some, List, [], ◌∷◌, ◌++◌, All, elem, length, Bytes,
  done, done-injective, bytes32, arith,
}
use poco_echo.Poco.{Fifo, IsFifo, Memory, IsMemory, HasRoom, Socket, Peers}
use poco_echo.Packets.{max_buffer_length, word_size}
use poco_echo.Packets.PacketType
use poco_echo.Effect.{Effect, printed, message_shown}
use poco_echo.Console.{Answer}
use poco_echo.Network.Update.{Loop, Turn, ConnectHandler, visit}
use poco_echo.Server.Callbacks.{server_invoke, packet_handler_address}
use poco_echo.Server.Echo.{reply}
use poco_echo.Client.Packet.{request}
use poco_echo.Client.Console.{Prompt, Desk, get_action}
use poco_echo.Client.Console.Prompts.{IsWord, utters, spoken, get_action-utters}
use poco_echo.Client.Receive.{client_pass, goes_on}
use poco_echo.Echo.{visit-request, client_pass-reply}
use poco_echo.Echo.World.{
  Party, IsJoined, World, Step, enters, hears, reads, put, sends, piece, Steps, opened, here,
  further,
}
use poco_echo.Echo.World.Histories.{desk_after, sends-answers_to}
use poco_echo.Echo.World.Told.{
  IsTold, IsTold-enters, IsTold-hears, IsTold-reads, answered, next_up, next_down, IsWord-up,
  IsWord-down,
}

module _ {F : Fifo} (L : IsFifo F) {m : Memory} (M : IsMemory m) (peers : Peers)
    (ch : ConnectHandler) (server : Socket) (parties : Socket → Party) (clients : List Socket)
    (joined : (c : Socket) → elem c clients ≡ true → IsJoined peers server c (parties c))
    (room : HasRoom m max_buffer_length) where
  module _ {w : World} (t : IsTold parties clients w) (c : Socket)
      (there : elem c clients ≡ true) where
    -- What the calls of a step do.
    pub get_action-told :
        (q : Prompt)
        → All IsWord q.words
        → (q.action == 2) ≡ false
        → (answer : Answer) × (get_action F (parties c).memory (w.site c).desk q
            ≡ done (desk_after (parties c) (spoken (w.site c).asked ++ utters q), answer))
    get_action-told q good stays =
        let j : IsJoined peers server c (parties c) = joined c there in
        rw (t.talks c there).told (
          get_action-utters L j.memory (λ n h. j.room n (omega arith)) (parties c).user
            (parties c).network (parties c).to j.there j.connected [] (spoken (w.site c).asked) q
            good stays)

    pub visit-told :
        (turn : Turn) (text : Bytes)
        → IsWord text
        → turn.received c ≡ some (request (parties c).memory text)
        → visit F
            (server_invoke F m peers)
            (packet_handler_address ∷ [])
            ch
            peers
            server
            turn
            c
            w.loop
          ≡ done (answered t c there text)
    visit-told turn text word got =
        let j : IsJoined peers server c (parties c) = joined c there in
        visit-request L (parties c).memory M peers ch server c text (parties c).host turn w.loop
          word.plain word.short j.two room t.four j.known j.apart got

    pub client_pass-told :
        (text : Bytes)
        → IsWord text
        → client_pass F (parties c).memory (w.site c).packet_type (piece (reply text))
          ≡ done (goes_on (bytes32 PacketType.message) (printed (message_shown text) ∷ []))
    client_pass-told text word =
        let j : IsJoined peers server c (parties c) = joined c there in
        client_pass-reply L j.memory (w.site c).packet_type text (t.talks c there).four word.plain
          word.short j.room

  -- The worlds that the steps lead to, by what the calls return.
  abbrev entered : World → Socket → Prompt → Desk → World
  entered w c q d = record w {
    site = put c (record (w.site c) { desk = d; asked = (w.site c).asked ++ (q ∷ []) }) w.site;
  }

  abbrev pub heard : World → Socket → Loop → Bytes → World
  heard w c l bs = record w {
    loop = l;
    site = put c (record (w.site c) { heard = (w.site c).heard ++ (bs ∷ []) }) w.site;
  }

  abbrev pub read_by : World → Socket → Bytes → Bytes → List Effect → World
  read_by w c bs packet_type effects = record w {
    site =
        put c
          (record (w.site c) {
            read = (w.site c).read ++ (bs ∷ []);
            packet_type = packet_type;
            shown = (w.site c).shown ++ effects;
          })
          w.site;
  }

  Step-IsTold :
      {w v : World}
      → Step F m peers ch server parties clients w v
      → IsTold parties clients w
      → IsTold parties clients v
  Step-IsTold {w} (enters c q d answer there good stays e) t =
      let (answer', now) = get_action-told t c there q good stays in
      let same : desk_after (parties c) (spoken (w.site c).asked ++ utters q) ≡ d =
        ap (λ r. r.0) (done-injective (sym now ∙ e)) in
      subst (λ d. IsTold parties clients (entered w c q d)) same (IsTold-enters t c there q good)
  Step-IsTold {w} (hears c turn bs rest l there e got ran) t =
      let (text, up, next, same) = next_up (t.talks c there) bs rest e in
      let ended : answered t c there text ≡ l = done-injective (
        sym (
          visit-told t c there turn text (IsWord-up (t.talks c there) text up next)
            (got ∙ ap some same))
        ∙ ran) in
      subst (λ l. IsTold parties clients (heard w c l bs)) ended
        (subst (λ bs. IsTold parties clients (heard w c (answered t c there text) bs)) (sym same)
          (IsTold-hears t c there text up next))
  Step-IsTold {w} (reads c bs packet_type rest effects there e ran) t =
      let (text, down, next, same) =
        next_down (t.talks c there) bs rest
          (sym (sends-answers_to c parties t.history) ∙ ap (sends c) (sym t.logged) ∙ e) in
      let now : goes_on (bytes32 PacketType.message) (printed (message_shown text) ∷ [])
          ≡ goes_on packet_type effects =
        done-injective (
          sym (client_pass-told t c there text (IsWord-down (t.talks c there) text down next))
          ∙ ap (λ b. client_pass F (parties c).memory (w.site c).packet_type (piece b)) (sym same)
          ∙ ran) in
      let kind : bytes32 PacketType.message ≡ packet_type = cc in
      let lines : printed (message_shown text) ∷ [] ≡ effects = cc in
      rw (same, ← kind, ← lines) (IsTold-reads t c there text down next)

  IsTold-Steps :
      {w v : World}
      → Steps F m peers ch server parties clients w v
      → IsTold parties clients w
      → IsTold parties clients v
  IsTold-Steps here t = t
  IsTold-Steps (further r step) t = Step-IsTold step (IsTold-Steps r t)

  opened-IsTold :
      (l : Loop)
      → length l.packet_type ≡ word_size
      → IsTold parties clients (opened F m peers ch server parties clients l)
  opened-IsTold l four = record {
    history = [];
    logged = refl;
    four = four;
    talks = λ c there. record {
      read = [];
      down = [];
      up = [];
      said = refl;
      words = tt;
      told = refl;
      arrived = refl;
      taken = refl;
      returned = refl;
      seen = refl;
      four = (joined c there).four;
    };
  }

  -- A server and its connected clients, in every order in which users answer their menus, the
  -- server's thread serves a socket with a packet, and the loop of a client takes a packet, where
  -- each connection gives the packets of its sender whole, once and in order: the messages that
  -- the prompts of a user ask for have all been sent, and are in their order those that the client
  -- has shown, then those whose answers are on their way to it, then those on their way to the
  -- server; so each user is shown a first part of their own messages and nothing else. The server
  -- has done nothing but show each text that it heard, with the host of its client, and answer it
  -- to that client, in the order of hearing. The words of prompts have fewer than 256 bytes and no
  -- NUL, and no prompt asks for the end; two bytes lie behind the blocks of each client, blocks up
  -- to 1024 bytes can be had on all sides, the hosts of the clients are known, their sockets are
  -- not the server's own, and the locals for packet types have four bytes.
  pub Steps-IsTold :
      (l : Loop) (w : World)
      → length l.packet_type ≡ word_size
      → Steps F m peers ch server parties clients (opened F m peers ch server parties clients l) w
      → IsTold parties clients w
  Steps-IsTold l w four r = IsTold-Steps r (opened-IsTold l four)
