-- ===== src/Echo/World/Told.antt =====
-- What holds of a server and its clients, and that a prompt, a visit and a pass keep it.
use mathlib.Core.List.{append_assoc}
use mathlib.Core.Path.{subst}
use poco_echo.Base.{
  ◌≡◌, refl, sym, ◌∙◌, ap, true, List, [], ◌∷◌, ◌++◌, map, All, All-right, elem, length, Bytes,
  bytes32,
}
use poco_echo.Poco.{Socket}
use poco_echo.Packets.{word_size}
use poco_echo.Packets.PacketType
use poco_echo.Effect.{printed, sent, message_from, message_shown}
use poco_echo.Network.Update.{Loop}
use poco_echo.Server.Echo.{reply}
use poco_echo.Client.Packet.{request}
use poco_echo.Client.Console.{Prompt}
use poco_echo.Client.Console.Prompts.{IsWord, utters, spoken}
use poco_echo.Echo.World.{Party, Site, World, sends, put}
use poco_echo.Echo.World.Histories.{
  History, texts_of, texts_of-same, texts_of-other, answers_to, answers_to-append, sends-requests,
  next_mapped, put-all, desk_after,
}
use poco_echo.Echo.World.Talks.{Talk, Talk-enters, Talk-hears, Talk-reads}

-- What the server has done is to answer the texts that it has heard, in their order, and each client
-- is in a talk with it.
pub record IsTold (parties : Socket → Party) (clients : List Socket) (w : World) : Type 0 where
  pub history : History
  pub logged : w.loop.log ≡ answers_to parties history
  pub four : length w.loop.packet_type ≡ word_size
  pub talks :
      (c : Socket) → elem c clients ≡ true → Talk (parties c) (texts_of c history) (w.site c)

module _ {p : Party} {came : List Bytes} {v : Site} (t : Talk p came v) where
  said_on : spoken v.asked ≡ came ++ t.up
  said_on = t.said ∙ sym (append_assoc t.read t.down t.up) ∙ ap (λ r. r ++ t.up) (sym t.arrived)

  -- The packets on their way up, and the next of them.
  pub sends_up : sends p.to v.desk.log ≡ map (request p.memory) (came ++ t.up)
  sends_up = rw (t.told, sends-requests p (spoken v.asked)) (ap (map (request p.memory)) said_on)

  pub IsWord-up : (text : Bytes) (up : List Bytes) → t.up ≡ text ∷ up → IsWord text
  IsWord-up text up e =
      (All-right IsWord came (text ∷ up)
        (subst (All IsWord) (said_on ∙ ap (λ r. came ++ r) e) t.words)).0

  pub next_up :
      (bs : Bytes) (rest : List Bytes)
      → sends p.to v.desk.log ≡ v.heard ++ (bs ∷ rest)
      → (text : Bytes) × (up : List Bytes) × (t.up ≡ text ∷ up) × (bs ≡ request p.memory text)
  next_up bs rest e =
      next_mapped (request p.memory) came t.up bs rest
        (sym sends_up ∙ e ∙ ap (λ r. r ++ (bs ∷ rest)) t.taken)

  -- The packets on their way down, and the next of them.
  pub IsWord-down : (text : Bytes) (down : List Bytes) → t.down ≡ text ∷ down → IsWord text
  IsWord-down text down e =
      (All-right IsWord t.read (text ∷ (down ++ t.up))
        (subst (All IsWord) (t.said ∙ ap (λ r. t.read ++ (r ++ t.up)) e) t.words)).0

  pub next_down :
      (bs : Bytes) (rest : List Bytes)
      → map reply came ≡ v.read ++ (bs ∷ rest)
      → (text : Bytes) × (down : List Bytes) × (t.down ≡ text ∷ down) × (bs ≡ reply text)
  next_down bs rest e =
      next_mapped reply t.read t.down bs rest
        (ap (map reply) (sym t.arrived) ∙ e ∙ ap (λ r. r ++ (bs ∷ rest)) t.returned)

module _ {parties : Socket → Party} {clients : List Socket} {w : World}
    (t : IsTold parties clients w) (c : Socket) (there : elem c clients ≡ true) where
  abbrev v : Site
  v = w.site c

  -- The client at `c` goes on, and the server does nothing.
  IsTold-site :
      (v' : Site)
      → Talk (parties c) (texts_of c t.history) v'
      → IsTold parties clients (record w { site = put c v' w.site })
  IsTold-site v' talk = record {
    history = t.history;
    logged = t.logged;
    four = t.four;
    talks =
        put-all (λ k v. elem k clients ≡ true → Talk (parties k) (texts_of k t.history) v) c v'
          w.site (λ _. talk) (λ k other. t.talks k);
  }

  pub IsTold-enters :
      (q : Prompt)
      → All IsWord q.words
      → IsTold parties clients (record w {
        site =
            put c
              (record v {
                desk = desk_after (parties c) (spoken v.asked ++ utters q);
                asked = v.asked ++ (q ∷ []);
              })
              w.site;
      })
  IsTold-enters q good = IsTold-site _ (Talk-enters (t.talks c there) q good)

  pub IsTold-reads :
      (text : Bytes) (down : List Bytes)
      → (t.talks c there).down ≡ text ∷ down
      → IsTold parties clients (record w {
        site =
            put c
              (record v {
                read = v.read ++ (reply text ∷ []);
                packet_type = bytes32 PacketType.message;
                shown = v.shown ++ (printed (message_shown text) ∷ []);
              })
              w.site;
      })
  IsTold-reads text down e = IsTold-site _ (Talk-reads (t.talks c there) text _ down e refl)

  -- The server's loop once it has answered a text.
  abbrev pub answered : Bytes → Loop
  answered text = record w.loop {
    packet_type = bytes32 PacketType.message;
    log = w.loop.log ++ (printed (message_from (parties c).host text) ∷ sent c (reply text) ∷ []);
  }

  pub IsTold-hears :
      (text : Bytes) (up : List Bytes)
      → (t.talks c there).up ≡ text ∷ up
      → IsTold parties clients (record w {
        loop = answered text;
        site =
            put c (record v { heard = v.heard ++ (request (parties c).memory text ∷ []) }) w.site;
      })
  IsTold-hears text up e =
      let h : History = t.history ++ ((c, text) ∷ []) in
      let v' : Site = record v { heard = v.heard ++ (request (parties c).memory text ∷ []) } in
      record {
        history = h;
        logged =
            ap (λ r. r ++ answers_to parties ((c, text) ∷ [])) t.logged
            ∙ sym (answers_to-append parties t.history ((c, text) ∷ []));
        four = refl;
        talks =
            put-all (λ k v. elem k clients ≡ true → Talk (parties k) (texts_of k h) v) c v' w.site
              (λ _.
                subst (λ came. Talk (parties c) came v') (sym (texts_of-same c t.history text))
                  (Talk-hears (t.talks c there) text up e))
              (λ k other here.
                subst (λ came. Talk (parties k) came (w.site k))
                  (sym (texts_of-other c k t.history text other)) (t.talks k here));
      }
