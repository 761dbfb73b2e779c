-- ===== src/Echo/World/Talks.antt =====
-- What a client, its user and the server have said to each other, as three parts of one list: what
-- the user has read back, what is on its way down, and what is on its way up.
use mathlib.Core.List.{append_assoc, append-nil, map-append}
use poco_echo.Base.{◌≡◌, sym, ◌∙◌, ap, List, [], ◌∷◌, ◌++◌, map, All, All-append, length, Bytes}
use poco_echo.Packets.{word_size}
use poco_echo.Effect.{printed, message_shown}
use poco_echo.Server.Echo.{reply}
use poco_echo.Client.Packet.{request}
use poco_echo.Client.Console.{Prompt}
use poco_echo.Client.Console.Prompts.{IsWord, utters, utters-IsWord, spoken}
use poco_echo.Echo.World.{Party, Site}
use poco_echo.Echo.World.Histories.{desk_after}

-- A client, with the texts that the server has heard from it.
pub record Talk (p : Party) (came : List Bytes) (v : Site) : Type 0 where
  pub read : List Bytes
  pub down : List Bytes
  pub up : List Bytes
  pub said : spoken v.asked ≡ read ++ (down ++ up)
  pub words : All IsWord (spoken v.asked)
  pub told : v.desk ≡ desk_after p (spoken v.asked)
  pub arrived : came ≡ read ++ down
  pub taken : v.heard ≡ map (request p.memory) came
  pub returned : v.read ≡ map reply read
  pub seen : v.shown ≡ map (λ t. printed (message_shown t)) read
  pub four : length v.packet_type ≡ word_size

spoken-snoc : (ps : List Prompt) (p : Prompt) → spoken (ps ++ (p ∷ [])) ≡ spoken ps ++ utters p
spoken-snoc [] p = append-nil (utters p)
spoken-snoc (q ∷ ps) p =
    ap (λ r. utters q ++ r) (spoken-snoc ps p)
    ∙ sym (append_assoc (utters q) (spoken ps) (utters p))

module _ {p : Party} {came : List Bytes} {v : Site} (t : Talk p came v) where
  pub Talk-enters :
      (q : Prompt)
      → All IsWord q.words
      → Talk p came (record v {
        desk = desk_after p (spoken v.asked ++ utters q);
        asked = v.asked ++ (q ∷ []);
      })
  Talk-enters q good = record {
    read = t.read;
    down = t.down;
    up = t.up ++ utters q;
    said =
        spoken-snoc v.asked q
        ∙ ap (λ r. r ++ utters q) t.said
        ∙ append_assoc t.read (t.down ++ t.up) (utters q)
        ∙ ap (λ r. t.read ++ r) (append_assoc t.down t.up (utters q));
    words =
        rw (spoken-snoc v.asked q)
          (All-append IsWord (spoken v.asked) (utters q) t.words (utters-IsWord q good));
    told = ap (desk_after p) (sym (spoken-snoc v.asked q));
    arrived = t.arrived;
    taken = t.taken;
    returned = t.returned;
    seen = t.seen;
    four = t.four;
  }

  pub Talk-hears :
      (text : Bytes) (up : List Bytes)
      → t.up ≡ text ∷ up
      → Talk p (came ++ (text ∷ [])) (record v { heard = v.heard ++ (request p.memory text ∷ []) })
  Talk-hears text up e = record {
    read = t.read;
    down = t.down ++ (text ∷ []);
    up = up;
    said = t.said ∙ rw e (ap (λ r. t.read ++ r) (sym (append_assoc t.down (text ∷ []) up)));
    words = t.words;
    told = t.told;
    arrived = ap (λ r. r ++ (text ∷ [])) t.arrived ∙ append_assoc t.read t.down (text ∷ []);
    taken =
        ap (λ r. r ++ (request p.memory text ∷ [])) t.taken
        ∙ sym (map-append (request p.memory) came (text ∷ []));
    returned = t.returned;
    seen = t.seen;
    four = t.four;
  }

  pub Talk-reads :
      (text packet_type : Bytes) (down : List Bytes)
      → t.down ≡ text ∷ down
      → length packet_type ≡ word_size
      → Talk p came (record v {
        read = v.read ++ (reply text ∷ []);
        packet_type = packet_type;
        shown = v.shown ++ (printed (message_shown text) ∷ []);
      })
  Talk-reads text packet_type down e four = record {
    read = t.read ++ (text ∷ []);
    down = down;
    up = t.up;
    said = t.said ∙ rw e (sym (append_assoc t.read (text ∷ []) (down ++ t.up)));
    words = t.words;
    told = t.told;
    arrived = t.arrived ∙ rw e (sym (append_assoc t.read (text ∷ []) down));
    taken = t.taken;
    returned =
        ap (λ r. r ++ (reply text ∷ [])) t.returned ∙ sym (map-append reply t.read (text ∷ []));
    seen =
        ap (λ r. r ++ (printed (message_shown text) ∷ [])) t.seen
        ∙ sym (map-append (λ t. printed (message_shown t)) t.read (text ∷ []));
    four = four;
  }
