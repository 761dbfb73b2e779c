-- ===== src/Client/Console/Laws.antt =====
-- The client's console against the messages that its input asks for.
use mathlib.Core.List.{append_assoc, append-nil, map-append}
use mathlib.Core.Option
use poco_echo.Base.{
  ℕ, suc, ◌==◌, ◌<◌, ◌≡◌, refl, sym, ◌∙◌, ap, if◌then◌else◌, Bool, true, false, Bool-cases, inl,
  inr, Option, none, some, List, [], ◌∷◌, ◌++◌, map, All, Bytes, length, done, ◌>>=◌, arith,
  Outcome-cases, until_nul, length-until_nul-le, ltb, lt→ltb,
}
use poco_echo.Poco.{Fifo, IsFifo, Memory, IsMemory, HasRoom, Socket}
use poco_echo.Effect.{Effect, sent}
use poco_echo.Console.{Console, waits, exits, returns, quits, after_action, replay, run-replay}
use poco_echo.Network.LifeCycle.{Network, live, close}
use poco_echo.Client.Action.{
  new_action_manager, message_limit, read_message, store_message, send_message,
}
use poco_echo.Client.Packet.{request, send_message_lem}
use poco_echo.Client.Connect.{Client, new_client, disconnect}
use poco_echo.Client.Console.{
  connection, Prompt, Desk, tell, enter_message, entered, after_retry, get_action, run,
}

-- The messages that the words of one action become, in the order of their sending, where a word counts
-- up to its first NUL: the first that is not empty, and then an empty message for each empty word
-- before it. None are sent while all words are empty.
abbrev pub messages : List Bytes → Option (List Bytes)
messages [] = none
messages (w ∷ ws) =
    let text = until_nul w in
    if length text == 0 then Option.map (λ ms. ms ++ ([] ∷ [])) (messages ws) else some (text ∷ [])

-- What the input asks for: the messages, and whether the console then ends or waits.
abbrev pub speak : List Bytes → List Prompt → Console (List Bytes) Prompt
speak said [] = waits said
speak said (p ∷ ps) =
    if p.action == 1
    then elim (messages p.words) as (λ x. Console (List Bytes) Prompt) [
      | none ↦ waits said
      | some ms ↦ speak (said ++ ms) ps
    ]
    else if p.action == 2
    then exits said
    else speak said ps

-- A message over a connection that is there.
pub tell-send_message :
    (F : Fifo) (m : Memory) (server : Socket) (message : Bytes) (d : Desk)
    → connection d.client ≡ done server
    → tell F m message d ≡ (
        send_message F m server message d.manager >>= λ r.
        done (record d { manager = r.0; log = d.log ++ r.1 }, true))
unfolding tell send_message
tell-send_message F m server message d over =
    elim (Outcome-cases (store_message m message d.manager)) [
      | inl (a, stored) ↦ rw (stored, over) refl
      | inr (x, failed) ↦ rw failed refl
    ]

module _ {F : Fifo} (L : IsFifo F) {m : Memory} (M : IsMemory m) (room : HasRoom m message_limit)
    (client : Client) (network : Network) (server : Socket) (there : client.network ≡ some network)
    (connected : network.socket ≡ some server) (log : List Effect) where
  -- The packets of messages.
  abbrev pub packets : List Bytes → List Effect
  packets said = map (λ text. sent server (request m text)) said

  -- The desk once some messages are sent.
  abbrev pub desk : List Bytes → Desk
  desk said = record { manager = new_action_manager; client = client; log = log ++ packets said }

  log_append :
      (said ms : List Bytes) → (log ++ packets said) ++ packets ms ≡ log ++ packets (said ++ ms)
  log_append said ms =
      append_assoc log (packets said) (packets ms)
      ∙ ap (λ es. log ++ es) (sym (map-append (λ text. sent server (request m text)) said ms))

  tell-desk :
      (message : Bytes) (said : List Bytes)
      → length message < message_limit
      → tell F m message (desk said) ≡ done (desk (said ++ (message ∷ [])), true)
  tell-desk message said short =
      let (block, got) = room (suc (length message)) (omega arith) in
      rw
        (
          tell-send_message F m server message (desk said) (rw (there, connected) refl),
          send_message_lem L M server new_action_manager message block short got,
          log_append said (message ∷ []),
        )
        refl

  abbrev pub heard : List Bytes → Option (List Bytes) → Desk × Bool
  heard said none = (desk said, false)
  heard said (some ms) = (desk (said ++ ms), true)

  retried :
      (w : Bytes) (ms : Option (List Bytes)) (said : List Bytes)
      → (length w == 0) ≡ true
      → (done (heard said ms) >>= after_retry F m w)
        ≡ done (heard said (Option.map (λ ms. ms ++ ([] ∷ [])) ms))
  retried [] none said blank = refl
  retried [] (some ms) said blank =
      tell-desk [] (said ++ ms) (omega arith)
      ∙ ap (λ all. done (desk all, true)) (append_assoc said ms ([] ∷ []))
  retried (x ∷ w) ms said blank = absurd (ground arith)

  pub enter_message-heard :
      (ws : List Bytes) (said : List Bytes)
      → All (λ w. length w < message_limit) ws
      → enter_message F m ws (desk said) ≡ done (heard said (messages ws))
  unfolding enter_message read_message
  enter_message-heard [] said short = refl
  enter_message-heard (w ∷ ws) said short =
      let fits : ltb (length w) message_limit ≡ true = lt→ltb (length w) message_limit short.0 in
      elim (Bool-cases (length (until_nul w) == 0)) [
        | inl blank ↦
            rw (fits, blank, enter_message-heard ws said short.1)
              (retried (until_nul w) (messages ws) said blank)
        | inr full ↦
            rw (fits, full)
              (tell-desk (until_nul w) said (omega (arith, length-until_nul-le w, short.0)))
      ]

  -- The desk at the end: `exit` is called on a client that has disconnected.
  abbrev pub arrived : Console (List Bytes) Prompt → Console Desk Prompt
  arrived (waits said) = waits (desk said)
  arrived (exits said) = exits (record (desk said) { client = new_client })
  arrived (returns said ps) = returns (desk said) ps

  module _ (updates : network.thread ≡ live) where
    get_action-quits :
        (said : List Bytes) (p : Prompt)
        → (p.action == 1) ≡ false
        → (p.action == 2) ≡ true
        → get_action F m (desk said) p ≡ done (record (desk said) { client = new_client }, quits)
    unfolding get_action disconnect close
    get_action-quits said p e e2 =
        rw (e, e2, there, connected, updates, append-nil (log ++ packets said)) refl

    -- The rest of the prompts, once a message is sent.
    after_heard :
        (o : Option (List Bytes)) (said : List Bytes) (ps : List Prompt)
        → ((ms : List Bytes)
            → replay (get_action F m) (desk (said ++ ms)) ps
              ≡ done (arrived (speak (said ++ ms) ps)))
        → ((done (heard said o) >>= λ r. done (entered F m r))
            >>= after_action (get_action F m) (λ d. replay (get_action F m) d ps))
          ≡ done (
              arrived (elim o as (λ x. Console (List Bytes) Prompt) [
                | none ↦ waits said
                | some ms ↦ speak (said ++ ms) ps
              ]))
    after_heard none said ps later = refl
    after_heard (some ms) said ps later = later ms

    replay-speak :
        (ps : List Prompt) (said : List Bytes)
        → All (λ p. All (λ w. length w < message_limit) p.words) ps
        → replay (get_action F m) (desk said) ps ≡ done (arrived (speak said ps))
    unfolding get_action
    replay-speak [] said short = refl
    replay-speak (p ∷ ps) said short = elim (Bool-cases (p.action == 1)) [
      | inl e ↦
          rw (e, enter_message-heard p.words said short.0)
            (after_heard (messages p.words) said ps λ ms. replay-speak ps (said ++ ms) short.1)
      | inr e ↦ elim (Bool-cases (p.action == 2)) [
        | inl e2 ↦ rw (get_action-quits said p e e2, e, e2) refl
        | inr e2 ↦ rw (e, e2) (replay-speak ps said short.1)
      ]
    ]

    -- The client's console, on a client that is connected and updates, with a fresh action
    -- manager, words of fewer than 256 bytes, blocks up to 256 bytes to be had, and more rounds
    -- than there are prompts, sends one packet for each message that the input asks for, in order,
    -- where a word counts up to its first NUL: for an action the first word that is not empty, and
    -- then an empty message for each empty word before it. It ends, disconnected, at the first
    -- request to end, and waits where the input or the words run out.
    pub run-speak :
        (ps : List Prompt) (n : ℕ)
        → length ps < n
        → All (λ p. All (λ w. length w < message_limit) p.words) ps
        → run F m n (desk []) ps ≡ done (arrived (speak [] ps))
    unfolding run
    run-speak ps n fuel short =
        run-replay (get_action F m) ps n (desk []) fuel ∙ replay-speak ps [] short
