-- ===== src/Client/System/Safety.antt =====
-- What holds of the running client, whatever the order of the calls.
use poco_echo.Base.{
  suc, ◌≡◌, refl, ap, sym, ◌∙◌, ◌<◌, ltb, ◌==◌, Bool, true, false, Bool-cases, Option-cases, none,
  some, some-injective, inl, inr, List, [], ◌∷◌, ◌++◌, All, All-append, Bytes, length, done, fault,
  Ensures, Ensures-bind, Ensures-step, Ensures-map, Outcome-cases, Ensures-done, bad_pointer, arith,
  until_nul, length-until_nul-le,
}
use mathlib.Core.Path.{subst}
use poco_echo.Poco.{Fifo, IsFifo, Memory, IsMemory, Socket}
use poco_echo.Effect.{Effect, sent, IsSilent}
use poco_echo.Network.LifeCycle.{Network, live, joins, close, exit}
use poco_echo.Network.LifeCycle.Effects.{exit-IsSilent, exit-closed}
use poco_echo.Client.Action.{
  ActionManager, message_limit, read_message, store_message, send_message,
}
use poco_echo.Client.Packet.{request, send_message_lem}
use poco_echo.Client.Receive.{client_pass, goes_on}
use poco_echo.Client.Console.{
  Prompt, Desk, connection, tell, enter_message, after_retry, get_action,
}
use poco_echo.Client.Console.Laws.{tell-send_message}
use poco_echo.Client.Connect.{Client}
use poco_echo.Client.Receive.Quiet.{IsQuiet, client_pass-IsQuiet}
use poco_echo.Client.Console.Faults.{get_action_offline}
use poco_echo.Client.System.{
  exited, Phase, left, heads, dangles, killed, dies, System, joined, Step, acts, ends, passes,
  leaves, catches, Reach, begins, later,
}

module _ {F : Fifo} (L : IsFifo F) {m : Memory} (M : IsMemory m) (to : Socket) where
  -- A request over a socket, of a word that the console can take, up to its first NUL.
  abbrev pub IsRequest : Effect → Type 0
  IsRequest e = (w : Bytes) × (length w < message_limit) × (e ≡ sent to (request m (until_nul w)))

  -- A desk whose connection, if there is one, is the socket.
  pub record IsDesk (d : Desk) : Type 0 where
    pub over : (s : Socket) → connection d.client ≡ done s → s ≡ to
    pub requests : All IsRequest d.log

  -- What an action keeps.
  abbrev Keeps : Desk → Desk → Type 0
  Keeps d d' = (d'.client ≡ d.client) × IsDesk d'

  send_message-requests :
      (w : Bytes) (a : ActionManager)
      → length w < message_limit
      → Ensures (λ r. All IsRequest r.1) (send_message F m to (until_nul w) a)
  unfolding send_message store_message
  send_message-requests w a short = elim (Option-cases (m.fresh (suc (length (until_nul w))))) [
    | inl none_left ↦ rw none_left tt
    | inr (block, got) ↦
        rw
          (send_message_lem L M to a (until_nul w) block (omega (arith, length-until_nul-le w)) got)
          ((w, short, refl), tt)
  ]

  tell-IsDesk :
      (w : Bytes) (d : Desk)
      → length w < message_limit
      → IsDesk d
      → Ensures (λ r. Keeps d r.0) (tell F m (until_nul w) d)
  unfolding tell
  tell-IsDesk w d short v =
      let message : Bytes = until_nul w in
      elim (Outcome-cases (connection d.client)) [
        | inl (s, over) ↦
            let same : s ≡ to = v.over s over in
            rw (tell-send_message F m to message d (over ∙ ap done same)) (
              Ensures-bind (λ r. All IsRequest r.1) (λ r. Keeps d r.0)
                (send_message F m to message d.manager) _ (send_message-requests w d.manager short)
                λ r own. (
                  refl,
                  record {
                    over = v.over;
                    requests = All-append IsRequest d.log r.1 v.requests own;
                  },
                ))
        | inr (x, gone) ↦
            Ensures-step (λ r. Keeps d r.0) (store_message m message d.manager) _ λ a. rw gone tt
      ]

  after_retry-IsDesk :
      (w : Bytes) (d : Desk) (r : Desk × Bool)
      → length w < message_limit
      → Keeps d r.0
      → Ensures (λ q. Keeps d q.0) (after_retry F m (until_nul w) r)
  after_retry-IsDesk w d (k, true) short v =
      Ensures-map (λ q. Keeps k q.0) (λ q. Keeps d q.0) (tell F m (until_nul w) k)
        (tell-IsDesk w k short v.1) λ q k'. (k'.0 ∙ v.0, k'.1)
  after_retry-IsDesk w d (k, false) short v = v

  enter_message-IsDesk :
      (ws : List Bytes) (d : Desk) → IsDesk d → Ensures (λ r. Keeps d r.0) (enter_message F m ws d)
  unfolding enter_message read_message
  enter_message-IsDesk [] d v = (refl, v)
  enter_message-IsDesk (w ∷ ws) d v = elim (Bool-cases (ltb (length w) message_limit)) [
    | inl short ↦
        let fits : length w < message_limit = ground arith in
        elim (Bool-cases (length (until_nul w) == 0)) [
          | inl blank ↦
              rw (short, blank)
                (Ensures-bind (λ r. Keeps d r.0) (λ r. Keeps d r.0) (enter_message F m ws d) _
                  (enter_message-IsDesk ws d v) λ r k. after_retry-IsDesk w d r fits k)
          | inr full ↦ rw (short, full) (tell-IsDesk w d fits v)
        ]
    | inr long ↦ rw long tt
  ]

  get_action-IsDesk :
      (p : Prompt) (d : Desk)
      → (p.action == 2) ≡ false
      → IsDesk d
      → Ensures (λ r. Keeps d r.0) (get_action F m d p)
  unfolding get_action
  get_action-IsDesk p d other v = elim (Bool-cases (p.action == 1)) [
    | inl message ↦ rw message (
        Ensures-bind (λ r. Keeps d r.0) (λ r. Keeps d r.0) (enter_message F m p.words d) _
          (enter_message-IsDesk p.words d v) λ r k. k)
    | inr no_message ↦ rw (no_message, other) (refl, v)
  ]

  -- The network is there, and its socket until the thread runs `Exit`.
  abbrev pub Stands : Phase → Client → Type 0
  Stands (heads t) c =
      (n : Network) × (c.network ≡ some n) × (n.socket ≡ some to) × (n.thread ≡ live)
  Stands left c = (n : Network) × (c.network ≡ some n) × (n.socket ≡ none)
  Stands dangles c = (n : Network) × (c.network ≡ some n) × (n.socket ≡ none)
  Stands killed c = (n : Network) × (c.network ≡ some n) × (n.socket ≡ some to) × (n.thread ≡ live)

  pub record IsSound (s : System) : Type 0 where
    pub desk : IsDesk s.desk
    pub stands : Stands s.phase s.desk.client
    pub silent : All IsSilent s.shown

  closing :
      (p : Phase) (c : Client) (n n' : Network) (es : List Effect)
      → Stands p c
      → c.network ≡ some n
      → close n ≡ done (n', joins, es)
      → Stands p (record { network = some n' }) × (n'.socket ≡ n.socket)
  unfolding close
  closing (heads t) c n n' es (k, is, opened, updates) there e =
      let same : k ≡ n = some-injective _ _ (sym is ∙ there) in
      let opened' : n.socket ≡ some to = ap (λ x. x.socket) (sym same) ∙ opened in
      let updates' : n.thread ≡ live = ap (λ x. x.thread) (sym same) ∙ updates in
      (
        (n', refl, ground (arith, opened', updates'), ground (arith, opened', updates')),
        ground (arith, opened', updates'),
      )
  closing killed c n n' es (k, is, opened, updates) there e =
      let same : k ≡ n = some-injective _ _ (sym is ∙ there) in
      let opened' : n.socket ≡ some to = ap (λ x. x.socket) (sym same) ∙ opened in
      let updates' : n.thread ≡ live = ap (λ x. x.thread) (sym same) ∙ updates in
      (
        (n', refl, ground (arith, opened', updates'), ground (arith, opened', updates')),
        ground (arith, opened', updates'),
      )
  closing left c n n' es (k, is, gone) there e = absurd (ground (arith, gone, is, there))
  closing dangles c n n' es (k, is, gone) there e = absurd (ground (arith, gone, is, there))

  closed-IsDesk :
      (s : System) (n n' : Network) (es : List Effect)
      → IsSound s
      → exit n ≡ done (n', es)
      → IsDesk (joined s n').desk
  closed-IsDesk s n n' es v e =
      let gone : n'.socket ≡ none =
        Ensures-done (λ r. r.0.socket ≡ none) (exit n) (n', es) (exit-closed n) e in
      record { over = λ k at. absurd (ground (arith, gone)); requests = v.desk.requests }

  closed-IsSilent :
      (s : System) (n n' : Network) (es : List Effect)
      → IsSound s
      → exit n ≡ done (n', es)
      → All IsSilent (s.shown ++ es)
  closed-IsSilent s n n' es v e =
      All-append IsSilent s.shown es v.silent
        (Ensures-done (λ r. All IsSilent r.1) (exit n) (n', es) (exit-IsSilent n) e)

  Step-IsSound : (s t : System) → Step F m s t → IsSound s → IsSound t
  Step-IsSound s t (acts p d a waits other e) v =
      let (same, w) =
        Ensures-done (λ r. Keeps s.desk r.0) (get_action F m s.desk p) (d, a)
          (get_action-IsDesk p s.desk other v.desk) e in
      record { desk = w; stands = subst (Stands s.phase) (sym same) v.stands; silent = v.silent }
  Step-IsSound s t (ends n n' es waits there e) v =
      let (stands, same) = closing s.phase s.desk.client n n' es v.stands there e in
      record {
        desk = record {
          over = λ k at. v.desk.over k (ground (arith, there, same));
          requests = v.desk.requests;
        };
        stands = stands;
        silent = v.silent;
      }
  Step-IsSound s t (passes turn n k k' es at there flag e) v = record {
    desk = v.desk;
    stands = subst (λ p. Stands p s.desk.client) at v.stands;
    silent = All-append IsSilent s.shown es v.silent (
        Ensures-done IsQuiet (client_pass F m k turn) (goes_on k' es)
          (client_pass-IsQuiet F m k turn) e);
  }
  Step-IsSound s t (leaves turn n n' k es at there flag e out) v = record {
    desk = closed-IsDesk s n n' es v out;
    stands =
        (n', refl, Ensures-done (λ r. r.0.socket ≡ none) (exit n) (n', es) (exit-closed n) out);
    silent = closed-IsSilent s n n' es v out;
  }
  Step-IsSound s t (catches turn n n' k es at there flag e out) v = record {
    desk = closed-IsDesk s n n' es v out;
    stands =
        (n', refl, Ensures-done (λ r. r.0.socket ≡ none) (exit n) (n', es) (exit-closed n) out);
    silent = closed-IsSilent s n n' es v out;
  }
  Step-IsSound s t (dies turn n k at there flag e) v = record {
    desk = v.desk;
    stands = subst (λ p. Stands p s.desk.client) at v.stands;
    silent = v.silent;
  }

  -- In every state of the running client, begun on a network with a socket and a running thread,
  -- where the console and the update thread act in any order: what the console has sent went over
  -- this socket, each effect the packet of a word of fewer than 256 bytes up to its first NUL, and
  -- any connection still there is this socket; the update thread has sent nothing; and the network
  -- has this socket and the thread pointer while the thread is in its loop and also once an
  -- exception that OnUpdate does not catch has ended it, and no socket once the thread has left
  -- its loop or caught an exception.
  pub Reach-IsSound :
      (n : Network) (junk : Bytes) (s : System)
      → n.socket ≡ some to
      → n.thread ≡ live
      → Reach F m n junk s
      → IsSound s
  Reach-IsSound n junk s opened updates begins = record {
    desk = record { over = λ k at. ground (arith, opened); requests = tt };
    stands = (n, refl, opened, updates);
    silent = tt;
  }
  Reach-IsSound n junk s opened updates (later {s = q} r step) =
      Step-IsSound q s step (Reach-IsSound n junk q opened updates r)

  gone :
      (p : Phase) (c : Client)
      → exited p ≡ true
      → Stands p c
      → (n : Network) × (c.network ≡ some n) × (n.socket ≡ none)
  gone left c off v = v
  gone (heads t) c off v = absurd (ground arith)
  gone dangles c off v = v
  gone killed c off v = absurd (ground arith)

  -- Once the update thread of a running client, begun on a network with a socket and a running
  -- thread, has left its loop by itself or caught an exception, and not where an exception that it
  -- does not catch has ended it, the console, asked to send a word of 1 to 255 bytes that does not
  -- begin with a NUL and whose block can be had, goes through a null pointer.
  pub Reach-offline :
      (n : Network) (junk : Bytes) (s : System) (p : Prompt) (w : Bytes) (ws : List Bytes)
      (block : Bytes)
      → n.socket ≡ some to
      → n.thread ≡ live
      → Reach F m n junk s
      → exited s.phase ≡ true
      → p.action ≡ 1
      → p.words ≡ w ∷ ws
      → 0 < length (until_nul w)
      → length w < message_limit
      → m.fresh (suc (length (until_nul w))) ≡ some block
      → get_action F m s.desk p ≡ fault bad_pointer
  Reach-offline n junk s p w ws block opened updates r off asks typed some_text short got =
      let v : IsSound s = Reach-IsSound n junk s opened updates r in
      let (k, there, closed_now) = gone s.phase s.desk.client off v.stands in
      get_action_offline F m s.desk p w ws asks typed block k L M some_text short got there
        closed_now
