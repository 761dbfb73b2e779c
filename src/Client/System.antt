-- ===== src/Client/System.antt =====
-- The running client: the console (client/src/CActionManager.cpp) and the update thread
-- (`CNetwork::OnUpdate`, shared/include/Network/CNetwork.cpp) on one network, in every order of their
-- calls.
pub mod Safety
use poco_echo.Base.{◌≡◌, ◌==◌, Bool, false, some, List, [], ◌++◌, Bytes, done, fault, bad_alloc}
use poco_echo.Poco.{Fifo, Memory, Socket}
use poco_echo.Effect.{Effect}
use poco_echo.Console.{Answer}
use poco_echo.Network.LifeCycle.{Network, joins, close, exit}
use poco_echo.Client.Connect.{Client}
use poco_echo.Client.Action.{new_action_manager}
use poco_echo.Client.Receive.{ClientTurn, client_pass, goes_on, breaks, caught}
use poco_echo.Client.Console.{Prompt, Desk, get_action}

-- Where the update thread stands: it has left, it is at the head of the loop with the bytes of
-- `packetType`, it is there after an exception of Poco, on a socket that `Exit` has deleted, or another
-- exception has ended it.
pub data Phase : Type 0 where
  left : Phase
  heads : Bytes → Phase
  dangles : Phase
  killed : Phase

-- Whether the thread has run `Exit`.
abbrev pub exited : Phase → Bool
exited left = Bool.true
exited (heads t) = false
exited dangles = Bool.true
exited killed = false

-- The console, whether it waits in `Disconnect`, the update thread, and what this has shown.
pub record System : Type 0 where
  pub desk : Desk
  pub disconnects : Bool
  pub phase : Phase
  pub shown : List Effect

-- The network of the system.
abbrev pub joined : System → Network → System
joined s n = record s { desk = record s.desk { client = record { network = some n } } }

module _ (F : Fifo) (m : Memory) where
  pub data Step (s : System) : System → Type 0 where
    -- An action other than the end.
    acts :
        (p : Prompt) (d : Desk) (a : Answer)
        → s.disconnects ≡ false
        → (p.action == 2) ≡ false
        → get_action F m s.desk p ≡ done (d, a)
        → Step s (record s { desk = d })
    -- The end: `Close` asks the thread to leave and waits for it.
    ends :
        (n n' : Network) (es : List Effect)
        → s.disconnects ≡ false
        → s.desk.client.network ≡ some n
        → close n ≡ done (n', joins, es)
        → Step s (record (joined s n') { disconnects = Bool.true })
    passes :
        (turn : ClientTurn) (n : Network) (t t' : Bytes) (es : List Effect)
        → s.phase ≡ heads t
        → s.desk.client.network ≡ some n
        → turn.close_requested ≡ n.close_requested
        → client_pass F m t turn ≡ done (goes_on t' es)
        → Step s (record s { phase = heads t'; shown = s.shown ++ es })
    leaves :
        (turn : ClientTurn) (n n' : Network) (t : Bytes) (es : List Effect)
        → s.phase ≡ heads t
        → s.desk.client.network ≡ some n
        → turn.close_requested ≡ n.close_requested
        → client_pass F m t turn ≡ done breaks
        → exit n ≡ done (n', es)
        → Step s (record (joined s n') { phase = left; shown = s.shown ++ es })
    catches :
        (turn : ClientTurn) (n n' : Network) (t : Bytes) (es : List Effect)
        → s.phase ≡ heads t
        → s.desk.client.network ≡ some n
        → turn.close_requested ≡ n.close_requested
        → client_pass F m t turn ≡ done caught
        → exit n ≡ done (n', es)
        → Step s (record (joined s n') { phase = dangles; shown = s.shown ++ es })
    -- `new[]` in the packet handler throws an exception that is not one of Poco, and that nothing in
    -- `OnUpdate` catches: the thread ends without `Exit`. What the pass has shown before is left out.
    dies :
        (turn : ClientTurn) (n : Network) (t : Bytes)
        → s.phase ≡ heads t
        → s.desk.client.network ≡ some n
        → turn.close_requested ≡ n.close_requested
        → client_pass F m t turn ≡ fault bad_alloc
        → Step s (record s { phase = killed })

  -- A client whose threads have just started, on a network and with junk in `packetType`.
  abbrev pub started : Network → Bytes → System
  started n junk = record {
    desk = record { manager = new_action_manager; client = record { network = some n }; log = [] };
    disconnects = false;
    phase = heads junk;
    shown = [];
  }

  pub data Reach (n : Network) (junk : Bytes) : System → Type 0 where
    begins : Reach n junk (started n junk)
    later : {s t : System} → Reach n junk s → Step s t → Reach n junk t
