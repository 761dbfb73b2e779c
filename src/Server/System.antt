-- ===== src/Server/System.antt =====
-- The running server: the owner of its network and the update thread (shared/include/Network/CNetwork.cpp)
-- with the console (server/src/CActionManager.cpp), in every order of their calls. The update thread goes
-- from socket to socket; between two of its calls the others may act.
pub mod Safety
pub mod Stuck
pub mod Rounds
pub mod Bound
pub mod Close
use poco_echo.Base.{◌==◌, ◌≡◌, Bool, true, false, some, List, [], ◌∷◌, ◌++◌, map, Bytes, done}
use poco_echo.Poco.{Fifo, Memory, Socket, Peers}
use poco_echo.Effect.{Effect, closed}
use poco_echo.Sqlite.{Sqlite}
use poco_echo.WhiteList.{WhiteList}
use poco_echo.WhiteList.Session.{Command, perform}
use poco_echo.Network.LifeCycle
use poco_echo.Network.LifeCycle.{exit, start_update_thread}
use poco_echo.Network.Update.{Turn, Loop, start, visit, drop_client}
use poco_echo.Network.Reach.{Selects}
use poco_echo.Network.Closing
use poco_echo.Network.Closing.{Threads, Owner, made}
use poco_echo.Server.Callbacks.{server_invoke, server_connect}

-- Where the update thread stands in `OnUpdate`, on a server socket: at the head of the loop, before the
-- next socket of `readList`, or before the next one of `dropList`.
pub data Phase : Type 0 where
  idle : Phase
  heads : Socket → Loop → Phase
  visits : Socket → Turn → List Socket → Loop → Phase
  drops : Socket → List Socket → Loop → Phase

-- Whether the thread runs, and what it has shown since it started.
abbrev pub runs : Phase → Bool
runs idle = false
runs (heads server l) = true
runs (visits server turn cs l) = true
runs (drops server cs l) = true

abbrev pub shown : Phase → List Effect
shown idle = []
shown (heads server l) = l.log
shown (visits server turn cs l) = l.log
shown (drops server cs l) = l.log

-- `died` says that an exception has left `OnUpdate`; `past` is what the threads before have shown;
-- `commands` are the commands so far, the last first.
pub record System (S : Sqlite) : Type 0 where
  pub threads : Threads
  pub list : WhiteList S
  pub phase : Phase
  pub died : Bool
  pub past : List Effect
  pub commands : List Command

-- The server once an exception has left `OnUpdate`.
abbrev pub dead : {S : Sqlite} → System S → System S
dead s = record s {
  threads = record s.threads { updates = false };
  phase = idle;
  died = true;
  past = s.past ++ shown s.phase;
}

module _ {S : Sqlite} (F : Fifo) (m : Memory) (peers : Peers) where
  pub data Step (s : System S) : System S → Type 0 where
    -- A call of the owner, or its return from `Close`.
    owns :
        (t : Threads)
        → Closing.Step s.threads t
        → t.updates ≡ s.threads.updates
        → Step s (record s { threads = t })
    starts :
        (server : Socket) (junk : Bytes)
        → s.threads.owner ≡ Owner.outside
        → s.threads.updates ≡ false
        → s.threads.network.socket ≡ some server
        → Step s (record s {
          threads = record s.threads {
            network = start_update_thread s.threads.network;
            updates = true;
          };
          phase = heads server (start server junk);
        })
    -- The rest of a round is left out where `select` returns 0.
    selects :
        (server : Socket) (turn : Turn) (l : Loop)
        → s.phase ≡ heads server l
        → s.threads.network.close_requested ≡ false
        → (turn.count == 0) ≡ false
        → Selects turn l
        → Step s (record s { phase = visits server turn turn.ready (record l { drop_list = [] }) })
    visits_one :
        (server : Socket) (turn : Turn) (c : Socket) (cs : List Socket) (l l' : Loop)
        → s.phase ≡ visits server turn (c ∷ cs) l
        → visit F
            (server_invoke F m peers)
            s.threads.network.packet_handlers
            (server_connect s.list peers)
            peers
            server
            turn
            c
            l
          ≡ done l'
        → Step s (record s { phase = visits server turn cs l' })
    visited :
        (server : Socket) (turn : Turn) (l : Loop)
        → s.phase ≡ visits server turn [] l
        → Step s (record s { phase = drops server l.drop_list l })
    drops_one :
        (server : Socket) (c : Socket) (cs : List Socket) (l l' : Loop)
        → s.phase ≡ drops server (c ∷ cs) l
        → drop_client peers c l ≡ done l'
        → Step s (record s { phase = drops server cs l' })
    dropped :
        (server : Socket) (l : Loop)
        → s.phase ≡ drops server [] l
        → Step s (record s { phase = heads server l })
    leaves :
        (server : Socket) (l : Loop) (n : LifeCycle.Network) (es : List Effect)
        → s.phase ≡ heads server l
        → s.threads.network.close_requested ≡ true
        → exit s.threads.network ≡ done (n, es)
        → Step s (record s {
          threads = record s.threads { network = n; updates = false };
          phase = idle;
          past = s.past ++ (l.log ++ (map closed l.clients ++ es));
        })
    -- Any call on a socket may throw. The thread ends at once, as no `catch` stands in `OnUpdate`.
    dies : runs s.phase ≡ true → Step s (dead s)
    commands_list :
        (c : Command) (w : WhiteList S) (ok : Bool)
        → perform S s.list c ≡ done (w, ok)
        → Step s (record s { list = w; commands = c ∷ s.commands })

  -- A server on a white list, with a new network.
  abbrev pub made_on : WhiteList S → System S
  made_on w = record {
    threads = made;
    list = w;
    phase = idle;
    died = false;
    past = [];
    commands = [];
  }

  pub data Reach (w₀ : WhiteList S) : System S → Type 0 where
    begins : Reach w₀ (made_on w₀)
    later : {s t : System S} → Reach w₀ s → Step s t → Reach w₀ t
