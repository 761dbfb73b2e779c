-- ===== src/Server/System/Stuck.antt =====
-- What is left of a server whose update thread an exception has ended (Poco::Thread catches what leaves
-- the function that it runs).
use poco_echo.Base.{◌≡◌, refl, ◌∙◌, ◌++◌, true, false, some, Option-cases, inl, inr, arith}
use poco_echo.Poco.{Fifo, Memory, Socket, Peers}
use poco_echo.Sqlite.{Sqlite}
use poco_echo.WhiteList.{WhiteList}
use poco_echo.Network.LifeCycle.{live, try_start, close, exit}
use poco_echo.Network.Closing
use poco_echo.Network.Closing.{Threads, opens, closes, waits, adds, removes, returns}
use poco_echo.Network.Closing.Order.{IsOrderly}
use poco_echo.Server.System.{
  idle, runs, shown, System, Step, owns, starts, selects, visits_one, visited, drops_one, dropped,
  leaves, dies, commands_list, Reach, dead,
}
use poco_echo.Server.System.Safety.{IsSafe, Reach-IsSafe}

-- No thread runs, but the pointer to one is there, and so is the socket.
pub record IsLeftOpen (server : Socket) (t : Threads) : Type 0 where
  pub stopped : t.updates ≡ false
  pub thread : t.network.thread ≡ live
  pub socket : t.network.socket ≡ some server

-- The calls of the owner leave it so.
owns-IsLeftOpen :
    {t u : Threads} (server : Socket)
    → Closing.Step t u
    → u.updates ≡ t.updates
    → IsLeftOpen server t
    → IsLeftOpen server u
unfolding try_start close exit
owns-IsLeftOpen server (opens n bound ok es o e) same v = record {
  stopped = v.stopped;
  thread = ground (arith, v.thread, v.socket);
  socket = ground (arith, v.thread, v.socket);
}
owns-IsLeftOpen server (closes n es o e) same v = absurd (ground (arith, v.thread, v.socket))
owns-IsLeftOpen server (waits n es o e) same v = record {
  stopped = v.stopped;
  thread = ground (arith, v.thread, v.socket);
  socket = ground (arith, v.thread, v.socket);
}
owns-IsLeftOpen server (adds f o few) same v = record {
  stopped = v.stopped;
  thread = v.thread;
  socket = v.socket;
}
owns-IsLeftOpen server (removes f o few) same v = record {
  stopped = v.stopped;
  thread = v.thread;
  socket = v.socket;
}
owns-IsLeftOpen server (returns o u) same v = record {
  stopped = v.stopped;
  thread = v.thread;
  socket = v.socket;
}

module _ {S : Sqlite} (F : Fifo) (m : Memory) (peers : Peers) where
  -- Steps that start no thread.
  pub data Unstarted (s : System S) : System S → Type 0 where
    here : Unstarted s s
    further :
        {t u : System S} → Unstarted s t → Step F m peers t u → runs u.phase ≡ false → Unstarted s u

  -- A server that serves nobody, and has shown what it had shown when its thread ended.
  pub record IsStuck (server : Socket) (s t : System S) : Type 0 where
    pub threads : IsLeftOpen server t.threads
    pub stands : t.phase ≡ idle
    pub silent : t.past ≡ s.past ++ shown s.phase

  Step-IsStuck :
      (server : Socket) (s t u : System S)
      → Step F m peers t u
      → runs u.phase ≡ false
      → IsStuck server s t
      → IsStuck server s u
  Step-IsStuck server s t u (owns k step same) off v = record {
    threads = owns-IsLeftOpen server step same v.threads;
    stands = v.stands;
    silent = v.silent;
  }
  Step-IsStuck server s t u (starts fd junk o stopped there) off v = absurd (ground arith)
  Step-IsStuck server s t u (selects fd turn l at asked busy selected) off v =
      absurd (ground (arith, v.stands))
  Step-IsStuck server s t u (visits_one fd turn c cs l l' at e) off v =
      absurd (ground (arith, v.stands))
  Step-IsStuck server s t u (visited fd turn l at) off v = absurd (ground (arith, v.stands))
  Step-IsStuck server s t u (drops_one fd c cs l l' at e) off v = absurd (ground (arith, v.stands))
  Step-IsStuck server s t u (dropped fd l at) off v = absurd (ground (arith, v.stands))
  Step-IsStuck server s t u (leaves fd l n es at asked e) off v = absurd (ground (arith, v.stands))
  Step-IsStuck server s t u (dies on) off v = absurd (ground (arith, v.stands))
  Step-IsStuck server s t u (commands_list c w ok e) off v = record {
    threads = v.threads;
    stands = v.stands;
    silent = v.silent;
  }

  Unstarted-IsStuck :
      (server : Socket) (s t u : System S) → Unstarted t u → IsStuck server s t → IsStuck server s u
  Unstarted-IsStuck server s t u here v = v
  Unstarted-IsStuck server s t u (further {t = k} r step off) v =
      Step-IsStuck server s k u step off (Unstarted-IsStuck server s t k r v)

  -- Once an exception has ended the update thread of a reachable server, the first thread that
  -- ends so, then until a thread is started: none runs, the thread pointer is not cleared and the
  -- socket stays open whatever the owner calls, Close included, and nothing is shown by an update
  -- thread.
  pub dead-IsStuck :
      (w₀ : WhiteList S) (s t : System S)
      → Reach F m peers w₀ s
      → s.died ≡ false
      → runs s.phase ≡ true
      → Unstarted (dead s) t
      → (server : Socket) × (s.threads.network.socket ≡ some server) × IsStuck server s t
  dead-IsStuck w₀ s t r alive on rest =
      let v : IsSafe F m peers w₀ s = Reach-IsSafe F m peers w₀ s r in
      let o : IsOrderly s.threads = v.orderly alive in
      elim (Option-cases s.threads.network.socket) [
        | inl gone ↦ absurd (ground (arith, o.opened (v.running ∙ on)))
        | inr (server, there) ↦ (
          server,
          there,
          Unstarted-IsStuck server s (dead s) t rest (record {
            threads = record {
              stopped = refl;
              thread = ground (arith, o.thread, v.running);
              socket = there;
            };
            stands = refl;
            silent = refl;
          }),
        )
      ]
