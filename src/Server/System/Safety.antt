-- ===== src/Server/System/Safety.antt =====
-- What holds in every state of the running server, whatever the order of the calls.
use poco_echo.Base.{
  ◌≡◌, refl, ap, ◌∙◌, true, false, ◌==◌, elem, List, [], ◌∷◌, map, All, All-map, All-append, done,
  Ensures-done, arith,
}
use mathlib.Core.Path.{subst}
use poco_echo.Poco.{Fifo, Memory, Socket, Peers}
use poco_echo.Effect.{closed, IsSilent}
use poco_echo.Sqlite.{Sqlite}
use poco_echo.WhiteList.{WhiteList, is_ip_can_connect}
use poco_echo.Network.LifeCycle.{exit}
use poco_echo.Network.LifeCycle.Effects.{exit-IsSilent}
use poco_echo.Network.Update.{Loop, Turn, visit, drop_client}
use poco_echo.Network.Admission.{
  IsGuarded, IsGuarded-map, IsAllowed, IsAllowed-map, IsSilent-IsAllowed, Keeps, start-IsGuarded,
}
use poco_echo.Network.Admission.Visit.{visit-Visited}
use poco_echo.Network.Reach.{drop_client-IsGuarded}
use poco_echo.Network.Closing.Order.{
  IsOrderly, Step-IsOrderly, start_update_thread-IsOrderly, exit-IsOrderly, made-IsOrderly,
}
use poco_echo.Server.Access.{server_callbacks-AreHandlers}
use poco_echo.Server.Callbacks.{server_invoke, server_connect}
use poco_echo.Server.Grants.{
  AreGranted, perform-AreGranted, IsGranted, IsGranted-later, Admitted-IsGranted,
}
use poco_echo.Server.System.{
  Phase, idle, heads, visits, drops, runs, shown, System, Step, owns, starts, selects, visits_one,
  visited, drops_one, dropped, leaves, dies, commands_list, Reach, begins, later,
}

-- The loop is guarded wherever the thread stands, the sockets still to visit are listed, and the server
-- socket is not among those still to drop.
abbrev pub IsWorking : (Socket → Type 0) → Phase → Type 0
IsWorking P idle = Unit
IsWorking P (heads server l) = IsGuarded P server l
IsWorking P (visits server turn cs l) = IsGuarded P server l × All (λ c. elem c l.clients ≡ true) cs
IsWorking P (drops server cs l) = IsGuarded P server l × (elem server cs ≡ false)

IsWorking-map :
    (P Q : Socket → Type 0) (p : Phase) → ((c : Socket) → P c → Q c) → IsWorking P p → IsWorking Q p
IsWorking-map P Q idle f v = tt
IsWorking-map P Q (heads server l) f v = IsGuarded-map P Q server l f v
IsWorking-map P Q (visits server turn cs l) f v = (IsGuarded-map P Q server l f v.0, v.1)
IsWorking-map P Q (drops server cs l) f v = (IsGuarded-map P Q server l f v.0, v.1)

IsWorking-shown : (P : Socket → Type 0) (p : Phase) → IsWorking P p → All (IsAllowed P) (shown p)
IsWorking-shown P idle v = tt
IsWorking-shown P (heads server l) v = v.traffic
IsWorking-shown P (visits server turn cs l) v = v.0.traffic
IsWorking-shown P (drops server cs l) v = v.0.traffic

closed-IsAllowed : (P : Socket → Type 0) (cs : List Socket) → All (IsAllowed P) (map closed cs)
closed-IsAllowed P [] = tt
closed-IsAllowed P (c ∷ cs) = (tt, closed-IsAllowed P cs)

module _ {S : Sqlite} (F : Fifo) (m : Memory) (peers : Peers) (w₀ : WhiteList S) where
  pub record IsSafe (s : System S) : Type 0 where
    pub running : s.threads.updates ≡ runs s.phase
    pub orderly : s.died ≡ false → IsOrderly s.threads
    pub granted : AreGranted peers w₀ s.commands s.list
    pub traffic : All (IsAllowed (IsGranted peers w₀ s.commands)) s.past
    pub working : IsWorking (IsGranted peers w₀ s.commands) s.phase

  -- The loop where the thread stands.
  IsWorking-at :
      (s : System S) (p : Phase)
      → IsSafe s
      → s.phase ≡ p
      → IsWorking (IsGranted peers w₀ s.commands) p
  IsWorking-at s p v e = subst (IsWorking (IsGranted peers w₀ s.commands)) e v.working

  -- A step of the thread from one place to another.
  moves :
      (s : System S) (p : Phase)
      → IsSafe s
      → runs s.phase ≡ runs p
      → IsWorking (IsGranted peers w₀ s.commands) p
      → IsSafe (record s { phase = p })
  moves s p v e working = record {
    running = v.running ∙ e;
    orderly = v.orderly;
    granted = v.granted;
    traffic = v.traffic;
    working = working;
  }

  visit-IsWorking :
      (s : System S) (server : Socket) (turn : Turn) (c : Socket) (cs : List Socket) (l l' : Loop)
      → IsSafe s
      → IsWorking (IsGranted peers w₀ s.commands) (visits server turn (c ∷ cs) l)
      → visit F
          (server_invoke F m peers)
          s.threads.network.packet_handlers
          (server_connect s.list peers)
          peers
          server
          turn
          c
          l
        ≡ done l'
      → IsWorking (IsGranted peers w₀ s.commands) (visits server turn cs l')
  visit-IsWorking s server turn c cs l l' v (g, (here, rest)) e =
      let P = IsGranted peers w₀ s.commands in
      let (g', keeps) =
        Ensures-done (λ k. IsGuarded P server k × Keeps l k)
          (visit F (server_invoke F m peers) s.threads.network.packet_handlers
            (server_connect s.list peers) peers server turn c l)
          l'
          (visit-Visited (server_callbacks-AreHandlers F m s.list peers) P
            (Admitted-IsGranted peers w₀ F m s.commands s.list v.granted) server turn l g
            s.threads.network.packet_handlers peers c here)
          e in
      (g', All-map _ _ cs keeps rest)

  drop-IsGuarded :
      (s : System S) (server c : Socket) (l l' : Loop)
      → IsSafe s
      → (server == c) ≡ false
      → IsGuarded (IsGranted peers w₀ s.commands) server l
      → drop_client peers c l ≡ done l'
      → IsGuarded (IsGranted peers w₀ s.commands) server l'
  drop-IsGuarded s server c l l' v other g e =
      let P = IsGranted peers w₀ s.commands in
      Ensures-done (IsGuarded P server) (drop_client peers c l) l'
        (drop_client-IsGuarded (server_callbacks-AreHandlers F m s.list peers) P
          (Admitted-IsGranted peers w₀ F m s.commands s.list v.granted)
          s.threads.network.packet_handlers peers server c l other g)
        e

  Step-IsSafe : (s t : System S) → Step F m peers s t → IsSafe s → IsSafe t
  Step-IsSafe s t (owns u step same) v = record {
    running = same ∙ v.running;
    orderly = λ alive. Step-IsOrderly step (v.orderly alive);
    granted = v.granted;
    traffic = v.traffic;
    working = v.working;
  }
  Step-IsSafe s t (starts server junk outside stopped there) v = record {
    running = refl;
    orderly = λ alive.
        start_update_thread-IsOrderly s.threads outside stopped (ground arith) (v.orderly alive);
    granted = v.granted;
    traffic = v.traffic;
    working = start-IsGuarded (IsGranted peers w₀ s.commands) server junk;
  }
  Step-IsSafe s t (selects server turn l at asked busy selected) v =
      let g = IsWorking-at s (heads server l) v at in
      moves s _ v (ap runs at) (
        record { listens = g.listens; members = g.members; traffic = g.traffic; spares = refl },
        selected,
      )
  Step-IsSafe s t (visits_one server turn c cs l l' at e) v = moves s _ v (ap runs at) (
      visit-IsWorking s server turn c cs l l' v
        (IsWorking-at s (visits server turn (c ∷ cs) l) v at) e)
  Step-IsSafe s t (visited server turn l at) v =
      let (g, rest) = IsWorking-at s (visits server turn [] l) v at in
      moves s _ v (ap runs at) (g, g.spares)
  Step-IsSafe s t (drops_one server c cs l l' at e) v =
      let (g, spared) = IsWorking-at s (drops server (c ∷ cs) l) v at in
      moves s _ v (ap runs at) (drop-IsGuarded s server c l l' v (ground arith) g e, ground arith)
  Step-IsSafe s t (dropped server l at) v =
      moves s _ v (ap runs at) (IsWorking-at s (drops server [] l) v at).0
  Step-IsSafe s t (leaves server l n es at asked e) v =
      let P = IsGranted peers w₀ s.commands in
      let quiet =
        Ensures-done (λ r. All IsSilent r.1) (exit s.threads.network) (n, es)
          (exit-IsSilent s.threads.network) e in
      record {
        running = refl;
        orderly =
            λ alive. exit-IsOrderly s.threads n es (v.running ∙ ap runs at) e (v.orderly alive);
        granted = v.granted;
        traffic = All-append (IsAllowed P) s.past _ v.traffic (
            All-append (IsAllowed P) l.log _ (IsWorking-at s (heads server l) v at).traffic (
              All-append (IsAllowed P) (map closed l.clients) es (closed-IsAllowed P l.clients)
                (All-map IsSilent (IsAllowed P) es (IsSilent-IsAllowed P) quiet)));
        working = tt;
      }
  Step-IsSafe s t (dies at) v = record {
    running = refl;
    orderly = λ alive. absurd (ground arith);
    granted = v.granted;
    traffic = All-append _ s.past (shown s.phase) v.traffic (IsWorking-shown _ s.phase v.working);
    working = tt;
  }
  Step-IsSafe s t (commands_list c w ok e) v =
      let f = IsGranted-later peers w₀ s.commands c in
      record {
        running = v.running;
        orderly = v.orderly;
        granted = perform-AreGranted peers w₀ s.commands s.list w c ok v.granted e;
        traffic = All-map _ _ s.past (λ x. IsAllowed-map _ _ x f) v.traffic;
        working = IsWorking-map _ _ s.phase f v.working;
      }

  -- In every state of the running server, where the owner of the network, the update thread and
  -- the console act in any order, the thread serves one socket at a time, and an exception may end
  -- it: the thread runs just where it stands in the loop; until an exception has ended a thread,
  -- its pointer, the socket, the close request and the handler list are orderly; whomever the
  -- white list accepts was accepted at the start or given to Add since; wherever the thread
  -- stands, the server socket is listed and not to be dropped, the sockets still to visit are
  -- listed, and each other listed socket has a known host that was so granted; and whoever was
  -- sent anything but a kick, by this thread or one before it, has such a host.
  pub Reach-IsSafe : (s : System S) → Reach F m peers w₀ s → IsSafe s
  unfolding is_ip_can_connect
  Reach-IsSafe s begins = record {
    running = refl;
    orderly = λ alive. made-IsOrderly;
    granted = λ host white. white;
    traffic = tt;
    working = tt;
  }
  Reach-IsSafe s (later {s = q} r step) = Step-IsSafe q s step (Reach-IsSafe q r)
