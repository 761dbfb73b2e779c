-- ===== src/Server/Sessions.antt =====
-- The console and the update loop of the server together: commands on the white list between the
-- rounds of the loop, in any order.
use poco_echo.Base.{◌≡◌, ◌⊎◌, Bool, true, elem, List, [], ◌∷◌, All, Bytes, done, Ensures-done}
use poco_echo.Poco.{Fifo, Memory, Socket, Peers}
use poco_echo.Sqlite.{Sqlite}
use poco_echo.WhiteList.{WhiteList, is_ip_can_connect}
use poco_echo.WhiteList.Session.{Command, perform}
use poco_echo.Network.Handlers.{Handler}
use poco_echo.Network.Update.{Turn, Loop, start, update_round}
use poco_echo.Network.Admission.{IsGuarded, IsGuarded-map, IsAllowed, start-IsGuarded}
use poco_echo.Network.Reach.{Selects, update_round-IsGuarded}
use poco_echo.Server.Access.{server_callbacks-AreHandlers}
use poco_echo.Server.Grants.{
  AreGranted, perform-AreGranted, IsGranted, IsGranted-later, Admitted-IsGranted,
}
use poco_echo.Server.Callbacks.{server_invoke, server_connect}

module _ {S : Sqlite} (F : Fifo) (m : Memory) (hs : List Handler) (peers : Peers) (server : Socket)
    (junk : Bytes) (w₀ : WhiteList S) where
  -- The commands so far, the last first, the white list and the loop at the head of a round.
  pub data Sessions : List Command → WhiteList S → Loop → Type 0 where
    begins : Sessions [] w₀ (start server junk)
    commands :
        {cs : List Command} {w w' : WhiteList S} {l : Loop} (c : Command) (ok : Bool)
        → Sessions cs w l
        → perform S w c ≡ done (w', ok)
        → Sessions (c ∷ cs) w' l
    rounds :
        {cs : List Command} {w : WhiteList S} {l l' : Loop} (turn : Turn)
        → Sessions cs w l
        → Selects turn l
        → update_round F (server_invoke F m peers) hs (server_connect w peers) peers server turn l
          ≡ done l'
        → Sessions cs w l'

  Sessions-AreGranted :
      (cs : List Command) (w : WhiteList S) (l : Loop) → Sessions cs w l → AreGranted peers w₀ cs w
  unfolding is_ip_can_connect
  Sessions-AreGranted cs w l begins = λ host white. white
  Sessions-AreGranted cs w l (commands {w = v} c ok r e) =
      perform-AreGranted peers w₀ _ v w c ok (Sessions-AreGranted _ v l r) e
  Sessions-AreGranted cs w l (rounds {l = k} turn r selected e) = Sessions-AreGranted cs w k r

  Sessions-IsGuarded :
      (cs : List Command) (w : WhiteList S) (l : Loop)
      → Sessions cs w l
      → IsGuarded (IsGranted peers w₀ cs) server l
  Sessions-IsGuarded cs w l begins = start-IsGuarded (IsGranted peers w₀ cs) server junk
  Sessions-IsGuarded cs w l (commands {cs = ds} {w = v} c ok r e) =
      IsGuarded-map (IsGranted peers w₀ ds) (IsGranted peers w₀ cs) server l
        (IsGranted-later peers w₀ ds c) (Sessions-IsGuarded ds v l r)
  Sessions-IsGuarded cs w l (rounds {l = k} turn r selected e) =
      Ensures-done (IsGuarded (IsGranted peers w₀ cs) server)
        (update_round F (server_invoke F m peers) hs (server_connect w peers) peers server turn k) l
        (update_round-IsGuarded (server_callbacks-AreHandlers F m w peers) (IsGranted peers w₀ cs)
          (Admitted-IsGranted peers w₀ F m cs w (Sessions-AreGranted cs w k r)) hs peers server turn
          k selected (Sessions-IsGuarded cs w k r))
        e

  -- In every state that the update loop and the commands of the console can reach, the commands
  -- between the rounds of the loop in any order: the server socket is listed, and each other
  -- listed socket, and whoever was sent anything but a kick, has a known host that was accepted at
  -- the start or given to Add since.
  pub Sessions-IsGranted :
      (cs : List Command) (w : WhiteList S) (l : Loop)
      → Sessions cs w l
      → (elem server l.clients ≡ true)
        × All (λ c. (c ≡ server) ⊎ IsGranted peers w₀ cs c) l.clients
        × All (IsAllowed (IsGranted peers w₀ cs)) l.log
  Sessions-IsGranted cs w l r =
      let g = Sessions-IsGuarded cs w l r in (g.listens, g.members, g.traffic)
