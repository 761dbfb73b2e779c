-- ===== src/Server/System/Rounds.antt =====
-- A round of the update loop, as `update_round` computes it, in the steps of the running server.
use poco_echo.Base.{
  ◌≡◌, refl, ◌==◌, Bytes, Bool, true, false, List, [], ◌∷◌, done, ◌>>=◌, >>=-eq-done,
  done-injective, if◌then◌else◌,
}
use mathlib.Core.Path.{subst}
use poco_echo.Poco.{Fifo, Memory, Socket, Peers}
use poco_echo.Sqlite.{Sqlite}
use poco_echo.Network.Update.{
  start, Loop, Turn, visit, visit_all, drop_client, drop_clients, update_round,
}
use poco_echo.Network.Reach.{Selects}
use poco_echo.Server.Callbacks.{server_invoke, server_connect}
use poco_echo.Network.Handlers.{Handler}
use poco_echo.Server.Sessions.{Sessions, begins, commands, rounds}
use poco_echo.WhiteList.{WhiteList}
use poco_echo.WhiteList.Session.{Command}
use poco_echo.Server.System.{
  commands_list, Phase, heads, visits, drops, System, Step, selects, visits_one, visited, drops_one,
  dropped,
}

module _ {S : Sqlite} (F : Fifo) (m : Memory) (peers : Peers) where
  -- Some steps.
  pub data Steps (s : System S) : System S → Type 0 where
    here : Steps s s
    further : {t u : System S} → Steps s t → Step F m peers t u → Steps s u

  -- The server with its thread at another place.
  abbrev pub at : System S → Phase → System S
  at s p = record s { phase = p }

  module _ (s : System S) (server : Socket) where
    abbrev hs : List Handler
    hs = s.threads.network.packet_handlers

    visit_all-Steps :
        (turn : Turn) (cs : List Socket) (l l' : Loop) (p : Phase)
        → Steps (at s p) (at s (visits server turn cs l))
        → visit_all F
            (server_invoke F m peers)
            hs
            (server_connect s.list peers)
            peers
            server
            turn
            cs
            l
          ≡ done l'
        → Steps (at s p) (at s (visits server turn [] l'))
    unfolding visit_all
    visit_all-Steps turn [] l l' p r e =
        subst (λ k. Steps (at s p) (at s (visits server turn [] k))) (done-injective e) r
    visit_all-Steps turn (c ∷ cs) l l' p r e =
        let (k, now, rest) =
          >>=-eq-done
            (visit F (server_invoke F m peers) hs (server_connect s.list peers) peers server turn c
              l)
            _ e in
        visit_all-Steps turn cs k l' p (further r (visits_one server turn c cs l k refl now)) rest

    drop_clients-Steps :
        (cs : List Socket) (l l' : Loop) (p : Phase)
        → Steps (at s p) (at s (drops server cs l))
        → drop_clients peers cs l ≡ done l'
        → Steps (at s p) (at s (heads server l'))
    unfolding drop_clients
    drop_clients-Steps [] l l' p r e =
        subst (λ k. Steps (at s p) (at s (heads server k))) (done-injective e)
          (further r (dropped server l refl))
    drop_clients-Steps (c ∷ cs) l l' p r e =
        let (k, now, rest) = >>=-eq-done (drop_client peers c l) _ e in
        drop_clients-Steps cs k l' p (further r (drops_one server c cs l k refl now)) rest

    branch-Steps :
        (turn : Turn) (l l' : Loop) (none_ready : Bool)
        → (turn.count == 0) ≡ none_ready
        → s.threads.network.close_requested ≡ false
        → Selects turn l
        → (if none_ready then done l else (do
          k ←
              visit_all F
                (server_invoke F m peers)
                hs
                (server_connect s.list peers)
                peers
                server
                turn
                turn.ready
                (record l { drop_list = [] })
          drop_clients peers k.drop_list k))
          ≡ done l'
        → Steps (at s (heads server l)) (at s (heads server l'))
    branch-Steps turn l l' true counted asked selected e =
        subst (λ k. Steps (at s (heads server l)) (at s (heads server k))) (done-injective e) here
    branch-Steps turn l l' false counted asked selected e =
        let l₀ : Loop = record l { drop_list = [] } in
        let (k, seen, gone) =
          >>=-eq-done
            (visit_all F (server_invoke F m peers) hs (server_connect s.list peers) peers server
              turn turn.ready l₀)
            (λ k. drop_clients peers k.drop_list k) e in
        drop_clients-Steps k.drop_list k l' (heads server l)
          (further
            (visit_all-Steps turn turn.ready l₀ k (heads server l)
              (further here (selects server turn l refl asked counted selected)) seen)
            (visited server turn k refl))
          gone

    -- A round of the update loop as update_round computes it, with no close request pending and on
    -- sockets that select may leave in its lists, is a sequence of steps of the running server, in
    -- which the thread serves one socket at a time.
    pub update_round-Steps :
        (turn : Turn) (l l' : Loop)
        → s.threads.network.close_requested ≡ false
        → Selects turn l
        → update_round F
            (server_invoke F m peers)
            hs
            (server_connect s.list peers)
            peers
            server
            turn
            l
          ≡ done l'
        → Steps (at s (heads server l)) (at s (heads server l'))
    unfolding update_round
    update_round-Steps turn l l' asked selected e =
        branch-Steps turn l l' (turn.count == 0) refl asked selected e

  Steps-after : (s t u : System S) → Steps s t → Steps t u → Steps s u
  Steps-after s t u r here = r
  Steps-after s t u r (further {t = k} q step) = further (Steps-after s t k r q) step

  -- A session in whole rounds is one of the orders of the running server.
  pub Sessions-Steps :
      (s : System S) (server : Socket) (junk : Bytes) (cs : List Command) (w : WhiteList S)
      (l : Loop)
      → s.threads.network.close_requested ≡ false
      → Sessions F m s.threads.network.packet_handlers peers server junk s.list cs w l
      → Steps
          (record s { phase = heads server (start server junk); commands = [] })
          (record s { list = w; phase = heads server l; commands = cs })
  Sessions-Steps s server junk cs w l asked begins = here
  Sessions-Steps s server junk cs w l asked (commands {cs = ds} {w = v} c ok r e) =
      further (Sessions-Steps s server junk ds v l asked r) (commands_list c w ok e)
  Sessions-Steps s server junk cs w l asked (rounds {l = k} turn r selected e) =
      Steps-after _ (record s { list = w; phase = heads server k; commands = cs }) _
        (Sessions-Steps s server junk cs w k asked r)
        (update_round-Steps (record s { list = w; phase = heads server k; commands = cs }) server
          turn k l asked selected e)
