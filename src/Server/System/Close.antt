-- ===== src/Server/System/Close.antt =====
-- Why `Close` of a running server comes back: the update thread
-- (shared/include/Network/CNetwork.cpp), asked to end, has a bounded way to the head of its loop.
use poco_echo.Base.{
  ◌<◌, ◌≡◌, ◌⊎◌, inl, inr, refl, ◌∙◌, ap, Option-cases, true, false, List, [], ◌∷◌, Fault, fault,
  done, Ensures-done, Outcome-cases, arith,
}
use poco_echo.Poco.{Fifo, Memory, Socket, Peers}
use poco_echo.Sqlite.{Sqlite}
use poco_echo.WhiteList.{WhiteList}
use poco_echo.Network.Update.{Turn, Loop, visit, drop_client}
use poco_echo.Network.Closing.{joining, returns}
use poco_echo.Network.Closing.Order.{IsOrderly, exit-live}
use poco_echo.Server.Callbacks.{server_invoke, server_connect}
use poco_echo.Server.System.{
  Phase, idle, heads, visits, drops, runs, System, Step, owns, starts, selects, visits_one, visited,
  drops_one, dropped, leaves, dies, commands_list, Reach, begins, later,
}
use poco_echo.Server.System.Safety.{IsSafe, Reach-IsSafe}
use poco_echo.Server.System.Bound.{
  OneMore, visit-OneMore, left, left_pos, ahead, IsAsked, owns-IsAsked, owns-outside,
}

module _ {S : Sqlite} (F : Fifo) (m : Memory) (peers : Peers) (w₀ : WhiteList S) where
  Step-IsAsked : (s t : System S) → Step F m peers s t → IsAsked s.threads → IsAsked t.threads
  Step-IsAsked s t (owns u step same) v = owns-IsAsked step v
  Step-IsAsked s t (starts fd junk o stopped there) v = λ j. absurd (ground arith)
  Step-IsAsked s t (selects fd turn l at asked busy selected) v = v
  Step-IsAsked s t (visits_one fd turn c cs l l' at e) v = v
  Step-IsAsked s t (visited fd turn l at) v = v
  Step-IsAsked s t (drops_one fd c cs l l' at e) v = v
  Step-IsAsked s t (dropped fd l at) v = v
  Step-IsAsked s t (leaves fd l n es at asked e) v = λ j on. absurd (ground arith)
  Step-IsAsked s t (dies on) v = λ j on. absurd (ground arith)
  Step-IsAsked s t (commands_list c w ok e) v = v

  Reach-IsAsked : (s : System S) → Reach F m peers w₀ s → IsAsked s.threads
  Reach-IsAsked s begins = λ j. absurd (ground arith)
  Reach-IsAsked s (later {s = q} r step) = Step-IsAsked q s step (Reach-IsAsked q r)

  visits_one-ahead :
      (s : System S) (server : Socket) (turn : Turn) (c : Socket) (cs : List Socket) (l l' : Loop)
      → s.phase ≡ visits server turn (c ∷ cs) l
      → visit F
          (server_invoke F m peers)
          s.threads.network.packet_handlers
          (server_connect s.list peers)
          peers
          server
          turn
          c
          l
        ≡ done l'
      → ahead (record s { phase = visits server turn cs l' }) < ahead s
  visits_one-ahead s server turn c cs l l' at e =
      let more : OneMore l l' =
        Ensures-done (OneMore l) _ l'
          (visit-OneMore F (server_invoke F m peers) s.threads.network.packet_handlers
            (server_connect s.list peers) peers server turn l c)
          e in
      omega (arith, ap left at)

  -- What a step does while `Close` waits.
  Step-ahead :
      (s t : System S)
      → Step F m peers s t
      → IsSafe F m peers w₀ s
      → IsAsked s.threads
      → s.threads.owner ≡ joining
      → ((t.threads ≡ s.threads) × (t.phase ≡ s.phase)) ⊎ (ahead t < ahead s)
  Step-ahead s t (owns u step same) v asks j = inr (ground (arith, owns-outside step same j))
  Step-ahead s t (starts fd junk o stopped there) v asks j = absurd (ground arith)
  Step-ahead s t (selects fd turn l at asked busy selected) v asks j =
      absurd (ground (arith, asks j (v.running ∙ ap runs at)))
  Step-ahead s t (visits_one fd turn c cs l l' at e) v asks j =
      inr (visits_one-ahead s fd turn c cs l l' at e)
  Step-ahead s t (visited fd turn l at) v asks j = inr (omega (arith, ap left at))
  Step-ahead s t (drops_one fd c cs l l' at e) v asks j = inr (omega (arith, ap left at))
  Step-ahead s t (dropped fd l at) v asks j = inr (omega (arith, ap left at))
  Step-ahead s t (leaves fd l n es at asked e) v asks j = inr (omega (arith, ap left at))
  Step-ahead s t (dies on) v asks j = inr (omega (arith, left_pos s.phase on))
  Step-ahead s t (commands_list c w ok e) v asks j = inl (refl, refl)

  -- The call that the thread makes next throws.
  abbrev pub Throws : System S → Phase → Type 0
  Throws s idle = ⊥
  Throws s (heads server l) = ⊥
  Throws s (visits server turn [] l) = ⊥
  Throws s (visits server turn (c ∷ cs) l) =
      (e : Fault) × (visit F (server_invoke F m peers) s.threads.network.packet_handlers
          (server_connect s.list peers) peers server turn c l
        ≡ fault e)
  Throws s (drops server [] l) = ⊥
  Throws s (drops server (c ∷ cs) l) = (e : Fault) × (drop_client peers c l ≡ fault e)

  -- The next step of the thread or of the owner.
  abbrev pub Next : System S → Phase → Type 0
  Next s p =
      (t : System S) × Step F m peers s t × (ahead t < ahead s) × ((t.died ≡ s.died) ⊎ Throws s p)

  Next-step :
      (s : System S) (p : Phase)
      → s.phase ≡ p
      → IsSafe F m peers w₀ s
      → IsAsked s.threads
      → (s.threads.updates ≡ true → s.died ≡ false)
      → s.threads.owner ≡ joining
      → Next s p
  Next-step s idle at v asks alive j =
      (_, owns _ (returns j (v.running ∙ ap runs at)) refl, ground arith, inl refl)
  Next-step s (heads server l) at v asks alive j =
      let on : s.threads.updates ≡ true = v.running ∙ ap runs at in
      let o : IsOrderly s.threads = v.orderly (alive on) in
      elim (Option-cases s.threads.network.socket) [
        | inl gone ↦ absurd (ground (arith, o.opened on))
        | inr (fd, there) ↦ (
          _,
          leaves server l _ _ at (asks j on)
              (exit-live s.threads.network fd there (ground (arith, o.thread))),
          omega (arith, ap left at),
          inl refl,
        )
      ]
  Next-step s (visits server turn [] l) at v asks alive j =
      (_, visited server turn l at, omega (arith, ap left at), inl refl)
  Next-step s (visits server turn (c ∷ cs) l) at v asks alive j =
      elim (Outcome-cases (
        visit F (server_invoke F m peers) s.threads.network.packet_handlers
          (server_connect s.list peers) peers server turn c l)) [
            | inl (l', ran) ↦ (
              _,
              visits_one server turn c cs l l' at ran,
              visits_one-ahead s server turn c cs l l' at ran,
              inl refl,
            )
            | inr (e, failed) ↦ (_, dies (ap runs at), omega (arith, ap left at), inr (e, failed))
          ]
  Next-step s (drops server [] l) at v asks alive j =
      (_, dropped server l at, omega (arith, ap left at), inl refl)
  Next-step s (drops server (c ∷ cs) l) at v asks alive j =
      elim (Outcome-cases (drop_client peers c l)) [
        | inl (l', ran) ↦
            (_, drops_one server c cs l l' at ran, omega (arith, ap left at), inl refl)
        | inr (e, failed) ↦ (_, dies (ap runs at), omega (arith, ap left at), inr (e, failed))
      ]

  -- In every reachable state of the running server in which Close waits, and in which no exception
  -- has ended a thread if one still runs: a step of the update thread or of the owner is possible
  -- that lowers the count of the steps until Close is back, and is the end of the thread by an
  -- exception only where the thread's next call on a socket throws; and whatever step is made
  -- lowers this count or leaves the threads and the thread's place in its loop as they are.
  pub Reach-joining :
      (s : System S)
      → Reach F m peers w₀ s
      → s.threads.owner ≡ joining
      → (s.threads.updates ≡ true → s.died ≡ false)
      → Next s s.phase
        × ((t : System S)
            → Step F m peers s t
            → ((t.threads ≡ s.threads) × (t.phase ≡ s.phase)) ⊎ (ahead t < ahead s))
  Reach-joining s r j alive =
      let v : IsSafe F m peers w₀ s = Reach-IsSafe F m peers w₀ s r in
      let asks : IsAsked s.threads = Reach-IsAsked s r in
      (Next-step s s.phase refl v asks alive j, λ t step. Step-ahead s t step v asks j)
