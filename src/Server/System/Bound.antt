-- ===== src/Server/System/Bound.antt =====
-- How far the update thread of a running server (shared/include/Network/CNetwork.cpp) is from its end,
-- once it is asked to end.
use poco_echo.Base.{
  ℕ, ◌+◌, ◌*◌, ◌<◌, ◌≤◌, ◌≡◌, inl, inr, refl, ◌==◌, Bool-cases, true, List, [], ◌∷◌, length,
  length-append, take, Ensures, Ensures-step, poco_exception, or_fault, arith,
}
use poco_echo.Poco.{Fifo, Socket, Peers}
use poco_echo.Packets.{max_buffer_length}
use poco_echo.Sqlite.{Sqlite}
use poco_echo.Network.Handlers.{Handler}
use poco_echo.Network.LifeCycle.{close}
use poco_echo.Network.Update.{
  Turn, Loop, ConnectHandler, Invoke, admits, run_handlers, accept_client, handle_bytes,
  receive_client, visit,
}
use poco_echo.Network.Closing
use poco_echo.Network.Closing.{
  Threads, outside, joining, returns, adds, removes, opens, closes, waits,
}
use poco_echo.Server.System.{Phase, idle, heads, visits, drops, runs, System}

-- At most one socket more is to be dropped.
abbrev pub OneMore : Loop → Loop → Type 0
OneMore l l' = length l'.drop_list ≤ length l.drop_list + 1

module _ (F : Fifo) (invoke : Invoke F) (hs : List Handler) (ch : ConnectHandler) (peers : Peers)
    (server : Socket) (turn : Turn) (l : Loop) where
  accept_client-OneMore : Ensures (OneMore l) (accept_client ch turn l)
  unfolding accept_client
  accept_client-OneMore =
      Ensures-step (OneMore l) (or_fault poco_exception turn.accepted) _
        λ client. Ensures-step (OneMore l) (admits ch client) _ λ v. ground arith

  receive_client-OneMore : (s : Socket) → Ensures (OneMore l) (receive_client F invoke hs turn s l)
  unfolding receive_client handle_bytes
  receive_client-OneMore s =
      Ensures-step (OneMore l) (or_fault poco_exception (turn.received s)) _ λ bs.
        elim (Bool-cases (length (take max_buffer_length bs) == 0)) [
          | inl shut ↦ rw shut (omega (arith, length-append l.drop_list (s ∷ [])))
          | inr more ↦
              rw more (Ensures-step (OneMore l) (run_handlers F invoke hs s _ _) _ λ r. omega arith)
        ]

  pub visit-OneMore :
      (s : Socket) → Ensures (OneMore l) (visit F invoke hs ch peers server turn s l)
  unfolding visit
  visit-OneMore s = elim (Bool-cases (s == server)) [
    | inl listener ↦ rw listener accept_client-OneMore
    | inr other ↦ rw other (receive_client-OneMore s)
  ]

-- An upper bound of the thread's steps until it has left the loop, once it is asked to.
abbrev pub left : Phase → ℕ
left idle = 0
left (heads server l) = 1
left (drops server cs l) = length cs + 2
left (visits server turn cs l) = 2 * length cs + length l.drop_list + 3

-- The same for the steps until `Close` is back, with its own return.
abbrev pub ahead : {S : Sqlite} → System S → ℕ
ahead s = elim s.threads.owner as (λ o. ℕ) [ outside ↦ 0 | joining ↦ 1 ] + left s.phase

-- `Close` waits for a thread that runs only once it has asked it to end.
abbrev pub IsAsked : Threads → Type 0
IsAsked t = t.owner ≡ joining → t.updates ≡ true → t.network.close_requested ≡ true

pub owns-IsAsked : {t u : Threads} → Closing.Step t u → IsAsked t → IsAsked u
unfolding close
owns-IsAsked {t} (opens n bound ok es o e) v = λ j. absurd (ground arith)
owns-IsAsked (closes n es o e) v = λ j. absurd (ground arith)
owns-IsAsked (waits n es o e) v = ground arith
owns-IsAsked (adds f o few) v = v
owns-IsAsked (removes f o few) v = v
owns-IsAsked (returns o u) v = λ j. absurd (ground arith)

-- The thread runs on while the owner waits in `join`, so the owner can only return.
pub owns-outside :
    {t u : Threads}
    → Closing.Step t u
    → u.updates ≡ t.updates
    → t.owner ≡ joining
    → u.owner ≡ outside
owns-outside (opens n bound ok es o e) same j = o
owns-outside (closes n es o e) same j = o
owns-outside (waits n es o e) same j = absurd (ground arith)
owns-outside (adds f o few) same j = o
owns-outside (removes f o few) same j = o
owns-outside (returns o u) same j = refl

pub left_pos : (p : Phase) → runs p ≡ true → 0 < left p
left_pos idle on = absurd (ground arith)
left_pos (heads server l) on = omega arith
left_pos (visits server turn cs l) on = omega arith
left_pos (drops server cs l) on = omega arith
