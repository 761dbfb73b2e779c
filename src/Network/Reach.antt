-- ===== src/Network/Reach.antt =====
-- The rounds of the update loop as a step relation, in which the environment chooses each turn.
use poco_echo.Base.{
  ◌≡◌, refl, ◌∙◌, inl, inr, ◌==◌, true, false, Bool-cases, List, [], ◌∷◌, ◌++◌, All, All-map,
  All-append, All-remove_first, Bytes, done, Ensures, Ensures-bind, Ensures-step, Ensures-done,
  poco_exception, or_fault, elem, remove_first, elem-remove_first_other, arith,
}
use poco_echo.Poco.{Fifo, Socket, Peers}
use poco_echo.Effect.{printed, dropped}
use poco_echo.Network.Handlers.{Handler}
use poco_echo.Network.Update.{
  Turn, Loop, ConnectHandler, Invoke, visit, visit_all, drop_client, drop_clients, update_round,
  start,
}
use poco_echo.Network.Admission.{
  AreHandlers, IsGuarded, IsAllowed, Admitted, Keeps, start-IsGuarded,
}
use poco_echo.Network.Admission.Visit.{visit-Visited}

-- `select` leaves in a list only sockets that were in it.
abbrev pub Selects : Turn → Loop → Type 0
Selects turn l = All (λ s. elem s l.clients ≡ true) turn.ready

module _ (F : Fifo) (invoke : Invoke F) (hs : List Handler) (ch : ConnectHandler) (peers : Peers)
    (server : Socket) where
  -- The states at the head of the loop, from the first on.
  pub data Reach (junk : Bytes) : Loop → Type 0 where
    starts : Reach junk (start server junk)
    rounds :
        {l l' : Loop} (turn : Turn)
        → Reach junk l
        → Selects turn l
        → update_round F invoke hs ch peers server turn l ≡ done l'
        → Reach junk l'

module _ {F : Fifo} {invoke : Invoke F} {ch : ConnectHandler} (A : AreHandlers F invoke ch)
    (Welcome : Socket → Type 0) (welcomes : (c : Socket) → Admitted ch c → Welcome c)
    (hs : List Handler) (peers : Peers) (server : Socket) where
  visit_all-IsGuarded :
      (turn : Turn) (ss : List Socket) (l : Loop)
      → All (λ s. elem s l.clients ≡ true) ss
      → IsGuarded Welcome server l
      → Ensures (IsGuarded Welcome server) (visit_all F invoke hs ch peers server turn ss l)
  unfolding visit_all
  visit_all-IsGuarded turn [] l listed g = g
  visit_all-IsGuarded turn (s ∷ ss) l listed g =
      Ensures-bind (λ l'. IsGuarded Welcome server l' × Keeps l l') (IsGuarded Welcome server)
        (visit F invoke hs ch peers server turn s l) _
        (visit-Visited A Welcome welcomes server turn l g hs peers s listed.0)
        λ l' v. visit_all-IsGuarded turn ss l' (All-map _ _ ss v.1 listed.1) v.0

  -- A drop within a round, whose list of drops stays as it is.
  dropped-IsGuarded :
      (s : Socket) (l : Loop) (host : Bytes)
      → (server == s) ≡ false
      → IsGuarded Welcome server l
      → IsGuarded Welcome server (record l {
        clients = remove_first s l.clients;
        log = l.log ++ (printed (dropped host) ∷ []);
      })
  dropped-IsGuarded s l host other g = record {
    listens = elem-remove_first_other server s l.clients other ∙ g.listens;
    members = All-remove_first _ s l.clients g.members;
    traffic = All-append (IsAllowed Welcome) l.log _ g.traffic (tt, tt);
    spares = g.spares;
  }

  pub drop_client-IsGuarded :
      (s : Socket) (l : Loop)
      → (server == s) ≡ false
      → IsGuarded Welcome server l
      → Ensures (IsGuarded Welcome server) (drop_client peers s l)
  unfolding drop_client
  drop_client-IsGuarded s l other g = elim (Bool-cases (elem s l.clients)) [
    | inl listed ↦ rw listed (
        Ensures-step (IsGuarded Welcome server) (or_fault poco_exception (peers s)) _
          λ host. dropped-IsGuarded s l host other g)
    | inr gone ↦ rw gone g
  ]

  drop_clients-IsGuarded :
      (ss : List Socket) (l : Loop)
      → elem server ss ≡ false
      → IsGuarded Welcome server l
      → Ensures (IsGuarded Welcome server) (drop_clients peers ss l)
  unfolding drop_clients
  drop_clients-IsGuarded [] l spared g = g
  drop_clients-IsGuarded (s ∷ ss) l spared g =
      Ensures-bind (IsGuarded Welcome server) (IsGuarded Welcome server) (drop_client peers s l) _
        (drop_client-IsGuarded s l (ground arith) g)
        λ l' g'. drop_clients-IsGuarded ss l' (ground arith) g'

  pub update_round-IsGuarded :
      (turn : Turn) (l : Loop)
      → Selects turn l
      → IsGuarded Welcome server l
      → Ensures (IsGuarded Welcome server) (update_round F invoke hs ch peers server turn l)
  unfolding update_round
  update_round-IsGuarded turn l selected g = elim (Bool-cases (turn.count == 0)) [
    | inl idle ↦ rw idle g
    | inr busy ↦
        let l₀ : Loop = record l { drop_list = [] } in
        let g₀ : IsGuarded Welcome server l₀ = record {
          listens = g.listens;
          members = g.members;
          traffic = g.traffic;
          spares = refl;
        } in
        rw busy (
          Ensures-bind (IsGuarded Welcome server) (IsGuarded Welcome server)
            (visit_all F invoke hs ch peers server turn turn.ready l₀) _
            (visit_all-IsGuarded turn turn.ready l₀ selected g₀)
            λ l' g'. drop_clients-IsGuarded l'.drop_list l' g'.spares g')
  ]

  -- At the head of every round the server socket is listened to, every other socket of the list
  -- was let in by the connect handler, and so was whoever was sent anything but a kick.
  pub Reach-IsGuarded :
      {junk : Bytes} {l : Loop}
      → Reach F invoke hs ch peers server junk l
      → IsGuarded Welcome server l
  Reach-IsGuarded {junk} starts = start-IsGuarded Welcome server junk
  Reach-IsGuarded (rounds {l = l} {l' = l'} turn r selected e) =
      Ensures-done (IsGuarded Welcome server) (update_round F invoke hs ch peers server turn l) l'
        (update_round-IsGuarded turn l selected (Reach-IsGuarded r)) e
