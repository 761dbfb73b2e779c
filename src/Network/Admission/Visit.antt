-- ===== src/Network/Admission/Visit.antt =====
-- One ready socket of a round of the update loop: what holds before it is served holds after it.
use poco_echo.Base.{
  ℕ, ◌≡◌, refl, ◌⊎◌, inl, inr, ◌==◌, Bool, true, false, Bool-cases, List, [], ◌∷◌, ◌++◌, length,
  take, All, All-append, All-elem, Bytes, done, Ensures, Ensures-bind, Ensures-both, Ensures-self,
  Ensures-step, All-map, if◌then◌else◌, poco_exception, or_fault, elem, elem-append, arith,
}
use poco_echo.Poco.{Fifo, Socket, Peers}
use poco_echo.Packets.{max_buffer_length}
use poco_echo.Effect.{AnswersOnly, IsSilent, Effect}
use poco_echo.Network.Handlers.{Handler}
use poco_echo.Network.Update.{
  Turn, Loop, ConnectHandler, Invoke, let_in, kick_out, admits, run_handlers, accept_client,
  handle_bytes, receive_client, visit,
}
use poco_echo.Network.Admission.{
  AreHandlers, Admitted, IsAllowed, IsSilent-IsAllowed, AnswersOnly-IsAllowed, IsGuarded, Keeps,
}

module _ {F : Fifo} {invoke : Invoke F} {ch : ConnectHandler} (A : AreHandlers F invoke ch) where
  run_handlers-AnswersOnly :
      (fs : List Handler) (client : Socket) (b : F.Buffer) (t : ℕ)
      → Ensures (λ r. All (AnswersOnly client) r.1) (run_handlers F invoke fs client b t)
  unfolding run_handlers
  run_handlers-AnswersOnly [] client b t = tt
  run_handlers-AnswersOnly (f ∷ fs) client b t =
      Ensures-bind (λ r. All (AnswersOnly client) r.1) (λ r. All (AnswersOnly client) r.1)
        (invoke f client b t) _ (A.answers f client b t)
        λ r own.
          Ensures-bind (λ r'. All (AnswersOnly client) r'.1) (λ r'. All (AnswersOnly client) r'.1)
            (run_handlers F invoke fs client r.0 t) _ (run_handlers-AnswersOnly fs client r.0 t)
            λ r' own'. All-append (AnswersOnly client) r.1 r'.1 own own'

module _ {F : Fifo} {invoke : Invoke F} {ch : ConnectHandler} (A : AreHandlers F invoke ch)
    (Welcome : Socket → Type 0) (welcomes : (c : Socket) → Admitted ch c → Welcome c) where
  module _ (server : Socket) (turn : Turn) (l : Loop) (g : IsGuarded Welcome server l) where
    -- What holds of a state that a visit has led to.
    abbrev pub Visited : Loop → Type 0
    Visited l' = IsGuarded Welcome server l' × Keeps l l'

    let_in-Visited :
        (client : Socket) (es : List Effect)
        → Welcome client
        → All (IsAllowed Welcome) es
        → Visited (let_in client es l)
    let_in-Visited client es welcome quiet = (
      record {
        listens = ground (arith, g.listens, elem-append server l.clients (client ∷ []));
        members = All-append _ l.clients (client ∷ []) g.members (inr welcome, tt);
        traffic =
            All-append (IsAllowed Welcome) l.log _ g.traffic
              (All-append (IsAllowed Welcome) es _ quiet (inr welcome, tt));
        spares = g.spares;
      },
      λ s h. ground (arith, h, elem-append s l.clients (client ∷ [])),
    )

    kick_out-Visited :
        (client : Socket) (es : List Effect)
        → All (IsAllowed Welcome) es
        → Visited (kick_out client es l)
    kick_out-Visited client es quiet = (
      record {
        listens = g.listens;
        members = g.members;
        traffic =
            All-append (IsAllowed Welcome) l.log _ g.traffic
              (All-append (IsAllowed Welcome) es _ quiet (inl refl, (tt, tt)));
        spares = g.spares;
      },
      λ s h. h,
    )

    verdict-Visited :
        (client : Socket) (v : Bool × List Effect)
        → admits ch client ≡ done v
        → All (IsAllowed Welcome) v.1
        → Visited (if v.0 then let_in client v.1 l else kick_out client v.1 l)
    verdict-Visited client (true, es) said quiet =
        let_in-Visited client es (welcomes client (es, said)) quiet
    verdict-Visited client (false, es) said quiet = kick_out-Visited client es quiet

    accept_client-Visited : Ensures Visited (accept_client ch turn l)
    unfolding accept_client
    accept_client-Visited = Ensures-step Visited (or_fault poco_exception turn.accepted) _ λ client.
        Ensures-bind (λ v. (admits ch client ≡ done v) × All IsSilent v.1) Visited
          (admits ch client) _
          (Ensures-both _ _ (admits ch client) (Ensures-self (admits ch client)) (A.asks client))
          λ v h.
            verdict-Visited client v h.0
              (All-map IsSilent (IsAllowed Welcome) v.1 (IsSilent-IsAllowed Welcome) h.1)

    -- A step that only adds allowed effects to the log.
    logged-Visited :
        (t : Bytes) (es : List Effect)
        → All (IsAllowed Welcome) es
        → Visited (record l { packet_type = t; log = l.log ++ es })
    logged-Visited t es allowed = (
      record {
        listens = g.listens;
        members = g.members;
        traffic = All-append (IsAllowed Welcome) l.log es g.traffic allowed;
        spares = g.spares;
      },
      λ s h. h,
    )

    handle_bytes-Visited :
        (hs : List Handler) (client : Socket) (bs : Bytes)
        → Welcome client
        → Ensures Visited (handle_bytes F invoke hs client bs l)
    unfolding handle_bytes
    handle_bytes-Visited hs client bs welcome =
        Ensures-bind (λ r. All (AnswersOnly client) r.1) Visited
          (run_handlers F invoke hs client _ _) _ (run_handlers-AnswersOnly A hs client _ _)
          λ r own. logged-Visited _ r.1 (
            All-map (AnswersOnly client) (IsAllowed Welcome) r.1
              (λ e. AnswersOnly-IsAllowed Welcome client e welcome) own)

    drops-Visited :
        (client : Socket)
        → (client == server) ≡ false
        → Visited (record l { drop_list = l.drop_list ++ (client ∷ []) })
    drops-Visited client other = (
      record {
        listens = g.listens;
        members = g.members;
        traffic = g.traffic;
        spares = ground (arith, g.spares, elem-append server l.drop_list (client ∷ []));
      },
      λ s h. h,
    )

    receive_client-Visited :
        (hs : List Handler) (client : Socket)
        → (client == server) ≡ false
        → Welcome client
        → Ensures Visited (receive_client F invoke hs turn client l)
    unfolding receive_client
    receive_client-Visited hs client other welcome =
        Ensures-step Visited (or_fault poco_exception (turn.received client)) _ λ bs.
          elim (Bool-cases (length (take max_buffer_length bs) == 0)) [
            | inl shut ↦ rw shut (drops-Visited client other)
            | inr more ↦
                rw more (handle_bytes-Visited hs client (take max_buffer_length bs) welcome)
          ]

    listed-Welcome : (s : Socket) → elem s l.clients ≡ true → (s == server) ≡ false → Welcome s
    listed-Welcome s listed other =
        elim (All-elem (λ c. (c ≡ server) ⊎ Welcome c) s l.clients listed g.members) [
          | inl same ↦ absurd (ground arith)
          | inr welcome ↦ welcome
        ]

    -- Serving one ready socket of the list keeps the loop guarded.
    pub visit-Visited :
        (hs : List Handler) (peers : Peers) (s : Socket)
        → elem s l.clients ≡ true
        → Ensures Visited (visit F invoke hs ch peers server turn s l)
    unfolding visit
    visit-Visited hs peers s listed = elim (Bool-cases (s == server)) [
      | inl listener ↦ rw listener accept_client-Visited
      | inr other ↦ rw other (receive_client-Visited hs s other (listed-Welcome s listed other))
    ]
