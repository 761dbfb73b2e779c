-- ===== src/Network/Admission.antt =====
-- Who is served by the update loop: only clients that the connect handler has let in.
pub mod Visit
use poco_echo.Base.{
  ℕ, ◌≡◌, refl, ◌⊎◌, inl, inr, ◌==◌, Bool, true, false, Bool-cases, List, [], ◌∷◌, ◌++◌, length,
  take, All, All-append, All-elem, Bytes, done, Ensures, Ensures-bind, Ensures-both, Ensures-self,
  Ensures-step, All-map, if◌then◌else◌, poco_exception, or_fault, bytes32, elem, elem-append, arith,
}
use poco_echo.Poco.{Fifo, Socket, Peers}
use poco_echo.Packets.{max_buffer_length}
use poco_echo.Packets.PacketType
use poco_echo.Effect.{AnswersOnly, IsSilent, Effect, printed, sent, closed}
use poco_echo.Network.Handlers.{Handler}
use poco_echo.Network.Update.{
  start, Turn, Loop, ConnectHandler, Invoke, let_in, kick_out, admits, run_handlers, accept_client,
  handle_bytes, receive_client, visit,
}

-- What the loop asks of the functions that it calls: a packet handler answers only the client whose
-- packet it is given, and the connect handler sends nothing.
pub record AreHandlers (F : Fifo) (invoke : Invoke F) (connect_handler : ConnectHandler)
    : Type 0 where
  pub answers :
      (h : Handler) (client : Socket) (b : F.Buffer) (packet_type : ℕ)
      → Ensures (λ r. All (AnswersOnly client) r.1) (invoke h client b packet_type)
  pub asks : (client : Socket) → Ensures (λ v. All IsSilent v.1) (admits connect_handler client)

-- The connect handler said yes to the client.
abbrev pub Admitted : ConnectHandler → Socket → Type 0
Admitted connect_handler client =
    (effects : List Effect) × (admits connect_handler client ≡ done (true, effects))

-- Data is sent to welcome clients, and to others the kick alone.
abbrev pub IsAllowed : (Socket → Type 0) → Effect → Type 0
IsAllowed Welcome (printed line) = Unit
IsAllowed Welcome (sent s bs) = (bs ≡ bytes32 PacketType.kick) ⊎ Welcome s
IsAllowed Welcome (closed s) = Unit

pub IsSilent-IsAllowed : (Welcome : Socket → Type 0) (e : Effect) → IsSilent e → IsAllowed Welcome e
IsSilent-IsAllowed Welcome (printed line) h = tt
IsSilent-IsAllowed Welcome (sent s bs) h = absurd h
IsSilent-IsAllowed Welcome (closed s) h = tt

pub AnswersOnly-IsAllowed :
    (Welcome : Socket → Type 0) (s : Socket) (e : Effect)
    → Welcome s
    → AnswersOnly s e
    → IsAllowed Welcome e
AnswersOnly-IsAllowed Welcome s (printed line) a h = tt
AnswersOnly-IsAllowed Welcome s (sent c bs) a h = inr (rw h a)
AnswersOnly-IsAllowed Welcome s (closed c) a h = tt

pub record IsGuarded (Welcome : Socket → Type 0) (server_socket : Socket) (l : Loop) : Type 0 where
  pub listens : elem server_socket l.clients ≡ true
  pub members : All (λ c. (c ≡ server_socket) ⊎ Welcome c) l.clients
  pub traffic : All (IsAllowed Welcome) l.log
  pub spares : elem server_socket l.drop_list ≡ false

pub IsAllowed-map :
    (P Q : Socket → Type 0) (e : Effect)
    → ((c : Socket) → P c → Q c)
    → IsAllowed P e
    → IsAllowed Q e
IsAllowed-map P Q (printed line) f h = tt
IsAllowed-map P Q (sent s bs) f (inl kick) = inl kick
IsAllowed-map P Q (sent s bs) f (inr a) = inr (f s a)
IsAllowed-map P Q (closed s) f h = tt

member-map :
    (P Q : Socket → Type 0) (server c : Socket)
    → ((c : Socket) → P c → Q c)
    → (c ≡ server) ⊎ P c
    → (c ≡ server) ⊎ Q c
member-map P Q server c f (inl same) = inl same
member-map P Q server c f (inr a) = inr (f c a)

-- Whoever was welcome may be welcome for a weaker reason.
pub IsGuarded-map :
    (P Q : Socket → Type 0) (server : Socket) (l : Loop)
    → ((c : Socket) → P c → Q c)
    → IsGuarded P server l
    → IsGuarded Q server l
IsGuarded-map P Q server l f g = record {
  listens = g.listens;
  members = All-map _ _ l.clients (λ c. member-map P Q server c f) g.members;
  traffic = All-map (IsAllowed P) (IsAllowed Q) l.log (λ e. IsAllowed-map P Q e f) g.traffic;
  spares = g.spares;
}

-- The loop before its first round.
pub start-IsGuarded :
    (Welcome : Socket → Type 0) (server : Socket) (junk : Bytes)
    → IsGuarded Welcome server (start server junk)
start-IsGuarded Welcome server junk = record {
  listens = ground arith;
  members = (inl refl, tt);
  traffic = tt;
  spares = refl;
}

-- The list of clients only grows while the ready sockets are visited.
abbrev pub Keeps : Loop → Loop → Type 0
Keeps l l' = (s : Socket) → elem s l.clients ≡ true → elem s l'.clients ≡ true
