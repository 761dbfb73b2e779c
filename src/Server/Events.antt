-- ===== src/Server/Events.antt =====
-- `CServer` (server/src/CServer.cpp) as one object: what each of its calls and callbacks does to it and
-- shows to the outside.
use poco_echo.Base.{ℕ, Option, List, [], All, Outcome, done, ◌>>=◌, Ensures, Ensures-bind}
use poco_echo.Poco.{Fifo, Memory, Socket, Peers}
use poco_echo.Effect.{Effect, AnswersOnly, IsSilent}
use poco_echo.Sqlite.{Sqlite}
use poco_echo.WhiteList.{WhiteList}
use poco_echo.Server.Access.{packet_handler-AnswersOnly}
use poco_echo.Server.Callbacks.{connect_handler, connect_handler-IsSilent}
use poco_echo.Server.Control.{
  Server, new_server, server_try_start, server_run, server_close, destroy_server,
  server_try_start-IsSilent, server_close-IsSilent, destroy_server-IsSilent,
}
use poco_echo.Server.Translator.{packet_handler}

module _ (F : Fifo) where
  -- The calls `TryStart` with the socket that can be had, `Run` up to the threads, `Close` and the
  -- destructor; and the callbacks `PacketHandler` and `ConnectHandler`.
  pub data Event : Type 0 where
    starts : Option Socket → Event
    runs closes destroys : Event
    receives : Socket → F.Buffer → ℕ → Event
    asks : Socket → Event

  -- Only a packet is answered, and only to the client that it came from.
  abbrev pub IsOwed : Event → Effect → Type 0
  IsOwed (starts bound) = IsSilent
  IsOwed runs = IsSilent
  IsOwed closes = IsSilent
  IsOwed destroys = IsSilent
  IsOwed (receives client b packet_type) = AnswersOnly client
  IsOwed (asks client) = IsSilent

module _ {S : Sqlite} (F : Fifo) (m : Memory) (peers : Peers) where
  -- A call on the server with its white list.
  unfoldable pub respond : WhiteList S → Server → Event F → Outcome (Server × List Effect)
  respond w server (starts bound) = do r ← server_try_start bound server; done (r.0, r.2)
  respond w server runs = done ((server_run server).0, [])
  respond w server closes = do r ← server_close server; done (r.0, r.2)
  respond w server destroys = do effects ← destroy_server server; done (new_server, effects)
  respond w server (receives client b packet_type) = do
    r ← packet_handler F m peers client b packet_type
    done (server, r.1)
  respond w server (asks client) = do r ← connect_handler w peers client; done (server, r.1)

  -- Whatever call or callback of a server is made: the calls TryStart, Run up to the threads,
  -- Close and the destructor, and the connect handler, send nothing, and the packet handler sends
  -- to no client but the one the packet came from. It is stated of what the call returns.
  pub respond-IsOwed :
      (w : WhiteList S) (server : Server) (e : Event F)
      → Ensures (λ r. All (IsOwed F e) r.1) (respond w server e)
  unfolding respond
  respond-IsOwed w server (starts bound) =
      Ensures-bind (λ r. All IsSilent r.2) (λ r. All IsSilent r.1) (server_try_start bound server) _
        (server_try_start-IsSilent bound server) λ r h. h
  respond-IsOwed w server runs = tt
  respond-IsOwed w server closes =
      Ensures-bind (λ r. All IsSilent r.2) (λ r. All IsSilent r.1) (server_close server) _
        (server_close-IsSilent server) λ r h. h
  respond-IsOwed w server destroys =
      Ensures-bind (All IsSilent) (λ r. All IsSilent r.1) (destroy_server server) _
        (destroy_server-IsSilent server) λ effects h. h
  respond-IsOwed w server (receives client b packet_type) =
      Ensures-bind (λ r. All (AnswersOnly client) r.1) (λ r. All (AnswersOnly client) r.1)
        (packet_handler F m peers client b packet_type) _
        (packet_handler-AnswersOnly F m peers client b packet_type) λ r h. h
  respond-IsOwed w server (asks client) =
      Ensures-bind (λ r. All IsSilent r.1) (λ r. All IsSilent r.1) (connect_handler w peers client)
        _ (connect_handler-IsSilent w peers client) λ r h. h
