-- ===== src/Server/Callbacks.antt =====
-- `CServer::ConnectHandler` and `CServer::PacketHandler`, the functions that the server registers
-- with its network (server/src/CServer.cpp).
use poco_echo.Base.{
  All, Ensures, Ensures-step, ◌==◌, if◌then◌else◌, Bool, some, List, [], ◌∷◌, Outcome, done, fault,
  bad_pointer, poco_exception, or_fault, ◌>>=◌,
}
use poco_echo.Poco.{Fifo, Memory, Socket, Peers}
use poco_echo.Effect.{IsSilent, Effect, printed, asks_to_connect, allowed, not_allowed}
use poco_echo.Sqlite.{Sqlite}
use poco_echo.WhiteList.{WhiteList, is_ip_can_connect}
use poco_echo.Network.Handlers.{Handler}
use poco_echo.Network.Update.{ConnectHandler, Invoke}
use poco_echo.Server.Translator.{packet_handler}

module _ {S : Sqlite} (w : WhiteList S) (peers : Peers) where
  -- With `CWhiteList::IsClientCanConnect`, which looks up the host of the peer's address.
  unfoldable pub connect_handler : Socket → Outcome (Bool × List Effect)
  connect_handler client = do
    host ← or_fault poco_exception (peers client)
    let can = is_ip_can_connect S w host
    let verdict = if can then allowed else not_allowed
    done (can, printed (asks_to_connect host) ∷ printed verdict ∷ [])

  pub connect_handler-IsSilent :
      (client : Socket) → Ensures (λ v. All IsSilent v.1) (connect_handler client)
  unfolding connect_handler
  connect_handler-IsSilent client =
      Ensures-step (λ v. All IsSilent v.1) (or_fault poco_exception (peers client)) _
        λ host. (tt, (tt, tt))

  abbrev pub server_connect : ConnectHandler
  server_connect = some connect_handler

-- The address of `CServer::PacketHandler`, the only packet handler of the server.
abbrev pub packet_handler_address : Handler
packet_handler_address = 1

abbrev pub server_invoke : (F : Fifo) → Memory → Peers → Invoke F
server_invoke F m peers h client b packet_type =
    if h == packet_handler_address
    then packet_handler F m peers client b packet_type
    else fault bad_pointer
