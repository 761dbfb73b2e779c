-- ===== src/Network/LifeCycle.antt =====
-- The life cycle of `CNetwork` and `CNetworkServer` (shared/include/Network/CNetwork.cpp), as the
-- thread that owns the object sees it.
pub mod Effects
use poco_echo.Base.{
  ℕ, ◌==◌, if◌then◌else◌, Bool, true, false, Option, none, some, List, [], ◌∷◌, Bytes, length, take,
  Outcome, done, fault, assertion, bad_pointer, or_fault, ◌>>=◌, word32, overlay,
}
use poco_echo.Poco.{Receipt, throws, blocks, brings, Socket}
use poco_echo.Packets.{word_size}
use poco_echo.Packets.PacketType
use poco_echo.Effect.{Effect, closed}
use poco_echo.Network.Handlers.{Handler}

-- `m_pThread`: null, a thread, or the address of a deleted one.
pub data Pointer : Type 0 where
  null live freed : Pointer

pub record Network : Type 0 where
  pub socket : Option Socket
  pub thread : Pointer
  pub close_requested : Bool
  pub packet_handlers : List Handler

abbrev pub new_network : Network
new_network = record { socket = none; thread = null; close_requested = false; packet_handlers = [] }

-- A network of the server, where no value stands for a connect handler that was never written.
pub record NetworkServer : Type 0 where
  pub network : Network
  pub registered : Option Handler

abbrev pub is_initialized : Network → Bool
is_initialized n = elim n.socket as (λ s. Bool) [ none ↦ false | some s ↦ true ]

-- The block that deletes `m_pThread` and clears it.
delete_thread : Pointer → Outcome Pointer
delete_thread null = done null
delete_thread live = done null
delete_thread freed = fault bad_pointer

unfoldable pub exit : Network → Outcome (Network × List Effect)
unfolding delete_thread
exit n = do
  s ← or_fault assertion n.socket
  thread ← delete_thread n.thread
  done (record n { socket = none; thread = thread; close_requested = false }, closed s ∷ [])

-- How `Close` goes: it answers false, it answers true, or it waits for the update thread, which will
-- call `Exit`.
pub data Closing : Type 0 where
  refuses ends joins : Closing

close_thread : Network → Pointer → Outcome (Network × Closing × List Effect)
close_thread n null = exit n >>= λ r. done (r.0, ends, r.1)
close_thread n live = done (record n { close_requested = true }, joins, [])
close_thread n freed = fault bad_pointer

unfoldable pub close : Network → Outcome (Network × Closing × List Effect)
unfolding close_thread
close n = if is_initialized n then close_thread n n.thread else done (n, refuses, [])

abbrev pub start_update_thread : Network → Network
start_update_thread n = record n { thread = live }

-- The handlers of exceptions delete the thread and keep its address.
drop_thread : Pointer → Outcome Pointer
drop_thread null = done null
drop_thread live = done freed
drop_thread freed = fault bad_pointer

give_up : Network → Outcome (Network × Bool × List Effect)
unfolding drop_thread
give_up n = do
  thread ← drop_thread n.thread
  (n', closing, effects) ← close (record n { thread = thread })
  done (n', false, effects)

-- The seconds that `TryClientStart` waits for the first bytes, after which it receives all the same.
abbrev pub max_timeout : ℕ
max_timeout = 8

-- The test of `packetType`.
welcome : Bytes → Network → Outcome (Network × Bool × List Effect)
unfolding give_up
welcome packet_type n =
    if word32 packet_type == PacketType.accept then done (n, true, []) else give_up n

-- The connection on its new socket, which does not block: the four bytes of `packetType`, which no one
-- has set, and what `receiveBytes` comes to. Only a count of 0 is tested, so that -1 leaves the type
-- as it was. An exception stands for any call in the block.
greet : Bytes → Receipt → Network → Outcome (Network × Bool × List Effect)
unfolding give_up welcome
greet junk throws n = give_up n
greet junk blocks n = welcome junk n
greet junk (brings bs) n =
    if length bs == 0 then give_up n else welcome (overlay junk (take word_size bs)) n

unfoldable pub try_client_start :
    Socket → Bytes → Receipt → Network → Outcome (Network × Bool × List Effect)
unfolding greet
try_client_start s junk reply n =
    if is_initialized n
    then done (n, false, [])
    else greet junk reply (record n { socket = some s })

start_listening : Option Socket → Network → Outcome (Network × Bool × List Effect)
unfolding give_up
start_listening none n = give_up n
start_listening (some s) n = done (record n { socket = some s }, true, [])

-- The socket that listens at the port, with no value where its constructor throws.
unfoldable pub try_start : Option Socket → Network → Outcome (Network × Bool × List Effect)
unfolding start_listening
try_start bound n = if is_initialized n then done (n, false, []) else start_listening bound n

abbrev pub register_socket_connect_handler : Handler → NetworkServer → NetworkServer
register_socket_connect_handler handler ns = record ns { registered = some handler }

-- The destructor of `CNetwork`, which tests the socket before `Close` does.
unfoldable pub destroy_network : Network → Outcome (Network × Closing × List Effect)
destroy_network n = if is_initialized n then close n else done (n, refuses, [])
