-- ===== src/Tests/Worlds.antt =====
-- Two users of one server.
use poco_echo.Base.{
  ◌==◌, ◌≡◌, ◌⊎◌, ◌<◌, ◌++◌, if◌then◌else◌, true, none, some, List, [], ◌∷◌, All, elem, bytes32,
  codes, refl, arith,
}
use poco_echo.Poco.{Socket}
use poco_echo.Poco.Ring.{ring, ring-IsFifo}
use poco_echo.Packets.{max_buffer_length}
use poco_echo.Packets.PacketType
use poco_echo.Effect.{printed, sent, message_from}
use poco_echo.Console.{agrees}
use poco_echo.Network.LifeCycle.{new_network, live}
use poco_echo.Network.Update.{Turn}
use poco_echo.Server.Echo.{reply}
use poco_echo.Client.Action.{
  read_message, new_action_manager, store_message, listen_action, pop_action_result, send_result,
}
use poco_echo.Client.Console.{Prompt, Desk, tell, enter_message, get_action}
use poco_echo.Client.Console.Prompts.{IsWord}
use poco_echo.Client.Packet.{request}
use poco_echo.Echo.{visit-request}
use poco_echo.Echo.World.{
  Party, IsJoined, World, Step, Steps, enters, hears, put, opened, here, further,
}
use poco_echo.Echo.World.Told.{IsTold}
use poco_echo.Echo.World.Delivery.{Steps-IsTold}
use poco_echo.Echo.World.Pending.{HasRead, pending}
use poco_echo.Echo.World.Drains.{Steps-drains}
use poco_echo.Tests.Data.{heap, heap-IsMemory, heap-HasRoom, home, hosts, hello}
use poco_echo.Tests.Events.{online}
use poco_echo.Tests.Packets.{listening}

-- Both clients are at their socket 4; the server knows them as 5 and 6.
abbrev party : Socket → Party
party c = record {
  memory = heap;
  user = online;
  network = record new_network { socket = some 4; thread = live };
  to = 4;
  host = if c == 5 then home else codes "10.0.0.6";
  packet_type = bytes32 PacketType.accept;
}

abbrev both : List Socket
both = 5 ∷ 6 ∷ []

joined : (c : Socket) → elem c both ≡ true → IsJoined hosts 3 c (party c)
joined c there = record {
  memory = heap-IsMemory;
  two = omega arith;
  room = heap-HasRoom max_buffer_length;
  there = refl;
  connected = refl;
  known = ground arith;
  apart = ground arith;
  four = refl;
}

-- The user behind socket 6 says hello after an empty word, and the server hears the hello.
abbrev greeting : Prompt
greeting = record { action = 1; words = [] ∷ hello ∷ [] }

abbrev greeted : Desk
greeted = record {
  manager = new_action_manager;
  client = online;
  log = sent 4 (request heap hello) ∷ sent 4 (request heap []) ∷ [];
}

words : All IsWord greeting.words
words = (
  record { plain = tt; short = omega arith },
  (record { plain = omega arith; short = omega arith }, tt),
)

abbrev start : World
start = opened ring heap hosts none 3 party both listening

abbrev asking : World
asking = record start {
  site = put 6 (record (start.site 6) { desk = greeted; asked = greeting ∷ [] }) start.site;
}

abbrev turn : Turn
turn = record {
  count = 1;
  ready = 6 ∷ [];
  accepted = none;
  received = λ s. some (request heap hello);
}

abbrev hearing : World
hearing = record asking {
  loop = record listening {
    packet_type = bytes32 PacketType.message;
    log = printed (message_from (codes "10.0.0.6") hello) ∷ sent 6 (reply hello) ∷ [];
  };
  site = put 6 (record (asking.site 6) { heard = request heap hello ∷ [] }) asking.site;
}

greeting_entered : Step ring heap hosts none 3 party both start asking
unfolding get_action enter_message read_message tell store_message listen_action pop_action_result
    send_result
greeting_entered = enters 6 greeting greeted agrees refl words refl refl

greeting_heard : Step ring heap hosts none 3 party both asking hearing
greeting_heard =
    hears 6 turn (request heap hello) (request heap [] ∷ []) hearing.loop refl refl refl (
      visit-request ring-IsFifo heap heap-IsMemory hosts none 3 6 hello (codes "10.0.0.6") turn
        asking.loop (omega arith) (omega arith) (omega arith) (heap-HasRoom max_buffer_length) refl
        refl refl refl)

hearing_reached : Steps ring heap hosts none 3 party both start hearing
hearing_reached = further (further here greeting_entered) greeting_heard

Steps-IsTold_example : IsTold party both hearing
Steps-IsTold_example =
    Steps-IsTold ring-IsFifo heap-IsMemory hosts none 3 party both joined
      (heap-HasRoom max_buffer_length) listening hearing refl hearing_reached

Steps-drains_example :
    ((v : World) × Steps ring heap hosts none 3 party both hearing v
      × ((c : Socket) → (v.site c).asked ≡ (hearing.site c).asked)
      × All (λ c. HasRead (v.site c)) both)
    × ((u : World)
        → Step ring heap hosts none 3 party both hearing u
        → ((c : Socket) × (q : Prompt) × ((u.site c).asked ≡ (hearing.site c).asked ++ (q ∷ [])))
          ⊎ (pending u.site both < pending hearing.site both))
Steps-drains_example =
    Steps-drains ring-IsFifo heap-IsMemory hosts none 3 party both joined
      (heap-HasRoom max_buffer_length) listening hearing refl hearing_reached
