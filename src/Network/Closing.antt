-- ===== src/Network/Closing.antt =====
-- The calls of a network's owner (shared/include/Network/CNetwork.cpp) while its update thread does what
-- it does.
pub mod Order
use poco_echo.Base.{length, ◌<◌, ◌-◌, ◌^◌, ◌≡◌, Bool, false, Option, List, done}
use poco_echo.Poco.{Socket}
use poco_echo.Effect.{Effect}
use poco_echo.Network.Handlers.{Handler, add_packet_handler, remove_packet_handler}
use poco_echo.Network.LifeCycle.{Network, ends, joins, new_network, close, try_start}

-- The owner of the network, outside its calls or in the `join` of `Close`.
pub data Owner : Type 0 where
  outside joining : Owner

-- A network, its owner, and whether the update thread runs.
pub record Threads : Type 0 where
  pub network : Network
  pub owner : Owner
  pub updates : Bool

-- Each call of the owner is a step, and so is its return from `Close`, once the thread has ended in
-- whatever way. The start of the thread and its ends, with and without `Exit`, are steps of the system
-- that it is part of.
pub data Step (t : Threads) : Threads → Type 0 where
  opens :
      (n : Network) (bound : Option Socket) (ok : Bool) (effects : List Effect)
      → t.owner ≡ outside
      → try_start bound t.network ≡ done (n, ok, effects)
      → Step t (record t { network = n })
  closes :
      (n : Network) (effects : List Effect)
      → t.owner ≡ outside
      → close t.network ≡ done (n, ends, effects)
      → Step t (record t { network = n })
  waits :
      (n : Network) (effects : List Effect)
      → t.owner ≡ outside
      → close t.network ≡ done (n, joins, effects)
      → Step t (record t { network = n; owner = joining })
  adds :
      (f : Handler)
      → t.owner ≡ outside
      → length t.network.packet_handlers < 2 ^ 32 - 1
      → Step t (record t {
        network = record t.network {
          packet_handlers = add_packet_handler t.network.packet_handlers f;
        };
      })
  removes :
      (f : Handler)
      → t.owner ≡ outside
      → length t.network.packet_handlers < 2 ^ 32 - 1
      → Step t (record t {
        network = record t.network {
          packet_handlers = remove_packet_handler t.network.packet_handlers f;
        };
      })
  returns : t.owner ≡ joining → t.updates ≡ false → Step t (record t { owner = outside })

-- A network that was just made.
abbrev pub made : Threads
made = record { network = new_network; owner = outside; updates = false }
