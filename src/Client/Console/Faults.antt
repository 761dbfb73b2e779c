-- ===== src/Client/Console/Faults.antt =====
-- The client's console where a message cannot be sent.
use poco_echo.Base.{
  suc, ◌==◌, ◌≤◌, ◌<◌, ◌≡◌, refl, false, none, some, List, ◌∷◌, Bytes, length, fault, bad_pointer,
  over_write, arith, le→ltb, lt→ltb, until_nul,
}
use poco_echo.Poco.{Fifo, IsFifo, Memory, IsMemory}
use poco_echo.Network.LifeCycle.{Network}
use poco_echo.Client.Action.{message_limit, read_message}
use poco_echo.Client.Packet.{store_message-stored}
use poco_echo.Client.Console.{Prompt, Desk, tell, enter_message, get_action}

module _ (F : Fifo) (m : Memory) (d : Desk) (p : Prompt) (w : Bytes) (ws : List Bytes)
    (asks : p.action ≡ 1) (typed : p.words ≡ w ∷ ws) where
  full : 0 < length (until_nul w) → (length (until_nul w) == 0) ≡ false
  full h = ground arith

  -- The client's console, asked to send a word of 256 bytes or more, writes past its buffer.
  pub get_action_too_long : message_limit ≤ length w → get_action F m d p ≡ fault over_write
  unfolding get_action enter_message read_message
  get_action_too_long long = rw (asks, typed, le→ltb (length w) message_limit long) refl

  -- The client's console, asked to send a word of fewer than 256 bytes that does not begin with a
  -- NUL and whose block can be had, goes through a null pointer where the connection has been
  -- closed by the update thread.
  pub get_action_offline :
      (block : Bytes) (network : Network)
      → IsFifo F
      → IsMemory m
      → 0 < length (until_nul w)
      → length w < message_limit
      → m.fresh (suc (length (until_nul w))) ≡ some block
      → d.client.network ≡ some network
      → network.socket ≡ none
      → get_action F m d p ≡ fault bad_pointer
  unfolding get_action enter_message read_message tell
  get_action_offline block network L M some_text short got there gone =
      rw
        (
          asks,
          typed,
          lt→ltb (length w) message_limit short,
          full some_text,
          store_message-stored L M d.manager (until_nul w) block got,
          there,
          gone,
        )
        refl
