-- ===== src/Client/Action.antt =====
-- The action results of the client's `CActionManager` and `CClient::ListenAction`
-- (client/src/CActionManager.cpp, client/src/CClient.cpp).
use poco_echo.Base.{
  ℕ, suc, ◌+◌, ◌%◌, ◌^◌, ltb, ◌==◌, if◌then◌else◌, Bool, true, false, Option, none, some, List, [],
  ◌∷◌, ◌++◌, length, take, Bytes, until_nul, Outcome, done, fault, over_write, ◌>>=◌, pos, bytes32,
  size_of_int, strncpy, put_at,
}
use poco_echo.Poco.{Fifo, Memory, Socket, new_array}
use poco_echo.Packets.{max_buffer_length}
use poco_echo.Packets.PacketType
use poco_echo.Effect.{Effect, sent}

-- `m_iActionType`, the block of `m_pActionResult`, and `m_actionResultSize`.
pub record ActionManager : Type 0 where
  pub action_type : ℕ
  pub action_result : Option Bytes
  pub action_result_size : ℕ

-- The constructor, which is also the state after a result was taken.
abbrev pub new_action_manager : ActionManager
new_action_manager = record { action_type = 0; action_result = none; action_result_size = 0 }

-- The three destinations of `PopActionResult`: type, block and size.
pub record Popped : Type 0 where
  pub action_type : ℕ
  pub result : Bytes
  pub size : ℕ

pop_result : ActionManager → Option Bytes → ActionManager × Option Popped
pop_result a none = (a, none)
pop_result a (some block) = if a.action_result_size == 0 then (a, none) else (
  new_action_manager,
  some (record {
    action_type = a.action_type;
    result = block;
    size = a.action_result_size % 2 ^ 32;
  }),
)

-- No value stands for the answer `false`.
unfoldable pub pop_action_result : ActionManager → ActionManager × Option Popped
unfolding pop_result
pop_action_result a = pop_result a a.action_result

-- `char szMessage[256]`
abbrev pub message_limit : ℕ
message_limit = 256

-- `cin >> szMessage` on a word, which is written with a NUL however long it is, and the C string that
-- `szMessage` then holds: the word up to its first NUL.
unfoldable pub read_message : Bytes → Outcome Bytes
read_message word =
    if ltb (length word) message_limit then done (until_nul word) else fault over_write

module _ (m : Memory) where
  -- Case 1 of `GetAction` up to the call of `ListenAction`, on the C string in `szMessage`, whose
  -- length is what `strlen` gives.
  unfoldable pub store_message : Bytes → ActionManager → Outcome ActionManager
  store_message message a = do
    let message_length = length message
    block ← new_array m (pos (suc message_length))
    done (record {
      action_type = 1;
      action_result = some (put_at (strncpy block message message_length) message_length 0);
      action_result_size = suc message_length;
    })

module _ (F : Fifo) (m : Memory) (server : Socket) where
  -- The packet of a result. The size is raised once for the length field and once more for the
  -- number of bytes that are written, which the block may not have.
  unfoldable pub send_result : Popped → List Effect
  send_result p =
      let result_size = (p.size + 1) % 2 ^ 32 in
      let b₁ = F.write (F.create max_buffer_length) (bytes32 PacketType.message) in
      let b₂ = F.write b₁ (bytes32 result_size) in
      let count = size_of_int ((result_size + 1) % 2 ^ 32) in
      let b₃ = F.write b₂ (take count (p.result ++ m.beyond)) in sent server (F.held b₃) ∷ []

  -- `ListenAction` with the effects that it has and its answer.
  dispatch_result : ActionManager × Option Popped → ActionManager × Bool × List Effect
  dispatch_result (a, none) = (a, true, [])
  dispatch_result (a, some p) =
      if p.action_type == 1 then (a, true, send_result p) else (a, false, [])

  unfoldable pub listen_action : ActionManager → ActionManager × Bool × List Effect
  unfolding dispatch_result
  listen_action a = dispatch_result (pop_action_result a)

  -- Case 1 of `GetAction` whole: the result is stored and `ListenAction` called.
  unfoldable pub send_message : Bytes → ActionManager → Outcome (ActionManager × List Effect)
  send_message message a = do
    a' ← store_message m message a
    let (a'', ok, effects) = listen_action a'
    done (a'', effects)
