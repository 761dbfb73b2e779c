-- ===== src/Client/Events.antt =====
-- `CClient` (client/src/CClient.cpp) as one object: what each of its calls and its callback does to it
-- and shows to the outside.
use poco_echo.Base.{
  ℕ, ◌≡◌, ◌==◌, if◌then◌else◌, Bool-cases, inl, inr, Option, none, some, List, [], ◌∷◌, All, Bytes,
  Outcome, done, ◌>>=◌, Ensures, Ensures-step, Ensures-bind, Ensures-self, signed32, size_of_int,
  overlay,
}
use poco_echo.Poco.{Receipt, Fifo, Memory, Socket, read_word, new_array, text_at}
use poco_echo.Packets.PacketType
use poco_echo.Effect.{Effect, IsSilent, message_shown, printed, sent, closed}
use poco_echo.Client.Action.{ActionManager, Popped, pop_action_result, send_result}
use poco_echo.Client.Connect.{
  Client, new_client, try_connect, client_run, disconnect, destroy_client, try_connect-IsSilent,
  disconnect-IsSilent, destroy_client-IsSilent,
}
use poco_echo.Client.Console.{connection}
use poco_echo.Client.Receive.{show_message, client_packet_handler}

-- The calls `TryConnect`, `Run` up to the threads, `Disconnect`, the destructor and `ListenAction`, and
-- the callback `PacketHandler`.
pub data Event (F : Fifo) : Type 0 where
  connects : Option Bytes → ℕ → Socket → Bytes → (Bytes → ℕ → Receipt) → Event F
  runs disconnects destroys listens : Event F
  receives : F.Buffer → ℕ → Event F

-- The client with its action manager.
abbrev pub User : Type 0
User = Client × ActionManager

-- What is sent goes over the client's own connection.
abbrev pub IsOwn : Client → Effect → Type 0
IsOwn client (printed line) = Unit
IsOwn client (sent s bs) = connection client ≡ done s
IsOwn client (closed s) = Unit

module _ (F : Fifo) (m : Memory) where
  -- `ListenAction` on what `PopActionResult` gives: the socket is looked for where there is a result
  -- to send.
  abbrev listen : Client → ActionManager × Option Popped → Outcome (User × List Effect)
  listen client (a, none) = done ((client, a), [])
  listen client (a, some p) =
      if p.action_type == 1
      then (connection client >>= λ server. done ((client, a), send_result F m server p))
      else done ((client, a), [])

  unfoldable pub respond : User → Event F → Outcome (User × List Effect)
  respond (client, a) (connects address server_port s junk dial) = do
    r ← try_connect address server_port s junk dial client
    done ((r.0, a), r.2)
  respond (client, a) runs = done (((client_run client).0, a), [])
  respond (client, a) disconnects = do r ← disconnect client; done ((r.0, a), r.3)
  respond (client, a) destroys = do effects ← destroy_client client; done ((new_client, a), effects)
  respond (client, a) listens = listen client (pop_action_result a)
  respond (client, a) (receives b packet_type) = do
    effects ← client_packet_handler F m b packet_type
    done ((client, a), effects)

  -- Only `ListenAction` sends.
  abbrev pub IsOwed : Client → Event F → Effect → Type 0
  IsOwed client (connects address server_port s junk dial) = IsSilent
  IsOwed client runs = IsSilent
  IsOwed client disconnects = IsSilent
  IsOwed client destroys = IsSilent
  IsOwed client listens = IsOwn client
  IsOwed client (receives b packet_type) = IsSilent

  show_message-IsSilent : (b : F.Buffer) → Ensures (All IsSilent) (show_message F m b)
  unfolding show_message
  show_message-IsSilent b =
      Ensures-step (All IsSilent) (new_array m (signed32 (read_word F m b).0)) _ λ block.
        Ensures-step (All IsSilent)
          (text_at m
            (overlay block (F.read (read_word F m b).1 (size_of_int (read_word F m b).0)).0))
          (λ text. done (printed (message_shown text) ∷ [])) λ text. (tt, tt)

  pub client_packet_handler-IsSilent :
      (b : F.Buffer) (t : ℕ) → Ensures (All IsSilent) (client_packet_handler F m b t)
  unfolding client_packet_handler
  client_packet_handler-IsSilent b t = elim (Bool-cases (t == PacketType.accept)) [
    | inl accept ↦ rw accept (
        Ensures-bind (All IsSilent) (All IsSilent) (show_message F m b) _ (show_message-IsSilent b)
          λ es quiet. (tt, quiet))
    | inr other ↦ rw other (elim (Bool-cases (t == PacketType.message)) [
      | inl message ↦ rw message (show_message-IsSilent b)
      | inr unknown ↦ rw unknown (tt, tt)
    ])
  ]

  listen-IsOwn :
      (client : Client) (r : ActionManager × Option Popped)
      → Ensures (λ v. All (IsOwn client) v.1) (listen client r)
  unfolding send_result
  listen-IsOwn client (a, none) = tt
  listen-IsOwn client (a, some p) = elim (Bool-cases (p.action_type == 1)) [
    | inl message ↦ rw message (
        Ensures-bind (λ s. connection client ≡ done s) (λ v. All (IsOwn client) v.1)
          (connection client) _ (Ensures-self (connection client)) λ s e. (e, tt))
    | inr other ↦ rw other tt
  ]

  -- Whatever call or callback of a client is made: ListenAction sends over the client's own
  -- connection alone, and TryConnect, Run up to the threads, Disconnect, the destructor and the
  -- packet handler send nothing. It is stated of what the call returns.
  pub user_respond-IsOwed :
      (client : Client) (a : ActionManager) (e : Event F)
      → Ensures (λ r. All (IsOwed client e) r.1) (respond (client, a) e)
  unfolding respond
  user_respond-IsOwed client a (connects address server_port s junk dial) =
      Ensures-bind (λ r. All IsSilent r.2) (λ r. All IsSilent r.1)
        (try_connect address server_port s junk dial client) _
        (try_connect-IsSilent address server_port s junk dial client) λ r h. h
  user_respond-IsOwed client a runs = tt
  user_respond-IsOwed client a disconnects =
      Ensures-bind (λ r. All IsSilent r.3) (λ r. All IsSilent r.1) (disconnect client) _
        (disconnect-IsSilent client) λ r h. h
  user_respond-IsOwed client a destroys =
      Ensures-bind (All IsSilent) (λ r. All IsSilent r.1) (destroy_client client) _
        (destroy_client-IsSilent client) λ r h. h
  user_respond-IsOwed client a listens = listen-IsOwn client (pop_action_result a)
  user_respond-IsOwed client a (receives b packet_type) =
      Ensures-bind (All IsSilent) (λ r. All IsSilent r.1) (client_packet_handler F m b packet_type)
        _ (client_packet_handler-IsSilent b packet_type) λ r h. h
