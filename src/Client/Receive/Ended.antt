-- ===== src/Client/Receive/Ended.antt =====
-- How the client's loop ends (CNetwork::OnUpdate), after whatever packets it has received.
use mathlib.Core.List.{append_assoc}
use poco_echo.Base.{
  ◌≡◌, refl, sym, ◌∙◌, ap, ◌==◌, ◌⊎◌, inl, inr, true, false, List, [], ◌∷◌, ◌++◌, length, map, All,
  take, Bytes, Outcome, Outcome-cases, done, fault, bad_pointer, ◌>>=◌, word32, overlay,
}
use poco_echo.Poco.{Fifo, IsFifo, Memory, Socket, throws, brings}
use poco_echo.Packets.{word_size}
use poco_echo.Effect.{Effect, closed}
use poco_echo.Network.LifeCycle.{exit}
use poco_echo.Client.Receive.{ClientTurn, client_pass, client_on_update}
use poco_echo.Client.Receive.Handled.{handled, told, IsGiven, gives, client_pass-handled}

-- The packet type after some packets.
abbrev pub type_after : Bytes → List (Bytes × Bytes) → Bytes
type_after packet_type [] = packet_type
type_after packet_type ((ts, bs) ∷ ps) = type_after (overlay packet_type (take word_size ts)) ps

-- A pass that finds a close request, or the end of the connection at the type or behind some bytes of
-- one.
abbrev pub IsLast : ClientTurn → Type 0
IsLast turn =
    (turn.close_requested ≡ true)
    ⊎ ((turn.close_requested ≡ false)
        × ((turn.type_bytes ≡ brings [])
            ⊎ ((ts : Bytes) × (turn.type_bytes ≡ brings ts)
                × ((length ts == 0) ≡ false)
                × (turn.rest ≡ brings []))))

-- A pass in which a receive throws, at the type or behind some bytes of one.
abbrev pub Throws : ClientTurn → Type 0
Throws turn =
    (turn.close_requested ≡ false)
    × ((turn.type_bytes ≡ throws)
        ⊎ ((ts : Bytes) × (turn.type_bytes ≡ brings ts)
            × ((length ts == 0) ≡ false)
            × (turn.rest ≡ throws)))

-- What was shown before is shown first.
shown_first :
    (es : List Effect) (x y : Outcome (List Effect))
    → ((x >>= λ a. y >>= λ more. done (a ++ more)) >>= λ r. done (es ++ r))
      ≡ ((x >>= λ more. done (es ++ more)) >>= λ a. y >>= λ more. done (a ++ more))
shown_first es (done a) (done more) = ap done (sym (append_assoc es a more))
shown_first es (done a) (fault e) = refl
shown_first es (fault e) y = refl

none_first : (y : Outcome (List Effect)) → y ≡ (y >>= λ more. done ([] ++ more))
none_first (done more) = refl
none_first (fault e) = refl

module _ {F : Fifo} (L : IsFifo F) (m : Memory) (socket : Socket) where
  client_on_update-append :
      (t : Bytes) (ps : List (Bytes × Bytes)) (turns : List ClientTurn)
      → All IsGiven ps
      → client_on_update F m socket t (map gives ps ++ turns) ≡ (
          told m t ps >>= λ es.
          client_on_update F m socket (type_after t ps) turns >>= λ more. done (es ++ more))
  unfolding client_on_update
  client_on_update-append t [] turns given = none_first (client_on_update F m socket t turns)
  client_on_update-append t ((ts, bs) ∷ ps) turns given =
      let t' : Bytes = overlay t (take word_size ts) in
      elim (Outcome-cases (handled m (word32 t') bs)) [
        | inl (es, ran) ↦
            rw
              (
                client_pass-handled L m t (ts, bs) given.0,
                ran,
                client_on_update-append t' ps turns given.1,
              )
              (shown_first es (told m t' ps) (client_on_update F m socket (type_after t' ps) turns))
        | inr (e, failed) ↦ rw (client_pass-handled L m t (ts, bs) given.0, failed) refl
      ]

  last_pass :
      (t : Bytes) (turn : ClientTurn) (turns : List ClientTurn)
      → IsLast turn
      → client_on_update F m socket t (turn ∷ turns) ≡ done (closed socket ∷ [])
  unfolding client_on_update client_pass exit
  last_pass t turn turns (inl asked) = rw (asked) refl
  last_pass t turn turns (inr (on, inl shut)) = rw (on, shut) refl
  last_pass t turn turns (inr (on, inr (ts, typed, full, shut))) = rw (on, typed, full, shut) refl

  throwing_pass :
      (t : Bytes) (turn : ClientTurn) (turns : List ClientTurn)
      → Throws turn
      → client_on_update F m socket t (turn ∷ turns) ≡ fault bad_pointer
  unfolding client_on_update client_pass exit
  throwing_pass t turn turns (on, inl lost) = rw (on, lost) refl
  throwing_pass t turn turns (on, inr (ts, typed, full, lost)) = rw (on, typed, full, lost) refl

  -- The client's loop, on packets that each come in two receives, neither of them empty and the
  -- second of at most 1024 bytes, and then a pass that finds a close request, or the end of the
  -- connection in place of a type or behind some bytes of one: it shows what the packets tell, in
  -- order, and if no packet ends it by a fault closes its socket and looks at nothing that comes
  -- later.
  pub client_on_update_ended :
      (t : Bytes) (ps : List (Bytes × Bytes)) (turn : ClientTurn) (turns : List ClientTurn)
      → All IsGiven ps
      → IsLast turn
      → client_on_update F m socket t (map gives ps ++ (turn ∷ turns))
        ≡ (told m t ps >>= λ es. done (es ++ (closed socket ∷ [])))
  client_on_update_ended t ps turn turns given last =
      client_on_update-append t ps (turn ∷ turns) given
      ∙ rw (last_pass (type_after t ps) turn turns last) refl

  -- The client's loop, on packets that each come in two receives, neither of them empty and the
  -- second of at most 1024 bytes, and then a pass without a close request in which the receive of
  -- a type throws or, behind some bytes of a type, that of the rest: unless a packet has ended it
  -- by a fault before, it goes on to use the socket that Exit has deleted.
  pub client_on_update_thrown :
      (t : Bytes) (ps : List (Bytes × Bytes)) (turn : ClientTurn) (turns : List ClientTurn)
      → All IsGiven ps
      → Throws turn
      → client_on_update F m socket t (map gives ps ++ (turn ∷ turns))
        ≡ (told m t ps >>= λ es. fault bad_pointer)
  client_on_update_thrown t ps turn turns given lost =
      client_on_update-append t ps (turn ∷ turns) given
      ∙ rw (throwing_pass (type_after t ps) turn turns lost) refl
