-- ===== src/Client/Console/Prompts.antt =====
-- What one prompt does at the client's console (client/src/CActionManager.cpp).
use poco_echo.Base.{
  ◌==◌, ◌<◌, ◌≡◌, refl, if◌then◌else◌, false, Bool-cases, inl, inr, Option, none, some, List, [],
  ◌∷◌, ◌++◌, All, All-append, All-map, Bytes, length, done, arith, IsText, until_nul_all,
}
use mathlib.Core.List.{append-nil}
use mathlib.Core.Option
use poco_echo.Poco.{Fifo, IsFifo, Memory, IsMemory, HasRoom, Socket}
use poco_echo.Effect.{Effect}
use poco_echo.Console.{Answer, starves, agrees, refuses}
use poco_echo.Network.LifeCycle.{Network}
use poco_echo.Client.Action.{message_limit}
use poco_echo.Client.Connect.{Client}
use poco_echo.Client.Console.{Prompt, Desk, entered, get_action}
use poco_echo.Client.Console.Laws.{messages, heard, desk, enter_message-heard}

-- A word that the console takes whole, and that a C string can hold. It may be empty.
pub record IsWord (text : Bytes) : Type 0 where
  pub plain : IsText text
  pub short : length text < message_limit

abbrev pub said_of : Option (List Bytes) → List Bytes
said_of none = []
said_of (some ms) = ms

-- The messages that a prompt asks for.
abbrev pub utters : Prompt → List Bytes
utters p = if p.action == 1 then said_of (messages p.words) else []

-- Those that several ask for, in order.
abbrev pub spoken : List Prompt → List Bytes
spoken [] = []
spoken (p ∷ ps) = utters p ++ spoken ps

-- The empty message of a word that was empty comes behind the others.
asked_again :
    (o : Option (List Bytes))
    → All IsWord (said_of o)
    → All IsWord (said_of (Option.map (λ ms. ms ++ ([] ∷ [])) o))
asked_again none good = tt
asked_again (some ms) good =
    All-append IsWord ms ([] ∷ []) good (record { plain = tt; short = omega arith }, tt)

messages-IsWord : (ws : List Bytes) → All IsWord ws → All IsWord (said_of (messages ws))
messages-IsWord [] good = tt
messages-IsWord (w ∷ ws) good = elim (Bool-cases (length w == 0)) [
  | inl blank ↦
      rw (until_nul_all w good.0.plain, blank)
        (asked_again (messages ws) (messages-IsWord ws good.1))
  | inr full ↦ rw (until_nul_all w good.0.plain, full) (good.0, tt)
]

pub utters-IsWord : (p : Prompt) → All IsWord p.words → All IsWord (utters p)
utters-IsWord p good = elim (Bool-cases (p.action == 1)) [
  | inl e ↦ rw e (messages-IsWord p.words good)
  | inr e ↦ rw e tt
]

module _ {F : Fifo} (L : IsFifo F) {m : Memory} (M : IsMemory m) (room : HasRoom m message_limit)
    (client : Client) (network : Network) (server : Socket) (there : client.network ≡ some network)
    (connected : network.socket ≡ some server) (log : List Effect) where
  abbrev at : List Bytes → Desk
  at said = desk L M room client network server there connected log said

  entered-said_of :
      (said : List Bytes) (o : Option (List Bytes))
      → (answer : Answer) × (entered F m
            (heard L M room client network server there connected log said o)
          ≡ (at (said ++ said_of o), answer))
  entered-said_of said none = (starves, rw (append-nil said) refl)
  entered-said_of said (some ms) = (agrees, refl)

  -- A prompt other than the request to end sends the messages that it asks for, and no more.
  pub get_action-utters :
      (said : List Bytes) (p : Prompt)
      → All IsWord p.words
      → (p.action == 2) ≡ false
      → (answer : Answer) × (get_action F m (at said) p ≡ done (at (said ++ utters p), answer))
  unfolding get_action
  get_action-utters said p good e2 = elim (Bool-cases (p.action == 1)) [
    | inl e ↦
        let (answer, same) = entered-said_of said (messages p.words) in
        (
          answer,
          rw
              (
                e,
                enter_message-heard L M room client network server there connected log p.words said
                    (All-map IsWord _ p.words (λ w g. g.short) good),
                same,
              )
              refl,
        )
    | inr e ↦ (refuses, rw (e, e2, append-nil said) refl)
  ]
