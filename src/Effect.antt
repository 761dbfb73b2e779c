-- ===== src/Effect.antt =====
-- What a run of the program shows to the outside, in order.
use poco_echo.Base.{ℕ, Bytes, ◌≡◌}
use poco_echo.Poco.{Socket}

-- The lines of standard output that carry data or report a decision. A peer stands in them by its host
-- alone, without the port that `toString` adds in some.
pub data Line : Type 0 where
  message_from : Bytes → Bytes → Line
  message_shown : Bytes → Line
  unknown_packet : ℕ → Line
  asks_to_connect : Bytes → Line
  not_allowed allowed connected : Line
  dropped : Bytes → Line

pub data Effect : Type 0 where
  printed : Line → Effect
  sent : Socket → Bytes → Effect
  closed : Socket → Effect

-- An effect that sends to nobody but `client`.
abbrev pub AnswersOnly : Socket → Effect → Type 0
AnswersOnly client (printed line) = Unit
AnswersOnly client (sent s bs) = s ≡ client
AnswersOnly client (closed s) = Unit

-- An effect that sends nothing.
abbrev pub IsSilent : Effect → Type 0
IsSilent (printed line) = Unit
IsSilent (sent s bs) = ⊥
IsSilent (closed s) = Unit
