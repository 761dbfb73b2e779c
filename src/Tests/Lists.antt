-- ===== src/Tests/Lists.antt =====
-- The list of packet handlers.
use poco_echo.Base.{◌≡◌, List, [], ◌∷◌, arith}
use poco_echo.Network.Handlers.{Handler, remove_packet_handler, remove_packet_handler-remove_first}

abbrev two_handlers : List Handler
two_handlers = 1 ∷ 2 ∷ []

one_left : remove_packet_handler two_handlers 2 ≡ 1 ∷ []
one_left = remove_packet_handler-remove_first two_handlers 2 (omega arith)
