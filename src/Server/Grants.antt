-- ===== src/Server/Grants.antt =====
-- Which hosts the administrator has let in, at the start or by a command.
use poco_echo.Base.{
  ◌≡◌, Bool, true, ◌||◌, some, List, [], ◌∷◌, Bytes, done, bytes_eq, bytes_elem, arith,
}
use poco_echo.Poco.{Socket, Peers, Fifo, Memory}
use poco_echo.Sqlite.{Sqlite}
use poco_echo.WhiteList.{WhiteList, is_ip_can_connect}
use poco_echo.WhiteList.Laws.{add-is_ip_can_connect, remove-is_ip_can_connect}
use poco_echo.WhiteList.Session.{Command, adds, removes, perform}
use poco_echo.Network.Admission.{Admitted}
use poco_echo.Server.Access.{Admitted-host}
use poco_echo.Server.Callbacks.{server_connect}

-- The address was accepted at the start, or was given to `Add`.
abbrev pub granted : List Bytes → List Command → Bytes → Bool
granted first [] host = bytes_elem host first
granted first (adds ip ∷ cs) host = bytes_eq host ip || granted first cs host
granted first (removes ip ∷ cs) host = granted first cs host

module _ {S : Sqlite} (peers : Peers) (w₀ : WhiteList S) where
  -- A host that is white now was granted.
  abbrev pub AreGranted : List Command → WhiteList S → Type 0
  AreGranted cs w =
      (host : Bytes) → is_ip_can_connect S w host ≡ true → granted w₀.accept_list cs host ≡ true

  pub perform-AreGranted :
      (cs : List Command) (w w' : WhiteList S) (c : Command) (ok : Bool)
      → AreGranted cs w
      → perform S w c ≡ done (w', ok)
      → AreGranted (c ∷ cs) w'
  unfolding perform
  perform-AreGranted cs w w' (adds ip) ok g e host white =
      ground (arith, add-is_ip_can_connect w ip w' ok host e, g host)
  perform-AreGranted cs w w' (removes ip) ok g e host white =
      ground (arith, remove-is_ip_can_connect w ip w' ok host e, g host)

  -- The client's host was granted.
  abbrev pub IsGranted : List Command → Socket → Type 0
  IsGranted cs client =
      (host : Bytes) × (peers client ≡ some host) × (granted w₀.accept_list cs host ≡ true)

  pub IsGranted-later :
      (cs : List Command) (c : Command) (client : Socket)
      → IsGranted cs client
      → IsGranted (c ∷ cs) client
  IsGranted-later cs (adds ip) client (host, known, g) = (host, known, ground arith)
  IsGranted-later cs (removes ip) client g = g

  -- Whom the connect handler lets in was granted.
  pub Admitted-IsGranted :
      (F : Fifo) (m : Memory) (cs : List Command) (w : WhiteList S)
      → AreGranted cs w
      → (c : Socket) → Admitted (server_connect w peers) c
      → IsGranted cs c
  Admitted-IsGranted F m cs w g c let_in =
      let (host, known, white) = Admitted-host F m w peers c let_in in (host, known, g host white)
