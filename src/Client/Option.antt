-- ===== src/Client/Option.antt =====
-- `COption` (client/src/COption.cpp): the command line of the client.
pub mod Laws
use poco_echo.Base.{
  ℕ, suc, ◌+◌, ◌-◌, ◌*◌, ◌^◌, ltb, leb, ◌==◌, if◌then◌else◌, Bool, true, false, ◌&&◌, ◌||◌, Option,
  none, some, List, [], ◌∷◌, ◌++◌, length, take, drop, Bytes, Outcome, done, ◌>>=◌, pos, ℤ, negsuc,
  strncpy, put_at,
}
use poco_echo.Poco.{Memory, new_array}
use poco_echo.Packets.{default_server_port}

-- `m_szServerAddress`, the block that it points to, and `m_iServerPort`.
pub record Options : Type 0 where
  pub server_address : Option Bytes
  pub server_port : ℕ

-- The constructor.
abbrev pub new_options : Options
new_options = record { server_address = none; server_port = default_server_port }

abbrev pub isdigit : ℕ → Bool
isdigit c = leb b'0' c && leb c b'9'

-- The loop over the characters of the port: no other character than a digit.
abbrev pub all_digits : Bytes → Bool
all_digits [] = true
all_digits (c ∷ s) = isdigit c && all_digits s

abbrev pub decimal : ℕ → Bytes → ℕ
decimal acc [] = acc
decimal acc (c ∷ s) = decimal (10 * acc + (c - b'0')) s

-- `atoi` on digits. Of a number that does not fit an `int` the language says nothing.
abbrev pub atoi : (Bytes → ℤ) → Bytes → ℤ
atoi overflow s = if ltb (decimal 0 s) (2 ^ 31) then pos (decimal 0 s) else overflow s

-- `iPort <= 0 || iPort > 65535`, negated.
abbrev pub in_port_range : ℤ → Bool
in_port_range (pos p) = ltb 0 p && leb p 65535
in_port_range (negsuc p) = false

-- The test of `argv[2]`.
abbrev pub valid_port : (Bytes → ℤ) → Bytes → Bool
valid_port overflow s = if all_digits s then in_port_range (atoi overflow s) else false

module _ (m : Memory) (overflow : Bytes → ℤ) where
  -- From `strlen(argv[1])` on.
  unfoldable pub copy_address : Bytes → Options → Outcome (Options × Bool)
  copy_address address o = do
    let address_length = length address
    block ← new_array m (pos (suc address_length))
    done (
      record o {
        server_address = some (put_at (strncpy block address address_length) address_length 0);
      },
      true,
    )

  -- `argc` is the length of `argv`, whose texts are given without their NUL.
  unfoldable pub parse_options : List Bytes → Options → Outcome (Options × Bool)
  parse_options [] o = done (o, false)
  parse_options (program ∷ []) o = done (o, false)
  parse_options (program ∷ address ∷ []) o = copy_address address o
  parse_options (program ∷ address ∷ port ∷ more) o =
      if valid_port overflow port then copy_address address o else done (o, false)
