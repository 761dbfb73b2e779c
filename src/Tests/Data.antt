-- ===== src/Tests/Data.antt =====
-- A memory, a network and a white list for the tests.
use poco_echo.Base.{
  ℕ, refl, sym, ap, ◌∙◌, ◌==◌, if◌then◌else◌, none, some, [], ◌∷◌, length, replicate,
  length-replicate, Bytes, codes, some-injective,
}
use poco_echo.Poco.{Memory, IsMemory, Peers, HasRoom}
use poco_echo.Sqlite.Table.{table}
use poco_echo.WhiteList.{WhiteList}

-- New blocks are full of 170, and a NUL lies two bytes behind every block.
abbrev pub heap : Memory
heap = record {
  fresh = λ n. some (replicate n 170);
  stack = 204 ∷ 204 ∷ 204 ∷ 204 ∷ [];
  beyond = 7 ∷ 8 ∷ 0 ∷ [];
}

pub heap-IsMemory : IsMemory heap
heap-IsMemory = record {
  length-fresh = λ n block e. ap length (sym (some-injective _ _ e)) ∙ length-replicate n 170;
  length-stack = refl;
}

pub heap-HasRoom : (bound : ℕ) → HasRoom heap bound
heap-HasRoom bound n h = (replicate n 170, refl)

abbrev pub home : Bytes
home = codes "10.0.0.1"

-- Socket 5 is of the host 10.0.0.1, and socket 6 of another one.
abbrev pub hosts : Peers
hosts s = if s == 5 then some home else if s == 6 then some (codes "10.0.0.6") else none

-- The white list of 10.0.0.1 alone.
abbrev pub white : WhiteList table
white = record { accept_list = home ∷ []; database = some (home ∷ []) }

abbrev pub hello : Bytes
hello = codes "hello"
