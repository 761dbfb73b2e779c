-- ===== src/Poco.antt =====
-- The parts of the POCO library and of the C++ runtime that the program calls, as interfaces:
-- `Poco::FIFOBuffer` (shared/include/Poco/FIFOBuffer.h, vendored), the peer address of a socket,
-- and what memory holds that the program has not written.
pub mod Ring
pub mod Laws
pub mod Lengths
use poco_echo.Base.{
  ℕ, ◌-◌, ◌≤◌, ◌≡◌, Option, some, List, [], ◌++◌, Bytes, length, take, drop, ℤ, pos, negsuc,
  Outcome, fault, bad_alloc, over_read, or_fault, c_string, word32, overlay,
}

-- A FIFO of bytes: `create` is the constructor with a size, `read` returns the bytes that it
-- copied out, `write` takes what fits. `held` is what stands in it, and `size` its capacity.
pub record Fifo : Type 1 where
  pub Buffer : Type 0
  pub create : ℕ → Buffer
  pub read : Buffer → ℕ → Bytes × Buffer
  pub write : Buffer → Bytes → Buffer
  pub held : Buffer → Bytes
  pub size : Buffer → ℕ

-- The documented behaviour of the four methods.
pub record IsFifo (F : Fifo) : Type 0 where
  pub held-create : (n : ℕ) → F.held (F.create n) ≡ []
  pub size-create : (n : ℕ) → F.size (F.create n) ≡ n
  pub read-bytes : (b : F.Buffer) (n : ℕ) → (F.read b n).0 ≡ take n (F.held b)
  pub held-read : (b : F.Buffer) (n : ℕ) → F.held (F.read b n).1 ≡ drop n (F.held b)
  pub size-read : (b : F.Buffer) (n : ℕ) → F.size (F.read b n).1 ≡ F.size b
  pub held-write :
      (b : F.Buffer) (bs : Bytes)
      → F.held (F.write b bs) ≡ F.held b ++ take (F.size b - length (F.held b)) bs
  pub size-write : (b : F.Buffer) (bs : Bytes) → F.size (F.write b bs) ≡ F.size b

-- What `receiveBytes` on a socket that does not block comes to: an exception, -1 where nothing has come
-- yet, or bytes, of which there are none at the end of the connection.
pub data Receipt : Type 0 where
  throws : Receipt
  blocks : Receipt
  brings : List ℕ → Receipt

-- A socket is known by its descriptor.
abbrev pub Socket : Type 0
Socket = ℕ

-- `peerAddress().host().toString()`, or no value where the call throws.
abbrev pub Peers : Type 0
Peers = Socket → Option Bytes

-- What the program finds in memory: `fresh n` are the bytes of a new block of size n (no value where
-- `new` throws), `stack` those of an uninitialised 4-byte local, `beyond` those behind a block.
pub record Memory : Type 0 where
  pub fresh : ℕ → Option Bytes
  pub stack : Bytes
  pub beyond : Bytes

pub record IsMemory (m : Memory) : Type 0 where
  pub length-fresh : (n : ℕ) (block : Bytes) → m.fresh n ≡ some block → length block ≡ n
  pub length-stack : length m.stack ≡ 4

-- `new char[n]` for an `int` n: a negative length throws, as does a block that cannot be had.
abbrev pub new_array : Memory → ℤ → Outcome Bytes
new_array m (pos n) = or_fault bad_alloc (m.fresh n)
new_array m (negsuc n) = fault bad_alloc

-- The C string that starts at a block: it runs on behind the block if no NUL stands in it.
abbrev pub text_at : Memory → Bytes → Outcome Bytes
text_at m block = or_fault over_read (c_string (block ++ m.beyond))

-- `buffer.read(&word, 4)` into an uninitialised local: what the buffer lacks stays as it was.
unfoldable pub read_word : (F : Fifo) → Memory → F.Buffer → ℕ × F.Buffer
read_word F m b = let (bs, rest) = F.read b 4 in (word32 (overlay m.stack bs), rest)

-- Blocks of any size up to a bound can be had.
abbrev pub HasRoom : Memory → ℕ → Type 0
HasRoom m bound = (n : ℕ) → n ≤ bound → (block : Bytes) × (m.fresh n ≡ some block)
