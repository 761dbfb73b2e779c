-- ===== src/Poco/Lengths.antt =====
-- A length and the block for it, as both sides read them from a buffer.
use poco_echo.Base.{
  ℕ, ◌^◌, ◌≡◌, ap, ltb, if◌then◌else◌, Bool-cases, inl, inr, none, some, take, drop, Bytes, Option,
  arith, word32, overlay,
}
use poco_echo.Poco.{Fifo, IsFifo, Memory, read_word}
use poco_echo.Packets.{word_size}

-- The length of a message packet: of fewer than four bytes the rest is what the local held before.
abbrev pub length_in : Memory → Bytes → ℕ
length_in m bs = word32 (overlay m.stack (take word_size bs))

-- The block for a message, if its length is not negative and the block can be had.
abbrev pub block_for : Memory → ℕ → Option Bytes
block_for m n = if ltb n (2 ^ 31) then m.fresh n else none

pub block_for-fresh :
    (m : Memory) (n : ℕ) (block : Bytes) → block_for m n ≡ some block → m.fresh n ≡ some block
block_for-fresh m n block e = elim (Bool-cases (ltb n (2 ^ 31))) [
  | inl pos ↦ (rw pos at e)
  | inr neg ↦ absurd (ground arith)
]

pub read_word-length_in :
    {F : Fifo} (L : IsFifo F) (m : Memory) (b : F.Buffer)
    → ((read_word F m b).0 ≡ length_in m (F.held b))
      × (F.held (read_word F m b).1 ≡ drop word_size (F.held b))
unfolding read_word
read_word-length_in L m b =
    (ap (λ bs. word32 (overlay m.stack bs)) (L.read-bytes b word_size), L.held-read b word_size)
