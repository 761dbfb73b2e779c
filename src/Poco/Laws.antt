-- ===== src/Poco/Laws.antt =====
-- What the packet code does with a FIFO: reads of a length and its bytes, and the three writes of
-- a packet.
use poco_echo.Base.{
  ℕ, ◌^◌, ◌≤◌, ◌<◌, ◌≡◌, ◌∙◌, some, [], ◌++◌, length, take, take-all, drop-all, length-take, Bytes,
  arith, bytes32, word32-bytes32, overlay, overlay-full,
}
use poco_echo.Poco.{Fifo, IsFifo, Memory, IsMemory, read_word}
use poco_echo.Packets.{max_buffer_length}

module _ {F : Fifo} (L : IsFifo F) {m : Memory} (M : IsMemory m) where
  -- A word that a buffer begins with is read whole.
  pub read_word-bytes32 :
      (b : F.Buffer) (n : ℕ) (body : Bytes)
      → F.held b ≡ bytes32 n ++ body
      → n < 2 ^ 32
      → ((read_word F m b).0 ≡ n) × (F.held (read_word F m b).1 ≡ body)
  unfolding read_word
  read_word-bytes32 b n body hb small = (
    rw (got, drop-all 4 m.stack (omega (arith, M.length-stack))) (word32-bytes32 n small),
    L.held-read b 4 ∙ rw hb,
  )
    where
      got : (F.read b 4).0 ≡ bytes32 n
      got = L.read-bytes b 4 ∙ rw hb

  -- A new block is filled by the bytes that were asked for, if there are so many.
  pub overlay-read :
      (b : F.Buffer) (n : ℕ) (block body : Bytes)
      → F.held b ≡ body
      → n ≤ length body
      → m.fresh n ≡ some block
      → overlay block (F.read b n).0 ≡ take n body
  overlay-read b n block body hb enough got =
      rw (L.read-bytes b n, hb)
        (overlay-full block (take n body)
          (omega (arith, length-take n body, M.length-fresh n block got)))

  -- Three writes fill an empty buffer with their bytes, as far as it has room.
  pub held-writes :
      (b : F.Buffer) (t n : ℕ) (bs : Bytes)
      → F.held b ≡ []
      → F.size b ≡ max_buffer_length
      → F.held (F.write (F.write (F.write b (bytes32 t)) (bytes32 n)) bs)
        ≡ take max_buffer_length (bytes32 t ++ (bytes32 n ++ bs))
  held-writes b t n bs empty roomy =
      let b₁ : F.Buffer = F.write b (bytes32 t) in
      let b₂ : F.Buffer = F.write b₁ (bytes32 n) in
      let held₁ : F.held b₁ ≡ bytes32 t = L.held-write b (bytes32 t) ∙ rw (empty, roomy) in
      let size₁ : F.size b₁ ≡ max_buffer_length = L.size-write b _ ∙ roomy in
      let held₂ : F.held b₂ ≡ bytes32 t ++ bytes32 n =
        L.held-write b₁ (bytes32 n) ∙ rw (held₁, size₁) in
      let size₂ : F.size b₂ ≡ max_buffer_length = L.size-write b₁ _ ∙ size₁ in
      L.held-write b₂ bs ∙ rw (held₂, size₂)

module _ {F : Fifo} (L : IsFifo F) where
  -- What a receive puts into a new buffer.
  pub held-received :
      (bs : Bytes)
      → length bs ≤ max_buffer_length
      → F.held (F.write (F.create max_buffer_length) bs) ≡ bs
  held-received bs fits =
      L.held-write (F.create max_buffer_length) bs
      ∙ rw (L.held-create max_buffer_length, L.size-create max_buffer_length)
          (take-all max_buffer_length bs fits)
