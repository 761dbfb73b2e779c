-- ===== src/Heap.antt =====
-- Blocks of memory by address, for the code that releases them. A block that `new[]` made may only be
-- released by `delete[]`; the destructors of server/src/packets/CMessageSendPacket.cpp and
-- client/src/COption.cpp call `delete`.
pub mod Packets
pub mod Options
use poco_echo.Base.{
  ℕ, ◌≡◌, refl, ◌==◌, if◌then◌else◌, Bool, true, not, ◌&&◌, Option, none, some, List, ◌∷◌, Outcome,
  done, fault, bad_pointer, ◌>>=◌, elem, remove_first, Distinct, elem-remove_first,
  remove_first-Distinct, arith,
}

-- The live blocks of `new[]`.
pub record Heap : Type 0 where
  pub arrays : List ℕ

abbrev pub delete_array : ℕ → Heap → Outcome Heap
delete_array a h =
    if elem a h.arrays
    then done (record { arrays = remove_first a h.arrays })
    else fault bad_pointer

-- What the language leaves to the runtime: the address of a new block, by those of the live ones, and
-- what `delete` does to a block of `new[]`, which the standard does not define.
pub record Runtime : Type 0 where
  pub place : List ℕ → ℕ
  pub delete_object : ℕ → Heap → Outcome Heap

-- A value with the heap of a last release.
abbrev pub on_heap : {A : Type 0} → Outcome Heap → A → Outcome (A × Heap)
on_heap released a = released >>= λ h. done (a, h)

-- `new[]`
abbrev pub new_block : Runtime → Heap → ℕ × Heap
new_block rt h = (rt.place h.arrays, record { arrays = rt.place h.arrays ∷ h.arrays })

-- `~CMessagePacket`: the pointer after it and the heap.
unfoldable pub destroy_message_packet : Option ℕ → Heap → Outcome (Option ℕ × Heap)
destroy_message_packet none h = done (none, h)
destroy_message_packet (some a) h = do h' ← delete_array a h; done (none, h')

module _ (rt : Runtime) where
  -- `~CMessageSendPacket`
  unfoldable pub destroy_message_send_packet : Option ℕ → Heap → Outcome (Option ℕ × Heap)
  destroy_message_send_packet none h = done (none, h)
  destroy_message_send_packet (some a) h = do h' ← rt.delete_object a h; done (none, h')

  -- `~COption`
  unfoldable pub destroy_options : Option ℕ → Heap → Outcome (Option ℕ × Heap)
  destroy_options none h = done (none, h)
  destroy_options (some a) h = do h' ← rt.delete_object a h; done (none, h')

-- The heap is one of distinct blocks, and holds the block of a packet if it has one.
pub record Holds (message : Option ℕ) (h : Heap) : Type 0 where
  pub distinct : Distinct h.arrays
  pub held : (a : ℕ) → message ≡ some a → elem a h.arrays ≡ true

-- The destructor of a message packet releases its block and no other, and leaves nothing to release
-- twice.
pub destroy_message_packet-Holds :
    (message : Option ℕ) (h : Heap)
    → Holds message h
    → (h' : Heap) × (destroy_message_packet message h ≡ done (none, h'))
      × Holds none h'
      × ((b : ℕ)
          → elem b h'.arrays ≡ (elim message as (λ x. Bool) [
            | none ↦ elem b h.arrays
            | some a ↦ not (b == a) && elem b h.arrays
          ]))
unfolding destroy_message_packet
destroy_message_packet-Holds none h v =
    (h, refl, record { distinct = v.distinct; held = λ a e. absurd (ground arith) }, λ b. refl)
destroy_message_packet-Holds (some a) h v = (
  record { arrays = remove_first a h.arrays },
  rw (v.held a refl) refl,
  record {
    distinct = remove_first-Distinct a h.arrays v.distinct;
    held = λ b e. absurd (ground arith);
  },
  λ b. elem-remove_first b a h.arrays v.distinct,
)
