-- ===== src/Heap/Options.antt =====
-- The block of `COption` (client/src/COption.cpp).
use poco_echo.Base.{ℕ, Bool, Option, none, some, List, Bytes, Outcome, done, ◌>>=◌, ℤ}
use poco_echo.Poco.{Memory}
use poco_echo.Client.Option.{Options, new_options, parse_options}
use poco_echo.Heap.{Heap, Runtime, new_block, destroy_options}

module _ (m : Memory) (overflow : Bytes → ℤ) (rt : Runtime) where
  -- The block that an address takes.
  abbrev address_block : Option Bytes → Heap → Option ℕ × Heap
  address_block none h = (none, h)
  address_block (some address) h = (some (new_block rt h).0, (new_block rt h).1)

  -- The constructor, `ParseOptions` and the destructor.
  unfoldable pub options_on_heap : List Bytes → Heap → Outcome ((Options × Bool) × Heap)
  options_on_heap argv h = do
    r ← parse_options m overflow argv new_options
    let (at, h₁) = address_block r.0.server_address h
    (gone, h₂) ← destroy_options rt at h₁
    done (r, h₂)
