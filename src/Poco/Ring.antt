-- ===== src/Poco/Ring.antt =====
-- A byte list with a capacity meets the description of `Poco::FIFOBuffer`.
use poco_echo.Base.{ℕ, ◌-◌, refl, [], ◌++◌, Bytes, length, take, drop}
use poco_echo.Poco.{Fifo, IsFifo}

pub record Ring : Type 0 where
  pub cells : Bytes
  pub capacity : ℕ

abbrev pub ring : Fifo
ring = record {
  Buffer = Ring;
  create = λ n. record { cells = []; capacity = n };
  read = λ b n. (take n b.cells, record b { cells = drop n b.cells });
  write = λ b bs. record b { cells = b.cells ++ take (b.capacity - length b.cells) bs };
  held = λ b. b.cells;
  size = λ b. b.capacity;
}

pub ring-IsFifo : IsFifo ring
ring-IsFifo = record {
  held-create = λ n. refl;
  size-create = λ n. refl;
  read-bytes = λ b n. refl;
  held-read = λ b n. refl;
  size-read = λ b n. refl;
  held-write = λ b bs. refl;
  size-write = λ b bs. refl;
}
