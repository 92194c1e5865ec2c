-- ===== src/Mmio.antt =====
-- Memory-mapped registers: `IoMem` of ostd and `BarAccess` of aster_pci. That code and the device
-- behind it are not part of the repository: a read may return anything, and may change the device.
use driver_workflow.Prelude.{ℕ, Bool, Option}

-- The width of an access in bytes comes before the offset.
pub record Mmio : Type 1 where
  pub World : Type 0
  -- `read_once`, `none` for an error
  pub read : World → ℕ → ℕ → Option ℕ × World
  -- `write_once`, `false` for an error
  pub write : World → ℕ → ℕ → ℕ → Bool × World

-- The same for code that unwraps the results: an access fails only outside the mapped range, where
-- the code panics, and its offsets are constants inside it. Every access is of 32 bits.
pub record Registers : Type 1 where
  pub World : Type 0
  pub read : World → ℕ → ℕ × World
  pub write : World → ℕ → ℕ → World
