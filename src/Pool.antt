-- ===== src/Pool.antt =====
-- `DmaPool` and `RxBuffer` of aster_network, which is not part of the repository: buffers for
-- received packets out of a pool that may be exhausted.
use driver_workflow.Prelude.{ℕ, Option}

pub record RxPool : Type 1 where
  pub Pool : Type 0
  pub RxBuffer : Type 0
  -- `RxBuffer::new(0, &pool)`, `none` for an error
  pub take_buffer : Pool → Option RxBuffer × Pool
  -- `daddr()`
  pub daddr : RxBuffer → ℕ
  pub set_payload_len : RxBuffer → ℕ → RxBuffer
