-- ===== src/E1000/Rx.antt =====
-- kernel/comps/e1000/src/rx.rs: the receive ring. As in the transmit ring, a descriptor access is a
-- plain copy.
pub mod Inv
pub mod Clean
pub mod Stall
pub mod Alloc
pub mod Sample
mod Tests
use driver_workflow.Prelude.{
  ℕ, zero, suc, ◌+◌, ◌-◌, ◌*◌, ◌/◌, ◌%◌, ◌^◌, Bool, true, false, Option, none, some, List,
  if◌then◌else◌, get_or, set, replicate,
}
use driver_workflow.Dma.{Dma}
use driver_workflow.Mmio.{Registers}
use driver_workflow.Pool.{RxPool}
use driver_workflow.E1000.Regs.{rdt}
use driver_workflow.E1000.Desc.{
  DescRing, E1000RxDesc, new, advance_clean, set_next_to_use, rx_done, has_error, rx_desc_to_bytes,
  bytes_to_rx_desc,
}

-- `RX_DESC_COUNT`
abbrev pub rx_desc_count : ℕ
rx_desc_count = 256

module _ ⦃d : Dma⦄ ⦃p : RxPool⦄ where
  pub record RxRing : Type 0 where
    pub desc_dma : d.Mem
    pub ring : DescRing
    pub buffers : List (Option p.RxBuffer)

  map_ring : Option d.Mem → Option RxRing
  map_ring none = none
  map_ring (some m) =
      some
        (record { desc_dma = m; ring = new rx_desc_count; buffers = replicate rx_desc_count none })

  alloc_ring : Option d.Segment × d.Heap → Option RxRing × d.Heap
  unfolding map_ring
  alloc_ring (none, h) = (none, h)
  alloc_ring (some s, h) = (map_ring (d.map_segment s), h)

  -- `RxRing::new`
  unfoldable pub new_ring : d.Heap → Option RxRing × d.Heap
  unfolding alloc_ring
  new_ring h = alloc_ring (d.alloc_segment h ((rx_desc_count * 16 + 4095) / 4096))

  -- `RxRing::write_desc` and `RxRing::read_desc`
  unfoldable pub write_desc : d.Mem → ℕ → E1000RxDesc → d.Mem
  write_desc m i e = d.copy_in m (i * 16) (rx_desc_to_bytes e)

  unfoldable pub read_desc : d.Mem → ℕ → E1000RxDesc
  read_desc m i = bytes_to_rx_desc (d.copy_out m (i * 16) 16)

  -- The descriptor that hands a buffer to the device.
  abbrev pub buffer_desc : p.RxBuffer → E1000RxDesc
  buffer_desc b = record {
    buffer_addr = p.daddr b % 2 ^ 64;
    length = 0;
    csum = 0;
    status = 0;
    errors = 0;
    special = 0;
  }

  unfoldable pub put_buffer : RxRing → ℕ → Option p.RxBuffer × p.Pool → (Bool × RxRing) × p.Pool
  put_buffer q i (none, pool) = ((false, q), pool)
  put_buffer q i (some b, pool) = (
    (
      true,
      record q {
        desc_dma = write_desc q.desc_dma i (buffer_desc b);
        buffers = set q.buffers i (some b);
      },
    ),
    pool,
  )

  -- `RxRing::alloc_single_buffer`
  unfoldable pub alloc_single_buffer : RxRing → ℕ → p.Pool → (Bool × RxRing) × p.Pool
  unfolding put_buffer
  alloc_single_buffer q i pool = put_buffer q i (p.take_buffer pool)

  -- `RxRing::can_receive`
  unfoldable pub can_receive : RxRing → Bool
  can_receive q = rx_done (read_desc q.desc_dma q.ring.next_to_clean)

module _ ⦃d : Dma⦄ ⦃p : RxPool⦄ ⦃io : Registers⦄ where
  -- What a call of `clean_rx_irq` leaves.
  pub record Received : Type 0 where
    pub packet : Option p.RxBuffer
    pub rx : RxRing
    pub world : io.World
    pub pool : p.Pool

  -- The loop of `alloc_rx_buffers`, with `n` rounds left from index `i` on.
  unfoldable pub alloc_from :
      ℕ → ℕ → RxRing → io.World → p.Pool → (Bool × RxRing) × io.World × p.Pool
  alloc_from zero i q w pool = (
    (true, record q { ring = set_next_to_use q.ring (rx_desc_count - 1) }),
    io.write w rdt (rx_desc_count - 1),
    pool,
  )
  alloc_from (suc n) i q w pool =
      let ((okay, q'), pool') = alloc_single_buffer q i pool in
      let rest = alloc_from n (i + 1) q' w pool' in if okay then rest else ((false, q'), w, pool')

  -- `RxRing::alloc_rx_buffers`
  unfoldable pub alloc_rx_buffers : RxRing → io.World → p.Pool → (Bool × RxRing) × io.World × p.Pool
  alloc_rx_buffers q w pool = alloc_from rx_desc_count 0 q w pool

  unfoldable pub recycled_mem : d.Mem → ℕ → Option p.RxBuffer → d.Mem
  recycled_mem m i none = m
  recycled_mem m i (some b) = write_desc m i (buffer_desc b)

  -- `RxRing::recycle_buffer`
  unfoldable pub recycle_buffer : RxRing → ℕ → io.World → RxRing × io.World
  unfolding recycled_mem
  recycle_buffer q i w = (
    record q {
      desc_dma = recycled_mem q.desc_dma i (get_or q.buffers i none);
      ring = advance_clean q.ring;
    },
    io.write w rdt (i % 2 ^ 32),
  )

  -- The end of `clean_rx_irq`, once the buffer is taken; the result of the refill is dropped.
  unfoldable pub deliver :
      RxRing → ℕ → E1000RxDesc → io.World → p.Pool → Option p.RxBuffer → Received
  deliver q i e w pool none = record {
    packet = none;
    rx = record q { buffers = set q.buffers i none };
    world = w;
    pool = pool;
  }
  deliver q i e w pool (some b) =
      let taken = record q { buffers = set q.buffers i none; ring = advance_clean q.ring } in
      let ((_, q'), pool') = alloc_single_buffer taken i pool in
      record {
        packet = some (p.set_payload_len b e.length);
        rx = record q' { ring = set_next_to_use q'.ring i };
        world = io.write w rdt (i % 2 ^ 32);
        pool = pool';
      }

  -- `RxRing::clean_rx_irq`
  unfoldable pub clean_rx_irq : RxRing → io.World → p.Pool → Received
  clean_rx_irq q w pool =
      let i = q.ring.next_to_clean in
      let e = read_desc q.desc_dma i in
      let (recycled, w') = recycle_buffer q i w in
      if rx_done e
      then if has_error e
        then record { packet = none; rx = recycled; world = w'; pool = pool }
        else deliver q i e w pool (get_or q.buffers i none)
      else record { packet = none; rx = q; world = w; pool = pool }
