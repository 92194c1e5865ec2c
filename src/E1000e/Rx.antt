-- ===== src/E1000e/Rx.antt =====
-- kernel/comps/e1000e/src/rx.rs: the receive ring of the 82574L and the set-up of the receiver.
pub mod Alloc
pub mod Held
pub mod Round
pub mod Clean
pub mod Deliver
pub mod Fresh
pub mod Sample
mod Tests
use driver_workflow.Prelude.{
  ℕ, zero, suc, ◌+◌, ◌-◌, ◌*◌, ◌/◌, ◌%◌, ◌^◌, bit_and, bit_or, Bool, true, false, not, ◌||◌, Option,
  none, some, List, [], ◌∷◌, ◌++◌, ◌==◌, if◌then◌else◌, leb, ltb,
}
use driver_workflow.Bits.{has}
use driver_workflow.Dma.{Dma}
use driver_workflow.Mmio.{Registers}
use driver_workflow.Pool.{RxPool}
use driver_workflow.E1000e.Regs.{
  rxdext_stat_eop, rxdext_stat_ixsm, rxdext_stat_udpcs, rxdext_stat_tcpcs, rxdext_err_frame_mask,
  reg_rdt, rx_buffer_write, eth_fcs_len, rxd_err_tcpe, rxd_err_ipe,
}
use driver_workflow.E1000e.Desc.{
  DescRing, RxDescExt, is_done, read_desc, buffer, take_buffer, put_buffer, advance_index,
  unused_count, set_next_to_use, set_next_to_clean, refill_desc,
}

pub data RxChecksumResult : Type 0 where
  not_computed error unnecessary : RxChecksumResult

-- `rx_checksum`
unfoldable pub rx_checksum : ℕ → Bool → RxChecksumResult
rx_checksum status_error rx_csum_enabled =
    if not rx_csum_enabled
    then not_computed
    else if has status_error rxdext_stat_ixsm
    then not_computed
    else if has status_error (bit_or rxd_err_tcpe rxd_err_ipe)
    then error
    else if not (has status_error (bit_or rxdext_stat_tcpcs rxdext_stat_udpcs))
    then not_computed
    else unnecessary

-- The length handed up: without the CRC, which the device has left in place or not.
abbrev pub payload_len : Bool → ℕ → ℕ
payload_len crc_stripping length = if crc_stripping then length else length - eth_fcs_len

module _ ⦃d : Dma⦄ ⦃p : RxPool⦄ where
  -- `RxRing`; the pool that it allocates from is part of `Receiver`.
  pub record RxRing : Type 0 where
    pub ring : DescRing p.RxBuffer
    pub rx_csum_enabled : Bool
    pub crc_stripping : Bool
    pub dma_burst : Bool
    pub is_discarding : Bool

  -- `RxRing::new`
  abbrev pub new : DescRing p.RxBuffer → Bool → Bool → Bool → RxRing
  new ring rx_csum_enabled crc_stripping dma_burst = record {
    ring = ring;
    rx_csum_enabled = rx_csum_enabled;
    crc_stripping = crc_stripping;
    dma_burst = dma_burst;
    is_discarding = false;
  }

  -- `RxRing::can_receive`
  unfoldable pub can_receive : RxRing → Bool
  can_receive x = is_done (read_desc x.ring x.ring.next_to_clean)

module _ ⦃d : Dma⦄ ⦃p : RxPool⦄ ⦃io : Registers⦄ where
  -- The ring with what it acts on: the device's registers and the pool.
  pub record Receiver : Type 0 where
    pub ring : DescRing p.RxBuffer
    pub world : io.World
    pub pool : p.Pool

  unfoldable pub refill_slot :
      DescRing p.RxBuffer → ℕ → io.World → Option p.RxBuffer × p.Pool → Bool × Receiver
  refill_slot q i w (none, pool) = (false, record { ring = q; world = w; pool = pool })
  refill_slot q i w (some b, pool) = (
    true,
    record {
      ring = record (put_buffer q i b) { ring = refill_desc q.ring i b };
      world = if bit_and i (rx_buffer_write - 1) == 0 then io.write w reg_rdt i else w;
      pool = pool;
    },
  )

  -- The loop of `alloc_rx_buffers`, with `n` buffers left from index `i` on.
  unfoldable pub alloc_from : ℕ → ℕ → Receiver → Receiver
  alloc_from zero i r = record r { ring = set_next_to_use r.ring i }
  alloc_from (suc n) i r =
      let (okay, r') = refill_slot r.ring i r.world (p.take_buffer r.pool) in
      let rest = alloc_from n (advance_index r'.ring i) r' in
      if okay then rest else record r' { ring = set_next_to_use r'.ring i }

  -- `RxRing::alloc_rx_buffers`
  unfoldable pub alloc_rx_buffers : Receiver → ℕ → Receiver
  alloc_rx_buffers r count = alloc_from count r.ring.next_to_use r

  -- `RxRing::alloc_all_rx_buffers`
  unfoldable pub alloc_all_rx_buffers : Receiver → Receiver
  alloc_all_rx_buffers r =
      let unused = unused_count r.ring in if ltb 0 unused then alloc_rx_buffers r unused else r

  -- The variables of the loop of `clean_rx_irq`; `work_done` is counted down from the budget.
  pub record Pass : Type 0 where
    pub receiver : Receiver
    pub index : ℕ
    pub cleaned_count : ℕ
    pub is_discarding : Bool
    pub received : List p.RxBuffer

  -- The batch replenishment at the end of a round.
  unfoldable pub replenish : Pass → Pass
  replenish s =
      if leb rx_buffer_write s.cleaned_count
      then record s { receiver = alloc_rx_buffers s.receiver s.cleaned_count; cleaned_count = 0 }
      else s

  -- A round on a descriptor that is done, once its buffer is taken out of its slot.
  unfoldable pub handle : Bool → Pass → RxDescExt → Option p.RxBuffer → Pass
  unfolding replenish
  handle crc_stripping s e none = record s { index = advance_index s.receiver.ring s.index }
  handle crc_stripping s e (some b) =
      let eop = has e.status_error rxdext_stat_eop in
      let next = record s { index = advance_index s.receiver.ring s.index } in
      if s.is_discarding || not eop
      then replenish (record next { is_discarding = not eop })
      else if has e.status_error rxdext_err_frame_mask
      then replenish next
      else replenish (record next {
        received = s.received ++ (p.set_payload_len b (payload_len crc_stripping e.length) ∷ []);
      })

  -- A round: the buffer is taken and the descriptor counted.
  unfoldable pub take_done : Bool → Pass → Pass
  unfolding handle
  take_done crc_stripping s =
      let q = s.receiver.ring in
      let (b, q') = take_buffer q s.index in
      handle crc_stripping
        (record s {
          receiver = record s.receiver { ring = q' };
          cleaned_count = (s.cleaned_count + 1) % 2 ^ 16;
        })
        (read_desc q s.index) b

  -- The loop of `clean_rx_irq`, with `n` descriptors left of the budget.
  unfoldable pub clean_from : Bool → ℕ → Pass → Pass
  clean_from crc_stripping zero s = s
  clean_from crc_stripping (suc n) s =
      let rest = clean_from crc_stripping n (take_done crc_stripping s) in
      if is_done (read_desc s.receiver.ring s.index) then rest else s

  -- What a call of `clean_rx_irq` leaves.
  pub record Received : Type 0 where
    pub packets : List p.RxBuffer
    pub rx : RxRing
    pub world : io.World
    pub pool : p.Pool

  -- `RxRing::clean_rx_irq`
  unfoldable pub clean_rx_irq : RxRing → io.World → p.Pool → ℕ → Received
  clean_rx_irq x w pool budget =
      let s = clean_from x.crc_stripping budget (record {
        receiver = record { ring = x.ring; world = w; pool = pool };
        index = x.ring.next_to_clean;
        cleaned_count = 0;
        is_discarding = x.is_discarding;
        received = [];
      }) in
      let r =
        alloc_all_rx_buffers
          (record s.receiver { ring = set_next_to_clean s.receiver.ring s.index }) in
      record {
        packets = s.received;
        rx = record x { ring = r.ring; is_discarding = s.is_discarding };
        world = r.world;
        pool = r.pool;
      }
