-- ===== src/R8169/Device.antt =====
-- kernel/comps/r8169/src/device.rs: the network device, with receive buffers from the pool. The pool
-- exists once `init` has run; PCI and interrupt set-up, capabilities, registration and the log are
-- left out.
pub mod Armed
pub mod Receive
pub mod Start
pub mod TxKept
pub mod Life
pub mod Burst
mod Tests
use driver_workflow.Prelude.{
  ℕ, zero, suc, ◌+◌, ◌-◌, ◌*◌, ◌/◌, ◌%◌, ◌^◌, bit_and, bit_or, Bool, true, false, not, ◌&&◌, ◌||◌,
  Option, none, some, List, [], ◌∷◌, ◌++◌, ◌==◌, if◌then◌else◌, ltb, get_or, set, replicate,
}
use driver_workflow.Bits.{has}
use driver_workflow.Dma.{Dma}
use driver_workflow.Mmio.{Mmio}
use driver_workflow.Pool.{RxPool}
use driver_workflow.R8169.Regs.{
  desc_own, ring_end, num_rx_desc, eth_fcs_len, rx_res, mac0, mac4, chip_cmd, intr_mask,
  intr_status, cmd_rx_enb, cmd_tx_enb, intr_mask_bits, rx_desc_buf_size,
}
use driver_workflow.R8169.Desc.{RawDesc, DescRing, new, write_desc, read_opts1, is_fragmented_frame}
use driver_workflow.R8169.Rx.{pkt_size_mask, set_rx_max_size, set_rx_desc_addr}
use driver_workflow.R8169.Tx
use driver_workflow.R8169.Tx.{
  NetError, TxRing, new_ring, start_xmit, rtl_tx, set_tx_desc_addr, set_tx_max_size,
}

-- `SUPPORTED_VENDOR_IDS` and `SUPPORTED_DEVICE_IDS`
abbrev pub supported_vendor_ids : List ℕ
supported_vendor_ids = 0x10ec ∷ 0x1186 ∷ 0x1259 ∷ 0x16ec ∷ 0x1737 ∷ []

abbrev pub supported_device_ids : List ℕ
supported_device_ids =
    0x2502 ∷ 0x2600 ∷ 0x8129 ∷ 0x8136 ∷ 0x8161 ∷ 0x8162 ∷ 0x8167 ∷ 0x8168 ∷ 0x8169 ∷ 0x8125 ∷ 0x8126
    ∷ 0x8127 ∷ 0x3000 ∷ 0x5000 ∷ 0x0e10 ∷ []

contains : List ℕ → ℕ → Bool
contains [] x = false
contains (y ∷ ys) x = (y == x) || contains ys x

-- `probe`: whether the vendor and the device are supported.
unfoldable pub is_supported : ℕ → ℕ → Bool
unfolding contains
is_supported vendor_id dev_id =
    if not (contains supported_vendor_ids vendor_id)
    then false
    else contains supported_device_ids dev_id

module _ ⦃io : Mmio⦄ where
  -- A byte of a word that may not have been read.
  abbrev pub byte_of : Option ℕ → ℕ → ℕ
  byte_of none k = 0
  byte_of (some v) k = bit_and (v / 2 ^ (8 * k)) 0xff

  abbrev pub fallback_mac : List ℕ
  fallback_mac = 0x52 ∷ 0x54 ∷ 0x00 ∷ 0x12 ∷ 0x34 ∷ 0x57 ∷ []

  -- Whether every byte is `x`.
  all_bytes : ℕ → List ℕ → Bool
  all_bytes x [] = true
  all_bytes x (b ∷ bs) = (b == x) && all_bytes x bs

  unfoldable pub checked_mac : List ℕ → List ℕ
  unfolding all_bytes
  checked_mac addr = if all_bytes 0 addr || all_bytes 0xff addr then fallback_mac else addr

  -- `read_mac_addr`
  unfoldable pub read_mac_addr : io.World → List ℕ × io.World
  read_mac_addr w =
      let (lo, w1) = io.read w 4 mac0 in
      let (hi, w2) = io.read w1 4 mac4 in
      (
        checked_mac (
            byte_of lo 0
            ∷ byte_of lo 1
            ∷ byte_of lo 2
            ∷ byte_of lo 3
            ∷ byte_of hi 0
            ∷ byte_of hi 1
            ∷ []),
        w2,
      )

  -- `irq_disable`, `irq_enable` and `irq_ack`
  unfoldable pub irq_disable : io.World → io.World
  irq_disable w = (io.write w 2 intr_mask 0).1

  unfoldable pub irq_enable : io.World → io.World
  irq_enable w = (io.write w 2 intr_mask intr_mask_bits).1

  abbrev pub unwrap_or_zero : Option ℕ → ℕ
  unwrap_or_zero none = 0
  unwrap_or_zero (some v) = v

  unfoldable pub irq_ack : io.World → ℕ × io.World
  irq_ack w =
      let (v, w1) = io.read w 2 intr_status in
      let status = unwrap_or_zero v in
      if not (status == 0) then (status, (io.write w1 2 intr_status status).1) else (status, w1)

module _ ⦃d : Dma⦄ ⦃p : RxPool⦄ ⦃io : Mmio⦄ where
  -- `R8169Device`, with what it acts on: the registers, the pool and the frame allocator.
  pub record Device : Type 0 where
    pub world : io.World
    pub tx_ring : TxRing
    pub rx_desc_ring : DescRing
    pub rx_buffers : List (Option p.RxBuffer)
    pub rx_cur : ℕ
    pub mac_addr : List ℕ
    pub pool : p.Pool
    pub heap : d.Heap

  -- The descriptor that hands a buffer to the hardware.
  abbrev pub slot_opts1 : ℕ → ℕ
  slot_opts1 i =
      if i == num_rx_desc - 1
      then bit_or (bit_or rx_desc_buf_size desc_own) ring_end
      else bit_or rx_desc_buf_size desc_own

  abbrev pub slot_desc : ℕ → p.RxBuffer → RawDesc
  slot_desc i b = record {
    opts1 = slot_opts1 i;
    opts2 = 0;
    addr_lo = p.daddr b % 2 ^ 32;
    addr_hi = p.daddr b / 2 ^ 32 % 2 ^ 32;
  }

  -- The end of `alloc_rx_slot`: the slot is set once the descriptor is written.
  unfoldable pub place : Device → ℕ → p.RxBuffer → Bool × DescRing → Bool × Device
  place e i b (false, r) = (false, record e { rx_desc_ring = r })
  place e i b (true, r) =
      (true, record e { rx_desc_ring = r; rx_buffers = set e.rx_buffers i (some b) })

  unfoldable pub fill_slot : Device → ℕ → Option p.RxBuffer × p.Pool → Bool × Device
  unfolding place
  fill_slot e i (none, pool) = (false, record e { pool = pool })
  fill_slot e i (some b, pool) =
      place (record e { pool = pool }) i b (write_desc e.rx_desc_ring i (slot_desc i b))

  -- `alloc_rx_slot`, `true` for `Ok(())`
  unfoldable pub alloc_rx_slot : Device → ℕ → Bool × Device
  unfolding fill_slot
  alloc_rx_slot e i = fill_slot e i (p.take_buffer e.pool)

  -- `can_receive`
  unfoldable pub can_receive : Device → Bool
  can_receive e = elim (read_opts1 e.rx_desc_ring (e.rx_cur % num_rx_desc)) [
    | none ↦ false
    | some status ↦ not (has status desc_own)
  ]

  -- The slot is filled again, whether a buffer is to be had or not, and the index moves on.
  unfoldable pub move_on : Device → ℕ → Device
  move_on e i = let e' = (alloc_rx_slot e i).1 in record e' { rx_cur = (e.rx_cur + 1) % 2 ^ 32 }

  unfoldable pub hand_over : Device → ℕ → ℕ → Option p.RxBuffer → Option p.RxBuffer × Device
  hand_over e i pkt_size none = (none, move_on e i)
  hand_over e i pkt_size (some b) = (
    some (p.set_payload_len b pkt_size),
    move_on (record e { rx_buffers = set e.rx_buffers i none }) i,
  )

  -- `receive` once the status is read.
  unfoldable pub receive_at : Device → ℕ → Option ℕ → Option p.RxBuffer × Device
  unfolding hand_over move_on
  receive_at e i none = (none, e)
  receive_at e i (some status) =
      let raw_size = bit_and status pkt_size_mask in
      if has status desc_own
      then (none, e)
      else if has status rx_res
      then (none, move_on e i)
      else if is_fragmented_frame status
      then (none, move_on e i)
      else if ltb eth_fcs_len raw_size
      then hand_over e i (raw_size - eth_fcs_len) (get_or e.rx_buffers i none)
      else (none, move_on e i)

  -- `receive`; `none` is `Err(NetError::NotReady)`, its only error.
  unfoldable pub receive : Device → Option p.RxBuffer × Device
  unfolding receive_at
  receive e = let i = e.rx_cur % num_rx_desc in receive_at e i (read_opts1 e.rx_desc_ring i)

  -- `can_send`
  abbrev pub can_send : Device → Bool
  can_send e = Tx.can_send e.tx_ring

  -- `send`; `none` is `Ok(())`.
  unfoldable pub send : Device → List ℕ → Option NetError × Device
  send e packet =
      let s = start_xmit e.tx_ring e.world e.heap packet in
      (s.error, record e { tx_ring = s.tx; world = s.world; heap = s.heap })

  -- `free_processed_tx_buffers`
  unfoldable pub free_processed_tx_buffers : Device → Option Device
  free_processed_tx_buffers e = elim (rtl_tx e.tx_ring) [
    | none ↦ none
    | some r ↦ some (record e { tx_ring = r.0 })
  ]

  -- `notify_poll_end`
  abbrev pub notify_poll_end : Device → Device
  notify_poll_end e = record e { world = irq_enable e.world }

  -- The loop of `init` over the receive slots, with `n` left from slot `i` on.
  unfoldable pub fill_from : ℕ → ℕ → Device → Option Device
  fill_from zero i e = some e
  fill_from (suc n) i e =
      let (okay, e') = alloc_rx_slot e i in
      let rest = fill_from n (i + 1) e' in if okay then rest else none

  -- The register writes of `init`; only the two addresses must succeed.
  unfoldable pub start : Device → Option Device
  start e =
      let (tx_okay, w1) = set_tx_desc_addr e.world (d.daddr e.tx_ring.ring.dma) in
      let (rx_okay, w2) = set_rx_desc_addr w1 (d.daddr e.rx_desc_ring.dma) in
      let w3 = (set_tx_max_size w2).1 in
      let w4 = (set_rx_max_size w3).1 in
      let w5 = (io.write w4 1 chip_cmd (bit_or cmd_rx_enb cmd_tx_enb)).1 in
      let w6 = (io.write w5 2 intr_mask intr_mask_bits).1 in
      if tx_okay && rx_okay then some (record e { world = w6 }) else none

  unfoldable pub start_filled : Option Device → Option Device
  start_filled none = none
  start_filled (some e) = start e

  unfoldable pub with_rings :
      io.World → List ℕ → p.Pool → Option TxRing → Option DescRing × d.Heap → Option Device
  unfolding start_filled
  with_rings w mac pool none (r, h) = none
  with_rings w mac pool (some t) (none, h) = none
  with_rings w mac pool (some t) (some r, h) = start_filled (
      fill_from num_rx_desc 0 (record {
        world = w;
        tx_ring = t;
        rx_desc_ring = r;
        rx_buffers = replicate num_rx_desc none;
        rx_cur = 0;
        mac_addr = mac;
        pool = pool;
        heap = h;
      }))

  -- `R8169Device::init`, from the address to the enabling of interrupts.
  unfoldable pub init : io.World → p.Pool → d.Heap → Option Device
  unfolding with_rings
  init w pool h =
      let (mac, w') = read_mac_addr w in
      let (t, h') = new_ring h in with_rings w' mac pool t (new h' num_rx_desc)
