-- ===== src/E1000e/Driver.antt =====
-- kernel/comps/e1000e/src/driver.rs: the bring-up of the device and the operations of a network
-- device. The delays have no effect on the state and are left out; so are the PCI and interrupt set-up, the
-- capabilities and the log. `RxBuffer`s go to the caller, who is not part of the repository.
pub mod Eerd
pub mod Receive
pub mod Address
mod Tests
use driver_workflow.Prelude.{
  ℕ, zero, suc, ◌+◌, ◌*◌, ◌/◌, ◌%◌, ◌^◌, bit_and, bit_or, ◌-◌, Bool, true, false, not, ◌||◌, Option,
  none, some, List, [], ◌∷◌, ◌++◌, ◌==◌, if◌then◌else◌, get_or, ◌⊎◌, inl, inr,
}
use driver_workflow.Bits.{has}
use driver_workflow.Dma.{Dma}
use driver_workflow.Pool.{RxPool}
use driver_workflow.Mmio.{Registers}
use driver_workflow.E1000e.Regs.{
  ctrl, status, eerd, icr, ims, imc, rctl, tctl, rdt, mta, ra, ctrl_asde, ctrl_slu, ctrl_rst,
  eerd_start, eerd_done, eerd_addr_shift, eerd_data_shift, ims_enable_mask, tctl_psp, rah_av,
  num_mta_registers, rx_desc_count, intel_vendor_id, e1000e_dev_id_82574l,
}
use driver_workflow.E1000e.Rx
use driver_workflow.E1000e.Tx
use driver_workflow.E1000e.Rx.{RxRing, clean_rx_irq}
use driver_workflow.E1000e.Tx.{TxRing, xmit_frame, clean_tx_irq}
use driver_workflow.E1000e.Desc.{DescRing, alloc_rx_ring}
use driver_workflow.E1000
use driver_workflow.E1000e.Setup.{setup_rctl, configure_rx, default_coalesce}

-- The three errors that `receive` and `send` return.
pub data NetError : Type 0 where
  not_ready busy no_memory : NetError

-- `probe`: whether the vendor and the device are supported.
unfoldable pub is_supported : ℕ → ℕ → Bool
is_supported vendor_id dev_id =
    if not (vendor_id == intel_vendor_id)
    then false
    else (dev_id == e1000e_dev_id_82574l) || (dev_id == 0x10f6)

module _ ⦃io : Registers⦄ where
  -- The loop of `eerd_read`, with `n` rounds left; `none` is the time-out.
  unfoldable pub poll_done : ℕ → io.World → Option ℕ × io.World
  poll_done zero w = (none, w)
  poll_done (suc n) w =
      let (val, w') = io.read w eerd in
      let rest = poll_done n w' in
      if has val eerd_done then (some (val / 2 ^ eerd_data_shift % 2 ^ 16), w') else rest

  -- `eerd_read`
  unfoldable pub eerd_read : io.World → ℕ → Option ℕ × io.World
  eerd_read w offset =
      poll_done 1000 (io.write w eerd (bit_or (offset * 2 ^ eerd_addr_shift % 2 ^ 32) eerd_start))

  -- The loop of `read_mac_from_eerd`, with `n` words left from word `i` on.
  unfoldable pub mac_from : ℕ → ℕ → List ℕ → io.World → Option (List ℕ) × io.World
  mac_from zero i mac w = (some mac, w)
  mac_from (suc n) i mac w =
      let (v, w') = eerd_read w i in
      elim v [
        | none ↦ (none, w')
        | some word ↦ mac_from n (i + 1) (mac ++ (bit_and word 0xff ∷ word / 256 ∷ [])) w'
      ]

  -- `read_mac_from_eerd`
  unfoldable pub read_mac_from_eerd : io.World → Option (List ℕ) × io.World
  read_mac_from_eerd w = mac_from 3 0 [] w

  -- The address that `init` goes on with.
  abbrev pub fallback_mac : List ℕ
  fallback_mac = 0x52 ∷ 0x54 ∷ 0x00 ∷ 0x12 ∷ 0x34 ∷ 0x56 ∷ []

  abbrev pub mac_or_fallback : Option (List ℕ) → List ℕ
  mac_or_fallback none = fallback_mac
  mac_or_fallback (some mac) = mac

  unfoldable pub init_mac : io.World → List ℕ × io.World
  init_mac w = let (mac, w') = read_mac_from_eerd w in (mac_or_fallback mac, w')

  abbrev pub byte : List ℕ → ℕ → ℕ
  byte addr i = get_or addr i 0

  -- `rar_set`
  unfoldable pub rar_set : io.World → List ℕ → ℕ → io.World
  rar_set w addr index =
      let ral =
        bit_or
          (bit_or (bit_or (byte addr 0) (byte addr 1 * 2 ^ 8 % 2 ^ 32))
            (byte addr 2 * 2 ^ 16 % 2 ^ 32))
          (byte addr 3 * 2 ^ 24 % 2 ^ 32) in
      let rah = bit_or (bit_or (byte addr 4) (byte addr 5 * 2 ^ 8 % 2 ^ 32)) rah_av in
      io.write (io.write w (ra + index * 8) ral) (ra + index * 8 + 4) rah

  -- `hw_reset`
  unfoldable pub hw_reset : io.World → io.World
  hw_reset w =
      let w1 = io.write w imc 0xffff_ffff in
      let w2 = io.write w1 rctl 0 in
      let w3 = io.write w2 tctl tctl_psp in
      let (_, w4) = io.read w3 status in
      let (c, w5) = io.read w4 ctrl in
      let w6 = io.write w5 ctrl (bit_or c ctrl_rst) in
      let w7 = io.write w6 imc 0xffff_ffff in let (_, w8) = io.read w7 icr in w8

  -- The loop of `init` over the multicast table, with `n` registers left from register `i` on.
  unfoldable pub zero_mta : ℕ → ℕ → io.World → io.World
  zero_mta zero i w = w
  zero_mta (suc n) i w = zero_mta n (i + 1) (io.write w (mta + i * 4) 0)

  -- The first half of `init` on the registers: reset, address, multicast table and link.
  unfoldable pub init_link : io.World → List ℕ × io.World
  init_link w =
      let (mac, w1) = init_mac (hw_reset w) in
      let w2 = zero_mta num_mta_registers 0 (rar_set w1 mac 0) in
      let (c, w3) = io.read w2 ctrl in
      (mac, io.write w3 ctrl (bit_or (bit_or c ctrl_slu) ctrl_asde))

  -- `handle_interrupt`: whether the softirqs are raised.
  unfoldable pub handle_interrupt : io.World → Bool × io.World
  handle_interrupt w = let (cause, w') = io.read w icr in (not (cause == 0), w')

module _ ⦃d : Dma⦄ ⦃p : RxPool⦄ ⦃io : Registers⦄ where
  -- `E1000eDevice`, with what it acts on: the registers, the pool and the frame allocator.
  pub record Device : Type 0 where
    pub tx_ring : TxRing
    pub rx_ring : RxRing
    pub mac_addr : List ℕ
    pub world : io.World
    pub pool : p.Pool
    pub heap : d.Heap

  unfoldable pub start_rx :
      TxRing → List ℕ → io.World → Option (DescRing p.RxBuffer) × p.Pool → d.Heap → Option Device
  start_rx t mac w (none, pool) h = none
  start_rx t mac w (some q, pool) h =
      let x = Rx.new q true true true in
      let w1 = configure_rx x (setup_rctl x w 0) default_coalesce in
      let w2 = io.write w1 rdt (rx_desc_count - 1) in
      let w3 = io.write w2 ims ims_enable_mask in
      let (_, w4) = io.read w3 status in
      some (record { tx_ring = t; rx_ring = x; mac_addr = mac; world = w4; pool = pool; heap = h })

  unfoldable pub start_tx : List ℕ → io.World → p.Pool → Option TxRing × d.Heap → Option Device
  unfolding start_rx
  start_tx mac w pool (none, h) = none
  start_tx mac w pool (some t, h) =
      let w' = Tx.configure_tx w (d.daddr t.desc_dma) in
      let (q, h') = alloc_rx_ring rx_desc_count h pool in start_rx t mac w' q h'

  -- `E1000eDevice::init` on the registers, from the reset to the enabling of interrupts.
  unfoldable pub init : io.World → p.Pool → d.Heap → Option Device
  unfolding start_tx
  init w pool h = let (mac, w') = init_link w in start_tx mac w' pool (Tx.new_ring h)

  -- `can_receive` and `can_send`
  abbrev pub can_receive : Device → Bool
  can_receive e = Rx.can_receive e.rx_ring

  abbrev pub can_send : Device → Bool
  can_send e = Tx.can_send e.tx_ring

  abbrev pub first : List p.RxBuffer → NetError ⊎ p.RxBuffer
  first [] = inl not_ready
  first (b ∷ bs) = inr b

  -- `receive`
  unfoldable pub receive : Device → (NetError ⊎ p.RxBuffer) × Device
  receive e =
      let r = clean_rx_irq e.rx_ring e.world e.pool 1 in
      (first r.packets, record e { rx_ring = r.rx; world = r.world; pool = r.pool })

  abbrev pub send_result : Option E1000.Tx.TxError → Option NetError
  send_result none = none
  send_result (some _) = some no_memory

  -- `send`; `none` is `Ok(())`.
  unfoldable pub send : Device → List ℕ → Option NetError × Device
  send e packet =
      let s = xmit_frame e.tx_ring e.world e.heap packet in
      if not (can_send e)
      then (some busy, e)
      else (send_result s.error, record e { tx_ring = s.tx; world = s.world; heap = s.heap })

  -- `free_processed_tx_buffers`
  unfoldable pub free_processed_tx_buffers : Device → Option Device
  free_processed_tx_buffers e = elim (clean_tx_irq e.tx_ring) [
    | none ↦ none
    | some t ↦ some (record e { tx_ring = t })
  ]

  -- `notify_poll_end`
  unfoldable pub notify_poll_end : Device → Device
  notify_poll_end e = record e { world = (io.read (io.write e.world ims ims_enable_mask) status).1 }
