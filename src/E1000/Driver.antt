-- ===== src/E1000/Driver.antt =====
-- kernel/comps/e1000/src/driver.rs: the bring-up of the device and the operations of a network device.
-- PCI and interrupt set-up, capabilities, registration and the log are left out.
pub mod Start
pub mod Life
pub mod Burst
mod Tests
mod UpTests
use driver_workflow.Prelude.{
  ℕ, Bool, true, false, not, ◌||◌, Option, none, some, List, [], ◌∷◌, ◌==◌, if◌then◌else◌,
}
use driver_workflow.Dma.{Dma}
use driver_workflow.Pool.{RxPool}
use driver_workflow.Mmio.{Registers}
use driver_workflow.E1000.Regs.{icr}
use driver_workflow.E1000.LinkRegs.{speed_10, speed_100, speed_1000, half_duplex, full_duplex}
use driver_workflow.E1000.Eeprom.{validate_eeprom_checksum}
use driver_workflow.E1000.Hw
use driver_workflow.E1000.Hw.{
  LinkSpeed, speed10, speed100, speed1000, Duplex, half, full, E1000Hw, reset_hw, read_mac_addr,
  check_for_link,
}
use driver_workflow.E1000.Init.{init_hw}
use driver_workflow.E1000.Intr.{irq_enable}
use driver_workflow.E1000.Setup.{configure_tx, configure_rx}
use driver_workflow.E1000.Tx
use driver_workflow.E1000.Tx.{TxRing, TxError, xmit_frame, clean_tx_irq}
use driver_workflow.E1000.Rx
use driver_workflow.E1000.Rx.{RxRing, alloc_rx_buffers, clean_rx_irq}

-- `INTEL_VENDOR_ID` and `SUPPORTED_DEVICE_0x100e ∷ 0x1015 ∷ 0x1016 ∷ 0x1017 ∷ 0x101e ∷ 0x100f ∷ 0x1011 ∷ 0x1010 ∷ 0x1012 ∷ 0x1013 ∷ 0x1014 ∷ 0x1018 ∷ 0x1076 ∷ 0x1077 ∷ 0x1078 ∷ 0x1079 ∷ 0x107a ∷ 0x107b ∷ 0x107c ∷ 0x108a ∷ 0x1099 ∷ 0x10b5 ∷ 0x1000 ∷ 0x1001 ∷ 0x1004 ∷ 0x1008 ∷ 0x1009 ∷ 0x100c ∷ 0x100d ∷ 0x1019 ∷ 0x101a ∷ 0x101d ∷ 0x1026 ∷ 0x1027 ∷ 0x1028 ∷ 0x1075 ∷ 0x2e6e`
abbrev pub intel_vendor_id : ℕ
intel_vendor_id = 0x8086

abbrev pub supported_device_ids : List ℕ
supported_device_ids =
    0x100e ∷ 0x1015 ∷ 0x1016 ∷ 0x1017 ∷ 0x101e ∷ 0x100f ∷ 0x1011 ∷ 0x1010 ∷ 0x1012 ∷ 0x1013 ∷ 0x1014
    ∷ 0x1018 ∷ 0x1076 ∷ 0x1077 ∷ 0x1078 ∷ 0x1079 ∷ 0x107a ∷ 0x107b ∷ 0x107c ∷ 0x108a ∷ 0x1099
    ∷ 0x10b5 ∷ 0x1000 ∷ 0x1001 ∷ 0x1004 ∷ 0x1008 ∷ 0x1009 ∷ 0x100c ∷ 0x100d ∷ 0x1019 ∷ 0x101a
    ∷ 0x101d ∷ 0x1026 ∷ 0x1027 ∷ 0x1028 ∷ 0x1075 ∷ 0x2e6e ∷ []

abbrev pub contains : List ℕ → ℕ → Bool
contains [] x = false
contains (y ∷ ys) x = (y == x) || contains ys x

-- `probe`: whether the vendor and the device are supported.
unfoldable pub is_supported : ℕ → ℕ → Bool
is_supported vendor_id dev_id =
    if not (vendor_id == intel_vendor_id) then false else contains supported_device_ids dev_id

-- The errors that `send` returns.
pub data NetError : Type 0 where
  busy : NetError
  no_memory : NetError

abbrev pub fallback_mac : List ℕ
fallback_mac = 0x52 ∷ 0x54 ∷ 0x00 ∷ 0x12 ∷ 0x34 ∷ 0x56 ∷ []

-- The numbers that `init` keeps of what `check_for_link` returns.
abbrev pub speed_value : Option LinkSpeed → ℕ
speed_value none = 0
speed_value (some speed10) = 10
speed_value (some speed100) = 100
speed_value (some speed1000) = 1000

abbrev pub duplex_value : Option Duplex → ℕ
duplex_value none = 0
duplex_value (some half) = 1
duplex_value (some full) = 2

abbrev pub send_result : Option TxError → Option NetError
send_result none = none
send_result (some e) = some no_memory

module _ ⦃io : Registers⦄ where
  -- The first steps of `init`; a wrong checksum is only logged.
  unfoldable pub with_mac : Bool × E1000Hw → E1000Hw
  with_mac (true, h) = h
  with_mac (false, h) = record h { mac_addr = fallback_mac; perm_mac_addr = fallback_mac }

  unfoldable pub identify : io.World → E1000Hw
  unfolding with_mac
  identify w =
      let h1 = reset_hw (Hw.new w) in
      let h2 = record h1 { world = (validate_eeprom_checksum h1.world).1 } in
      with_mac (read_mac_addr h2)

  -- `handle_interrupt`: whether the softirqs are raised, once `IRQ_REGS` is set.
  unfoldable pub handle_interrupt : io.World → Bool × io.World
  handle_interrupt w = let (v, w') = io.read w icr in (not (v == 0), w')

module _ ⦃d : Dma⦄ ⦃p : RxPool⦄ ⦃io : Registers⦄ where
  -- `E1000Device`, with the pool and the frame allocator.
  pub record Device : Type 0 where
    pub hw : E1000Hw
    pub tx_ring : TxRing
    pub rx_ring : RxRing
    pub mac_addr : List ℕ
    pub link_up : Bool
    pub link_speed : ℕ
    pub link_duplex : ℕ
    pub pool : p.Pool
    pub heap : d.Heap

  -- The steps of `init` once the rings are there; that a buffer could not be had is only logged.
  unfoldable pub start : Device → Device
  start e =
      let w1 = configure_tx e.hw.world (d.daddr e.tx_ring.desc_dma) in
      let w2 = configure_rx w1 (d.daddr e.rx_ring.desc_dma) in
      let ((_, rx), w3, pool) = alloc_rx_buffers e.rx_ring w2 e.pool in
      let ((up, speed, duplex), hw) = check_for_link (record e.hw { world = irq_enable w3 }) in
      record e {
        hw = hw;
        rx_ring = rx;
        pool = pool;
        link_up = up;
        link_speed = speed_value speed;
        link_duplex = duplex_value duplex;
      }

  unfoldable pub with_rx_ring :
      E1000Hw → List ℕ → p.Pool → TxRing → Option RxRing × d.Heap → Option Device
  with_rx_ring hw mac pool t (none, heap) = none
  with_rx_ring hw mac pool t (some q, heap) = some (
      start (record {
        hw = hw;
        tx_ring = t;
        rx_ring = q;
        mac_addr = mac;
        link_up = false;
        link_speed = 0;
        link_duplex = 0;
        pool = pool;
        heap = heap;
      }))

  unfoldable pub with_tx_ring : E1000Hw → List ℕ → p.Pool → Option TxRing × d.Heap → Option Device
  unfolding with_rx_ring
  with_tx_ring hw mac pool (none, heap) = none
  with_tx_ring hw mac pool (some t, heap) = with_rx_ring hw mac pool t (Rx.new_ring heap)

  unfoldable pub with_hw : List ℕ → p.Pool → d.Heap → Bool × E1000Hw → Option Device
  unfolding with_tx_ring
  with_hw mac pool heap (false, hw) = none
  with_hw mac pool heap (true, hw) = with_tx_ring hw mac pool (Tx.new_ring heap)

  -- `E1000Device::init`, from the reset to the link status.
  unfoldable pub init : io.World → p.Pool → d.Heap → Option Device
  unfolding with_hw
  init w pool heap = let hw = identify w in with_hw hw.mac_addr pool heap (init_hw hw)

  -- `can_receive` and `can_send`
  abbrev pub can_receive : Device → Bool
  can_receive e = Rx.can_receive e.rx_ring

  abbrev pub can_send : Device → Bool
  can_send e = Tx.can_send e.tx_ring

  -- `receive`; `none` is `Err(NetError::NotReady)`, its only error.
  unfoldable pub receive : Device → Option p.RxBuffer × Device
  receive e =
      let r = clean_rx_irq e.rx_ring e.hw.world e.pool in
      (r.packet, record e { rx_ring = r.rx; hw = record e.hw { world = r.world }; pool = r.pool })

  -- `send`; `none` is `Ok(())`.
  unfoldable pub send : Device → List ℕ → Option NetError × Device
  send e packet =
      let s = xmit_frame e.tx_ring e.hw.world e.heap packet in
      if not (can_send e) then (some busy, e) else (
        send_result s.error,
        record e { tx_ring = s.tx; hw = record e.hw { world = s.world }; heap = s.heap },
      )

  -- `free_processed_tx_buffers`
  unfoldable pub free_processed_tx_buffers : Device → Option Device
  free_processed_tx_buffers e = elim (clean_tx_irq e.tx_ring) [
    | none ↦ none
    | some r ↦ some (record e { tx_ring = r.1 })
  ]

  -- `notify_poll_end`
  unfoldable pub notify_poll_end : Device → Device
  notify_poll_end e = record e { hw = record e.hw { world = irq_enable e.hw.world } }
