-- ===== src/E1000/Driver/UpTests.antt =====
-- A device that `init` brings up, and the theorem about its life.
use driver_workflow.Prelude.{
  ℕ, zero, suc, arith, ◌+◌, ◌%◌, ◌<◌, ◌≡◌, refl, Bool, true, false, Option, some, none, List, [],
  ◌∷◌,
}
use driver_workflow.Mmio.{Registers}
use driver_workflow.Bits.{has}
use driver_workflow.Frames.{calls, run}
use driver_workflow.Bytes.{to_le_bytes, from_le_bytes}
use driver_workflow.E1000.Desc.{rx_done, has_error, rx_desc_to_bytes, bytes_to_rx_desc}
use driver_workflow.Sample.{byte_memory, counted_pool}
use driver_workflow.E1000.Eeprom.{
  poll_done, read_eeprom, sum_from, validate_eeprom_checksum, mac_from, read_mac_addr_from_eeprom,
}
use driver_workflow.E1000.Hw
use driver_workflow.E1000.Hw.{rar_set, reset_hw, read_mac_addr, check_for_link}
use driver_workflow.E1000.Phy.{
  poll_ready, read_phy_reg, write_phy_reg, detect_phy, phy_reset, setup_autoneg, setup_copper_link,
  force_link_up,
}
use driver_workflow.E1000.Init.{init_hw, setup_link}
use driver_workflow.E1000.Tx
use driver_workflow.E1000.Rx
use driver_workflow.E1000.Rx.{rx_desc_count, read_desc, write_desc}
use driver_workflow.E1000.Rx.Inv.{IsValid}
use driver_workflow.E1000.Rx.Sample.{received, two_received, three_received, three_received-IsValid}
use driver_workflow.E1000.Desc.Index.{in_use}
use driver_workflow.E1000.Tx.Inv
use driver_workflow.E1000.Driver.{
  Device, identify, with_mac, init, with_hw, free_processed_tx_buffers, notify_poll_end, receive,
}
use driver_workflow.E1000.Driver.Burst.{
  Written, outcome, outcome_at, next_slot, calls-receive-results,
}
use driver_workflow.E1000.Driver.Start.{Ready}
use driver_workflow.E1000.Driver.Life.{here, next, polled, life-Ready}

-- Registers that show that the EEPROM and the PHY are ready, and nothing else.
instance abbrev answering : Registers
answering = record {
  World = List (ℕ × ℕ);
  read = λ w o. (0x1000_0010, w);
  write = λ w o v. (o, v) ∷ w;
}

abbrev is_some : Option Device → Bool
is_some none = false
is_some (some e) = true

up : Option Device
up = init [] 300 0

is_up : is_some up ≡ true
unfolding up init with_hw identify with_mac read_mac_addr read_mac_addr_from_eeprom mac_from
    read_eeprom poll_done validate_eeprom_checksum sum_from has init_hw setup_link setup_copper_link
    rar_set Hw.mac_from detect_phy read_phy_reg poll_ready phy_reset write_phy_reg reset_hw
    setup_autoneg force_link_up Tx.new_ring Rx.new_ring
is_up = refl

taken : (o : Option Device) → is_some o ≡ true → (e : Device) × (o ≡ some e)
taken none h = cc
taken (some e) h = (e, refl)

device : Device
device = (taken up is_up).0

device-init : init [] 300 0 ≡ some device
unfolding device up
device-init = (taken up is_up).1

life-Ready_example :
    Ready (notify_poll_end device)
    × ((i : ℕ)
        → i < Tx.tx_desc_count
        → Inv.position (notify_poll_end device).tx_ring.ring i
          < in_use (notify_poll_end device).tx_ring.ring
        → Inv.Holds (notify_poll_end device).tx_ring i)
    × ((g : Device) × (free_processed_tx_buffers (notify_poll_end device) ≡ some g))
life-Ready_example =
    life-Ready [] 300 0 device (notify_poll_end device) device-init (next here (polled refl))

-- The device once it has received three frames.
three_frames : Device
three_frames = record device { rx_ring = three_received }

three_received-Written :
    (j : ℕ)
    → j < 3
    → Written three_received ((three_received.ring.next_to_clean + j) % rx_desc_count)
unfolding three_received two_received received write_desc read_desc rx_desc_to_bytes
    bytes_to_rx_desc to_le_bytes from_le_bytes rx_done has
three_received-Written zero h = (refl, ((0x8000, 0), refl))
three_received-Written (suc zero) h = (refl, ((0x9000, 0), refl))
three_received-Written (suc (suc zero)) h = (refl, ((0xa000, 0), refl))
three_received-Written (suc (suc (suc j))) h = absurd (omega arith)

calls-receive-results_example :
    ((calls receive 3 three_frames).0 ≡ run (outcome three_frames) 3 (next_slot three_frames))
    × (next_slot (calls receive 3 three_frames).1 ≡ (next_slot three_frames + 3) % rx_desc_count)
    × IsValid (calls receive 3 three_frames).1.rx_ring
unfolding three_frames
calls-receive-results_example =
    calls-receive-results 3 three_frames (omega arith) three_received-IsValid three_received-Written

-- The frame with an error costs a call, and the one behind it is received.
three_outcomes :
    run (outcome_at three_received) 3 0 ≡ some (0x8000, 60) ∷ none ∷ some (0xa000, 60) ∷ []
unfolding three_received two_received received write_desc read_desc rx_desc_to_bytes
    bytes_to_rx_desc to_le_bytes from_le_bytes has_error has
three_outcomes = refl
