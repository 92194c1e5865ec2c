-- ===== src/R8169/Rx/Tests.antt =====
-- The receive ring on concrete inputs, and the theorems about it at such inputs.
use driver_workflow.Prelude.{
  ◌≡◌, ◌⊎◌, ◌^◌, refl, true, false, none, some, Option, [], ◌∷◌, arith, replicate, length-replicate,
  get_or-replicate, bit_or,
}
use driver_workflow.Sample.{byte_memory, Bytes, map_frames}
use driver_workflow.Bits.{has}
use driver_workflow.Bytes.{to_le_bytes, from_le_bytes}
use driver_workflow.R8169.Regs.{num_rx_desc, first_frag, last_frag}
use driver_workflow.R8169.Desc.{
  RawDesc, DescRing, new, write_desc, read_desc, read_opts1, is_fragmented_frame, desc_bytes,
}
use driver_workflow.R8169.Desc.Entries.Access.{IsRing, Updates-IsRing, write_desc_lem}
use driver_workflow.R8169.Rx.{
  RxDmaBuf, RxRing, RxCsumStatus, rx_csum, rx_vlan_tag, swap_bytes, new_rx_ring, fill, no_stats,
  rtl_rx, poll_one, poll_desc, read_packet, empty_ring,
}
use driver_workflow.R8169.Rx.Inv.{IsValid}
use driver_workflow.R8169.Rx.Slots.{IsEmpty}
use driver_workflow.R8169.Rx.Fill.{IsFull, fill_cases, new_rx_ring-IsEmpty}
use driver_workflow.R8169.Rx.Receive.{Polls, rtl_rx-Polls}

-- The examples of the driver's own tests.
rx_csum_tcp : rx_csum (2 ^ 17) ≡ RxCsumStatus.unnecessary
unfolding rx_csum
rx_csum_tcp = refl

rx_csum_with_fail : rx_csum (bit_or (2 ^ 17) (2 ^ 14)) ≡ RxCsumStatus.none_checked
unfolding rx_csum
rx_csum_with_fail = refl

rx_vlan_tag_present : rx_vlan_tag (bit_or (2 ^ 16) 0x1234) ≡ some 0x3412
unfolding rx_vlan_tag has swap_bytes
rx_vlan_tag_present = refl

page : Bytes
page = byte_memory.copy_in (map_frames (record { first = 0; pages = 1 })) 0 (replicate 4096 0)

-- A whole frame of 6 octets and its checksum, in the first descriptor.
whole_frame : RawDesc
whole_frame = record {
  opts1 = bit_or (bit_or first_frag last_frag) 10;
  opts2 = 0;
  addr_lo = 0;
  addr_hi = 0;
}

zero_ring : DescRing
unfolding page
zero_ring = record { dma = page; count = 256 }

zero_ring-IsRing : IsRing num_rx_desc zero_ring
unfolding zero_ring page
zero_ring-IsRing = record { counted = refl; fits = omega arith }

large_buf : RxDmaBuf
large_buf = record { stream = map_frames (record { first = 1; pages = 4 }) }

received : RxRing
unfolding zero_ring whole_frame
received = record {
  ring = (write_desc zero_ring 0 whole_frame).1;
  slots = replicate num_rx_desc (some large_buf);
  cur_rx = 0;
}

received-IsValid : IsValid received
unfolding received whole_frame large_buf
received-IsValid = record {
  is_ring =
      Updates-IsRing
        (write_desc_lem num_rx_desc zero_ring 0 whole_frame zero_ring-IsRing (omega arith)
          (omega arith)).1
        zero_ring-IsRing;
  slots_count = length-replicate {A = Option RxDmaBuf} num_rx_desc (some large_buf);
  cur_fits = omega arith;
  buffered = λ i h. record {
    buf = large_buf;
    kept = get_or-replicate num_rx_desc (some large_buf) i none h;
    room = omega arith;
  };
}

received_once : (rtl_rx received 1).packets ≡ (replicate 6 0) ∷ []
unfolding rtl_rx poll_one poll_desc read_packet received large_buf to_le_bytes from_le_bytes
    zero_ring page whole_frame write_desc desc_bytes read_desc read_opts1 is_fragmented_frame has
received_once = refl

rtl_rx-Polls_example :
    Polls 300 (record { rx = received; packets = []; stats = no_stats }) (rtl_rx received 300)
rtl_rx-Polls_example = rtl_rx-Polls received 300 received-IsValid

fresh_ring : RxRing
unfolding zero_ring
fresh_ring = record { ring = zero_ring; slots = replicate num_rx_desc none; cur_rx = 0 }

fresh_ring-new : (new_rx_ring 0).0 ≡ some fresh_ring
unfolding new_rx_ring empty_ring new fresh_ring zero_ring page
fresh_ring-new = refl

fresh_ring-IsEmpty : IsEmpty fresh_ring
fresh_ring-IsEmpty = new_rx_ring-IsEmpty 0 fresh_ring fresh_ring-new

fill_cases_example :
    let r = (fill fresh_ring 1).0 in ((r.0 ≡ true) × IsFull r.1) ⊎ ((r.0 ≡ false) × IsEmpty r.1)
fill_cases_example = fill_cases fresh_ring 1 fresh_ring-IsEmpty.sized
