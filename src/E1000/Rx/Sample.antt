-- ===== src/E1000/Rx/Sample.antt =====
-- Receive rings to run the model on.
use driver_workflow.Prelude.{refl, none, some, arith, replicate, set}
use driver_workflow.Sample.{byte_memory, write_log, counted_pool, map_frames}
use driver_workflow.E1000.Desc.{E1000RxDesc, new}
use driver_workflow.E1000.Rx.{RxRing, rx_desc_count, write_desc}
use driver_workflow.E1000.Rx.Inv.{IsValid}

-- A done descriptor of a whole frame of 60 octets.
abbrev pub done_desc : E1000RxDesc
done_desc = record {
  buffer_addr = 0x8000;
  length = 60;
  csum = 0;
  status = 3;
  errors = 0;
  special = 0;
}

unfoldable pub received : RxRing
received = record {
  desc_dma = write_desc (map_frames (record { first = 0; pages = 1 })) 0 done_desc;
  ring = new rx_desc_count;
  buffers = set (replicate rx_desc_count none) 0 (some (0x8000, 0));
}

pub received-IsValid : IsValid received
unfolding received write_desc
received-IsValid = record {
  fits = omega arith;
  counted = refl;
  in_ring = record { use_in = omega arith; clean_in = omega arith };
  buffers_count = refl;
}

-- Two frames, the second of which is received after the pool ran dry.
unfoldable pub two_received : RxRing
unfolding received
two_received = record received {
  desc_dma = write_desc received.desc_dma 1 done_desc;
  buffers = set received.buffers 1 (some (0x9000, 0));
}

pub two_received-IsValid : IsValid two_received
unfolding two_received received write_desc
two_received-IsValid = record {
  fits = omega arith;
  counted = refl;
  in_ring = record { use_in = omega arith; clean_in = omega arith };
  buffers_count = refl;
}

-- Three frames, the second of which has an error.
unfoldable pub three_received : RxRing
unfolding two_received received
three_received = record received {
  desc_dma =
      write_desc (write_desc received.desc_dma 1 (record done_desc { errors = 1 })) 2 done_desc;
  buffers = set (set received.buffers 1 (some (0x9000, 0))) 2 (some (0xa000, 0));
}

pub three_received-IsValid : IsValid three_received
unfolding three_received two_received received write_desc
three_received-IsValid = record {
  fits = omega arith;
  counted = refl;
  in_ring = record { use_in = omega arith; clean_in = omega arith };
  buffers_count = refl;
}
