-- ===== src/E1000/Desc.antt =====
-- kernel/comps/e1000/src/desc.rs: the legacy descriptors and the ring's two indices.
pub mod Index
pub mod Stored
use driver_workflow.Prelude.{
  ℕ, ◌+◌, ◌-◌, ◌*◌, ◌%◌, ◌^◌, bit_or, Bool, ◌==◌, if◌then◌else◌, ltb, List, [], ◌∷◌, ◌++◌, slice,
  get_or,
}
use driver_workflow.Bits.{has}
use driver_workflow.Bytes.{to_le_bytes, from_le_bytes}
use driver_workflow.E1000.Regs.{rxd_stat_dd, rxd_stat_eop, rxd_err_frame_err_mask}

pub record E1000RxDesc : Type 0 where
  pub buffer_addr : ℕ
  pub length : ℕ
  pub csum : ℕ
  pub status : ℕ
  pub errors : ℕ
  pub special : ℕ

-- `E1000RxDesc::done`
unfoldable pub rx_done : E1000RxDesc → Bool
rx_done e = has e.status rxd_stat_dd

-- `E1000RxDesc::has_error`
unfoldable pub has_error : E1000RxDesc → Bool
has_error e = has e.errors rxd_err_frame_err_mask

pub record E1000TxDesc : Type 0 where
  pub buffer_addr : ℕ
  pub lower : ℕ
  pub upper : ℕ

-- `E1000TxDesc::done`
unfoldable pub tx_done : E1000TxDesc → Bool
tx_done e = has e.upper 0x01

-- `E1000TxDesc::new_data`
unfoldable pub new_data : ℕ → ℕ → ℕ → E1000TxDesc
new_data buffer_addr length cmd = record {
  buffer_addr = buffer_addr;
  lower = bit_or length (cmd * 2 ^ 24 % 2 ^ 32);
  upper = 0;
}

-- `DescRing`
pub record DescRing : Type 0 where
  pub count : ℕ
  pub next_to_use : ℕ
  pub next_to_clean : ℕ

-- `DescRing::new`
abbrev pub new : ℕ → DescRing
new count = record { count = count; next_to_use = 0; next_to_clean = 0 }

-- `DescRing::advance_use`
unfoldable pub advance_use : DescRing → DescRing
advance_use r = record r { next_to_use = (r.next_to_use + 1) % r.count }

-- `DescRing::advance_clean`
unfoldable pub advance_clean : DescRing → DescRing
advance_clean r = record r { next_to_clean = (r.next_to_clean + 1) % r.count }

-- `DescRing::set_next_to_use`
abbrev pub set_next_to_use : DescRing → ℕ → DescRing
set_next_to_use r val = record r { next_to_use = val }

-- `DescRing::unused_count`; on the ring's own indices no subtraction falls below 0.
unfoldable pub unused_count : DescRing → ℕ
unused_count r =
    let clean = r.next_to_clean in
    let used = r.next_to_use in
    if ltb used clean then clean - used - 1 else r.count + clean - used - 1

-- `DescRing::is_full`
unfoldable pub is_full : DescRing → Bool
is_full r = unused_count r == 0

-- `bytemuck_cast_desc_to_bytes` and its inverse, of tx.rs.
unfoldable pub tx_desc_bytes : E1000TxDesc → List ℕ
tx_desc_bytes e = to_le_bytes 8 e.buffer_addr ++ (to_le_bytes 4 e.lower ++ to_le_bytes 4 e.upper)

unfoldable pub bytes_tx_desc : List ℕ → E1000TxDesc
bytes_tx_desc bytes = record {
  buffer_addr = from_le_bytes (slice 0 8 bytes);
  lower = from_le_bytes (slice 8 4 bytes);
  upper = from_le_bytes (slice 12 4 bytes);
}

-- `rx_desc_to_bytes` and `bytes_to_rx_desc` of rx.rs.
unfoldable pub rx_desc_to_bytes : E1000RxDesc → List ℕ
rx_desc_to_bytes e =
    to_le_bytes 8 e.buffer_addr
    ++ (to_le_bytes 2 e.length
        ++ (to_le_bytes 2 e.csum ++ (e.status ∷ e.errors ∷ to_le_bytes 2 e.special)))

unfoldable pub bytes_to_rx_desc : List ℕ → E1000RxDesc
bytes_to_rx_desc bytes = record {
  buffer_addr = from_le_bytes (slice 0 8 bytes);
  length = from_le_bytes (slice 8 2 bytes);
  csum = from_le_bytes (slice 10 2 bytes);
  status = get_or bytes 12 0;
  errors = get_or bytes 13 0;
  special = from_le_bytes (slice 14 2 bytes);
}
