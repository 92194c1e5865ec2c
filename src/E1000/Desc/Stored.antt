-- ===== src/E1000/Desc/Stored.antt =====
-- The legacy descriptors as 16 bytes, and in the memory of a ring.
use driver_workflow.Prelude.{ℕ, ◌+◌, ◌*◌, ◌^◌, ◌≤◌, ◌<◌, ◌≡◌, ◌≢◌, ◌⊎◌, sym, arith, List, length}
use driver_workflow.Bytes.{to_le_bytes, from_le_bytes-to_le_bytes}
use driver_workflow.Dma.{Dma}
use driver_workflow.E1000.Desc.{
  E1000RxDesc, E1000TxDesc, tx_desc_bytes, bytes_tx_desc, rx_desc_to_bytes, bytes_to_rx_desc,
}

-- Every field fits its width.
pub record IsTxDesc (e : E1000TxDesc) : Type 0 where
  pub addr_fits : e.buffer_addr < 2 ^ 64
  pub lower_fits : e.lower < 2 ^ 32
  pub upper_fits : e.upper < 2 ^ 32

pub record IsRxDesc (e : E1000RxDesc) : Type 0 where
  pub addr_fits : e.buffer_addr < 2 ^ 64
  pub length_fits : e.length < 2 ^ 16
  pub csum_fits : e.csum < 2 ^ 16
  pub special_fits : e.special < 2 ^ 16

-- A transmit descriptor whose fields fit their widths comes back from its 16 bytes.
pub bytes_tx_desc-tx_desc_bytes :
    (e : E1000TxDesc) → IsTxDesc e → bytes_tx_desc (tx_desc_bytes e) ≡ e
unfolding bytes_tx_desc tx_desc_bytes to_le_bytes
bytes_tx_desc-tx_desc_bytes e v = ground (
  arith,
  from_le_bytes-to_le_bytes 8 e.buffer_addr (omega arith),
  from_le_bytes-to_le_bytes 4 e.lower (omega arith),
  from_le_bytes-to_le_bytes 4 e.upper (omega arith),
)

-- A receive descriptor whose fields fit their widths comes back from its 16 bytes.
pub bytes_to_rx_desc-rx_desc_to_bytes :
    (e : E1000RxDesc) → IsRxDesc e → bytes_to_rx_desc (rx_desc_to_bytes e) ≡ e
unfolding bytes_to_rx_desc rx_desc_to_bytes to_le_bytes
bytes_to_rx_desc-rx_desc_to_bytes e v = ground (
  arith,
  from_le_bytes-to_le_bytes 8 e.buffer_addr (omega arith),
  from_le_bytes-to_le_bytes 2 e.length (omega arith),
  from_le_bytes-to_le_bytes 2 e.csum (omega arith),
  from_le_bytes-to_le_bytes 2 e.special (omega arith),
)

module _ ⦃d : Dma⦄ where
  -- 16 bytes stored at an index come back there and nowhere else.
  pub stored_same :
      (m : d.Mem) (i n : ℕ) (bs : List ℕ)
      → length bs ≡ 16
      → i < n
      → n * 16 ≤ d.size m
      → d.copy_out (d.copy_in m (i * 16) bs) (i * 16) 16 ≡ bs
  stored_same m i n bs e h fits = d.copy_out-copy_in_same m (i * 16) 16 bs (sym e) (omega arith)

  pub stored_ne :
      (m : d.Mem) (i j : ℕ) (bs : List ℕ)
      → length bs ≡ 16
      → j ≢ i
      → d.copy_out (d.copy_in m (i * 16) bs) (j * 16) 16 ≡ d.copy_out m (j * 16) 16
  stored_ne m i j bs e ne = d.copy_out-copy_in_apart m (i * 16) bs (j * 16) 16 (rw e apart)
    where
      apart : (j * 16 + 16 ≤ i * 16) ⊎ (i * 16 + 16 ≤ j * 16)
      apart = grind arith
