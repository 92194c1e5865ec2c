-- ===== src/E1000/Rx/Inv.antt =====
-- The invariant of the receive ring, and a slot that is filled.
use driver_workflow.Prelude.{
  ℕ, ◌+◌, ◌*◌, ◌%◌, ◌≤◌, ◌<◌, ◌≡◌, ◌≢◌, ◌⊎◌, inl, inr, refl, ap, ◌∙◌, Option, none, some, arith,
  length, get_or, length-set, get_or-set, get_or-set_self,
}
use driver_workflow.Bytes.{to_le_bytes}
use driver_workflow.Dma.{Dma}
use driver_workflow.Pool.{RxPool}
use driver_workflow.E1000.Desc.{
  DescRing, E1000RxDesc, advance_clean, rx_desc_to_bytes, bytes_to_rx_desc,
}
use driver_workflow.E1000.Desc.Index.{IsInRing, next-mod}
use driver_workflow.E1000.Desc.Stored.{
  IsRxDesc, bytes_to_rx_desc-rx_desc_to_bytes, stored_same, stored_ne,
}
use driver_workflow.E1000.Rx.{RxRing, rx_desc_count, read_desc, write_desc, buffer_desc, put_buffer}

module _ ⦃d : Dma⦄ ⦃p : RxPool⦄ where
  pub record IsValid (q : RxRing) : Type 0 where
    pub fits : rx_desc_count * 16 ≤ d.size q.desc_dma
    pub counted : q.ring.count ≡ rx_desc_count
    pub in_ring : IsInRing q.ring
    pub buffers_count : length q.buffers ≡ rx_desc_count

  abbrev pub buffer_at : RxRing → ℕ → Option p.RxBuffer
  buffer_at q i = get_or q.buffers i none

  -- Nothing but the slot and the descriptor at `i` differs.
  pub record Keeps (q : RxRing) (i : ℕ) (u : RxRing) : Type 0 where
    pub buffers_kept : (j : ℕ) → j ≢ i → buffer_at u j ≡ buffer_at q j
    pub descs_kept : (j : ℕ) → j ≢ i → read_desc u.desc_dma j ≡ read_desc q.desc_dma j

  pub length-rx_desc_to_bytes : (e : E1000RxDesc) → length (rx_desc_to_bytes e) ≡ 16
  unfolding rx_desc_to_bytes to_le_bytes
  length-rx_desc_to_bytes e = refl

  -- A buffer's descriptor written to the ring is read back, and no other changes.
  pub read_desc-write_desc :
      (m : d.Mem) (i : ℕ) (b : p.RxBuffer)
      → i < rx_desc_count
      → rx_desc_count * 16 ≤ d.size m
      → (read_desc (write_desc m i (buffer_desc b)) i ≡ buffer_desc b)
        × ((j : ℕ) → j ≢ i → read_desc (write_desc m i (buffer_desc b)) j ≡ read_desc m j)
        × (d.size (write_desc m i (buffer_desc b)) ≡ d.size m)
  unfolding read_desc write_desc
  read_desc-write_desc m i b h fits =
      let e = buffer_desc b in
      let v : IsRxDesc e = omega arith in
      (
        ap bytes_to_rx_desc (stored_same m i rx_desc_count _ (length-rx_desc_to_bytes e) h fits)
            ∙ bytes_to_rx_desc-rx_desc_to_bytes e v,
        λ j ne. ap bytes_to_rx_desc (stored_ne m i j _ (length-rx_desc_to_bytes e) ne),
        d.size-copy_in m (i * 16) (rx_desc_to_bytes e),
      )

  -- The slot at `i` after a refill out of `pool`.
  abbrev pub Refilled : RxRing → ℕ → p.Pool → RxRing → Type 0
  Refilled q i pool u =
      ((b : p.RxBuffer) × ((p.take_buffer pool).0 ≡ some b)
        × (buffer_at u i ≡ some b)
        × (read_desc u.desc_dma i ≡ buffer_desc b))
      ⊎ (((p.take_buffer pool).0 ≡ none)
          × (buffer_at u i ≡ none)
          × (read_desc u.desc_dma i ≡ read_desc q.desc_dma i))

  -- A refill of the slot at `i`, whose buffer was taken.
  pub put_buffer_lem :
      (q : RxRing) (i : ℕ) (pool : p.Pool) (a : Option p.RxBuffer × p.Pool)
      → p.take_buffer pool ≡ a
      → IsValid q
      → i < rx_desc_count
      → buffer_at q i ≡ none
      → let u = (put_buffer q i a).0.1 in
        IsValid u × Keeps q i u × Refilled q i pool u × (u.ring ≡ q.ring)
  unfolding put_buffer
  put_buffer_lem q i pool (none, pool') e v h empty = (
    v,
    record { buffers_kept = λ j ne. refl; descs_kept = λ j ne. refl },
    inr (ap (λ (a : Option p.RxBuffer × p.Pool). a.0) e, empty, refl),
    refl,
  )
  put_buffer_lem q i pool (some b, pool') e v h empty =
      let (same, others, size) = read_desc-write_desc q.desc_dma i b h v.fits in
      let in_range : i < length q.buffers = omega (arith, v.buffers_count) in
      (
        record {
          fits = omega (arith, v.fits, size);
          counted = v.counted;
          in_ring = v.in_ring;
          buffers_count = length-set q.buffers i (some b) ∙ v.buffers_count;
        },
        record {
          buffers_kept = λ j ne. get_or-set q.buffers i (some b) j none in_range ∙ ground arith;
          descs_kept = others;
        },
        inl (
          b,
          ap (λ (a : Option p.RxBuffer × p.Pool). a.0) e,
          get_or-set_self q.buffers i (some b) none in_range,
          same,
        ),
        refl,
      )

  pub advance-IsInRing :
      (r : DescRing)
      → IsInRing r
      → r.count ≡ rx_desc_count
      → IsInRing (advance_clean r)
        × ((advance_clean r).next_to_clean ≡ (r.next_to_clean + 1) % rx_desc_count)
  unfolding advance_clean
  advance-IsInRing r v e =
      let n = next-mod r.next_to_clean r.count v.clean_in in
      (
        record { use_in = v.use_in; clean_in = ground (arith, n, v.clean_in) },
        ap (λ (k : ℕ). (r.next_to_clean + 1) % k) e,
      )
