-- ===== src/E1000e/Desc/Ring.antt =====
-- The descriptor ring of 256 slots: its indices, and one slot after it is refilled.
use driver_workflow.Prelude.{
  ℕ, ◌+◌, ◌-◌, ◌*◌, ◌%◌, ◌^◌, ◌≤◌, ◌<◌, ◌≡◌, ◌≢◌, refl, sym, ap, ◌∙◌, false, none, some, arith,
  length, length-set, get_or-set, length-append,
}
use driver_workflow.Bytes.{to_le_bytes, from_le_bytes, length-to_le_bytes}
use driver_workflow.Bits.{has}
use driver_workflow.Dma.{Dma}
use driver_workflow.Pool.{RxPool}
use driver_workflow.E1000e.Regs.{rx_desc_count}
use driver_workflow.E1000e.Desc.{
  DescRing, RxDescRead, rx_desc_of, rx_desc_read_bytes, is_done, read_desc, buffer, put_buffer,
  advance_index, unused_count, refill_desc,
}

length-rx_desc_read_bytes : (e : RxDescRead) → length (rx_desc_read_bytes e) ≡ 16
unfolding rx_desc_read_bytes
length-rx_desc_read_bytes e = omega (
  arith,
  length-append (to_le_bytes 8 e.buffer_addr) (to_le_bytes 8 e.reserved),
  length-to_le_bytes 8 e.buffer_addr,
  length-to_le_bytes 8 e.reserved,
)

-- A descriptor in the format that the driver writes is not done in the format that it reads.
is_done-rx_desc_of :
    (a : ℕ)
    → is_done (rx_desc_of (rx_desc_read_bytes (record { buffer_addr = a; reserved = 0 }))) ≡ false
unfolding is_done rx_desc_of rx_desc_read_bytes to_le_bytes from_le_bytes has
is_done-rx_desc_of a = refl

-- How far an index lies past another, on the ring.
abbrev pub past : ℕ → ℕ → ℕ
past c i = (i + rx_desc_count - c) % rx_desc_count

module _ ⦃d : Dma⦄ where
  -- The shape of the ring: 256 descriptors of 16 bytes in memory, a slot for each.
  pub record IsRing {B : Type 0} (q : DescRing B) : Type 0 where
    pub counted : q.count ≡ rx_desc_count
    pub sized : q.desc_size ≡ 16
    pub fits : rx_desc_count * 16 ≤ d.size q.ring
    pub slots : length q.buffers ≡ rx_desc_count

  pub advance_index-mod :
      {B : Type 0} (q : DescRing B) (i : ℕ)
      → IsRing q
      → i < rx_desc_count
      → advance_index q i ≡ (i + 1) % rx_desc_count
  advance_index-mod q i v h = ground (arith, v.counted)

  -- One of the 256 descriptors is never used.
  pub unused_count-past :
      {B : Type 0} (q : DescRing B)
      → IsRing q
      → q.next_to_use < rx_desc_count
      → q.next_to_clean < rx_desc_count
      → unused_count q + past q.next_to_clean q.next_to_use + 1 ≡ rx_desc_count
  unused_count-past q v hu hc = ground (arith, v.counted)

  -- A slot with its descriptor is the same in two rings.
  abbrev pub Same : {B : Type 0} → DescRing B → DescRing B → ℕ → Type 0
  Same q' q i = (buffer q' i ≡ buffer q i) × (read_desc q' i ≡ read_desc q i)

  -- The slot holds a buffer, under a descriptor that the device has not done.
  abbrev pub Filled : {B : Type 0} → DescRing B → ℕ → Type 0
  Filled {B} q i = (b : B) × (buffer q i ≡ some b) × (is_done (read_desc q i) ≡ false)

module _ ⦃d : Dma⦄ ⦃p : RxPool⦄ where
  abbrev pub refilled : DescRing p.RxBuffer → ℕ → p.RxBuffer → DescRing p.RxBuffer
  refilled q i b = record (put_buffer q i b) { ring = refill_desc q.ring i b }

  pub refilled-IsRing :
      (q : DescRing p.RxBuffer) (i : ℕ) (b : p.RxBuffer) → IsRing q → IsRing (refilled q i b)
  unfolding refill_desc
  refilled-IsRing q i b v = record {
    counted = v.counted;
    sized = v.sized;
    fits = omega (
      arith,
      v.fits,
      d.size-copy_in q.ring (i * 16)
          (rx_desc_read_bytes (record { buffer_addr = p.daddr b % 2 ^ 64; reserved = 0 })),
    );
    slots = length-set q.buffers i (some b) ∙ v.slots;
  }

  pub refilled-Filled :
      (q : DescRing p.RxBuffer) (i : ℕ) (b : p.RxBuffer)
      → IsRing q
      → i < rx_desc_count
      → Filled (refilled q i b) i
  unfolding refill_desc read_desc
  refilled-Filled q i b v h =
      let a = p.daddr b % 2 ^ 64 in
      let bs = rx_desc_read_bytes (record { buffer_addr = a; reserved = 0 }) in
      let stored : d.copy_out (d.copy_in q.ring (i * 16) bs) (i * 16) 16 ≡ bs =
        d.copy_out-copy_in_same q.ring (i * 16) 16 bs (sym (length-rx_desc_read_bytes _))
          (omega (arith, v.fits)) in
      (
        b,
        ground (arith, get_or-set q.buffers i (some b) i none (omega (arith, v.slots))),
        rw (v.sized, stored) (is_done-rx_desc_of a),
      )

  pub refilled-Same :
      (q : DescRing p.RxBuffer) (i : ℕ) (b : p.RxBuffer) (k : ℕ)
      → IsRing q
      → i < rx_desc_count
      → k ≢ i
      → Same (refilled q i b) q k
  unfolding refill_desc read_desc
  refilled-Same q i b k v h ne =
      let bs = rx_desc_read_bytes (record { buffer_addr = p.daddr b % 2 ^ 64; reserved = 0 }) in
      (
        ground (arith, get_or-set q.buffers i (some b) k none (omega (arith, v.slots))),
        rw (v.sized) (
            ap rx_desc_of (
              d.copy_out-copy_in_apart q.ring (i * 16) bs (k * 16) 16
                (rw (length-rx_desc_read_bytes _) (grind arith)))),
      )
