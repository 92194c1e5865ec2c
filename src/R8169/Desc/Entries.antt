-- ===== src/R8169/Desc/Entries.antt =====
-- The ring as an array of descriptors: what each accessor of desc.rs does to the entries.
pub mod Access
pub mod Fresh
use native.Mathlib.Nat.{add_assoc}
use driver_workflow.Prelude.{
  ℕ, ◌+◌, ◌*◌, ◌^◌, ◌≤◌, ◌<◌, ◌≡◌, ◌≢◌, ◌⊎◌, inl, inr, refl, sym, ap, bit_and, bit_or, Bool, true,
  Option, none, some, List, ◌++◌, arith, ◌==◌, if◌then◌else◌, length,
}
use driver_workflow.Bytes.{
  to_le_bytes, from_le_bytes, length-to_le_bytes, from_le_bytes-to_le_bytes,
}
use driver_workflow.Dma.{Dma}
use driver_workflow.R8169.Regs.{desc_own, ring_end, rx_buf_size}
use driver_workflow.R8169.Desc.{
  RawDesc, DescRing, desc_size, desc_bytes, write_desc, read_desc, write_opts1, read_opts1,
  mark_to_asic, set_ring_end,
}

-- Every field fits a `u32`.
pub record IsDesc (e : RawDesc) : Type 0 where
  pub opts1_fits : e.opts1 < 2 ^ 32
  pub opts2_fits : e.opts2 < 2 ^ 32
  pub addr_lo_fits : e.addr_lo < 2 ^ 32
  pub addr_hi_fits : e.addr_hi < 2 ^ 32

module _ ⦃d : Dma⦄ where
  -- The `u32` at an offset.
  pub word_at : d.Mem → ℕ → ℕ
  word_at m o = from_le_bytes (d.copy_out m o 4)

  store : d.Mem → ℕ → ℕ → d.Mem
  store m o v = d.copy_in m o (to_le_bytes 4 v)

  word_at-store :
      (m : d.Mem) (o v : ℕ) → v < 2 ^ 32 → o + 4 ≤ d.size m → word_at (store m o v) o ≡ v
  unfolding word_at store
  word_at-store m o v h fits =
      rw (d.copy_out-copy_in_same m o 4 (to_le_bytes 4 v) (sym (length-to_le_bytes 4 v)) fits)
        (from_le_bytes-to_le_bytes 4 v (omega arith))

  word_at-store_ne :
      (m : d.Mem) (o v p : ℕ) → (p + 4 ≤ o) ⊎ (o + 4 ≤ p) → word_at (store m o v) p ≡ word_at m p
  unfolding word_at store
  word_at-store_ne m o v p h =
      ap from_le_bytes
        (d.copy_out-copy_in_apart m o (to_le_bytes 4 v) p 4 (rw (length-to_le_bytes 4 v) h))

  size-store : (m : d.Mem) (o v : ℕ) → d.size (store m o v) ≡ d.size m
  unfolding store
  size-store m o v = d.size-copy_in m o (to_le_bytes 4 v)

  store_desc : d.Mem → ℕ → RawDesc → d.Mem
  store_desc m o e =
      store (store (store (store m o e.opts1) (o + 4) e.opts2) (o + 8) e.addr_lo) (o + 12) e.addr_hi

  copy_in-desc_bytes :
      (m : d.Mem) (o : ℕ) (e : RawDesc) → d.copy_in m o (desc_bytes e) ≡ store_desc m o e
  unfolding desc_bytes store_desc store
  copy_in-desc_bytes m o e = simp (d.copy_in-append, length-to_le_bytes, add_assoc)

  -- The descriptor at an offset, and the one at an index of a ring.
  desc_at : d.Mem → ℕ → RawDesc
  unfolding word_at
  desc_at m o = record {
    opts1 = word_at m o;
    opts2 = word_at m (o + 4);
    addr_lo = word_at m (o + 8);
    addr_hi = word_at m (o + 12);
  }

  unfoldable pub entry : DescRing → ℕ → RawDesc
  unfolding desc_at word_at
  entry r i = desc_at r.dma (i * desc_size)

  desc_at-store_desc :
      (m : d.Mem) (o : ℕ) (e : RawDesc)
      → IsDesc e
      → o + 16 ≤ d.size m
      → desc_at (store_desc m o e) o ≡ e
  unfolding desc_at store_desc
  desc_at-store_desc m o e v fits =
      let m1 = store m o e.opts1 in
      let m2 = store m1 (o + 4) e.opts2 in
      let m3 = store m2 (o + 8) e.addr_lo in
      ground (
        arith,
        word_at-store m o e.opts1,
        word_at-store m1 (o + 4) e.opts2,
        word_at-store m2 (o + 8) e.addr_lo,
        word_at-store m3 (o + 12) e.addr_hi,
        word_at-store_ne m1 (o + 4) e.opts2 o,
        word_at-store_ne m2 (o + 8) e.addr_lo o,
        word_at-store_ne m2 (o + 8) e.addr_lo (o + 4),
        word_at-store_ne m3 (o + 12) e.addr_hi o,
        word_at-store_ne m3 (o + 12) e.addr_hi (o + 4),
        word_at-store_ne m3 (o + 12) e.addr_hi (o + 8),
        size-store m o e.opts1,
        size-store m1 (o + 4) e.opts2,
        size-store m2 (o + 8) e.addr_lo,
      )

  -- A word store elsewhere leaves a descriptor alone.
  desc_at-store_ne :
      (m : d.Mem) (o v p : ℕ) → (p + 16 ≤ o) ⊎ (o + 4 ≤ p) → desc_at (store m o v) p ≡ desc_at m p
  unfolding desc_at
  desc_at-store_ne m o v p h = ground (
    arith,
    word_at-store_ne m o v p,
    word_at-store_ne m o v (p + 4),
    word_at-store_ne m o v (p + 8),
    word_at-store_ne m o v (p + 12),
  )

  desc_at-store_desc_ne :
      (m : d.Mem) (o : ℕ) (e : RawDesc) (p : ℕ)
      → (p + 16 ≤ o) ⊎ (o + 16 ≤ p)
      → desc_at (store_desc m o e) p ≡ desc_at m p
  unfolding store_desc
  desc_at-store_desc_ne m o e p h =
      let m1 = store m o e.opts1 in
      let m2 = store m1 (o + 4) e.opts2 in
      let m3 = store m2 (o + 8) e.addr_lo in
      ground (
        arith,
        desc_at-store_ne m o e.opts1 p,
        desc_at-store_ne m1 (o + 4) e.opts2 p,
        desc_at-store_ne m2 (o + 8) e.addr_lo p,
        desc_at-store_ne m3 (o + 12) e.addr_hi p,
      )

  size-store_desc : (m : d.Mem) (o : ℕ) (e : RawDesc) → d.size (store_desc m o e) ≡ d.size m
  unfolding store_desc
  size-store_desc m o e = simp size-store

  -- A store of the first or the second word of a descriptor.
  desc_at-store_opts1 :
      (m : d.Mem) (o v : ℕ)
      → v < 2 ^ 32
      → o + 16 ≤ d.size m
      → desc_at (store m o v) o ≡ record (desc_at m o) { opts1 = v }
  unfolding desc_at
  desc_at-store_opts1 m o v h fits = ground (
    arith,
    word_at-store m o v,
    word_at-store_ne m o v (o + 4),
    word_at-store_ne m o v (o + 8),
    word_at-store_ne m o v (o + 12),
  )

  desc_at-store_opts2 :
      (m : d.Mem) (o v : ℕ)
      → v < 2 ^ 32
      → o + 16 ≤ d.size m
      → desc_at (store m (o + 4) v) o ≡ record (desc_at m o) { opts2 = v }
  unfolding desc_at
  desc_at-store_opts2 m o v h fits = ground (
    arith,
    word_at-store m (o + 4) v,
    word_at-store_ne m (o + 4) v o,
    word_at-store_ne m (o + 4) v (o + 8),
    word_at-store_ne m (o + 4) v (o + 12),
  )
