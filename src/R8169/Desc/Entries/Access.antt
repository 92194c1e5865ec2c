-- ===== src/R8169/Desc/Entries/Access.antt =====
-- Each accessor of desc.rs on a ring whose memory holds all its descriptors: it succeeds, and
-- changes one entry.
use driver_workflow.Prelude.{
  ℕ, suc, ◌+◌, ◌-◌, ◌*◌, ◌^◌, ◌≤◌, ◌<◌, ◌≡◌, ◌≢◌, ◌⊎◌, refl, ap, ◌∙◌, bit_and, bit_or, true, some,
  arith, ==_false,
}
use driver_workflow.Bits.{bit_or-lt, bit_and-le}
use driver_workflow.Bytes.{from_le_bytes}
use driver_workflow.Dma.{Dma}
use driver_workflow.R8169.Regs.{desc_own, ring_end, rx_buf_size}
use driver_workflow.R8169.Desc.{
  RawDesc, DescRing, desc_size, write_desc, read_desc, write_opts1, read_opts1, mark_to_asic,
  set_ring_end, rearm, end_at,
}
use native.Mathlib.Nat.{add-zero}
use driver_workflow.R8169.Desc.Entries.{
  IsDesc, entry, word_at, store, store_desc, copy_in-desc_bytes, size-store_desc,
  desc_at-store_desc, desc_at-store_desc_ne, desc_at-store_ne, desc_at-store_opts1,
  desc_at-store_opts2, size-store,
}

module _ ⦃d : Dma⦄ where
  -- The ring's memory holds `n` descriptors.
  pub record IsRing (n : ℕ) (r : DescRing) : Type 0 where
    pub counted : r.count ≡ n
    pub fits : n * desc_size ≤ d.size r.dma

  -- `s` is `r` with the descriptor at `i` replaced by `e`.
  pub record Updates (r : DescRing) (i : ℕ) (e : RawDesc) (s : DescRing) : Type 0 where
    pub count_kept : s.count ≡ r.count
    pub size_kept : d.size s.dma ≡ d.size r.dma
    pub written : entry s i ≡ e
    pub others_kept : (j : ℕ) → j ≢ i → entry s j ≡ entry r j

  pub Updates-IsRing :
      {n : ℕ} {r : DescRing} {i : ℕ} {e : RawDesc} {s : DescRing}
      → Updates r i e s
      → IsRing n r
      → IsRing n s
  Updates-IsRing u v = omega (arith, u.count_kept, u.size_kept)

  pub read_opts1_lem :
      (n : ℕ) (r : DescRing) (i : ℕ) → IsRing n r → i < n → read_opts1 r i ≡ some (entry r i).opts1
  unfolding read_opts1 entry word_at
  read_opts1_lem n r i v h =
      ground (arith, d.open_always r.dma, d.syncs_within r.dma (i * desc_size) (i * desc_size + 4))

  pub read_desc_lem :
      (n : ℕ) (r : DescRing) (i : ℕ) → IsRing n r → i < n → read_desc r i ≡ some (entry r i)
  unfolding read_desc entry word_at
  read_desc_lem n r i v h =
      let o = i * desc_size in
      ground (
        arith,
        d.open_always r.dma,
        d.syncs_within r.dma o (o + 16),
        ap from_le_bytes (d.slice-copy_out r.dma o 16 0 4 (omega arith)),
        ap from_le_bytes (d.slice-copy_out r.dma o 16 4 4 (omega arith)),
        ap from_le_bytes (d.slice-copy_out r.dma o 16 8 4 (omega arith)),
        ap from_le_bytes (d.slice-copy_out r.dma o 16 12 4 (omega arith)),
        ap (λ (p : ℕ). d.copy_out r.dma p 4) (add-zero o),
      )

  -- A store of a whole descriptor, and of a word of one.
  store_desc-Updates :
      (n : ℕ) (r : DescRing) (i : ℕ) (e : RawDesc)
      → IsRing n r
      → i < n
      → IsDesc e
      → Updates r i e (record r { dma = store_desc r.dma (i * desc_size) e })
  unfolding entry
  store_desc-Updates n r i e v h w = record {
    count_kept = refl;
    size_kept = size-store_desc r.dma (i * desc_size) e;
    written = desc_at-store_desc r.dma (i * desc_size) e w (omega arith);
    others_kept =
        λ j ne. desc_at-store_desc_ne r.dma (i * desc_size) e (j * desc_size) (apart j ne);
  }
    where
      apart :
          (j : ℕ)
          → j ≢ i
          → (j * desc_size + 16 ≤ i * desc_size) ⊎ (i * desc_size + 16 ≤ j * desc_size)
      apart j ne = grind arith

  pub write_desc_lem :
      (n : ℕ) (r : DescRing) (i : ℕ) (e : RawDesc)
      → IsRing n r
      → i < n
      → IsDesc e
      → ((write_desc r i e).0 ≡ true) × Updates r i e (write_desc r i e).1
  unfolding write_desc
  write_desc_lem n r i e v h w =
      rw (d.open_always r.dma, copy_in-desc_bytes r.dma (i * desc_size) e)
        (
          d.syncs_within _ _ _ (omega (arith, size-store_desc r.dma (i * desc_size) e)),
          store_desc-Updates n r i e v h w,
        )

  apart : {i j : ℕ} → j ≢ i → (j * 16 + 16 ≤ i * 16) ⊎ (i * 16 + 16 ≤ j * 16)
  apart ne = grind arith

  store_opts1-Updates :
      (n : ℕ) (r : DescRing) (i v : ℕ)
      → IsRing n r
      → i < n
      → v < 2 ^ 32
      → Updates r i (record (entry r i) { opts1 = v }) (record r { dma = store r.dma (i * 16) v })
  unfolding entry
  store_opts1-Updates n r i v w h fits = record {
    count_kept = refl;
    size_kept = size-store r.dma (i * 16) v;
    written = desc_at-store_opts1 r.dma (i * 16) v fits (omega arith);
    others_kept = λ j ne. desc_at-store_ne r.dma (i * 16) v (j * 16) (grind (arith, apart ne));
  }

  store_opts2-Updates :
      (n : ℕ) (r : DescRing) (i v : ℕ)
      → IsRing n r
      → i < n
      → v < 2 ^ 32
      → Updates r i
          (record (entry r i) { opts2 = v })
          (record r { dma = store r.dma (i * 16 + 4) v })
  unfolding entry
  store_opts2-Updates n r i v w h fits = record {
    count_kept = refl;
    size_kept = size-store r.dma (i * 16 + 4) v;
    written = desc_at-store_opts2 r.dma (i * 16) v fits (omega arith);
    others_kept = λ j ne. desc_at-store_ne r.dma (i * 16 + 4) v (j * 16) (grind (arith, apart ne));
  }

  pub Updates-again :
      {r : DescRing} {i : ℕ} {e f : RawDesc} {s t : DescRing}
      → Updates r i e s
      → Updates s i f t
      → Updates r i f t
  Updates-again u v = record {
    count_kept = v.count_kept ∙ u.count_kept;
    size_kept = v.size_kept ∙ u.size_kept;
    written = v.written;
    others_kept = λ j ne. v.others_kept j ne ∙ u.others_kept j ne;
  }

  pub write_opts1_lem :
      (n : ℕ) (r : DescRing) (i v : ℕ)
      → IsRing n r
      → i < n
      → v < 2 ^ 32
      → ((write_opts1 r i v).0 ≡ true)
        × Updates r i (record (entry r i) { opts1 = v }) (write_opts1 r i v).1
  unfolding write_opts1 store
  write_opts1_lem n r i v w h fits = rw (d.open_always r.dma) (
    d.syncs_within _ _ _ (omega (arith, size-store r.dma (i * 16) v)),
    store_opts1-Updates n r i v w h fits,
  )

  -- What `mark_to_asic` makes of a descriptor.
  abbrev pub rearmed : RawDesc → RawDesc
  rearmed e = record e {
    opts1 = bit_or (bit_or desc_own (bit_and e.opts1 ring_end)) rx_buf_size;
    opts2 = 0;
  }

  rearmed-lt : (v : ℕ) → bit_or (bit_or desc_own (bit_and v ring_end)) rx_buf_size < 2 ^ 32
  rearmed-lt v =
      bit_or-lt 32 _ _ (bit_or-lt 32 _ _ (omega arith) (omega (arith, bit_and-le 30 v)))
        (omega arith)

  -- A descriptor in range is handed back to the hardware: owned, with the buffer's size, the end
  -- mark kept, `opts2` cleared and the address kept; no other descriptor changes.
  pub mark_to_asic_lem :
      (n : ℕ) (r : DescRing) (i : ℕ)
      → IsRing n r
      → i < n
      → ((mark_to_asic r i).0 ≡ true) × Updates r i (rearmed (entry r i)) (mark_to_asic r i).1
  unfolding mark_to_asic rearm store
  mark_to_asic_lem n r i v h =
      let new_opts1 = bit_or (bit_or desc_own (bit_and (entry r i).opts1 ring_end)) rx_buf_size in
      let mid : DescRing = record r { dma = store r.dma (i * 16 + 4) 0 } in
      let u = store_opts2-Updates n r i 0 v h (omega arith) in
      let (okay, w) =
        write_opts1_lem n mid i new_opts1 (Updates-IsRing u v) h (rearmed-lt (entry r i).opts1) in
      rw (read_opts1_lem n r i v h, rearm, d.open_always r.dma)
        (okay, Updates-again u (rw u.written at w))

  pub set_ring_end_lem :
      (n : ℕ) (r : DescRing)
      → IsRing (suc n) r
      → (entry r n).opts1 < 2 ^ 32
      → ((set_ring_end r (suc n)).0 ≡ true)
        × Updates r n
            (record (entry r n) { opts1 = bit_or (entry r n).opts1 ring_end })
            (set_ring_end r (suc n)).1
  unfolding set_ring_end end_at
  set_ring_end_lem n r v h =
      let last : suc n - 1 ≡ n = omega arith in
      rw
        (
          ==_false (suc n) 0 (omega arith),
          last,
          read_opts1_lem (suc n) r n v (omega arith),
          end_at,
          last,
        )
        (write_opts1_lem (suc n) r n _ v (omega arith) (bit_or-lt 32 _ _ h (omega arith)))
