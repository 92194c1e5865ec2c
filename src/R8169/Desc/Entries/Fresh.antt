-- ===== src/R8169/Desc/Entries/Fresh.antt =====
-- `DescRing::new`: a ring that is handed out has room for its descriptors, and all are zero.
use driver_workflow.Prelude.{
  ℕ, ◌+◌, ◌-◌, ◌*◌, ◌/◌, ◌≤◌, ◌<◌, ◌≡◌, refl, ap, ◌∙◌, sym, subst, Option, none, some, arith, slice,
  replicate, slice-replicate, length-replicate,
}
use driver_workflow.Bytes.{from_le_bytes}
use driver_workflow.Dma.{Dma}
use driver_workflow.R8169.Desc.{RawDesc, DescRing, desc_size, new, map_ring, zeroed_ring}
use driver_workflow.R8169.Desc.Entries.{entry, word_at}
use driver_workflow.R8169.Desc.Entries.Access.{IsRing}

-- `RawDesc::zeroed()`
abbrev pub zeroed : RawDesc
zeroed = record { opts1 = 0; opts2 = 0; addr_lo = 0; addr_hi = 0 }

module _ ⦃d : Dma⦄ where
  zero_bytes :
      (m : d.Mem) (n o : ℕ)
      → n ≤ d.size m
      → o + 4 ≤ n
      → word_at (d.copy_in m 0 (replicate n 0)) o ≡ 0
  unfolding word_at from_le_bytes
  zero_bytes m n o fits h =
      let m' = d.copy_in m 0 (replicate n 0) in
      let whole : d.copy_out m' 0 n ≡ replicate n 0 =
        d.copy_out-copy_in_same m 0 n _ (sym (length-replicate n 0)) (omega arith) in
      let part : d.copy_out m' o 4 ≡ replicate 4 0 =
        ap (λ (p : ℕ). d.copy_out m' p 4) (omega arith)
        ∙ sym (d.slice-copy_out m' 0 n o 4 h)
        ∙ ap (slice o 4) whole
        ∙ slice-replicate o 4 n 0 h in
      rw part (omega arith)

  zeroed_ring_lem :
      (n : ℕ) (m : Option d.Mem) (r : DescRing)
      → ((b : d.Mem) → m ≡ some b → n * desc_size ≤ d.size b)
      → zeroed_ring n m ≡ some r
      → IsRing n r × ((i : ℕ) → i < n → entry r i ≡ zeroed)
  unfolding zeroed_ring entry
  zeroed_ring_lem n none r fits e = cc
  zeroed_ring_lem n (some b) r fits e =
      let total = n * desc_size in
      let m' = d.copy_in b 0 (replicate total 0) in
      let room : total ≤ d.size b = fits b refl in
      let same : d.size m' ≡ d.size b = d.size-copy_in b 0 (replicate total 0) in
      let is : record { dma = m'; count = n } ≡ r =
        ground (arith, d.open_always b, d.syncs_within m' 0 total) in
      (
        subst (IsRing n) is (record { counted = refl; fits = omega arith }),
        λ i h. rw (← is) (
            ground (
              arith,
              zero_bytes b total (i * 16) room,
              zero_bytes b total (i * 16 + 4) room,
              zero_bytes b total (i * 16 + 8) room,
              zero_bytes b total (i * 16 + 12) room,
            )),
      )

  map_ring_lem :
      (n : ℕ) (a : Option d.Segment × d.Heap) (r : DescRing)
      → ((s : d.Segment) (b : d.Mem)
          → a.0 ≡ some s
          → d.map_segment s ≡ some b
          → n * desc_size ≤ d.size b)
      → (map_ring n a).0 ≡ some r
      → IsRing n r × ((i : ℕ) → i < n → entry r i ≡ zeroed)
  unfolding map_ring
  map_ring_lem n (none, h) r fits e = cc
  map_ring_lem n (some s, h) r fits e =
      zeroed_ring_lem n (d.map_segment s) r (λ b q. fits s b refl q) e

  -- A ring that `DescRing::new` hands out has room for its descriptors, and all of them are zero.
  pub new_lem :
      (h : d.Heap) (n : ℕ) (r : DescRing)
      → (new h n).0 ≡ some r
      → IsRing n r × ((i : ℕ) → i < n → entry r i ≡ zeroed)
  unfolding new
  new_lem h n r e =
      let pages = (n * desc_size + 4096 - 1) / 4096 in
      let a = d.alloc_segment h pages in
      map_ring_lem n a r
        (λ s b p q. omega (arith, d.size-map h pages a.1 s b (ap (λ o. (o, a.1)) p) q)) e
