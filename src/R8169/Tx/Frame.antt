-- ===== src/R8169/Tx/Frame.antt =====
-- A frame to send: its padding, its buffer and its descriptor.
use driver_workflow.Prelude.{
  ℕ, ◌+◌, ◌-◌, ◌%◌, ◌^◌, ◌≤◌, ◌<◌, ◌≡◌, inl, inr, refl, sym, ap, ◌∙◌, ◌*◌, ◌++◌, subst, Bool, false,
  max, true, Option, none, some, List, arith, ◌==◌, if◌then◌else◌, leb, length, bit_or,
  length-append, length-replicate, replicate, Bool-cases, Option-cases,
}
use mathlib.Core.List.{append-nil}
use driver_workflow.Bits.{bit, bit-bit_or, bit_or-lt, bit-eq_zero_of_lt, bit_or_comm, bit_or-add}
use driver_workflow.Dma.{Dma}
use driver_workflow.R8169.Regs.{desc_own, ring_end, num_tx_desc, first_frag, last_frag}
use driver_workflow.R8169.Desc.{RawDesc, TxSlot, tx_slots_avail}
use driver_workflow.R8169.Desc.Entries.{IsDesc}
use driver_workflow.R8169.Tx.{
  TxRing, TxDmaBuf, fill_buf, map_buf, new_buf, pad_packet, mapped_desc, can_send, eth_zlen,
}
use driver_workflow.R8169.Tx.Inv.{IsValid, pending}

-- A frame is at least 60 bytes long, and longer ones are not changed.
pub length-pad_packet : (bytes : List ℕ) → length (pad_packet bytes) ≡ max eth_zlen (length bytes)
unfolding pad_packet
length-pad_packet bytes = ground (
  arith,
  length-append bytes (replicate (eth_zlen - length bytes) 0),
  length-replicate {A = ℕ} (eth_zlen - length bytes) 0,
)

-- The `opts1` that `start_xmit` writes for a frame of `len` bytes at index `i`.
abbrev pub frame_opts1 : ℕ → ℕ → ℕ
frame_opts1 len i =
    let base = bit_or (bit_or 0 (bit_or first_frag last_frag)) len in
    bit_or (if i == num_tx_desc - 1 then bit_or base ring_end else base) desc_own

frame_opts1-lt : (len i : ℕ) → len ≤ 4096 → frame_opts1 len i < 2 ^ 32
frame_opts1-lt len i h =
    let base = bit_or 0x3000_0000 len in
    let small : base < 2 ^ 32 = bit_or-lt 32 0x3000_0000 len (omega arith) (omega arith) in
    let big : bit_or base ring_end < 2 ^ 32 = bit_or-lt 32 base ring_end small (omega arith) in
    bit_or-lt 32 _ desc_own (ground arith) (omega arith)

-- The same by its parts: ownership, the marks of a whole frame, the end mark and the length.
pub frame_opts1-eq :
    (len i : ℕ)
    → len ≤ 4096
    → frame_opts1 len i
      ≡ 2 ^ 31 + (if i == num_tx_desc - 1 then 2 ^ 30 else 0) + 2 ^ 29 + 2 ^ 28 + len
frame_opts1-eq len i h = go (i == num_tx_desc - 1)
  where
    base : bit_or 0x3000_0000 len ≡ 0x3000_0000 + len
    base = bit_or_comm 0x3000_0000 len ∙ bit_or-add 16 len 0x3000 (omega arith) ∙ omega arith

    go :
        (last : Bool)
        → bit_or
            (if last then bit_or (bit_or 0x3000_0000 len) ring_end else bit_or 0x3000_0000 len)
            desc_own
          ≡ 2 ^ 31 + (if last then 2 ^ 30 else 0) + 2 ^ 29 + 2 ^ 28 + len
    go true =
        rw (base, bit_or-add 30 (0x3000_0000 + len) 1 (omega arith))
          (bit_or-add 31 (0x3000_0000 + len + 1 * 2 ^ 30) 1 (omega arith) ∙ omega arith)
    go false = rw base (bit_or-add 31 (0x3000_0000 + len) 1 (omega arith) ∙ omega arith)

-- A short packet is followed by zeros up to 60 bytes.
pub pad_packet-eq :
    (bytes : List ℕ) → pad_packet bytes ≡ bytes ++ replicate (eth_zlen - length bytes) 0
unfolding pad_packet
pad_packet-eq bytes = elim (Bool-cases (leb eth_zlen (length bytes))) [
  | inr short ↦ rw short refl
  | inl long ↦
      let none_missing : eth_zlen - length bytes ≡ 0 = ground (arith, long) in
      rw (long, none_missing) (sym (append-nil bytes))
]

pub frame_opts1-ends :
    (len i : ℕ) → len ≤ 4096 → bit (frame_opts1 len i) 30 ≡ (if i == num_tx_desc - 1 then 1 else 0)
frame_opts1-ends len i h =
    let base = bit_or 0x3000_0000 len in
    ground (
      arith,
      bit-bit_or 0x3000_0000 len 30,
      bit-bit_or base ring_end 30,
      bit-bit_or base desc_own 30,
      bit-bit_or (bit_or base ring_end) desc_own 30,
      bit-eq_zero_of_lt 30 len (omega arith),
      bits,
    )
  where
    bits : (bit 0x3000_0000 30 ≡ 0) × (bit ring_end 30 ≡ 1) × (bit desc_own 30 ≡ 0)
    bits = unfold bit in (refl, refl, refl)

module _ ⦃d : Dma⦄ where
  -- In a valid ring there is room for a frame exactly when two descriptors are free.
  pub can_send_iff : (t : TxRing) → IsValid t → can_send t ≡ leb (pending t + 2) num_tx_desc
  unfolding can_send tx_slots_avail
  can_send_iff t v = ground arith

  pub record IsFilled (bytes : List ℕ) (b : TxDmaBuf) : Type 0 where
    pub len_eq : b.len ≡ length bytes
    pub len_le : b.len ≤ 4096
    pub payload : d.copy_out b.stream 0 b.len ≡ bytes

  fill_buf-IsFilled :
      (bytes : List ℕ) (m : d.Mem) (b : TxDmaBuf)
      → d.size m ≡ 4096
      → fill_buf bytes (some m) ≡ some b
      → IsFilled bytes b
  unfolding fill_buf
  fill_buf-IsFilled bytes m b one e = elim (Bool-cases (d.syncs m' 0 (length bytes))) [
    | inl synced ↦
        let fits : length bytes ≤ 4096 =
          omega (arith, d.syncs_only_within m' 0 (length bytes) synced, d.size-copy_in m 0 bytes) in
        let whole = d.copy_out-copy_in_same m 0 (length bytes) bytes refl (omega arith) in
        subst (IsFilled bytes) (ground (arith, d.open_always m, synced))
          (record { len_eq = refl; len_le = fits; payload = whole })
    | inr failed ↦ ground (arith, failed)
  ]
    where
      m' : d.Mem
      m' = d.copy_in m 0 bytes

  map_buf-IsFilled :
      (a : Option d.Segment × d.Heap) (bytes : List ℕ) (b : TxDmaBuf)
      → ((s : d.Segment) (m : d.Mem) → a.0 ≡ some s → d.map_segment s ≡ some m → d.size m ≡ 4096)
      → (map_buf bytes a).0 ≡ some b
      → IsFilled bytes b
  unfolding map_buf
  map_buf-IsFilled (none, h) bytes b fits e = cc
  map_buf-IsFilled (some s, h) bytes b fits e = elim (Option-cases (d.map_segment s)) [
    | inl p ↦ unfold fill_buf in cc (ap (fill_buf bytes) p)
    | inr (m, p) ↦ fill_buf-IsFilled bytes m b (fits s m refl p) (rw p at e)
  ]

  -- A buffer that `TxDmaBuf::new` hands out holds the frame, which fits its page.
  pub new_buf-IsFilled :
      (h : d.Heap) (bytes : List ℕ) (b : TxDmaBuf) → (new_buf h bytes).0 ≡ some b → IsFilled bytes b
  unfolding new_buf
  new_buf-IsFilled h bytes b e =
      let a = d.alloc_segment h 1 in
      map_buf-IsFilled a bytes b (λ s m p q. d.size-map h 1 a.1 s m (ap (λ o. (o, a.1)) p) q) e

  -- What `start_xmit` maps.
  unfoldable pub frame_desc : TxDmaBuf → ℕ → RawDesc
  unfolding mapped_desc
  frame_desc b i = mapped_desc (bit_or 0 (bit_or first_frag last_frag)) 0 b i true

  pub frame_desc-IsDesc : (b : TxDmaBuf) (i : ℕ) → b.len ≤ 4096 → IsDesc (frame_desc b i)
  unfolding frame_desc
  frame_desc-IsDesc b i h = record {
    opts1_fits = rw len_eq (frame_opts1-lt b.len i h);
    opts2_fits = omega arith;
    addr_lo_fits = omega arith;
    addr_hi_fits = omega arith;
  }
    where
      len_eq : b.len % 2 ^ 32 ≡ b.len
      len_eq = omega arith

  -- A descriptor, at index `i`, that hands the frame of a buffer to the hardware.
  pub record Describes (b : TxDmaBuf) (i : ℕ) (e : RawDesc) : Type 0 where
    pub opts1_eq :
        e.opts1 ≡ 2 ^ 31 + (if i == num_tx_desc - 1 then 2 ^ 30 else 0) + 2 ^ 29 + 2 ^ 28 + b.len
    pub opts2_eq : e.opts2 ≡ 0
    pub addr_eq : e.addr_lo + e.addr_hi * 2 ^ 32 ≡ d.daddr b.stream % 2 ^ 64

  pub frame_desc-Describes : (b : TxDmaBuf) (i : ℕ) → b.len ≤ 4096 → Describes b i (frame_desc b i)
  unfolding frame_desc
  frame_desc-Describes b i h =
      let len_eq : b.len % 2 ^ 32 ≡ b.len = omega arith in
      record {
        opts1_eq = rw len_eq (frame_opts1-eq b.len i h);
        opts2_eq = refl;
        addr_eq = omega arith;
      }

  abbrev pub sent_slot : TxDmaBuf → TxSlot
  sent_slot b = record { len = b.len % 2 ^ 32; is_last = true; dma_buf = some b.stream }
