-- ===== src/E1000/Rx/Stall.antt =====
-- What a refill that fails leaves behind.
use native.Mathlib.Decide.{ℕ_discrete}
use driver_workflow.Prelude.{
  ℕ, sym, ◌+◌, ◌%◌, ◌^◌, ◌≡◌, ◌≢◌, inl, inr, ap, ◌∙◌, true, false, none, some, arith,
}
use mathlib.Core.Option.{none-ne-some}
use driver_workflow.Dma.{Dma}
use driver_workflow.Mmio.{Registers}
use driver_workflow.E1000.Regs.{rdt}
use driver_workflow.Pool.{RxPool}
use driver_workflow.E1000.Desc.{rx_done, has_error}
use driver_workflow.E1000.Rx.{rx_desc_count, RxRing, read_desc, clean_rx_irq}
use driver_workflow.E1000.Rx.Inv.{IsValid, buffer_at}
use driver_workflow.E1000.Rx.Clean.{Waits, Delivers, clean_rx_irq_cases}

module _ ⦃d : Dma⦄ ⦃p : RxPool⦄ ⦃io : Registers⦄ where
  refill_failed :
      (q : RxRing) (w : io.World) (pool : p.Pool)
      → IsValid q
      → rx_done (read_desc q.desc_dma q.ring.next_to_clean) ≡ true
      → has_error (read_desc q.desc_dma q.ring.next_to_clean) ≡ false
      → (p.take_buffer pool).0 ≡ none
      → let out = (clean_rx_irq q w pool).rx in
        (buffer_at out q.ring.next_to_clean ≡ none)
        × (read_desc out.desc_dma q.ring.next_to_clean ≡ read_desc q.desc_dma q.ring.next_to_clean)
  refill_failed q w pool v done good dry = elim (clean_rx_irq_cases q w pool v) [
    | inl (inl wait, waits) ↦ cc
    | inl (inr (_, empty), waits) ↦
        let i = q.ring.next_to_clean in
        (waits.buffers_same i ∙ empty, ap (λ (m : d.Mem). read_desc m i) waits.descs_same)
    | inr (inl (_, bad, _)) ↦ cc
    | inr (inr (_, _, delivers)) ↦ elim delivers.refill [
      | inl (b, made, _, _) ↦ cc
      | inr (_, empty, same) ↦ (empty, same)
    ]
  ]

  -- A frame received while the pool is exhausted leaves its slot empty under a descriptor that is
  -- still done and without an error. Once `next_to_clean` comes back to that slot, with the slot and the descriptor as they
  -- were left, every call of `clean_rx_irq` delivers nothing and changes nothing, whatever the pool
  -- holds by then.
  pub clean_rx_irq-stalls :
      (q u : RxRing) (w w' : io.World) (pool pool' : p.Pool)
      → IsValid q
      → rx_done (read_desc q.desc_dma q.ring.next_to_clean) ≡ true
      → has_error (read_desc q.desc_dma q.ring.next_to_clean) ≡ false
      → (p.take_buffer pool).0 ≡ none
      → IsValid u
      → u.ring.next_to_clean ≡ q.ring.next_to_clean
      → buffer_at u q.ring.next_to_clean ≡ buffer_at (clean_rx_irq q w pool).rx q.ring.next_to_clean
      → read_desc u.desc_dma q.ring.next_to_clean
        ≡ read_desc (clean_rx_irq q w pool).rx.desc_dma q.ring.next_to_clean
      → let out = (clean_rx_irq q w pool).rx in
        (buffer_at out q.ring.next_to_clean ≡ none)
        × (rx_done (read_desc out.desc_dma q.ring.next_to_clean) ≡ true)
        × (has_error (read_desc out.desc_dma q.ring.next_to_clean) ≡ false)
        × Waits u w' pool' (clean_rx_irq u w' pool')
  clean_rx_irq-stalls q u w w' pool pool' v done good dry v' at slot desc =
      let i = q.ring.next_to_clean in
      let (empty, same) = refill_failed q w pool v done good dry in
      let empty' : buffer_at u u.ring.next_to_clean ≡ none = rw at (slot ∙ empty) in
      let good' : has_error (read_desc u.desc_dma u.ring.next_to_clean) ≡ false =
        rw (at, desc, same) good in
      (
        empty,
        rw same done,
        rw same good,
        elim (clean_rx_irq_cases u w' pool' v') [
          | inl (_, waits) ↦ waits
          | inr (inl (_, bad, _)) ↦ cc
          | inr (inr (_, _, delivers)) ↦ let held = delivers.held in cc
        ],
      )

  -- The call that delivers the buffer of a slot while the pool is exhausted.
  dry-Delivers :
      (q : RxRing) (w : io.World) (pool : p.Pool) (b : p.RxBuffer)
      → IsValid q
      → rx_done (read_desc q.desc_dma q.ring.next_to_clean) ≡ true
      → has_error (read_desc q.desc_dma q.ring.next_to_clean) ≡ false
      → buffer_at q q.ring.next_to_clean ≡ some b
      → Delivers q w pool (clean_rx_irq q w pool)
  dry-Delivers q w pool b v done good held = elim (clean_rx_irq_cases q w pool v) [
    | inl (inl wait, waits) ↦ cc
    | inl (inr (_, empty), waits) ↦ cc
    | inr (inl (_, bad, _)) ↦ cc
    | inr (inr (_, _, delivers)) ↦ delivers
  ]

  -- A frame received while the pool is exhausted goes up in its buffer, and its descriptor keeps that
  -- buffer's address. When the frame after it is received, with the slot and the descriptor as they
  -- were left, the tail that the device is told is the index right behind that descriptor, which so is
  -- the device's again. If no other slot holds the buffer then and the pool does not give it out, no
  -- slot of the ring holds it afterwards.
  pub clean_rx_irq-exposes :
      (q u : RxRing) (w w' : io.World) (pool pool' : p.Pool) (b c : p.RxBuffer)
      → IsValid q
      → rx_done (read_desc q.desc_dma q.ring.next_to_clean) ≡ true
      → has_error (read_desc q.desc_dma q.ring.next_to_clean) ≡ false
      → buffer_at q q.ring.next_to_clean ≡ some b
      → (read_desc q.desc_dma q.ring.next_to_clean).buffer_addr ≡ p.daddr b % 2 ^ 64
      → (p.take_buffer pool).0 ≡ none
      → IsValid u
      → u.ring.next_to_clean ≡ (clean_rx_irq q w pool).rx.ring.next_to_clean
      → buffer_at u q.ring.next_to_clean ≡ buffer_at (clean_rx_irq q w pool).rx q.ring.next_to_clean
      → read_desc u.desc_dma q.ring.next_to_clean
        ≡ read_desc (clean_rx_irq q w pool).rx.desc_dma q.ring.next_to_clean
      → rx_done (read_desc u.desc_dma u.ring.next_to_clean) ≡ true
      → has_error (read_desc u.desc_dma u.ring.next_to_clean) ≡ false
      → buffer_at u u.ring.next_to_clean ≡ some c
      → ((j : ℕ) → j ≢ q.ring.next_to_clean → buffer_at u j ≢ some b)
      → (p.take_buffer pool').0 ≢ some b
      → let i = q.ring.next_to_clean in
        let s = clean_rx_irq u w' pool' in
        ((clean_rx_irq q w pool).packet
          ≡ some (p.set_payload_len b (read_desc q.desc_dma i).length))
        × (s.world ≡ io.write w' rdt ((i + 1) % rx_desc_count % 2 ^ 32))
        × ((read_desc s.rx.desc_dma i).buffer_addr ≡ p.daddr b % 2 ^ 64)
        × ((j : ℕ) → buffer_at s.rx j ≢ some b)
  clean_rx_irq-exposes q u w w' pool pool' b c v done good held addr dry v' at slot desc done' good'
        held' apart_b kept_b =
      let i = q.ring.next_to_clean in
      let (empty, same) = refill_failed q w pool v done good dry in
      let g = dry-Delivers q w pool b v done good held in
      let g' = dry-Delivers u w' pool' c v' done' good' held' in
      let next : u.ring.next_to_clean ≡ (i + 1) % rx_desc_count = at ∙ g.clean_next in
      let apart : i ≢ u.ring.next_to_clean = omega (arith, next, v.in_ring.clean_in, v.counted) in
      let is : g.buf ≡ b = ground (arith, g.held, held) in
      let s = clean_rx_irq u w' pool' in
      let nowhere : (j : ℕ) → buffer_at s.rx j ≢ some b = λ j has_b.
        elim (ℕ_discrete j u.ring.next_to_clean) [
          | yes at_next ↦ elim g'.refill [
            | inl (b', made, kept, _) ↦
                kept_b (made ∙ sym kept ∙ ap (buffer_at s.rx) (sym at_next) ∙ has_b)
            | inr (_, none_there, _) ↦
                none-ne-some b (sym none_there ∙ ap (buffer_at s.rx) (sym at_next) ∙ has_b)
          ]
          | no other ↦ elim (ℕ_discrete j i) [
            | yes here ↦ none-ne-some b (
                sym (ap (buffer_at u) here ∙ slot ∙ empty)
                ∙ sym (g'.others.buffers_kept j other)
                ∙ has_b)
            | no far ↦ apart_b j far (sym (g'.others.buffers_kept j other) ∙ has_b)
          ]
        ] in
      (
        rw (← is) g.packet_eq,
        rw (← next) g'.tail,
        rw (g'.others.descs_kept i apart, desc, same) addr,
        nowhere,
      )
