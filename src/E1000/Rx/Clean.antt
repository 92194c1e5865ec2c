-- ===== src/E1000/Rx/Clean.antt =====
-- `clean_rx_irq`: every branch.
use driver_workflow.Prelude.{
  ℕ, ◌+◌, ◌%◌, ◌^◌, ◌<◌, ◌≡◌, ◌⊎◌, inl, inr, refl, ap, ◌∙◌, true, false, Option, none, some, arith,
  length, set, length-set, get_or-set, Bool-cases, get_or-set_self,
}
use driver_workflow.Dma.{Dma}
use driver_workflow.Mmio.{Registers}
use driver_workflow.Pool.{RxPool}
use driver_workflow.E1000.Regs.{rdt}
use driver_workflow.E1000.Desc.{DescRing, advance_clean, rx_done, has_error}
use driver_workflow.E1000.Rx.{
  RxRing, Received, rx_desc_count, read_desc, buffer_desc, put_buffer, alloc_single_buffer,
  recycle_buffer, recycled_mem, deliver, clean_rx_irq,
}
use driver_workflow.E1000.Rx.Inv.{
  IsValid, buffer_at, Keeps, read_desc-write_desc, Refilled, put_buffer_lem, advance-IsInRing,
}

module _ ⦃d : Dma⦄ ⦃p : RxPool⦄ ⦃io : Registers⦄ where
  -- A frame with an error: its buffer goes back to the device with a fresh descriptor.
  pub record Recycles (q : RxRing) (w : io.World) (pool : p.Pool) (out : Received) : Type 0 where
    pub nothing : out.packet ≡ none
    pub valid : IsValid out.rx
    pub buffers_same : out.rx.buffers ≡ q.buffers
    pub others : Keeps q q.ring.next_to_clean out.rx
    pub rewritten :
        (b : p.RxBuffer)
        → buffer_at q q.ring.next_to_clean ≡ some b
        → read_desc out.rx.desc_dma q.ring.next_to_clean ≡ buffer_desc b
    pub clean_next : out.rx.ring.next_to_clean ≡ (q.ring.next_to_clean + 1) % rx_desc_count
    pub tail : out.world ≡ io.write w rdt (q.ring.next_to_clean % 2 ^ 32)
    pub pool_same : out.pool ≡ pool

  -- A frame that is delivered: its slot is refilled out of the pool, or stays empty.
  pub record Delivers (q : RxRing) (w : io.World) (pool : p.Pool) (out : Received) : Type 0 where
    pub buf : p.RxBuffer
    pub held : buffer_at q q.ring.next_to_clean ≡ some buf
    pub packet_eq :
        out.packet ≡ some (p.set_payload_len buf (read_desc q.desc_dma q.ring.next_to_clean).length)
    pub valid : IsValid out.rx
    pub others : Keeps q q.ring.next_to_clean out.rx
    pub refill : Refilled q q.ring.next_to_clean pool out.rx
    pub use_next : out.rx.ring.next_to_use ≡ q.ring.next_to_clean
    pub clean_next : out.rx.ring.next_to_clean ≡ (q.ring.next_to_clean + 1) % rx_desc_count
    pub tail : out.world ≡ io.write w rdt (q.ring.next_to_clean % 2 ^ 32)

  -- Nothing is delivered and nothing changes.
  pub record Waits (q : RxRing) (w : io.World) (pool : p.Pool) (out : Received) : Type 0 where
    pub nothing : out.packet ≡ none
    pub valid : IsValid out.rx
    pub descs_same : out.rx.desc_dma ≡ q.desc_dma
    pub ring_same : out.rx.ring ≡ q.ring
    pub buffers_same : (j : ℕ) → buffer_at out.rx j ≡ buffer_at q j
    pub world_same : out.world ≡ w
    pub pool_same : out.pool ≡ pool

  recycle_buffer-Recycles :
      (q : RxRing) (w : io.World) (pool : p.Pool) (o : Option p.RxBuffer)
      → buffer_at q q.ring.next_to_clean ≡ o
      → IsValid q
      → let r = recycle_buffer q q.ring.next_to_clean w in
        Recycles q w pool (record { packet = none; rx = r.0; world = r.1; pool = pool })
  unfolding recycle_buffer recycled_mem advance_clean
  recycle_buffer-Recycles q w pool none e v =
      let (ring, next) = advance-IsInRing q.ring v.in_ring v.counted in
      rw e (record {
        nothing = refl;
        valid = record {
          fits = v.fits;
          counted = v.counted;
          in_ring = ring;
          buffers_count = v.buffers_count;
        };
        buffers_same = refl;
        others = record { buffers_kept = λ j ne. refl; descs_kept = λ j ne. refl };
        rewritten = λ b is. cc;
        clean_next = next;
        tail = refl;
        pool_same = refl;
      })
  recycle_buffer-Recycles q w pool (some b) e v =
      let i = q.ring.next_to_clean in
      let (ring, next) = advance-IsInRing q.ring v.in_ring v.counted in
      let (same, descs, size) =
        read_desc-write_desc q.desc_dma i b (omega (arith, v.in_ring.clean_in, v.counted)) v.fits in
      rw e (record {
        nothing = refl;
        valid = record {
          fits = omega (arith, v.fits, size);
          counted = v.counted;
          in_ring = ring;
          buffers_count = v.buffers_count;
        };
        buffers_same = refl;
        others = record { buffers_kept = λ j ne. refl; descs_kept = descs };
        rewritten = λ b' is. let again : b ≡ b' = cc in same ∙ ap buffer_desc again;
        clean_next = next;
        tail = refl;
        pool_same = refl;
      })

  -- A frame of which the descriptor is done and without error.
  deliver_lem :
      (q : RxRing) (w : io.World) (pool : p.Pool) (o : Option p.RxBuffer)
      → buffer_at q q.ring.next_to_clean ≡ o
      → IsValid q
      → let i = q.ring.next_to_clean in
        let out = deliver q i (read_desc q.desc_dma i) w pool o in
        ((o ≡ none) × Waits q w pool out) ⊎ Delivers q w pool out
  unfolding deliver alloc_single_buffer put_buffer advance_clean
  deliver_lem q w pool none e v =
      let i = q.ring.next_to_clean in
      let in_range : i < length q.buffers =
        omega (arith, v.buffers_count, v.in_ring.clean_in, v.counted) in
      inl (
        refl,
        record {
          nothing = refl;
          valid = record {
            fits = v.fits;
            counted = v.counted;
            in_ring = v.in_ring;
            buffers_count = length-set q.buffers i none ∙ v.buffers_count;
          };
          descs_same = refl;
          ring_same = refl;
          buffers_same = λ j. get_or-set q.buffers i none j none in_range ∙ ground (arith, e);
          world_same = refl;
          pool_same = refl;
        },
      )
  deliver_lem q w pool (some b) e v =
      let i = q.ring.next_to_clean in
      let in_range : i < length q.buffers =
        omega (arith, v.buffers_count, v.in_ring.clean_in, v.counted) in
      let (ring, next) = advance-IsInRing q.ring v.in_ring v.counted in
      let taken : RxRing = record q {
        buffers = set q.buffers i none;
        ring = advance_clean q.ring;
      } in
      let v' : IsValid taken = record {
        fits = v.fits;
        counted = v.counted;
        in_ring = ring;
        buffers_count = length-set q.buffers i none ∙ v.buffers_count;
      } in
      let (valid, keeps, refill, same) =
        put_buffer_lem taken i pool (p.take_buffer pool) refl v'
          (omega (arith, v.in_ring.clean_in, v.counted))
          (get_or-set_self q.buffers i none none in_range) in
      inr (record {
        buf = b;
        held = e;
        packet_eq = refl;
        valid = record {
          fits = valid.fits;
          counted = valid.counted;
          in_ring = record {
            use_in = omega (arith, valid.counted, v.in_ring.clean_in, v.counted);
            clean_in = valid.in_ring.clean_in;
          };
          buffers_count = valid.buffers_count;
        };
        others = record {
          buffers_kept = λ j ne.
              keeps.buffers_kept j ne ∙ get_or-set q.buffers i none j none in_range ∙ ground arith;
          descs_kept = keeps.descs_kept;
        };
        refill = refill;
        use_next = refl;
        clean_next = ap (λ (r : DescRing). r.next_to_clean) same ∙ next;
        tail = refl;
      })

  -- What a call of `clean_rx_irq` did.
  abbrev pub Outcome : RxRing → io.World → p.Pool → Received → Type 0
  Outcome q w pool out =
      let i = q.ring.next_to_clean in
      let e = read_desc q.desc_dma i in
      (((rx_done e ≡ false) ⊎ ((has_error e ≡ false) × (buffer_at q i ≡ none)))
        × Waits q w pool out)
      ⊎ (((rx_done e ≡ true) × (has_error e ≡ true) × Recycles q w pool out)
          ⊎ ((rx_done e ≡ true) × (has_error e ≡ false) × Delivers q w pool out))

  -- `clean_rx_irq` on a valid ring waits, with nothing changed, if the next descriptor is not done
  -- or its slot has no buffer; gives a done descriptor with an error a fresh start with the same
  -- buffer, and delivers nothing; and otherwise delivers the slot's buffer with the length that the
  -- device wrote, and refills the slot out of the pool or leaves it empty. It moves past a
  -- descriptor in the last two cases alone, changes no other slot, and keeps the ring valid.
  pub clean_rx_irq_cases :
      (q : RxRing) (w : io.World) (pool : p.Pool)
      → IsValid q
      → Outcome q w pool (clean_rx_irq q w pool)
  unfolding clean_rx_irq
  clean_rx_irq_cases q w pool v =
      let i = q.ring.next_to_clean in
      let e = read_desc q.desc_dma i in
      elim (Bool-cases (rx_done e)) [
        | inr wait ↦
            rw (clean_rx_irq, wait)
              (inl (
                inl refl,
                record {
                  nothing = refl;
                  valid = v;
                  descs_same = refl;
                  ring_same = refl;
                  buffers_same = λ j. refl;
                  world_same = refl;
                  pool_same = refl;
                },
              ))
        | inl done ↦ elim (Bool-cases (has_error e)) [
          | inl bad ↦
              rw (clean_rx_irq, done, bad)
                (inr (inl (refl, refl, recycle_buffer-Recycles q w pool (buffer_at q i) refl v)))
          | inr good ↦
              rw (clean_rx_irq, done, good)
                (elim (deliver_lem q w pool (buffer_at q i) refl v) [
                  | inl (empty, waits) ↦ inl (inr (refl, empty), waits)
                  | inr delivers ↦ inr (inr (refl, refl, delivers))
                ])
        ]
      ]
