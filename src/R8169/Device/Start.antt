-- ===== src/R8169/Device/Start.antt =====
-- `init` of the device, and a device whose pool runs out.
use driver_workflow.Prelude.{
  ℕ, zero, suc, ◌+◌, ◌%◌, ◌<◌, ◌≡◌, inl, inr, refl, sym, ap, ◌∙◌, subst, Bool, true, false, Option,
  none, some, List, arith, if◌then◌else◌, replicate, length-replicate, Bool-cases, lt_cases,
}
use mathlib.Core.Bool.{false≢true}
use mathlib.Core.Option.{none-ne-some}
use driver_workflow.Bits.{has}
use driver_workflow.Dma.{Dma}
use driver_workflow.Mmio.{Mmio}
use driver_workflow.Pool.{RxPool}
use driver_workflow.R8169.Regs.{desc_own, num_rx_desc}
use driver_workflow.R8169.Desc.{RawDesc, DescRing, new}
use driver_workflow.R8169.Desc.Entries.{entry}
use driver_workflow.R8169.Desc.Entries.Access.{IsRing}
use driver_workflow.R8169.Desc.Entries.Fresh.{new_lem}
use driver_workflow.R8169.Tx.{TxRing}
use driver_workflow.R8169.Device.{
  Device, alloc_rx_slot, fill_from, start, start_filled, with_rings, init, receive,
}
use driver_workflow.R8169.Device.Armed.{
  owned, Offers-owned, Armed, Armed-keeps, IsValid, IsValid-same, alloc_rx_slot-Fills,
  alloc_rx_slot_found,
}
use driver_workflow.R8169.Device.Receive.{slot_of, receive-cases}

module _ ⦃d : Dma⦄ ⦃p : RxPool⦄ ⦃io : Mmio⦄ where
  -- While the pool is exhausted and the hardware owns the slot after the next, a `receive` that takes
  -- the next descriptor leaves it as it is, not owned by the hardware, and moves on; and then
  -- `receive` changes nothing and returns no frame, also once the pool has recovered.
  pub receive_stalls :
      (e : Device) (pool : p.Pool)
      → IsValid e
      → owned e (slot_of e) ≡ false
      → (p.take_buffer e.pool).0 ≡ none
      → owned e ((e.rx_cur + 1) % num_rx_desc) ≡ true
      → ((receive e).1.rx_desc_ring ≡ e.rx_desc_ring)
        × (receive (record (receive e).1 { pool = pool })
            ≡ (none, record (receive e).1 { pool = pool }))
  receive_stalls e pool v free out next = elim (receive-cases e v) [
    | inl (own, _) ↦ absurd (false≢true (sym free ∙ own))
    | inr (_, t) ↦ elim t.refilled [
      | inl (a, got) ↦ absurd (none-ne-some a.buf (sym out ∙ got))
      | inr (_, same, _) ↦
          let e' : Device = record (receive e).1 { pool = pool } in
          let v' = IsValid-same (receive e).1 e' refl refl t.valid in
          let at : slot_of e' ≡ (e.rx_cur + 1) % num_rx_desc = omega (arith, t.cur_eq) in
          let own : owned e' (slot_of e') ≡ true =
            ap (owned e') at
            ∙ ap (λ r. has (entry r ((e.rx_cur + 1) % num_rx_desc)).opts1 desc_own) same
            ∙ next in
          (
            same,
            elim (receive-cases e' v') [
              | inl (_, idle) ↦ idle
              | inr (free', _) ↦ absurd (false≢true (sym free' ∙ own))
            ],
          )
    ]
  ]

  -- Every receive descriptor is the hardware's, and offers it the buffer that the slot holds.
  pub record Ready (e : Device) : Type 0 where
    pub valid : IsValid e
    pub every : (i : ℕ) → i < num_rx_desc → (owned e i ≡ true) × Armed e i

  fill_from-Ready :
      (n i : ℕ) (e e' : Device)
      → IsValid e
      → i + n ≡ num_rx_desc
      → ((j : ℕ) → j < i → Armed e j)
      → fill_from n i e ≡ some e'
      → Ready e'
  unfolding fill_from
  fill_from-Ready zero i e e' v total filled is =
      let same : e ≡ e' = cc in
      subst Ready same (record {
        valid = v;
        every = λ j h.
            let a = filled j (omega arith) in
            (Offers-owned j a.buf (entry e.rx_desc_ring j) a.offers, a);
      })
  fill_from-Ready (suc n) i e e' v total filled is =
      let e1 = (alloc_rx_slot e i).1 in
      let f = alloc_rx_slot-Fills e i v (omega arith) in
      elim (Bool-cases (alloc_rx_slot e i).0) [
        | inr failed ↦ absurd (none-ne-some e' (rw (fill_from, failed) at is))
        | inl okay ↦
            let here : Armed e1 i = elim f.result [
              | inl (a, _) ↦ a
              | inr (out, _, _) ↦ absurd (alloc_rx_slot_found e i okay out)
            ] in
            let all : (j : ℕ) → j < i + 1 → Armed e1 j = λ j h. elim (lt_cases j i) [
              | inl old ↦
                  let (eb, ed) = f.others j (λ x. omega arith) in
                  Armed-keeps e e1 j eb ed (filled j old)
              | inr new ↦ let at : j ≡ i = omega arith in rw at here
            ] in
            fill_from-Ready n (i + 1) e1 e' f.valid (omega arith) all (rw (fill_from, okay) at is)
      ]

  running-Ready :
      (e e' : Device) (b : Bool) (w : io.World)
      → Ready e
      → ◌≡◌ {A = Option Device} (if b then some (record e { world = w }) else none) (some e')
      → Ready e'
  running-Ready e e' false w r is = cc
  running-Ready e e' true w r is =
      let e1 : Device = record e { world = w } in
      let same : e1 ≡ e' = cc in
      subst Ready same (record {
        valid = IsValid-same e e1 refl refl r.valid;
        every = λ i h. let (own, a) = r.every i h in (own, Armed-keeps e e1 i refl refl a);
      })

  start-Ready : (e e' : Device) → Ready e → start e ≡ some e' → Ready e'
  unfolding start
  start-Ready e e' r is = running-Ready e e' _ _ r is

  start_filled-Ready :
      (o : Option Device) (e' : Device)
      → ((e : Device) → o ≡ some e → Ready e)
      → start_filled o ≡ some e'
      → Ready e'
  unfolding start_filled
  start_filled-Ready none e' r is = cc
  start_filled-Ready (some e) e' r is = start-Ready e e' (r e refl) is

  with_rings-Ready :
      (w : io.World) (mac : List ℕ) (pool : p.Pool) (t : Option TxRing)
      (a : Option DescRing × d.Heap) (e' : Device)
      → ((r : DescRing)
          → a.0 ≡ some r
          → IsRing num_rx_desc r × ((i : ℕ) → i < num_rx_desc → (entry r i).opts1 ≡ 0))
      → with_rings w mac pool t a ≡ some e'
      → Ready e'
  unfolding with_rings has
  with_rings-Ready w mac pool none (r, h) e' fresh is = cc
  with_rings-Ready w mac pool (some t) (none, h) e' fresh is = cc
  with_rings-Ready w mac pool (some t) (some r, h) e' fresh is =
      let (v, blank) = fresh r refl in
      let e : Device = record {
        world = w;
        tx_ring = t;
        rx_desc_ring = r;
        rx_buffers = replicate num_rx_desc none;
        rx_cur = 0;
        mac_addr = mac;
        pool = pool;
        heap = h;
      } in
      let valid : IsValid e = record {
        shape = v;
        slots = length-replicate {A = Option p.RxBuffer} num_rx_desc none;
        armed = λ i h' own. absurd (false≢true (sym (ap (λ x. has x desc_own) (blank i h')) ∙ own));
      } in
      start_filled-Ready (fill_from num_rx_desc 0 e) e'
        (λ e1 q. fill_from-Ready num_rx_desc 0 e e1 valid (omega arith) (λ j h'. elim h' [ ]) q) is

  -- On a device that `init` brings up, every receive descriptor is owned by the hardware and offers it
  -- the buffer that its slot holds: with its size and its address, and with the end mark at the last
  -- descriptor alone; and the device is valid, as `receive` asks for.
  pub init-Ready :
      (w : io.World) (pool : p.Pool) (h : d.Heap) (e : Device) → init w pool h ≡ some e → Ready e
  unfolding init
  init-Ready w pool h e is =
      with_rings-Ready _ _ pool _ _ e
        (λ r q.
          let (v, blank) = new_lem _ num_rx_desc r q in (v, λ i h'. ap RawDesc.opts1 (blank i h')))
        is
