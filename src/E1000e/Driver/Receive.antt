-- ===== src/E1000e/Driver/Receive.antt =====
-- `init` and `receive` together: what the receive ring holds from the start on.
use driver_workflow.Prelude.{
  ℕ, zero, suc, ◌+◌, ◌-◌, ◌%◌, ◌≤◌, ◌<◌, ◌≡◌, ◌⊎◌, inl, inr, refl, sym, ap, ◌∙◌, true, false,
  Option, none, some, List, [], ◌∷◌, arith, subst, Bool-cases, lt_cases,
}
use mathlib.Core.Bool.{false≢true}
use driver_workflow.Dma.{Dma}
use driver_workflow.Pool.{RxPool}
use driver_workflow.Mmio.{Registers}
use driver_workflow.E1000e.Regs.{rx_desc_count}
use driver_workflow.E1000e.Desc.{DescRing, is_done, read_desc, buffer}
use driver_workflow.E1000e.Rx.{clean_rx_irq}
use driver_workflow.E1000e.Rx
use driver_workflow.E1000e.Rx.Held.{Holding}
use driver_workflow.E1000e.Rx.Round.{is_whole}
use driver_workflow.E1000e.Rx.Clean.{whole_frames, slots_from, Waits}
use driver_workflow.E1000e.Rx.Deliver.{Counted, clean_rx_irq-Delivers}
use driver_workflow.E1000e.Rx.Fresh.{Fresh, Fresh-Holding, alloc_rx_ring-Fresh}
use driver_workflow.E1000e.Tx
use driver_workflow.E1000e.Tx.{TxRing}
use driver_workflow.E1000e.Tx.Legacy.{legacy}
use driver_workflow.E1000e.Tx.Correct.{new_ring-IsValid}
use driver_workflow.E1000
use driver_workflow.E1000e.Driver.{
  Device, NetError, not_ready, init, init_link, start_tx, start_rx, receive, can_receive, first,
}

module _ ⦃d : Dma⦄ ⦃p : RxPool⦄ ⦃io : Registers⦄ where
  -- A device between calls: of its receive slots from `next_to_clean` on, `n` hold buffers, up to
  -- `next_to_use`, and the device has not completed the one at its tail, `m` places on.
  pub record Receives (e : Device) (n m : ℕ) : Type 0 where
    pub holding : Holding e.rx_ring.ring e.rx_ring.ring.next_to_clean n
    pub tail_in : m < n
    pub waits : Waits e.rx_ring.ring e.rx_ring.ring.next_to_clean m

  -- What a call of `receive` gives: no frame, with no descriptor taken or one that is no whole
  -- frame; or the frame of the next descriptor, with its length set.
  abbrev pub Taken : Device → (NetError ⊎ p.RxBuffer) × Device → Type 0
  Taken e r =
      let q = e.rx_ring.ring in
      let c = q.next_to_clean in
      ((r.0 ≡ inl not_ready)
        × ((r.1.rx_ring.ring.next_to_clean ≡ c)
            ⊎ (r.1.rx_ring.ring.next_to_clean ≡ (c + 1) % rx_desc_count)))
      ⊎ ((b : p.RxBuffer) × (buffer q c ≡ some b)
          × (r.0
              ≡ inr (
                  p.set_payload_len b
                    (Rx.payload_len e.rx_ring.crc_stripping (read_desc q c).length)))
          × (r.1.rx_ring.ring.next_to_clean ≡ (c + 1) % rx_desc_count))

  next_frame :
      (e : Device) (n k : ℕ) (b : p.RxBuffer)
      → k ≤ 1
      → buffer e.rx_ring.ring e.rx_ring.ring.next_to_clean ≡ some b
      → e.rx_ring.ring.next_to_clean < rx_desc_count
      → (receive e).1.rx_ring.ring.next_to_clean
        ≡ (e.rx_ring.ring.next_to_clean + k) % rx_desc_count
      → (clean_rx_irq e.rx_ring e.world e.pool 1).packets
        ≡ whole_frames e.rx_ring.crc_stripping e.rx_ring.is_discarding
            (slots_from e.rx_ring.ring e.rx_ring.ring.next_to_clean k)
      → Taken e (receive e)
  unfolding receive slots_from whole_frames
  next_frame e n zero b h kept c_in at got = inl (ap first got, inl (at ∙ omega arith))
  next_frame e n (suc zero) b h kept c_in at got =
      let q = e.rx_ring.ring in
      let s = read_desc q q.next_to_clean in
      elim (Bool-cases (is_whole e.rx_ring.is_discarding s)) [
        | inl whole ↦
            let one : (clean_rx_irq e.rx_ring e.world e.pool 1).packets
                ≡ p.set_payload_len b (Rx.payload_len e.rx_ring.crc_stripping s.length) ∷ [] =
              got ∙ rw (whole, kept) refl in
            inr (b, kept, ap first one, at)
        | inr dropped ↦
            let nothing : (clean_rx_irq e.rx_ring e.world e.pool 1).packets ≡ [] =
              got ∙ rw dropped refl in
            inl (ap first nothing, inr at)
      ]
  next_frame e n (suc (suc k)) b h kept c_in at got = absurd (omega (arith, h))

  within_tail :
      (e : Device) (n m k : ℕ)
      → Receives e n m
      → ((j : ℕ)
          → j < k
          → is_done (read_desc e.rx_ring.ring ((e.rx_ring.ring.next_to_clean + j) % rx_desc_count))
            ≡ true)
      → k ≤ m
  within_tail e n m k v done = elim (lt_cases m k) [
    | inl far ↦ absurd (false≢true (sym v.waits ∙ done m far))
    | inr near ↦ near
  ]

  -- `receive`, on a device whose next descriptor is done, or of whose 256 slots at most 255 are held:
  -- afterwards the slots from the new `next_to_clean` on are held up to `next_to_use`, and the tail is
  -- still among them, so that the next call finds the same; at most 255 are held; and the call gives
  -- the next frame, or no frame.
  pub receive_again :
      (e : Device) (n m : ℕ)
      → Receives e n m
      → (n < rx_desc_count) ⊎ (can_receive e ≡ true)
      → ((n' : ℕ) × (m' : ℕ) × (n' < rx_desc_count) × Receives (receive e).1 n' m')
        × Taken e (receive e)
  unfolding receive Rx.can_receive
  receive_again e n m v h =
      let q = e.rx_ring.ring in
      let c = q.next_to_clean in
      let counted : Counted e.rx_ring 1 n = elim h [
        | inl few ↦ inl few
        | inr done ↦ inr (omega arith, omega arith, done)
      ] in
      let r =
        clean_rx_irq-Delivers e.rx_ring e.world e.pool 1 n m v.holding v.tail_in v.waits counted in
      let near = within_tail e n m r.k v r.all_done in
      let (b, kept) = v.holding.held 0 (omega (arith, v.tail_in)) in
      let here : (c + 0) % rx_desc_count ≡ c = omega (arith, v.holding.index_in) in
      let there : ((c + r.k) % rx_desc_count + (m - r.k)) % rx_desc_count
          ≡ (c + m) % rx_desc_count =
        omega (arith, near) in
      (
        (
          r.after.n',
          m - r.k,
          r.fewer,
          record {
            holding =
                subst (λ i. Holding (clean_rx_irq e.rx_ring e.world e.pool 1).rx.ring i r.after.n')
                  (sym r.clean_eq) r.after.holding;
            tail_in = omega (arith, near, v.tail_in, r.after.keeps);
            waits = rw (r.clean_eq, there, (r.after.same m near v.tail_in).1) v.waits;
          },
        ),
        next_frame e n r.k b r.within (subst (λ i. buffer q i ≡ some b) here kept)
            v.holding.index_in r.clean_eq r.packets_eq,
      )

  start_rx-Fresh :
      (t : TxRing) (mac : List ℕ) (w : io.World) (r : Option (DescRing p.RxBuffer) × p.Pool)
      (h : d.Heap) (e : Device)
      → ((q : DescRing p.RxBuffer) → r.0 ≡ some q → Fresh q)
      → start_rx t mac w r h ≡ some e
      → Fresh e.rx_ring.ring × (e.tx_ring ≡ t)
  unfolding start_rx
  start_rx-Fresh t mac w (none, pool) h e made is = cc
  start_rx-Fresh t mac w (some q, pool) h e made is =
      let same : q ≡ e.rx_ring.ring = cc in
      let same' : t ≡ e.tx_ring = cc in (subst Fresh same (made q refl), sym same')

  start_tx-Fresh :
      (mac : List ℕ) (w : io.World) (pool : p.Pool) (r : Option TxRing × d.Heap) (e : Device)
      → start_tx mac w pool r ≡ some e
      → Fresh e.rx_ring.ring × (r.0 ≡ some e.tx_ring)
  unfolding start_tx
  start_tx-Fresh mac w pool (none, h) e is = cc
  start_tx-Fresh mac w pool (some t, h) e is =
      let (f, same) = start_rx-Fresh t mac _ _ _ e (alloc_rx_ring-Fresh h pool) is in
      (f, ap some (sym same))

  -- A device that `init` brings up has a valid transmit ring with no frame in flight, and a receive
  -- ring with a buffer in every slot under a descriptor that is not done; so `receive` may be called
  -- on it once the first descriptor is done.
  pub init-ready :
      (w : io.World) (pool : p.Pool) (h : d.Heap) (e : Device)
      → init w pool h ≡ some e
      → E1000.Tx.Inv.IsValid (legacy e.tx_ring)
        × (E1000.Tx.Inv.in_flight (legacy e.tx_ring) ≡ [])
        × Fresh e.rx_ring.ring
        × Receives e rx_desc_count 255
  unfolding init
  init-ready w pool h e is =
      let (f, made) = start_tx-Fresh (init_link w).0 (init_link w).1 pool (Tx.new_ring h) e is in
      let (v, none_sent) = new_ring-IsValid h e.tx_ring made in
      let (_, _, wait) = f.filled 255 (omega arith) in
      (
        v,
        none_sent,
        f,
        record {
          holding = Fresh-Holding e.rx_ring.ring f;
          tail_in = omega arith;
          waits =
              subst (λ c. is_done (read_desc e.rx_ring.ring ((c + 255) % rx_desc_count)) ≡ false)
                (sym f.clean_eq) wait;
        },
      )
