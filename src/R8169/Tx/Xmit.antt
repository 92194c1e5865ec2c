-- ===== src/R8169/Tx/Xmit.antt =====
-- `start_xmit`: what a call that succeeds has done, and when it fails.
use driver_workflow.R8169.Tx.Frame.{
  can_send_iff, IsFilled, new_buf-IsFilled, frame_desc, frame_desc-IsDesc, frame_opts1-ends,
  sent_slot,
}
use driver_workflow.Prelude.{
  ℕ, ◌+◌, ◌%◌, ◌^◌, ◌≤◌, ◌<◌, ◌≡◌, ◌⊎◌, inl, inr, refl, ap, ◌∙◌, Option, none, some, List, arith,
  leb, leb→le, get_or-set_self, set, set-set, Bool-cases,
}
use driver_workflow.Dma.{Dma}
use driver_workflow.Mmio.{Mmio}
use driver_workflow.R8169.Regs.{num_tx_desc}
use driver_workflow.R8169.Desc.{TxSlot, empty_slot}
use driver_workflow.R8169.Desc.Entries.Access.{write_desc_lem}
use driver_workflow.R8169.Tx.{
  TxRing, TxDmaBuf, new_buf, pad_packet, tx_map, start_xmit, xmit_buf, finish_xmit, doorbell, Sent,
  busy, no_memory, tx_vlan_tag, tso_csum_v2,
}
use driver_workflow.R8169.Tx.Inv.{
  IsValid, pending, slot_at, Changes, fill-IsValid, Changes-slot_self,
}

module _ ⦃d : Dma⦄ where
  -- `u` is `t` with the frame of `b` queued at `cur_tx`.
  pub record Queues (t : TxRing) (b : TxDmaBuf) (u : TxRing) : Type 0 where
    pub cur_next : u.cur_tx ≡ (t.cur_tx + 1) % 2 ^ 32
    pub dirty_same : u.dirty_tx ≡ t.dirty_tx
    pub changes :
        Changes t (t.cur_tx % num_tx_desc) (frame_desc b (t.cur_tx % num_tx_desc)) (sent_slot b) u

  pub Queues-IsValid :
      {t u : TxRing} {b : TxDmaBuf}
      → IsValid t
      → pending t + 1 < num_tx_desc
      → b.len ≤ 4096
      → Queues t b u
      → IsValid u
  unfolding frame_desc
  Queues-IsValid {t} {u} {b} v space fits q =
      let i = t.cur_tx % num_tx_desc in
      let own_slot = Changes-slot_self v q.changes (omega arith) in
      let written = q.changes.ring_changes.written in
      let len_eq : b.len % 2 ^ 32 ≡ b.len = omega arith in
      fill-IsValid v q.changes space q.cur_next q.dirty_same
        (record {
          buf = b.stream;
          last = rw own_slot;
          kept = rw own_slot;
          addr_lo_eq = rw written;
          addr_hi_eq = rw written;
        })
        (rw (written, len_eq) (frame_opts1-ends b.len i fits))

module _ ⦃d : Dma⦄ ⦃io : Mmio⦄ where
  -- The call, given the outcome of the buffer's allocation.
  xmit_buf_lem :
      (t : TxRing) (w : io.World) (packet : List ℕ) (b : TxDmaBuf) (h : d.Heap)
      → IsValid t
      → b.len ≤ 4096
      → let s = xmit_buf t w packet (some b, h) in
        (s.error ≡ none) × (s.world ≡ (doorbell w).1) × (s.heap ≡ h) × Queues t b s.tx
  unfolding xmit_buf tx_map finish_xmit tx_vlan_tag tso_csum_v2 frame_desc
  xmit_buf_lem t w packet b h v fits =
      let i = t.cur_tx % num_tx_desc in
      let (okay, u) =
        write_desc_lem num_tx_desc t.ring i (frame_desc b i) v.is_ring (omega arith)
          (frame_desc-IsDesc b i fits) in
      let slot = slot_at t i in
      let slot1 : TxSlot = record slot { len = b.len % 2 ^ 32; dma_buf = some b.stream } in
      rw okay (
        refl,
        refl,
        refl,
        record {
          cur_next = refl;
          dirty_same = refl;
          changes = record {
            ring_changes = u;
            slots_changes =
                set-set t.slots i slot1 _
                ∙ ap (λ (x : TxSlot). set t.slots i (record (sent_slot b) { len = x.len }))
                    (get_or-set_self t.slots i slot1 empty_slot (omega (arith, v.slots_count)));
          };
        },
      )

  -- What a successful call has done.
  pub record Sends (t : TxRing) (w : io.World) (packet : List ℕ) (s : Sent) : Type 0 where
    pub buf : TxDmaBuf
    pub filled : IsFilled (pad_packet packet) buf
    pub had_room : pending t + 2 ≤ num_tx_desc
    pub queued : Queues t buf s.tx
    pub rung : s.world ≡ (doorbell w).1

  xmit_buf-Sends :
      (t : TxRing) (w : io.World) (packet : List ℕ) (a : Option TxDmaBuf × d.Heap)
      → IsValid t
      → pending t + 2 ≤ num_tx_desc
      → ((b : TxDmaBuf) → a.0 ≡ some b → IsFilled (pad_packet packet) b)
      → let s = xmit_buf t w packet a in
        ((s.error ≡ some no_memory) × (s.tx ≡ t) × (s.world ≡ w) × (a.0 ≡ none))
        ⊎ ((s.error ≡ none) × Sends t w packet s)
  unfolding xmit_buf
  xmit_buf-Sends t w packet (none, h) v space good = inl (refl, refl, refl, refl)
  xmit_buf-Sends t w packet (some b, h) v space good =
      let f = good b refl in
      let (e, rung, _, q) = xmit_buf_lem t w packet b h v f.len_le in
      inr (e, record { buf = b; filled = f; had_room = space; queued = q; rung = rung })

  -- On a valid ring `start_xmit` either refuses with `Busy`, exactly when fewer than two
  -- descriptors are free, or fails with `NoMemory`, exactly when it has room but gets no buffer,
  -- and then ring and device are untouched; or it succeeds and queues the padded frame.
  pub start_xmit_cases :
      (t : TxRing) (w : io.World) (h : d.Heap) (packet : List ℕ)
      → IsValid t
      → let s = start_xmit t w h packet in
        ((s.error ≡ some busy) × (num_tx_desc < pending t + 2) × (s.tx ≡ t) × (s.world ≡ w))
        ⊎ (((s.error ≡ some no_memory)
              × (pending t + 2 ≤ num_tx_desc)
              × ((new_buf h (pad_packet packet)).0 ≡ none)
              × (s.tx ≡ t)
              × (s.world ≡ w))
            ⊎ ((s.error ≡ none) × Sends t w packet s))
  unfolding start_xmit
  start_xmit_cases t w h packet v = elim (Bool-cases (leb (pending t + 2) num_tx_desc)) [
    | inl space ↦
        rw (can_send_iff t v, space)
          (elim (xmit_buf-Sends t w packet (new_buf h (pad_packet packet)) v (leb→le _ _ space)
            (new_buf-IsFilled h _)) [
              | inl (e, same, quiet, out) ↦ inr (inl (e, leb→le _ _ space, out, same, quiet))
              | inr ok ↦ inr (inr ok)
            ])
    | inr full ↦ rw (can_send_iff t v, full) (inl (refl, ground (arith, full), refl, refl))
  ]

  -- `start_xmit` on a valid ring leaves a valid ring, whatever its outcome.
  pub start_xmit-IsValid :
      (t : TxRing) (w : io.World) (h : d.Heap) (packet : List ℕ)
      → IsValid t
      → IsValid (start_xmit t w h packet).tx
  start_xmit-IsValid t w h packet v = elim (start_xmit_cases t w h packet v) [
    | inl (_, _, same, _) ↦ rw same v
    | inr (inl (_, _, _, same, _)) ↦ rw same v
    | inr (inr (_, s)) ↦ Queues-IsValid v (omega (arith, s.had_room)) s.filled.len_le s.queued
  ]
