-- ===== src/R8169/Device/Receive.antt =====
-- `receive` and `init` of the device.
use driver_workflow.Prelude.{
  ℕ, ◌+◌, ◌-◌, ◌%◌, ◌^◌, ◌<◌, ◌≡◌, ◌≢◌, ◌⊎◌, inl, inr, refl, sym, ap, ◌∙◌, bit_and, Bool, true,
  false, not, ◌&&◌, Option, none, some, arith, if◌then◌else◌, ltb, get_or, set, length-set,
  get_or-set, get_or-set_self, ==_false, Bool-cases, List,
}
use native.Mathlib.Decide.{ℕ_discrete}
use mathlib.Core.Bool.{false≢true}
use driver_workflow.Bits.{has}
use driver_workflow.Dma.{Dma}
use driver_workflow.Mmio.{Mmio}
use driver_workflow.Pool.{RxPool}
use driver_workflow.R8169.Regs.{num_rx_desc, rx_res, eth_fcs_len}
use driver_workflow.R8169.Desc.{is_fragmented_frame}
use driver_workflow.R8169.Desc.Entries.{entry}
use driver_workflow.R8169.Desc.Entries.Access.{read_opts1_lem}
use driver_workflow.R8169.Rx.{pkt_size_mask}
use driver_workflow.R8169.Device.{Device, alloc_rx_slot, move_on, hand_over, receive_at, receive}
use driver_workflow.R8169.Device.Armed.{
  owned, Armed, Armed-keeps, IsValid, IsValid-same, alloc_rx_slot-Fills,
}

-- A frame without an error, in one descriptor, that is longer than its checksum.
abbrev pub is_good : ℕ → Bool
is_good status =
    (not (has status rx_res) && not (is_fragmented_frame status))
    && ltb eth_fcs_len (bit_and status pkt_size_mask)

module _ ⦃d : Dma⦄ ⦃p : RxPool⦄ ⦃io : Mmio⦄ where
  abbrev pub slot_of : Device → ℕ
  slot_of e = e.rx_cur % num_rx_desc

  abbrev pub status_of : Device → ℕ
  status_of e = (entry e.rx_desc_ring (slot_of e)).opts1

  -- The buffer handed up for a frame with a status, from what its slot holds.
  abbrev pub delivered : ℕ → Option p.RxBuffer → Option p.RxBuffer
  delivered status none = none
  delivered status (some b) =
      some (p.set_payload_len b (bit_and status pkt_size_mask - eth_fcs_len))

  -- A frame that `receive` deals with: the buffer goes to the caller if the frame is good, the index
  -- moves on, no other slot changes, and the slot is armed with the buffer that the pool gives next
  -- unless the pool is exhausted, with its descriptor then left as it is, and its buffer too but for one that goes to the caller.
  pub record Takes (e : Device) (r : Option p.RxBuffer × Device) : Type 0 where
    pub result_eq : r.0 ≡ (
        if is_good (status_of e)
        then delivered (status_of e) (get_or e.rx_buffers (slot_of e) none)
        else none)
    pub valid : IsValid r.1
    pub cur_eq : r.1.rx_cur ≡ (e.rx_cur + 1) % 2 ^ 32
    pub others :
        (j : ℕ)
        → j ≢ slot_of e
        → (get_or r.1.rx_buffers j none ≡ get_or e.rx_buffers j none)
          × (entry r.1.rx_desc_ring j ≡ entry e.rx_desc_ring j)
    pub pool_next : r.1.pool ≡ (p.take_buffer e.pool).1
    pub refilled :
        ((a : Armed r.1 (slot_of e)) × ((p.take_buffer e.pool).0 ≡ some a.buf))
        ⊎ (((p.take_buffer e.pool).0 ≡ none)
            × (r.1.rx_desc_ring ≡ e.rx_desc_ring)
            × (get_or r.1.rx_buffers (slot_of e) none
                ≡ (if is_good (status_of e) then none else get_or e.rx_buffers (slot_of e) none)))

  emptied-IsValid :
      (e : Device) (i : ℕ)
      → IsValid e
      → i < num_rx_desc
      → owned e i ≡ false
      → IsValid (record e { rx_buffers = set e.rx_buffers i none })
  emptied-IsValid e i v h free = record {
    shape = v.shape;
    slots = length-set e.rx_buffers i none ∙ v.slots;
    armed = λ j hj own. elim (ℕ_discrete j i) [
      | yes is ↦ absurd (false≢true (sym free ∙ ap (owned e) (sym is) ∙ own))
      | no ne ↦
          Armed-keeps e (record e { rx_buffers = set e.rx_buffers i none }) j
            (get_or-set e.rx_buffers i none j none (omega (arith, v.slots))
              ∙ rw (==_false i j (λ x. ne (sym x))) refl)
            refl (v.armed j hj own)
    ];
  }

  move_on-Takes :
      (e : Device)
      → IsValid e
      → is_good (status_of e) ≡ false
      → Takes e (none, move_on e (slot_of e))
  unfolding move_on
  move_on-Takes e v bad =
      let f = alloc_rx_slot-Fills e (slot_of e) v (omega arith) in
      record {
        result_eq = rw bad refl;
        valid =
            IsValid-same (alloc_rx_slot e (slot_of e)).1 (move_on e (slot_of e)) refl refl f.valid;
        cur_eq = refl;
        others = f.others;
        pool_next = f.pool_next;
        refilled = elim f.result [
          | inl (a, got) ↦ inl (record { buf = a.buf; kept = a.kept; offers = a.offers }, got)
          | inr (out, er, eb) ↦ inr (
            out,
            er,
            rw bad (ap (λ (bs : List (Option p.RxBuffer)). get_or bs (slot_of e) none) eb),
          )
        ];
      }

  hand_over-Takes :
      (e : Device) (o : Option p.RxBuffer)
      → IsValid e
      → owned e (slot_of e) ≡ false
      → is_good (status_of e) ≡ true
      → get_or e.rx_buffers (slot_of e) none ≡ o
      → Takes e (hand_over e (slot_of e) (bit_and (status_of e) pkt_size_mask - eth_fcs_len) o)
  unfolding hand_over move_on
  hand_over-Takes e none v free good held =
      let i = slot_of e in
      let f = alloc_rx_slot-Fills e i v (omega arith) in
      record {
        result_eq = rw (good, held) refl;
        valid = IsValid-same (alloc_rx_slot e i).1 (move_on e i) refl refl f.valid;
        cur_eq = refl;
        others = f.others;
        pool_next = f.pool_next;
        refilled = elim f.result [
          | inl (a, got) ↦ inl (record { buf = a.buf; kept = a.kept; offers = a.offers }, got)
          | inr (out, er, eb) ↦ inr (
            out,
            er,
            rw good (ap (λ (bs : List (Option p.RxBuffer)). get_or bs (slot_of e) none) eb ∙ held),
          )
        ];
      }
  hand_over-Takes e (some b) v free good held =
      let i = slot_of e in
      let t : Device = record e { rx_buffers = set e.rx_buffers i none } in
      let f = alloc_rx_slot-Fills t i (emptied-IsValid e i v (omega arith) free) (omega arith) in
      record {
        result_eq = rw (good, held) refl;
        valid = IsValid-same (alloc_rx_slot t i).1 (move_on t i) refl refl f.valid;
        cur_eq = refl;
        others = λ j ne.
            let (eb, ed) = f.others j ne in
            (
              eb
                  ∙ get_or-set e.rx_buffers i none j none (omega (arith, v.slots))
                  ∙ rw (==_false i j (λ x. ne (sym x))) refl,
              ed,
            );
        pool_next = f.pool_next;
        refilled = elim f.result [
          | inl (a, got) ↦ inl (record { buf = a.buf; kept = a.kept; offers = a.offers }, got)
          | inr (out, er, eb) ↦ inr (
            out,
            er,
            rw good (
                ap (λ (bs : List (Option p.RxBuffer)). get_or bs (slot_of e) none) eb
                ∙ get_or-set_self e.rx_buffers i none none (omega (arith, v.slots))),
          )
        ];
      }

  -- `receive` on a valid device: while the hardware owns the next descriptor, nothing changes and
  -- no frame is returned. Otherwise a good frame is handed up in the buffer that its slot holds,
  -- with its length without the checksum, and any other frame is dropped; the index moves on, no
  -- other slot changes, one buffer is asked of the pool, and the slot is armed with the one that the
  -- pool gives, unless it is exhausted; the device stays valid.
  pub receive-cases :
      (e : Device)
      → IsValid e
      → ((owned e (slot_of e) ≡ true) × (receive e ≡ (none, e)))
        ⊎ ((owned e (slot_of e) ≡ false) × Takes e (receive e))
  unfolding receive receive_at
  receive-cases e v =
      let read = read_opts1_lem num_rx_desc e.rx_desc_ring (slot_of e) v.shape (omega arith) in
      let s = status_of e in
      elim (Bool-cases (owned e (slot_of e))) [
        | inl own ↦ inl (own, rw (receive, read, receive_at, own) refl)
        | inr free ↦ elim (Bool-cases (has s rx_res)) [
          | inl bad ↦
              inr
                (free, rw (receive, read, receive_at, free, bad) (move_on-Takes e v (rw bad refl)))
          | inr fine ↦ elim (Bool-cases (is_fragmented_frame s)) [
            | inl part ↦ inr (
              free,
              rw (receive, read, receive_at, free, fine, part)
                  (move_on-Takes e v (rw (fine, part) refl)),
            )
            | inr whole ↦ elim (Bool-cases (ltb eth_fcs_len (bit_and s pkt_size_mask))) [
              | inl long ↦ inr (
                free,
                rw (receive, read, receive_at, free, fine, whole, long)
                    (hand_over-Takes e (get_or e.rx_buffers (slot_of e) none) v free
                      (rw (fine, whole, long) refl) refl),
              )
              | inr short ↦ inr (
                free,
                rw (receive, read, receive_at, free, fine, whole, short)
                    (move_on-Takes e v (rw (fine, whole, short) refl)),
              )
            ]
          ]
        ]
      ]
