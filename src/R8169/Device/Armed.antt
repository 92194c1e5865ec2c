-- ===== src/R8169/Device/Armed.antt =====
-- The receive slots of the device: a descriptor that the hardware owns has its buffer in its slot.
use native.Mathlib.Decide.{ℕ_discrete}
use driver_workflow.Prelude.{
  ℕ, ◌%◌, ◌+◌, ◌*◌, bit_or, subst, ◌-◌, ◌^◌, ◌<◌, ◌≡◌, ◌≢◌, ◌⊎◌, inl, inr, refl, sym, ap, ◌∙◌, Bool,
  true, false, Option, none, some, arith, ◌==◌, if◌then◌else◌, length, get_or, set, length-set,
  get_or-set, ==_refl, ==_false,
}
use mathlib.Core.Bool.{false≢true}
use mathlib.Core.Option.{some-ne-none}
use driver_workflow.Bits.{has}
use driver_workflow.Dma.{Dma}
use driver_workflow.Mmio.{Mmio}
use driver_workflow.Pool.{RxPool}
use driver_workflow.R8169.Regs.{desc_own, num_rx_desc, ring_end, rx_desc_buf_size}
use driver_workflow.R8169.Desc.{RawDesc, DescRing, write_desc}
use driver_workflow.R8169.Desc.Entries.{entry, IsDesc}
use driver_workflow.R8169.Desc.Entries.Access.{IsRing, Updates, Updates-IsRing, write_desc_lem}
use driver_workflow.R8169.Device.{Device, slot_desc, place, fill_slot, alloc_rx_slot}

module _ ⦃d : Dma⦄ ⦃p : RxPool⦄ ⦃io : Mmio⦄ where
  abbrev pub owned : Device → ℕ → Bool
  owned e i = has (entry e.rx_desc_ring i).opts1 desc_own

  -- The descriptor offers the buffer to the hardware: it owns it, the size is 2048 bytes, the end
  -- mark stands at the last slot alone, and the two address words make the buffer's address.
  pub record Offers (i : ℕ) (b : p.RxBuffer) (c : RawDesc) : Type 0 where
    pub opts1_eq : c.opts1 ≡ 2 ^ 31 + (if i == 255 then 2 ^ 30 else 0) + 2048
    pub opts2_eq : c.opts2 ≡ 0
    pub addr_lo_fits : c.addr_lo < 2 ^ 32
    pub addr_hi_fits : c.addr_hi < 2 ^ 32
    pub addr_eq : c.addr_lo + c.addr_hi * 2 ^ 32 ≡ p.daddr b % 2 ^ 64

  slot_desc-Offers : (i : ℕ) (b : p.RxBuffer) → Offers i b (slot_desc i b)
  slot_desc-Offers i b = record {
    opts1_eq = go (i == num_rx_desc - 1);
    opts2_eq = refl;
    addr_lo_fits = omega arith;
    addr_hi_fits = omega arith;
    addr_eq = omega arith;
  }
    where
      go :
          (last : Bool)
          → (if last
              then bit_or (bit_or rx_desc_buf_size desc_own) ring_end
              else bit_or rx_desc_buf_size desc_own)
            ≡ 2 ^ 31 + (if last then 2 ^ 30 else 0) + 2048
      go true = refl
      go false = refl

  -- A descriptor that offers its buffer is the hardware's.
  pub Offers-owned :
      (i : ℕ) (b : p.RxBuffer) (c : RawDesc) → Offers i b c → has c.opts1 desc_own ≡ true
  unfolding has
  Offers-owned i b c o = ap (λ x. has x desc_own) o.opts1_eq ∙ go (i == 255)
    where
      go : (last : Bool) → has (2 ^ 31 + (if last then 2 ^ 30 else 0) + 2048) desc_own ≡ true
      go true = refl
      go false = refl

  -- The slot holds the buffer that the descriptor offers.
  pub record Armed (e : Device) (i : ℕ) : Type 0 where
    pub buf : p.RxBuffer
    pub kept : get_or e.rx_buffers i none ≡ some buf
    pub offers : Offers i buf (entry e.rx_desc_ring i)

  pub record IsValid (e : Device) : Type 0 where
    pub shape : IsRing num_rx_desc e.rx_desc_ring
    pub slots : length e.rx_buffers ≡ num_rx_desc
    pub armed : (i : ℕ) → i < num_rx_desc → owned e i ≡ true → Armed e i

  -- The same ring and slots.
  pub Armed-keeps :
      (e e' : Device) (i : ℕ)
      → get_or e'.rx_buffers i none ≡ get_or e.rx_buffers i none
      → entry e'.rx_desc_ring i ≡ entry e.rx_desc_ring i
      → Armed e i
      → Armed e' i
  Armed-keeps e e' i eb ed a = record {
    buf = a.buf;
    kept = eb ∙ a.kept;
    offers = subst (Offers i a.buf) (sym ed) a.offers;
  }

  pub IsValid-same :
      (e e' : Device)
      → e'.rx_desc_ring ≡ e.rx_desc_ring
      → e'.rx_buffers ≡ e.rx_buffers
      → IsValid e
      → IsValid e'
  IsValid-same e e' er eb v = record {
    shape = rw er v.shape;
    slots = ap length eb ∙ v.slots;
    armed = λ i h own.
        Armed-keeps e e' i (ap (λ bs. get_or bs i none) eb) (ap (λ r. entry r i) er)
          (v.armed i h (ap (λ r. has (entry r i).opts1 desc_own) (sym er) ∙ own));
  }

  slot_desc-IsDesc : (i : ℕ) (b : p.RxBuffer) → IsDesc (slot_desc i b)
  slot_desc-IsDesc i b = record {
    opts1_fits = fits (i == num_rx_desc - 1);
    opts2_fits = omega arith;
    addr_lo_fits = omega arith;
    addr_hi_fits = omega arith;
  }
    where
      fits : (last : Bool) → (if last then 0xc000_0800 else 0x8000_0800) < 2 ^ 32
      fits true = omega arith
      fits false = omega arith

  -- What `alloc_rx_slot` leaves: a buffer in the slot and its descriptor, or the pool found empty.
  pub record Fills (e : Device) (i : ℕ) (e' : Device) : Type 0 where
    pub valid : IsValid e'
    pub cur_same : e'.rx_cur ≡ e.rx_cur
    pub pool_next : e'.pool ≡ (p.take_buffer e.pool).1
    pub others :
        (j : ℕ)
        → j ≢ i
        → (get_or e'.rx_buffers j none ≡ get_or e.rx_buffers j none)
          × (entry e'.rx_desc_ring j ≡ entry e.rx_desc_ring j)
    pub result :
        ((a : Armed e' i) × ((p.take_buffer e.pool).0 ≡ some a.buf))
        ⊎ (((p.take_buffer e.pool).0 ≡ none)
            × (e'.rx_desc_ring ≡ e.rx_desc_ring)
            × (e'.rx_buffers ≡ e.rx_buffers))

  placed-Fills :
      (e : Device) (pool : p.Pool) (i : ℕ) (b : p.RxBuffer) (r : DescRing)
      → IsValid e
      → i < num_rx_desc
      → (p.take_buffer e.pool).0 ≡ some b
      → pool ≡ (p.take_buffer e.pool).1
      → Updates e.rx_desc_ring i (slot_desc i b) r
      → Fills e i
          (record e { pool = pool; rx_desc_ring = r; rx_buffers = set e.rx_buffers i (some b) })
  placed-Fills e pool i b r v h got next u =
      let e' : Device = record e {
        pool = pool;
        rx_desc_ring = r;
        rx_buffers = set e.rx_buffers i (some b);
      } in
      let here : Armed e' i = record {
        buf = b;
        kept =
            get_or-set e.rx_buffers i (some b) i none (omega (arith, v.slots))
            ∙ rw (==_refl i) refl;
        offers = subst (Offers i b) (sym u.written) (slot_desc-Offers i b);
      } in
      let other : (j : ℕ) → j ≢ i → get_or e'.rx_buffers j none ≡ get_or e.rx_buffers j none =
        λ j ne.
          get_or-set e.rx_buffers i (some b) j none (omega (arith, v.slots))
          ∙ rw (==_false i j (λ x. ne (sym x))) refl in
      record {
        valid = record {
          shape = Updates-IsRing u v.shape;
          slots = length-set e.rx_buffers i (some b) ∙ v.slots;
          armed = λ j hj own. elim (ℕ_discrete j i) [
            | yes is ↦ rw is here
            | no ne ↦ Armed-keeps e e' j (other j ne) (u.others_kept j ne) (
                v.armed j hj
                  (ap (λ x. has (RawDesc.opts1 x) desc_own) (sym (u.others_kept j ne)) ∙ own))
          ];
        };
        cur_same = refl;
        others = λ j ne. (other j ne, u.others_kept j ne);
        pool_next = next;
        result = inl (here, got);
      }

  pub alloc_rx_slot-Fills :
      (e : Device) (i : ℕ) → IsValid e → i < num_rx_desc → Fills e i (alloc_rx_slot e i).1
  unfolding alloc_rx_slot fill_slot place
  alloc_rx_slot-Fills e i v h = go (p.take_buffer e.pool) refl
    where
      go :
          (t : Option p.RxBuffer × p.Pool)
          → p.take_buffer e.pool ≡ t
          → Fills e i (fill_slot e i t).1
      go (none, pool) is = record {
        valid = IsValid-same e (record e { pool = pool }) refl refl v;
        cur_same = refl;
        pool_next = ap (λ (t : Option p.RxBuffer × p.Pool). t.1) (sym is);
        others = λ j ne. (refl, refl);
        result = inr (ap (λ (t : Option p.RxBuffer × p.Pool). t.0) is, refl, refl);
      }
      go (some b, pool) is =
          let (okay, u) =
            write_desc_lem num_rx_desc e.rx_desc_ring i (slot_desc i b) v.shape h
              (slot_desc-IsDesc i b) in
          placed (write_desc e.rx_desc_ring i (slot_desc i b)) okay u
        where
          placed :
              (w : Bool × DescRing)
              → w.0 ≡ true
              → Updates e.rx_desc_ring i (slot_desc i b) w.1
              → Fills e i (place (record e { pool = pool }) i b w).1
          placed (true, r) okay u =
              placed-Fills e pool i b r v h (ap (λ (t : Option p.RxBuffer × p.Pool). t.0) is)
                (ap (λ (t : Option p.RxBuffer × p.Pool). t.1) (sym is)) u
          placed (false, r) okay u = absurd (false≢true okay)

  pub alloc_rx_slot_found :
      (e : Device) (i : ℕ) → (alloc_rx_slot e i).0 ≡ true → (p.take_buffer e.pool).0 ≢ none
  unfolding alloc_rx_slot fill_slot
  alloc_rx_slot_found e i okay = go (p.take_buffer e.pool) okay
    where
      go : (t : Option p.RxBuffer × p.Pool) → (fill_slot e i t).0 ≡ true → t.0 ≢ none
      go (none, pool) okay' = absurd (false≢true okay')
      go (some b, pool) okay' = some-ne-none b
