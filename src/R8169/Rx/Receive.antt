-- ===== src/R8169/Rx/Receive.antt =====
-- `rtl_rx`: which descriptors a poll takes, what it delivers and counts, and that it ends.
use driver_workflow.Prelude.{
  ℕ, zero, suc, ◌+◌, ◌-◌, ◌%◌, ◌^◌, ◌≤◌, ◌<◌, ◌≡◌, ◌≢◌, ◌⊎◌, refl, sym, ap, ◌∙◌, true, false, List,
  [], ◌++◌, arith, ltb, length, length-append, ltb→lt, Bool-cases, inl, inr,
}
use native.Mathlib.Decide.{ℕ_discrete}
use driver_workflow.Dma.{Dma}
use driver_workflow.R8169.Regs.{num_rx_desc}
use driver_workflow.R8169.Desc.Entries.{entry}
use driver_workflow.R8169.Desc.Entries.Access.{rearmed}
use driver_workflow.R8169.Rx.{RxRing, Poll, no_stats, poll_from, rtl_rx}
use driver_workflow.R8169.Rx.Inv.{
  IsValid, owned, ahead, frame_at, size_at, Round, Round-IsValid, owned-rearmed, poll_one-owned,
  poll_one-free,
}
use mathlib.Core.List.{append-nil, append_assoc}

module _ ⦃d : Dma⦄ where
  -- The frames in `n` descriptors of a ring from index `cur` on, in order, and their octets.
  abbrev pub frames : RxRing → ℕ → ℕ → List (List ℕ)
  frames q cur zero = []
  frames q cur (suc n) = frame_at q (cur % num_rx_desc) ++ frames q ((cur + 1) % 2 ^ 32) n

  abbrev pub octets : RxRing → ℕ → ℕ → ℕ
  octets q cur zero = 0
  octets q cur (suc n) = size_at q (cur % num_rx_desc) + octets q ((cur + 1) % 2 ^ 32) n

  -- A poll from `p` with at most `n` rounds. It takes descriptors from the current one on, none
  -- of them owned by the hardware, hands each back and touches no other; every one is either
  -- delivered, in order, or counted as an error or a drop; it stops at the budget or at the first
  -- descriptor that the hardware owns.
  pub record Polls (n : ℕ) (p out : Poll) : Type 0 where
    pub taken : ℕ
    pub within : taken ≤ n
    pub once : taken ≤ num_rx_desc
    pub cur_next : out.rx.cur_rx ≡ (p.rx.cur_rx + taken) % 2 ^ 32
    pub slots_same : out.rx.slots ≡ p.rx.slots
    pub valid : IsValid out.rx
    pub returned : (i : ℕ) → i < num_rx_desc → ahead p.rx i < taken → owned p.rx.ring i ≡ false
    pub rearms :
        (i : ℕ)
        → i < num_rx_desc
        → ahead p.rx i < taken
        → entry out.rx.ring i ≡ rearmed (entry p.rx.ring i)
    pub keeps :
        (i : ℕ) → i < num_rx_desc → taken ≤ ahead p.rx i → entry out.rx.ring i ≡ entry p.rx.ring i
    pub packets_eq : out.packets ≡ p.packets ++ frames p.rx p.rx.cur_rx taken
    pub packets_count :
        out.stats.rx_packets ≡ p.stats.rx_packets + length (frames p.rx p.rx.cur_rx taken)
    pub bytes_count : out.stats.rx_bytes ≡ p.stats.rx_bytes + octets p.rx p.rx.cur_rx taken
    pub all_counted :
        out.stats.rx_packets + out.stats.rx_errors + out.stats.rx_dropped
        ≡ p.stats.rx_packets + p.stats.rx_errors + p.stats.rx_dropped + taken
    pub stopped : (taken ≡ n) ⊎ (owned out.rx.ring (out.rx.cur_rx % num_rx_desc) ≡ true)

  Polls-none :
      (n : ℕ) (p : Poll)
      → IsValid p.rx
      → (0 ≡ n) ⊎ (owned p.rx.ring (p.rx.cur_rx % num_rx_desc) ≡ true)
      → Polls n p p
  Polls-none n p v stop = record {
    taken = 0;
    within = omega arith;
    once = omega arith;
    cur_next = omega (arith, v.cur_fits);
    slots_same = refl;
    valid = v;
    returned = λ i h k. elim k [ ];
    rearms = λ i h k. elim k [ ];
    keeps = λ i h k. refl;
    packets_eq = sym (append-nil p.packets);
    packets_count = omega arith;
    bytes_count = omega arith;
    all_counted = omega arith;
    stopped = stop;
  }

  -- Descriptors that a round leaves alone hold the frames they held.
  frame_at-Round :
      {p next : Poll} (i : ℕ)
      → Round p next
      → i ≢ p.rx.cur_rx % num_rx_desc
      → (frame_at next.rx i ≡ frame_at p.rx i) × (size_at next.rx i ≡ size_at p.rx i)
  unfolding frame_at size_at
  frame_at-Round i r ne = rw (r.rearms.others_kept i ne, r.slots_same) (refl, refl)

  frames-Round :
      {p next : Poll} (cur n : ℕ)
      → Round p next
      → cur < 2 ^ 32
      → n ≤ (p.rx.cur_rx % num_rx_desc + num_rx_desc - cur % num_rx_desc) % num_rx_desc
      → (frames next.rx cur n ≡ frames p.rx cur n) × (octets next.rx cur n ≡ octets p.rx cur n)
  frames-Round cur zero r h out = (refl, refl)
  frames-Round {p} {next} cur (suc n) r h out =
      let (f, s) = frame_at-Round {p = p} {next = next} (cur % num_rx_desc) r (omega arith) in
      let (fs, ss) =
        frames-Round {p = p} {next = next} ((cur + 1) % 2 ^ 32) n r (omega arith) (omega arith) in
      rw (f, s, fs, ss) (refl, refl)

  -- A poll does not take a descriptor that the hardware owns.
  Polls-owned :
      {n : ℕ} {p out : Poll} (i : ℕ) (o : Polls n p out)
      → i < num_rx_desc
      → owned p.rx.ring i ≡ true
      → o.taken ≤ ahead p.rx i
  Polls-owned {p = p} i o h own = elim (Bool-cases (ltb (ahead p.rx i) o.taken)) [
    | inl taken ↦ cc (own, o.returned i h (ltb→lt _ _ taken))
    | inr kept ↦ ground (arith, kept)
  ]

  -- Taking one descriptor and then polling on is a poll.
  Polls-more :
      (n : ℕ) (p next out : Poll)
      → IsValid p.rx
      → owned p.rx.ring (p.rx.cur_rx % num_rx_desc) ≡ false
      → Round p next
      → Polls n next out
      → Polls (suc n) p out
  unfolding frame_at
  Polls-more n p next out v free r o =
      let c = p.rx.cur_rx % num_rx_desc in
      let armed : owned next.rx.ring c ≡ true =
        rw (r.rearms.written) (owned-rearmed (entry p.rx.ring c)) in
      let once_more : o.taken < num_rx_desc =
        omega (arith, Polls-owned c o (omega arith) armed, r.cur_next) in
      let (fs, ss) =
        frames-Round {p = p} {next = next} ((p.rx.cur_rx + 1) % 2 ^ 32) o.taken r (omega arith)
          (omega arith) in
      let at_next = ap (λ (x : ℕ). length (frames next.rx x o.taken)) r.cur_next in
      let octets_next = ap (λ (x : ℕ). octets next.rx x o.taken) r.cur_next in
      record {
        taken = suc o.taken;
        within = omega (arith, o.within);
        once = once_more;
        cur_next = omega (arith, o.cur_next, r.cur_next);
        slots_same = o.slots_same ∙ r.slots_same;
        valid = o.valid;
        returned = λ i h k. elim (ℕ_discrete i c) [
          | yes same ↦ rw same free
          | no ne ↦ rw (← r.rearms.others_kept i ne) (o.returned i h (omega (arith, r.cur_next)))
        ];
        rearms = λ i h k. elim (ℕ_discrete i c) [
          | yes same ↦
              rw same (o.keeps c (omega arith) (omega (arith, r.cur_next)) ∙ r.rearms.written)
          | no ne ↦
              o.rearms i h (omega (arith, r.cur_next)) ∙ ap rearmed (r.rearms.others_kept i ne)
        ];
        keeps =
            λ i h k. o.keeps i h (omega (arith, r.cur_next)) ∙ r.rearms.others_kept i (omega arith);
        packets_eq =
            o.packets_eq
            ∙ rw (r.cur_next, fs, r.packets_more) (append_assoc p.packets (frame_at p.rx c) _);
        packets_count = omega (
          arith,
          o.packets_count,
          r.packets_count,
          ap length fs,
          length-append (frame_at p.rx c) (frames p.rx ((p.rx.cur_rx + 1) % 2 ^ 32) o.taken),
          at_next,
        );
        bytes_count = omega (arith, o.bytes_count, r.bytes_count, ss, octets_next);
        all_counted = omega (arith, o.all_counted, r.all_counted);
        stopped = elim o.stopped [ inl all ↦ inl (ap suc all) | inr own ↦ inr own ];
      }

  poll_from-Polls : (n : ℕ) (p : Poll) → IsValid p.rx → Polls n p (poll_from n p)
  unfolding poll_from
  poll_from-Polls zero p v = Polls-none 0 p v (inl refl)
  poll_from-Polls (suc n) p v = elim (Bool-cases (owned p.rx.ring (p.rx.cur_rx % num_rx_desc))) [
    | inl busy ↦ rw (poll_from, poll_one-owned p v busy) (Polls-none (suc n) p v (inr busy))
    | inr free ↦
        let (next, e, r) = poll_one-free p v free in
        rw (poll_from, e)
          (Polls-more n p next _ v free r (poll_from-Polls n next (Round-IsValid v r)))
  ]

  -- `rtl_rx` on a valid ring takes at most `budget` descriptors, and at most one turn of the ring,
  -- from `cur_rx` on. None of them is owned by the hardware; each is handed back, with its end mark
  -- and its address, and no other is touched. The packets are the whole frames without errors among
  -- them, in order and byte for byte; every descriptor is counted exactly once as a packet, an
  -- error or a drop. The loop ends at the budget or at a descriptor the hardware owns, and the ring
  -- stays valid.
  pub rtl_rx-Polls :
      (q : RxRing) (budget : ℕ)
      → IsValid q
      → Polls budget (record { rx = q; packets = []; stats = no_stats }) (rtl_rx q budget)
  unfolding rtl_rx
  rtl_rx-Polls q budget v = poll_from-Polls budget _ v
