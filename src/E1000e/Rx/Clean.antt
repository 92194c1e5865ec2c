-- ===== src/E1000e/Rx/Clean.antt =====
-- `clean_rx_irq`: which descriptors a call takes, which frames it delivers, and the ring it leaves.
use driver_workflow.Prelude.{
  ℕ, zero, suc, ◌+◌, ◌%◌, ◌≤◌, ◌<◌, ◌≡◌, ◌⊎◌, inl, inr, refl, sym, ap, ◌∙◌, Bool, true, not, false,
  Option, List, [], ◌∷◌, ◌++◌, arith, Bool-cases, if◌then◌else◌, subst,
}
use mathlib.Core.List.{append_assoc, append-nil}
use driver_workflow.Dma.{Dma}
use driver_workflow.Mmio.{Registers}
use driver_workflow.Pool.{RxPool}
use driver_workflow.E1000e.Regs.{rx_desc_count, rx_buffer_write}
use driver_workflow.E1000e.Desc.{DescRing, RxDescExt, is_done, read_desc, buffer}
use driver_workflow.E1000e.Desc.Ring.{Same}
use driver_workflow.E1000e.Rx.{Pass, take_done, clean_from}
use driver_workflow.E1000e.Rx.Held.{Holding, After, After-join, After-none}
use driver_workflow.E1000e.Rx.Round.{Round, take_done-Round, ends, is_whole, frame_of}

module _ ⦃d : Dma⦄ ⦃p : RxPool⦄ where
  -- The frames in a run of descriptors with their slots: a descriptor that starts a frame, ends it
  -- and has no error is a frame, and every other is dropped. A frame starts after one that has
  -- ended.
  unfoldable pub whole_frames : Bool → Bool → List (RxDescExt × Option p.RxBuffer) → List p.RxBuffer
  whole_frames crc_stripping continues [] = []
  whole_frames crc_stripping continues (s ∷ ss) =
      (if is_whole continues s.0 then frame_of crc_stripping s.0 s.1 else [])
      ++ whole_frames crc_stripping (not (ends s.0)) ss

  -- Whether the last frame of the run has not ended.
  unfoldable pub left_open : Bool → List (RxDescExt × Option p.RxBuffer) → Bool
  left_open continues [] = continues
  left_open continues (s ∷ ss) = left_open (not (ends s.0)) ss

  -- `k` descriptors of the ring with their slots, from index `c` on.
  unfoldable pub slots_from : DescRing p.RxBuffer → ℕ → ℕ → List (RxDescExt × Option p.RxBuffer)
  slots_from q c zero = []
  slots_from q c (suc k) = (read_desc q c, buffer q c) ∷ slots_from q ((c + 1) % rx_desc_count) k

  slots_from-Same :
      (q' q : DescRing p.RxBuffer) (c k : ℕ)
      → c < rx_desc_count
      → ((j : ℕ) → j < k → Same q' q ((c + j) % rx_desc_count))
      → slots_from q' c k ≡ slots_from q c k
  unfolding slots_from
  slots_from-Same q' q c zero h same = refl
  slots_from-Same q' q c (suc k) h same =
      let (eb, ed) = same 0 (omega arith) in
      let i : (c + 0) % rx_desc_count ≡ c = omega arith in
      let rest = slots_from-Same q' q ((c + 1) % rx_desc_count) k (omega arith) (λ j lt.
        let e : ((c + 1) % rx_desc_count + j) % rx_desc_count ≡ (c + suc j) % rx_desc_count =
          omega arith in
        rw e (same (suc j) (omega arith))) in
      rw
        (
          subst (λ x. read_desc q' x ≡ read_desc q x) i ed,
          subst (λ x. buffer q' x ≡ buffer q x) i eb,
          rest,
        )
        refl

module _ ⦃d : Dma⦄ ⦃p : RxPool⦄ ⦃io : Registers⦄ where
  -- A run of the loop: it takes the `k` first descriptors, all done, up to the budget or to one that
  -- is not, and delivers their frames.
  pub record Runs (bound : ℕ) (crc_stripping : Bool) (budget : ℕ) (s : Pass) (n : ℕ) (s' : Pass)
      : Type 0 where
    pub k : ℕ
    pub within : k ≤ budget
    pub after : After s.receiver.ring s.index n s'.receiver.ring k
    pub room : s'.cleaned_count + after.n' ≤ bound
    pub count_eq : s.cleaned_count + k < rx_buffer_write → s'.cleaned_count ≡ s.cleaned_count + k
    pub index_eq : s'.index ≡ (s.index + k) % rx_desc_count
    pub all_done :
        (j : ℕ) → j < k → is_done (read_desc s.receiver.ring ((s.index + j) % rx_desc_count)) ≡ true
    pub stopped :
        (k ≡ budget) ⊎ (is_done (read_desc s.receiver.ring ((s.index + k) % rx_desc_count)) ≡ false)
    pub continues_eq :
        s'.is_discarding ≡ left_open s.is_discarding (slots_from s.receiver.ring s.index k)
    pub received_eq :
        s'.received
        ≡ s.received
          ++ whole_frames crc_stripping s.is_discarding (slots_from s.receiver.ring s.index k)

  Runs-none :
      (bound : ℕ) (crc_stripping : Bool) (budget : ℕ) (s : Pass) (n : ℕ)
      → Holding s.receiver.ring s.index n
      → s.cleaned_count + n ≤ bound
      → (budget ≡ 0) ⊎ (is_done (read_desc s.receiver.ring s.index) ≡ false)
      → (r : Runs bound crc_stripping budget s n s) × (r.k ≡ 0)
  unfolding slots_from whole_frames left_open
  Runs-none bound crc_stripping budget s n v room why =
      let (a, e) = After-none s.receiver.ring s.index n v in
      let i : (s.index + 0) % rx_desc_count ≡ s.index = omega (arith, v.index_in) in
      (
        record {
          k = 0;
          within = omega arith;
          after = a;
          room = omega (arith, e, room);
          count_eq = λ h. omega arith;
          index_eq = sym i;
          all_done = λ j h. elim h [ ];
          stopped = rw i (elim why [ inl z ↦ inl (sym z) | inr w ↦ inr w ]);
          continues_eq = refl;
          received_eq = sym (append-nil s.received);
        },
        refl,
      )

  Runs-more :
      (bound : ℕ) (crc_stripping : Bool) (budget : ℕ) (s : Pass) (n : ℕ) (t s' : Pass)
      → Holding s.receiver.ring s.index n
      → is_done (read_desc s.receiver.ring s.index) ≡ true
      → (r : Round bound crc_stripping s n t)
      → (b : Runs bound crc_stripping budget t r.after.n' s') → b.k + 1 < n
      → (x : Runs bound crc_stripping (suc budget) s n s') × (x.k ≡ suc b.k)
  unfolding slots_from whole_frames left_open
  Runs-more bound crc_stripping budget s n t s' v done r b less =
      let q = s.receiver.ring in
      let c = s.index in
      let (a, e) =
        After-join q c n t.receiver.ring 1 s'.receiver.ring b.k r.after t.index r.index_eq b.after
          (suc b.k) (omega arith) in
      let there : (j : ℕ) → (t.index + j) % rx_desc_count ≡ (c + suc j) % rx_desc_count =
        λ j. omega (arith, r.index_eq) in
      let old : (j : ℕ)
          → j + 1 < n
          → read_desc t.receiver.ring ((t.index + j) % rx_desc_count)
            ≡ read_desc q ((c + suc j) % rx_desc_count) =
        λ j lt. rw (there j) (r.after.same (suc j) (omega arith) (omega arith)).1 in
      let rest : (j : ℕ)
          → j < b.k
          → Same t.receiver.ring q (((c + 1) % rx_desc_count + j) % rx_desc_count) =
        λ j lt.
          let e : ((c + 1) % rx_desc_count + j) % rx_desc_count ≡ (c + suc j) % rx_desc_count =
            omega arith in
          rw e (r.after.same (suc j) (omega arith) (omega arith)) in
      let seen : slots_from t.receiver.ring t.index b.k
          ≡ slots_from q ((c + 1) % rx_desc_count) b.k =
        ap (λ i. slots_from t.receiver.ring i b.k) r.index_eq
        ∙ slots_from-Same t.receiver.ring q ((c + 1) % rx_desc_count) b.k (omega arith) rest in
      (
        record {
          k = suc b.k;
          within = omega (arith, b.within);
          after = a;
          room = omega (arith, e, b.room);
          count_eq = λ h. omega (
            arith,
            b.count_eq (omega (arith, r.count_eq (omega arith))),
            r.count_eq (omega arith),
          );
          index_eq = omega (arith, b.index_eq, r.index_eq);
          all_done = every;
          stopped = elim b.stopped [
            | inl full ↦ inl (ap suc full)
            | inr wait ↦ inr (rw (← old b.k (omega arith)) wait)
          ];
          continues_eq = b.continues_eq ∙ rw (r.continues_eq, seen) refl;
          received_eq =
              b.received_eq
              ∙ rw (r.received_eq, r.continues_eq, seen) (append_assoc s.received _ _);
        },
        refl,
      )
    where
      every :
          (j : ℕ)
          → j < suc b.k
          → is_done (read_desc s.receiver.ring ((s.index + j) % rx_desc_count)) ≡ true
      every zero lt =
          let i : (s.index + 0) % rx_desc_count ≡ s.index = omega (arith, v.index_in) in rw i done
      every (suc j) lt =
          let same = r.after.same (suc j) (omega arith) (omega arith) in
          let e : (t.index + j) % rx_desc_count ≡ (s.index + suc j) % rx_desc_count =
            omega (arith, r.index_eq) in
          rw (← same.1, ← e) (b.all_done j (omega arith))

  -- The device has not completed the descriptor `m` places on, its tail.
  abbrev pub Waits : DescRing p.RxBuffer → ℕ → ℕ → Type 0
  Waits q c m = is_done (read_desc q ((c + m) % rx_desc_count)) ≡ false

  pub clean_from-Runs :
      (bound : ℕ) (crc_stripping : Bool) (budget : ℕ) (s : Pass) (n m : ℕ)
      → bound ≤ rx_desc_count
      → Holding s.receiver.ring s.index n
      → s.cleaned_count + n ≤ bound
      → m < n
      → Waits s.receiver.ring s.index m
      → (r : Runs bound crc_stripping budget s n (clean_from crc_stripping budget s)) × (r.k ≤ m)
  unfolding clean_from
  clean_from-Runs bound crc_stripping zero s n m small v room lt waits =
      let (r, e) = Runs-none bound crc_stripping zero s n v room (inl refl) in (r, omega (arith, e))
  clean_from-Runs bound crc_stripping (suc budget) s n zero small v room lt waits =
      let i : (s.index + 0) % rx_desc_count ≡ s.index = omega (arith, v.index_in) in
      let wait : is_done (read_desc s.receiver.ring s.index) ≡ false = rw i at waits in
      let (r, e) = Runs-none bound crc_stripping (suc budget) s n v room (inr wait) in
      rw (clean_from, wait) (r, omega (arith, e))
  clean_from-Runs bound crc_stripping (suc budget) s zero (suc m) small v room lt waits =
      absurd (omega (arith, lt))
  clean_from-Runs bound crc_stripping (suc budget) s (suc zero) (suc m) small v room lt waits =
      absurd (omega (arith, lt))
  clean_from-Runs bound crc_stripping (suc budget) s (suc (suc n)) (suc m) small v room lt waits =
      elim (Bool-cases (is_done (read_desc s.receiver.ring s.index))) [
        | inr wait ↦
            let (r, e) =
              Runs-none bound crc_stripping (suc budget) s (suc (suc n)) v room (inr wait) in
            rw (clean_from, wait) (r, omega (arith, e))
        | inl done ↦
            let r = take_done-Round bound crc_stripping s n small v room in
            let t = take_done crc_stripping s in
            let hold : Holding t.receiver.ring t.index r.after.n' = rw r.index_eq r.after.holding in
            let there : (t.index + m) % rx_desc_count ≡ (s.index + suc m) % rx_desc_count =
              omega (arith, r.index_eq) in
            let wait : Waits t.receiver.ring t.index m =
              rw (there, (r.after.same (suc m) (omega arith) lt).1) waits in
            let (b, le) =
              clean_from-Runs bound crc_stripping budget t r.after.n' m small hold r.room
                (omega (arith, r.after.keeps)) wait in
            let (x, e) =
              Runs-more bound crc_stripping budget s (suc (suc n)) t _ v done r b
                (omega (arith, le)) in
            rw (clean_from, done) (x, omega (arith, e, le))
      ]
