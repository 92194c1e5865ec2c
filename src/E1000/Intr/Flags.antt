-- ===== src/E1000/Intr/Flags.antt =====
-- `process_interrupt`: which flags it raises.
use driver_workflow.Prelude.{
  ℕ, ◌^◌, ◌≡◌, refl, ap, ◌∙◌, Bool, true, false, ◌||◌, ◌&&◌, arith, ◌==◌, Bool-cases, inl, inr,
}
use driver_workflow.Bits.{has, has-bit_or}
use driver_workflow.Mmio.{Registers}
use driver_workflow.E1000.Regs.{icr, icr_lsc, icr_rxt0, icr_rxdmt0, icr_txdw, icr_rxseq, icr_rxo}
use driver_workflow.E1000.Intr.{
  link_change, rx, rx_desc_min_thresh, tx_done, rx_seq_err, rx_overrun, raise, causes, read_icr,
  process_interrupt,
}

-- Each flag of a status is raised exactly for its cause.
pub record Flags (status v : ℕ) : Type 0 where
  pub link_change_eq : has status link_change ≡ has v icr_lsc
  pub rx_eq : has status rx ≡ has v icr_rxt0
  pub min_thresh_eq : has status rx_desc_min_thresh ≡ has v icr_rxdmt0
  pub tx_done_eq : has status tx_done ≡ has v icr_txdw
  pub seq_err_eq : has status rx_seq_err ≡ has v icr_rxseq
  pub overrun_eq : has status rx_overrun ≡ has v icr_rxo

has-raise :
    (s : ℕ) (b : Bool) (m k : ℕ)
    → has (raise s b m) (2 ^ k) ≡ (has s (2 ^ k) || (b && has m (2 ^ k)))
unfolding raise
has-raise s true m k = has-bit_or k s m
has-raise s false m k = ground arith

-- Six flags raised in turn.
raised : Bool → Bool → Bool → Bool → Bool → Bool → ℕ
raised a b c e f g = raise (raise (raise (raise (raise (raise 0 a 1) b 2) c 4) e 8) f 16) g 32

has-raised :
    (a b c e f g : Bool)
    → let s = raised a b c e f g in
      (has s 1 ≡ a)
      × (has s 2 ≡ b)
      × (has s 4 ≡ c)
      × (has s 8 ≡ e)
      × (has s 16 ≡ f)
      × (has s 32 ≡ g)
unfolding raised has
has-raised a b c e f g =
    let s1 = raise 0 a 1 in
    let s2 = raise s1 b 2 in
    let s3 = raise s2 c 4 in
    let s4 = raise s3 e 8 in
    let s5 = raise s4 f 16 in
    let at = λ (k : ℕ).
      has-raise s5 g 32 k
      ∙ ap (λ t. t || (g && has 32 (2 ^ k)))
          (has-raise s4 f 16 k
            ∙ ap (λ t. t || (f && has 16 (2 ^ k)))
                (has-raise s3 e 8 k
                  ∙ ap (λ t. t || (e && has 8 (2 ^ k)))
                      (has-raise s2 c 4 k
                        ∙ ap (λ t. t || (c && has 4 (2 ^ k)))
                            (has-raise s1 b 2 k
                              ∙ ap (λ t. t || (b && has 2 (2 ^ k))) (has-raise 0 a 1 k))))) in
    (
      at 0 ∙ ground arith,
      at 1 ∙ ground arith,
      at 2 ∙ ground arith,
      at 3 ∙ ground arith,
      at 4 ∙ ground arith,
      at 5 ∙ ground arith,
    )

causes-Flags : (v : ℕ) → Flags (causes v) v
unfolding causes raised has
causes-Flags v = elim (Bool-cases (v == 0)) [
  | inl zero_cause ↦
      let is : v ≡ 0 = ground (arith, zero_cause) in
      rw is (record {
        link_change_eq = refl;
        rx_eq = refl;
        min_thresh_eq = refl;
        tx_done_eq = refl;
        seq_err_eq = refl;
        overrun_eq = refl;
      })
  | inr other ↦
      let (a, b, c, e, f, g) =
        has-raised (has v icr_lsc) (has v icr_rxt0) (has v icr_rxdmt0) (has v icr_txdw)
          (has v icr_rxseq) (has v icr_rxo) in
      rw (causes, other)
        (record {
          link_change_eq = a;
          rx_eq = b;
          min_thresh_eq = c;
          tx_done_eq = e;
          seq_err_eq = f;
          overrun_eq = g;
        })
]

-- `process_interrupt` raises each of its six flags exactly for the bit of ICR that is its cause,
-- and reads ICR once.
pub process_interrupt-Flags :
    ⦃io : Registers⦄ (w : io.World)
    → Flags (process_interrupt w).0 (io.read w icr).0
      × ((process_interrupt w).1 ≡ (io.read w icr).1)
unfolding process_interrupt read_icr
process_interrupt-Flags ⦃io⦄ w = (causes-Flags (io.read w icr).0, refl)
