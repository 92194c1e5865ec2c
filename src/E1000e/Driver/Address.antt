-- ===== src/E1000e/Driver/Address.antt =====
-- `rar_set`: the receive address registers hold the address.
use driver_workflow.Prelude.{ℕ, ◌+◌, ◌*◌, ◌%◌, ◌^◌, ◌<◌, ◌≡◌, ap, ◌∙◌, bit_or, [], ◌∷◌, arith}
use driver_workflow.Bits.{bit_or-add}
use driver_workflow.Bytes.{from_le_bytes}
use driver_workflow.Mmio.{Registers}
use driver_workflow.E1000e.Regs.{ra, rah_av}
use driver_workflow.E1000e.Driver.{rar_set}

-- The low word of an address, and the high word with the valid bit.
low_word :
    (a b c d : ℕ)
    → a < 256
    → b < 256
    → c < 256
    → d < 256
    → bit_or (bit_or (bit_or a (b * 2 ^ 8 % 2 ^ 32)) (c * 2 ^ 16 % 2 ^ 32)) (d * 2 ^ 24 % 2 ^ 32)
      ≡ from_le_bytes (a ∷ b ∷ c ∷ d ∷ [])
unfolding from_le_bytes
low_word a b c d ha hb hc hd =
    let e1 : b * 2 ^ 8 % 2 ^ 32 ≡ b * 2 ^ 8 = omega arith in
    let e2 : c * 2 ^ 16 % 2 ^ 32 ≡ c * 2 ^ 16 = omega arith in
    let e3 : d * 2 ^ 24 % 2 ^ 32 ≡ d * 2 ^ 24 = omega arith in
    let s1 = bit_or-add 8 a b (omega arith) in
    let s2 = bit_or-add 16 (a + b * 2 ^ 8) c (omega arith) in
    let s3 = bit_or-add 24 (a + b * 2 ^ 8 + c * 2 ^ 16) d (omega arith) in
    rw (e1, e2, e3, s1, s2, s3) (omega arith)

high_word :
    (a b : ℕ)
    → a < 256
    → b < 256
    → bit_or (bit_or a (b * 2 ^ 8 % 2 ^ 32)) rah_av ≡ from_le_bytes (a ∷ b ∷ []) + 2 ^ 31
unfolding from_le_bytes
high_word a b ha hb =
    let e1 : b * 2 ^ 8 % 2 ^ 32 ≡ b * 2 ^ 8 = omega arith in
    let s1 = bit_or-add 8 a b (omega arith) in
    let s2 = bit_or-add 31 (a + b * 2 ^ 8) 1 (omega arith) in rw (e1, s1) (omega (arith, s2))

module _ ⦃io : Registers⦄ where
  -- For an address of six bytes, `rar_set` writes to the pair of registers at the index the first
  -- four bytes, the lowest first, and the last two with the valid bit above them.
  pub rar_set-writes :
      (w : io.World) (index a b c d e f : ℕ)
      → (a < 256) × (b < 256) × (c < 256) × (d < 256) × (e < 256) × (f < 256)
      → rar_set w (a ∷ b ∷ c ∷ d ∷ e ∷ f ∷ []) index
        ≡ io.write
            (io.write w (ra + index * 8) (from_le_bytes (a ∷ b ∷ c ∷ d ∷ [])))
            (ra + index * 8 + 4)
            (from_le_bytes (e ∷ f ∷ []) + 2 ^ 31)
  unfolding rar_set
  rar_set-writes w index a b c d e f (ha, hb, hc, hd, he, hf) =
      let low = ra + index * 8 in
      let high = bit_or (bit_or e (f * 2 ^ 8 % 2 ^ 32)) rah_av in
      ap (λ v. io.write (io.write w low v) (low + 4) high) (low_word a b c d ha hb hc hd)
      ∙ ap (io.write (io.write w low (from_le_bytes (a ∷ b ∷ c ∷ d ∷ []))) (low + 4))
          (high_word e f he hf)
