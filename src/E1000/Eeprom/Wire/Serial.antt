-- ===== src/E1000/Eeprom/Wire/Serial.antt =====
-- A serial device behind the EECD register, and what `shift_out_bits` sends it.
use driver_workflow.Prelude.{
  ℕ, zero, suc, ◌-◌, ◌/◌, ◌%◌, ◌^◌, ◌≤◌, ◌<◌, ◌≡◌, ◌⊎◌, inr, refl, ◌∙◌, subst, bit_or, Bool, true,
  false, List, [], ◌∷◌, ◌++◌, ◌==◌, if◌then◌else◌, arith,
}
use native.Mathlib.Nat.{pow-suc, one-le-pow, pow-le-pow_right}
use mathlib.Core.List.{append_assoc}
use driver_workflow.Bits.{has, has-two_pow}
use driver_workflow.Mmio.{Registers}
use driver_workflow.E1000.Eeprom.Wire.{
  eecd, eecd_sk, eecd_di, eecd_do, clear, raise_clock, lower_clock, out_bit, out_from,
  shift_out_bits,
}
use driver_workflow.E1000.Eeprom.Wire.Pins.{
  sk_set_di, sk_clear_di, sk_clear_do, sk_raised, sk_lowered, di_set, di_cleared, di_raised,
  di_lowered, bits_of,
}

-- A device behind the EECD register: it takes the data-in bit whenever the clock rises, and then
-- shows a bit that depends on those it has taken. `At w clock di taken` gives the two pins.
pub record SerialDevice ⦃io : Registers⦄ : Type 1 where
  pub answer : List Bool → Bool
  pub At : io.World → Bool → Bool → List Bool → Type 0
  pub rises :
      (w : io.World) (di : Bool) (taken : List Bool) (v : ℕ)
      → At w false di taken
      → has v eecd_sk ≡ true
      → At (io.write w eecd v) true (has v eecd_di) (taken ++ (has v eecd_di ∷ []))
  pub keeps :
      (w : io.World) (clock di : Bool) (taken : List Bool) (v : ℕ)
      → At w clock di taken
      → (clock ≡ true) ⊎ (has v eecd_sk ≡ false)
      → At (io.write w eecd v) (has v eecd_sk) (has v eecd_di) taken
  pub shows :
      (w : io.World) (clock di : Bool) (taken : List Bool)
      → At w clock di taken
      → let (r, w') = io.read w eecd in
        At w' clock di taken
        × (has r eecd_do ≡ answer taken)
        × (has r eecd_sk ≡ clock)
        × (has r eecd_di ≡ di)

module _ ⦃io : Registers⦄ (dev : SerialDevice) where
  -- The device has taken the bits, and the clock is low, also in the driver's copy of the register.
  abbrev pub Rests : io.World → ℕ → List Bool → Type 0
  Rests w v taken = (di : Bool) × dev.At w false di taken × (has v eecd_sk ≡ false)

  -- A write that leaves the clock low.
  pub set_low :
      (w : io.World) (clock di : Bool) (taken : List Bool) (v : ℕ)
      → dev.At w clock di taken
      → has v eecd_sk ≡ false
      → dev.At (io.write w eecd v) false (has v eecd_di) taken
  set_low w clock di taken v at low =
      subst (λ c. dev.At (io.write w eecd v) c (has v eecd_di) taken) low
        (dev.keeps w clock di taken v at (inr low))

  -- A pulse of the clock.
  pub raised_lem :
      (w : io.World) (di : Bool) (taken : List Bool) (v : ℕ)
      → dev.At w false di taken
      → let r = raise_clock w v in dev.At r.1 true (has v eecd_di) (taken ++ (has v eecd_di ∷ []))
  unfolding raise_clock
  raised_lem w di taken v at =
      subst (λ c. dev.At (io.write w eecd (bit_or v eecd_sk)) true c (taken ++ (c ∷ [])))
        (di_raised v) (dev.rises w di taken (bit_or v eecd_sk) at (sk_raised v))

  pub lowered_lem :
      (w : io.World) (clock di : Bool) (taken : List Bool) (v : ℕ)
      → dev.At w clock di taken
      → let r = lower_clock w v in
        dev.At r.1 false (has v eecd_di) taken
        × (has r.0 eecd_sk ≡ false)
        × (has r.0 eecd_di ≡ has v eecd_di)
  unfolding lower_clock
  lowered_lem w clock di taken v at = (
    subst (λ c. dev.At (io.write w eecd (clear v eecd_sk)) false c taken) (di_lowered v)
        (set_low w clock di taken (clear v eecd_sk) at (sk_lowered v)),
    sk_lowered v,
    di_lowered v,
  )

  abbrev driven : Bool → ℕ → ℕ
  driven b v = if b then bit_or v eecd_di else clear v eecd_di

  sk_driven : (b : Bool) (v : ℕ) → has (driven b v) eecd_sk ≡ has v eecd_sk
  sk_driven true v = sk_set_di v
  sk_driven false v = sk_clear_di v

  di_driven : (b : Bool) (v : ℕ) → has (driven b v) eecd_di ≡ b
  di_driven true v = di_set v
  di_driven false v = di_cleared v

  out_bit-Rests :
      (b : Bool) (v : ℕ) (w : io.World) (taken : List Bool)
      → Rests w v taken
      → let r = out_bit b v w in Rests r.1 r.0 (taken ++ (b ∷ []))
  unfolding out_bit
  out_bit-Rests b v w taken (di, at, low) =
      let v1 = driven b v in
      let w1 = io.write w eecd v1 in
      let at1 = set_low w false di taken v1 at (sk_driven b v ∙ low) in
      let r2 = raise_clock w1 v1 in
      let at2 : dev.At r2.1 true b (taken ++ (b ∷ [])) =
        subst (λ c. dev.At r2.1 true c (taken ++ (c ∷ []))) (di_driven b v)
          (raised_lem w1 (has v1 eecd_di) taken v1 at1) in
      let (at3, low3, _) = lowered_lem r2.1 true b (taken ++ (b ∷ [])) r2.0 at2 in
      (has r2.0 eecd_di, at3, low3)

  out_done : (n x v : ℕ) (w : io.World) → out_from n x 0 v w ≡ (v, w)
  unfolding out_from
  out_done zero x v w = refl
  out_done (suc n) x v w = refl

  out_step :
      (n x m v : ℕ) (w : io.World)
      → (m == 0) ≡ false
      → let r = out_bit (has x m) v w in out_from (suc n) x m v w ≡ out_from n x (m / 2) r.0 r.1
  unfolding out_from
  out_step n x m v w more = rw more refl

  -- The loop sends the bits from that of its mask down.
  out_from-Rests :
      (k n x v : ℕ) (w : io.World) (taken : List Bool)
      → k < n
      → Rests w v taken
      → let r = out_from n x (2 ^ k) v w in Rests r.1 r.0 (taken ++ bits_of (suc k) x)
  out_from-Rests k zero x v w taken h at = absurd (omega arith)
  out_from-Rests zero (suc n) x v w taken h at =
      let first = out_bit-Rests (has x 1) v w taken at in
      rw (out_step n x 1 v w refl, out_done, ← has-two_pow 0 x) first
  out_from-Rests (suc k) (suc n) x v w taken h at =
      let b = has x (2 ^ suc k) in
      let r = out_bit b v w in
      let half : 2 ^ suc k / 2 ≡ 2 ^ k = omega (arith, pow-suc 2 k) in
      let more : (2 ^ suc k == 0) ≡ false = ground (arith, one-le-pow (suc k) 2) in
      let rest =
        out_from-Rests k n x r.0 r.1 (taken ++ (b ∷ [])) (omega arith)
          (out_bit-Rests b v w taken at) in
      rw (out_step n x (2 ^ suc k) v w more, half, ← has-two_pow (suc k) x)
        (rw (append_assoc taken (b ∷ []) (bits_of (suc k) x)) at rest)

  -- `shift_out_bits` sends the bits of a word, the highest first, and leaves the data-in pin low.
  pub shift_out_bits-Sends :
      (x count : ℕ) (di : Bool) (w : io.World) (taken : List Bool)
      → 0 < count
      → count ≤ 16
      → dev.At w false di taken
      → dev.At (shift_out_bits w x count) false false (taken ++ bits_of count x)
  unfolding shift_out_bits
  shift_out_bits-Sends x count di w taken some_bits few at =
      let (v, w1) = io.read w eecd in
      let (at1, _, low, _) = dev.shows w false di taken at in
      let k = count - 1 in
      let r = out_from 17 x (2 ^ k) (clear v eecd_do) w1 in
      let whole : suc k ≡ count = omega arith in
      let (di', at2, low2) =
        subst (λ c. Rests r.1 r.0 (taken ++ bits_of c x)) whole
          (out_from-Rests k 17 x (clear v eecd_do) w1 taken (omega arith)
            (di, at1, sk_clear_do v ∙ low)) in
      let small = pow-le-pow_right {n = 2} (omega arith) {i = k} {j = 15} (omega arith) in
      let fits : 2 ^ k % 2 ^ 16 ≡ 2 ^ k = omega (arith, small) in
      rw (shift_out_bits, fits)
        (subst
          (λ c. dev.At (io.write r.1 eecd (clear r.0 eecd_di)) false c (taken ++ bits_of count x))
          (di_cleared r.0)
          (set_low r.1 false di' (taken ++ bits_of count x) (clear r.0 eecd_di) at2
            (sk_clear_di r.0 ∙ low2)))
