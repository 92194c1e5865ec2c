-- ===== src/E1000/Eeprom/Wire/Reply.antt =====
-- What `shift_in_bits` reads from a serial device.
use driver_workflow.Prelude.{
  ℕ, zero, suc, ◌+◌, ◌*◌, ◌%◌, ◌^◌, ◌≤◌, ◌<◌, ◌≡◌, refl, sym, ap, ◌∙◌, subst, bit_or, Bool, true,
  false, List, [], ◌∷◌, ◌++◌, if◌then◌else◌, arith,
}
use native.Mathlib.Nat.{pow-suc}
use mathlib.Core.List.{append_assoc, append-nil}
use driver_workflow.Bits.{has}
use driver_workflow.Mmio.{Registers}
use driver_workflow.E1000.Eeprom.Wire.{
  eecd, eecd_sk, eecd_di, eecd_do, clear, raise_clock, lower_clock, shift_out_bits, in_from,
  shift_in_bits,
}
use driver_workflow.E1000.Eeprom.Wire.Pins.{
  sk_clear_both, di_clear_both, bits_of-behind, shifted_lem, bits_of, low_bit,
}
use driver_workflow.E1000.Eeprom.Wire.Serial.{
  SerialDevice, raised_lem, lowered_lem, shift_out_bits-Sends,
}

module _ ⦃io : Registers⦄ (dev : SerialDevice) where
  -- What the device shows for `n` more pulses of the clock with the data-in pin low, and the bits that
  -- it has taken after them.
  abbrev pub taken_after : ℕ → List Bool → List Bool
  taken_after zero taken = taken
  taken_after (suc n) taken = taken_after n (taken ++ (false ∷ []))

  abbrev pub shown : ℕ → List Bool → List Bool
  shown zero taken = []
  shown (suc n) taken = dev.answer (taken ++ (false ∷ [])) ∷ shown n (taken ++ (false ∷ []))

  -- The word read so far, and a device at rest with the data-in pin low in the driver's copy.
  record Reading (k acc v : ℕ) (w : io.World) (taken : List Bool) : Type 0 where
    pub di : Bool
    pub at : dev.At w false di taken
    pub low : has v eecd_sk ≡ false
    pub quiet : has v eecd_di ≡ false
    pub fits : acc < 2 ^ k

  in_round :
      (k acc v : ℕ) (w : io.World) (taken : List Bool)
      → k < 16
      → Reading k acc v w taken
      → let r1 = raise_clock w v in
        let (v2, w2) = io.read r1.1 eecd in
        let r3 = lower_clock w2 v2 in
        let taken' = taken ++ (false ∷ []) in
        ((if has v2 eecd_do then bit_or (acc * 2 % 2 ^ 16) 1 else acc * 2 % 2 ^ 16)
          ≡ acc * 2 + low_bit (dev.answer taken'))
        × Reading (suc k) (acc * 2 + low_bit (dev.answer taken')) r3.0 r3.1 taken'
  unfolding low_bit
  in_round k acc v w taken few r =
      let taken' = taken ++ (false ∷ []) in
      let r1 = raise_clock w v in
      let at1 : dev.At r1.1 true false taken' =
        subst (λ c. dev.At r1.1 true c (taken ++ (c ∷ []))) r.quiet
          (raised_lem dev w r.di taken v r.at) in
      let (v2, w2) = io.read r1.1 eecd in
      let (at2, out, _, quiet2) = dev.shows r1.1 true false taken' at1 in
      let (at3, low3, quiet3) = lowered_lem dev w2 true false taken' v2 at2 in
      (
        rw out (shifted_lem k acc (dev.answer taken') r.fits few),
        record {
          di = has v2 eecd_di;
          at = at3;
          low = low3;
          quiet = quiet3 ∙ quiet2;
          fits = fits_lem (dev.answer taken');
        },
      )
    where
      fits_lem : (b : Bool) → acc * 2 + low_bit b < 2 ^ suc k
      fits_lem true = omega (arith, r.fits, pow-suc 2 k)
      fits_lem false = omega (arith, r.fits, pow-suc 2 k)

  -- What reading bits leaves: they are the bits of the word, and the device has been clocked.
  abbrev Reads : ℕ → List Bool → List Bool → ℕ × io.World → Type 0
  Reads k bits taken r =
      (bits_of k r.0 ≡ bits) × (r.0 < 2 ^ k) × ((di : Bool) × dev.At r.1 false di taken)

  in_step :
      (n acc v word : ℕ) (w : io.World)
      → let (v2, w2) = io.read (raise_clock w v).1 eecd in
        let r3 = lower_clock w2 v2 in
        (if has v2 eecd_do then bit_or (acc * 2 % 2 ^ 16) 1 else acc * 2 % 2 ^ 16) ≡ word
        → in_from (suc n) acc v w ≡ in_from n word r3.0 r3.1
  unfolding in_from
  in_step n acc v word w is = rw is refl

  in_none : (acc v : ℕ) (w : io.World) → in_from zero acc v w ≡ (acc, w)
  unfolding in_from
  in_none acc v w = refl

  in_from-Reads :
      (n k acc v : ℕ) (w : io.World) (taken : List Bool)
      → k + n ≤ 16
      → Reading k acc v w taken
      → Reads (k + n) (bits_of k acc ++ shown n taken) (taken_after n taken) (in_from n acc v w)
  in_from-Reads zero k acc v w taken few r =
      let none_left : k ≡ k + 0 = omega arith in
      let whole = sym (append-nil (bits_of k acc)) in
      rw (in_none acc v w) (
        subst (λ c. Reads c (bits_of k acc ++ []) taken (acc, w)) none_left
          (whole, r.fits, (r.di, r.at)))
  in_from-Reads (suc n) k acc v w taken few r =
      let taken' = taken ++ (false ∷ []) in
      let b = dev.answer taken' in
      let acc' = acc * 2 + low_bit b in
      let (word, next) = in_round k acc v w taken (omega arith) r in
      let count : suc k + n ≡ k + suc n = omega arith in
      let order : bits_of (suc k) acc' ++ shown n taken' ≡ bits_of k acc ++ shown (suc n) taken =
        ap (λ l. l ++ shown n taken') (bits_of-behind k acc b)
        ∙ append_assoc (bits_of k acc) (b ∷ []) (shown n taken') in
      let rest = in_from-Reads n (suc k) acc' _ _ taken' (omega arith) next in
      let same = in_step n acc v acc' w word in
      subst
        (λ c.
          Reads c (bits_of k acc ++ shown (suc n) taken) (taken_after n taken')
            (in_from (suc n) acc v w))
        count
        (subst (λ l. Reads (suc k + n) l (taken_after n taken') (in_from (suc n) acc v w)) order
          (subst (Reads (suc k + n) (bits_of (suc k) acc' ++ shown n taken') (taken_after n taken'))
            (sym same) rest))

  -- `shift_in_bits` gives the word of the bits that the device shows, the highest first.
  shift_in_bits-Reads :
      (count : ℕ) (di : Bool) (w : io.World) (taken : List Bool)
      → count ≤ 16
      → dev.At w false di taken
      → Reads count (shown count taken) (taken_after count taken) (shift_in_bits w count)
  unfolding shift_in_bits
  shift_in_bits-Reads count di w taken few at =
      let (v, w1) = io.read w eecd in
      let (at1, _, low, _) = dev.shows w false di taken at in
      let r = in_from count 0 (clear v (bit_or eecd_do eecd_di)) w1 in
      let all : 0 + count ≡ count = omega arith in
      subst (λ c. Reads c (shown count taken) (taken_after count taken) r) all
        (in_from-Reads count 0 0 (clear v (bit_or eecd_do eecd_di)) w1 taken (omega arith) (record {
          di = di;
          at = at1;
          low = sk_clear_both v ∙ low;
          quiet = di_clear_both v;
          fits = omega arith;
        }))

  -- A command of 1 to 16 bits and a reply of at most 16: the device takes exactly the bits of the
  -- command, the highest first, and then the reply is the word whose bits, the highest first, are
  -- those that the device shows for it.
  pub shift_out_bits-shift_in_bits :
      (command sent received : ℕ) (di : Bool) (w : io.World) (taken : List Bool)
      → 0 < sent
      → sent ≤ 16
      → received ≤ 16
      → dev.At w false di taken
      → let taken' = taken ++ bits_of sent command in
        let w' = shift_out_bits w command sent in
        dev.At w' false false taken'
        × (bits_of received (shift_in_bits w' received).0 ≡ shown received taken')
        × ((shift_in_bits w' received).0 < 2 ^ received)
  shift_out_bits-shift_in_bits command sent received di w taken some_bits few few' at =
      let at' = shift_out_bits-Sends dev command sent di w taken some_bits few at in
      let (bits, fits, _) =
        shift_in_bits-Reads received false (shift_out_bits w command sent)
          (taken ++ bits_of sent command) few' at' in
      (at', bits, fits)
