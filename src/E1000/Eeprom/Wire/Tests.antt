-- ===== src/E1000/Eeprom/Wire/Tests.antt =====
-- The bit-banged access to a device that keeps showing the first bit that it has taken.
use driver_workflow.Prelude.{
  ℕ, ◌+◌, ◌<◌, ◌^◌, ◌≡◌, ◌⊎◌, inl, inr, refl, Bool, true, false, List, [], ◌∷◌, ◌++◌, if◌then◌else◌,
  arith,
}
use driver_workflow.Bits.{has}
use driver_workflow.Mmio.{Registers}
use driver_workflow.E1000.Eeprom.Wire.{
  eecd, eecd_sk, eecd_di, eecd_do, shift_out_bits, shift_in_bits,
}
use driver_workflow.E1000.Eeprom.Wire.Pins.{bits_of}
use driver_workflow.E1000.Eeprom.Wire.Serial.{SerialDevice}
use driver_workflow.E1000.Eeprom.Wire.Reply.{shown, shift_out_bits-shift_in_bits}

record Pins : Type 0 where
  clock : Bool
  di : Bool
  taken : List Bool

abbrev first_taken : List Bool → Bool
first_taken [] = false
first_taken (b ∷ bs) = b

abbrev value : Bool → ℕ → ℕ
value b weight = if b then weight else 0

abbrev clocked : Pins → ℕ → Pins
clocked w v = record {
  clock = has v eecd_sk;
  di = has v eecd_di;
  taken =
      if w.clock
      then w.taken
      else if has v eecd_sk
      then w.taken ++ (has v eecd_di ∷ [])
      else w.taken;
}

instance abbrev pins : Registers
pins = record {
  World = Pins;
  read =
      λ w o. (value w.clock eecd_sk + value w.di eecd_di + value (first_taken w.taken) eecd_do, w);
  write = λ w o v. clocked w v;
}

value_lem :
    (c i o : Bool)
    → let r = value c eecd_sk + value i eecd_di + value o eecd_do in
      (has r eecd_do ≡ o) × (has r eecd_sk ≡ c) × (has r eecd_di ≡ i)
unfolding has
value_lem false false false = (refl, refl, refl)
value_lem false false true = (refl, refl, refl)
value_lem false true false = (refl, refl, refl)
value_lem false true true = (refl, refl, refl)
value_lem true false false = (refl, refl, refl)
value_lem true false true = (refl, refl, refl)
value_lem true true false = (refl, refl, refl)
value_lem true true true = (refl, refl, refl)

abbrev AtPins : Pins → Bool → Bool → List Bool → Type 0
AtPins w c i t = w ≡ record { clock = c; di = i; taken = t }

rises_lem :
    (w : Pins) (i : Bool) (t : List Bool) (v : ℕ)
    → AtPins w false i t
    → has v eecd_sk ≡ true
    → AtPins (clocked w v) true (has v eecd_di) (t ++ (has v eecd_di ∷ []))
rises_lem w i t v at high = rw (at, high) refl

keeps_lem :
    (w : Pins) (c i : Bool) (t : List Bool) (v : ℕ)
    → AtPins w c i t
    → (c ≡ true) ⊎ (has v eecd_sk ≡ false)
    → AtPins (clocked w v) (has v eecd_sk) (has v eecd_di) t
keeps_lem w true i t v at why = rw at refl
keeps_lem w false i t v at (inr low) = rw (at, low) refl
keeps_lem w false i t v at (inl high) = cc

shows_lem :
    (w : Pins) (c i : Bool) (t : List Bool)
    → AtPins w c i t
    → let (r, w') = pins.read w eecd in
      AtPins w' c i t × (has r eecd_do ≡ first_taken t) × (has r eecd_sk ≡ c) × (has r eecd_di ≡ i)
shows_lem w c i t at =
    let (shown_do, clock, di) = value_lem c i (first_taken t) in rw at (refl, shown_do, clock, di)

abbrev echo : SerialDevice
echo = record {
  answer = first_taken;
  At = AtPins;
  rises = rises_lem;
  keeps = keeps_lem;
  shows = shows_lem;
}

abbrev quiet : Pins
quiet = record { clock = false; di = false; taken = [] }

shift_out_bits-shift_in_bits_example :
    AtPins (shift_out_bits quiet 5 3) false false ([] ++ bits_of 3 5)
    × (bits_of 2 (shift_in_bits (shift_out_bits quiet 5 3) 2).0 ≡ shown echo 2 ([] ++ bits_of 3 5))
    × ((shift_in_bits (shift_out_bits quiet 5 3) 2).0 < 2 ^ 2)
shift_out_bits-shift_in_bits_example =
    shift_out_bits-shift_in_bits echo 5 3 2 false quiet [] (omega arith) (omega arith) (omega arith)
      refl
