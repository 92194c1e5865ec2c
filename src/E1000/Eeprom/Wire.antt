-- ===== src/E1000/Eeprom/Wire.antt =====
-- kernel/comps/e1000/src/eeprom.rs: the bit-banged access through the EECD register. The delays have
-- no effect on the state and are left out. `!x` of a word is its width's largest number less x. A
-- count of 0 or above 16 panics or is shifted out of the word, and is left out.
mod Pins
pub mod Serial
pub mod Reply
mod Tests
use driver_workflow.Prelude.{
  ℕ, zero, suc, ◌+◌, ◌-◌, ◌*◌, ◌/◌, ◌%◌, ◌^◌, bit_and, bit_or, Bool, true, false, ◌==◌,
  if◌then◌else◌,
}
use driver_workflow.Bits.{has}
use driver_workflow.Mmio.{Registers}

abbrev pub eecd : ℕ
eecd = 0x00010

abbrev pub eecd_sk : ℕ
eecd_sk = 0x0000_0001

abbrev pub eecd_cs : ℕ
eecd_cs = 0x0000_0002

abbrev pub eecd_di : ℕ
eecd_di = 0x0000_0004

abbrev pub eecd_do : ℕ
eecd_do = 0x0000_0008

abbrev pub clear : ℕ → ℕ → ℕ
clear v mask = bit_and v (0xffff_ffff - mask)

module _ ⦃io : Registers⦄ where
  -- `raise_clock` and `lower_clock`, with the value that they leave in `eecd`.
  unfoldable pub raise_clock : io.World → ℕ → ℕ × io.World
  raise_clock w v = (bit_or v eecd_sk, io.write w eecd (bit_or v eecd_sk))

  unfoldable pub lower_clock : io.World → ℕ → ℕ × io.World
  lower_clock w v = (clear v eecd_sk, io.write w eecd (clear v eecd_sk))

  -- A round of `shift_out_bits`.
  unfoldable pub out_bit : Bool → ℕ → io.World → ℕ × io.World
  out_bit b v w =
      let v1 = if b then bit_or v eecd_di else clear v eecd_di in
      let (v2, w2) = raise_clock (io.write w eecd v1) v1 in lower_clock w2 v2

  -- Its loop, with fuel: the mask is a word of 16 bits.
  unfoldable pub out_from : ℕ → ℕ → ℕ → ℕ → io.World → ℕ × io.World
  out_from zero data_word mask v w = (v, w)
  out_from (suc n) data_word mask v w =
      let (v', w') = out_bit (has data_word mask) v w in
      let rest = out_from n data_word (mask / 2) v' w' in if mask == 0 then (v, w) else rest

  -- `shift_out_bits`
  unfoldable pub shift_out_bits : io.World → ℕ → ℕ → io.World
  shift_out_bits w data_word count =
      let (v, w1) = io.read w eecd in
      let (v2, w2) = out_from 17 data_word (2 ^ (count - 1) % 2 ^ 16) (clear v eecd_do) w1 in
      io.write w2 eecd (clear v2 eecd_di)

  -- The loop of `shift_in_bits`.
  unfoldable pub in_from : ℕ → ℕ → ℕ → io.World → ℕ × io.World
  in_from zero data_word v w = (data_word, w)
  in_from (suc n) data_word v w =
      let (_, w1) = raise_clock w v in
      let (v2, w2) = io.read w1 eecd in
      let shifted = data_word * 2 % 2 ^ 16 in
      let (v3, w3) = lower_clock w2 v2 in
      in_from n (if has v2 eecd_do then bit_or shifted 1 else shifted) v3 w3

  -- `shift_in_bits`
  unfoldable pub shift_in_bits : io.World → ℕ → ℕ × io.World
  shift_in_bits w count =
      let (v, w1) = io.read w eecd in in_from count 0 (clear v (bit_or eecd_do eecd_di)) w1

  -- `acquire_eeprom` and `release_eeprom`
  unfoldable pub acquire_eeprom : io.World → io.World
  acquire_eeprom w = let (v, w1) = io.read w eecd in io.write w1 eecd (bit_or v eecd_cs)

  unfoldable pub release_eeprom : io.World → io.World
  release_eeprom w = let (v, w1) = io.read w eecd in io.write w1 eecd (clear v eecd_cs)
