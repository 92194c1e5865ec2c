-- ===== src/E1000/Eeprom.antt =====
-- kernel/comps/e1000/src/eeprom.rs: reads through the EERD register. The delays have no effect on
-- the state and are left out. The bit-banged fallback, which nothing calls, is in the child Wire.
pub mod Served
pub mod Wire
mod Tests
use driver_workflow.Prelude.{
  ℕ, zero, suc, ◌+◌, ◌*◌, ◌/◌, ◌%◌, ◌^◌, bit_and, bit_or, Bool, true, false, Option, none, some,
  List, [], ◌∷◌, ◌++◌, ◌==◌, if◌then◌else◌,
}
use driver_workflow.Bits.{has}
use driver_workflow.Mmio.{Registers}
use driver_workflow.E1000.Regs.{
  eerd, eerd_start, eerd_done, eerd_addr_shift, eerd_data_shift, eerd_data_mask, eeprom_enet_addr,
  eeprom_checksum,
}

-- The word in the data field of EERD.
abbrev pub eerd_data : ℕ → ℕ
eerd_data v = bit_and v eerd_data_mask / 2 ^ eerd_data_shift % 2 ^ 16

-- What is written to EERD to read a word.
abbrev pub eerd_command : ℕ → ℕ
eerd_command offset = bit_or eerd_start (offset * 2 ^ eerd_addr_shift % 2 ^ 32)

module _ ⦃io : Registers⦄ where
  -- The loop of `read_eeprom` with `n` rounds left.
  unfoldable pub poll_done : ℕ → io.World → Option ℕ × io.World
  poll_done zero w = (none, w)
  poll_done (suc n) w =
      let (v, w') = io.read w eerd in
      let rest = poll_done n w' in if has v eerd_done then (some (eerd_data v), w') else rest

  -- `read_eeprom`
  unfoldable pub read_eeprom : io.World → ℕ → Option ℕ × io.World
  read_eeprom w offset = poll_done 1000 (io.write w eerd (eerd_command offset))

  -- The loop of `read_eeprom_words`, with `n` words left from offset `i` on.
  unfoldable pub words_from : ℕ → ℕ → List ℕ → io.World → Option (List ℕ) × io.World
  words_from zero i words w = (some words, w)
  words_from (suc n) i words w =
      let (v, w') = read_eeprom w (i % 2 ^ 16) in
      elim v [ none ↦ (none, w') | some x ↦ words_from n (i + 1) (words ++ (x ∷ [])) w' ]

  -- `read_eeprom_words`
  unfoldable pub read_eeprom_words : io.World → ℕ → ℕ → Option (List ℕ) × io.World
  read_eeprom_words w offset count = words_from count offset [] w

  -- The loop of `validate_eeprom_checksum`, with `n` words left from offset `i` on.
  unfoldable pub sum_from : ℕ → ℕ → ℕ → io.World → Option ℕ × io.World
  sum_from zero i checksum w = (some checksum, w)
  sum_from (suc n) i checksum w =
      let (v, w') = read_eeprom w i in
      elim v [ none ↦ (none, w') | some x ↦ sum_from n (i + 1) ((checksum + x) % 2 ^ 16) w' ]

  -- `validate_eeprom_checksum`, `true` for `Ok(())`.
  unfoldable pub validate_eeprom_checksum : io.World → Bool × io.World
  validate_eeprom_checksum w =
      let (sum, w') = sum_from 64 0 0 w in
      elim sum [ none ↦ (false, w') | some checksum ↦ (checksum == eeprom_checksum, w') ]

  -- The loop of `read_mac_addr_from_eeprom`, with `n` words left from word `i` on.
  unfoldable pub mac_from : ℕ → ℕ → List ℕ → io.World → Option (List ℕ) × io.World
  mac_from zero i mac w = (some mac, w)
  mac_from (suc n) i mac w =
      let (v, w') = read_eeprom w (eeprom_enet_addr + i) in
      elim v [
        | none ↦ (none, w')
        | some x ↦ mac_from n (i + 1) (mac ++ (bit_and x 0xff ∷ x / 256 ∷ [])) w'
      ]

  -- `read_mac_addr_from_eeprom`
  unfoldable pub read_mac_addr_from_eeprom : io.World → Option (List ℕ) × io.World
  read_mac_addr_from_eeprom w = mac_from 3 0 [] w
