-- ===== src/E1000/Eeprom/Tests.antt =====
-- The EEPROM functions on a device with a fixed content.
use driver_workflow.Prelude.{
  ℕ, ◌%◌, ◌^◌, ◌≡◌, ◌<◌, ◌↔◌, refl, true, false, Bool, [], ◌∷◌, arith, ◌==◌, if◌then◌else◌,
}
use driver_workflow.Bits.{has}
use driver_workflow.Bytes.{to_le_bytes}
use driver_workflow.Mmio.{Registers}
use driver_workflow.E1000.Regs.{eerd_done, eeprom_checksum}
use driver_workflow.E1000.Eeprom.{
  eerd_data, eerd_command, validate_eeprom_checksum, read_mac_addr_from_eeprom,
}
use driver_workflow.E1000.Eeprom.Served.{
  Device, Gives, word_sum, validate_eeprom_checksum_iff, read_mac_addr_from_eeprom-Gives,
}

-- A device whose word 0 is 0xBABA and whose other words are 0. It keeps the last command, and
-- answers at once.
instance abbrev content : Registers
content = record {
  World = ℕ;
  read = λ w o. (if w == 1 then 0xbaba_0010 else 0x10, w);
  write = λ w o v. v;
}

answered :
    (b : Bool)
    → let v : ℕ = if b then 0xbaba_0010 else 0x10 in
      (has v eerd_done ≡ true) × (eerd_data v ≡ (if b then 0xbaba else 0)) × (true ≡ true)
unfolding has
answered true = (refl, refl, refl)
answered false = (refl, refl, refl)

content_fits : (o : ℕ) → (if eerd_command o == 1 then 0xbaba else 0) < 2 ^ 16
content_fits o = ground arith

abbrev content_device : Device
content_device = record {
  words = λ o. if eerd_command o == 1 then 0xbaba else 0;
  words_fit = content_fits;
  Idle = λ w. true ≡ true;
  Busy = λ w o k. (k ≡ 0) × (w ≡ eerd_command o);
  starts = λ w o i. (0, omega arith, (refl, refl));
  waits = λ w o k b. absurd (omega (arith, b.0));
  answers = λ w o b. rw (b.1) (answered (eerd_command o == 1));
}

validate_eeprom_checksum_iff_example :
    ((validate_eeprom_checksum 0).0 ≡ true)
    ↔ (word_sum content_device 64 0 % 2 ^ 16 ≡ eeprom_checksum)
validate_eeprom_checksum_iff_example = validate_eeprom_checksum_iff content_device 0 refl

checksum_accepted : (validate_eeprom_checksum 0).0 ≡ true
checksum_accepted = (validate_eeprom_checksum_iff content_device 0 refl).1 refl

read_mac_addr_from_eeprom-Gives_example :
    Gives content_device (read_mac_addr_from_eeprom 0) (0xba ∷ 0xba ∷ 0 ∷ 0 ∷ 0 ∷ 0 ∷ [])
unfolding to_le_bytes
read_mac_addr_from_eeprom-Gives_example = read_mac_addr_from_eeprom-Gives content_device 0 refl
