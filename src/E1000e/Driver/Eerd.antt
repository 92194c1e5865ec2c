-- ===== src/E1000e/Driver/Eerd.antt =====
-- The EERD reads of the e1000e driver against those of the e1000 driver, and on a device that never
-- answers.
use driver_workflow.Prelude.{
  ℕ, zero, suc, ◌+◌, ◌*◌, ◌/◌, ◌%◌, ◌^◌, ◌≡◌, inl, inr, refl, ap, ◌∙◌, bit_and, false, Option, none,
  some, List, [], ◌∷◌, ◌++◌, arith, inl, inr, Bool-cases,
}
use driver_workflow.Bits.{has, bit_and_shift, bit_and-word, bit_or_comm}
use driver_workflow.Mmio.{Registers}
use driver_workflow.E1000
use driver_workflow.E1000.Eeprom.{eerd_data, eerd_command}
use driver_workflow.E1000e.Regs.{eerd, eerd_done}
use driver_workflow.E1000e.Driver.{
  poll_done, eerd_read, mac_from, read_mac_from_eerd, init_mac, fallback_mac,
}

data_eq : (v : ℕ) → v / 2 ^ 16 % 2 ^ 16 ≡ eerd_data v
data_eq v = omega (arith, bit_and_shift 16 v 65535, bit_and-word (v / 2 ^ 16))

module _ ⦃io : Registers⦄ where
  poll_done-eq : (n : ℕ) (w : io.World) → poll_done n w ≡ E1000.Eeprom.poll_done n w
  unfolding poll_done E1000.Eeprom.poll_done
  poll_done-eq zero w = refl
  poll_done-eq (suc n) w = elim (Bool-cases (has (io.read w eerd).0 eerd_done)) [
    | inl done ↦
        rw (poll_done, E1000.Eeprom.poll_done, done)
          (ap (λ x. (some x, (io.read w eerd).1)) (data_eq (io.read w eerd).0))
    | inr wait ↦ rw (poll_done, E1000.Eeprom.poll_done, wait) (poll_done-eq n (io.read w eerd).1)
  ]

  -- `eerd_read` does what the `read_eeprom` of the e1000 driver does.
  pub eerd_read-eq :
      (w : io.World) (offset : ℕ) → eerd_read w offset ≡ E1000.Eeprom.read_eeprom w offset
  unfolding eerd_read E1000.Eeprom.read_eeprom
  eerd_read-eq w offset =
      poll_done-eq 1000 _
      ∙ ap (λ v. E1000.Eeprom.poll_done 1000 (io.write w eerd v))
          (bit_or_comm (offset * 2 ^ 8 % 2 ^ 32) 1)

  mac_from-eq :
      (n i : ℕ) (mac : List ℕ) (w : io.World) → mac_from n i mac w ≡ E1000.Eeprom.mac_from n i mac w
  unfolding mac_from E1000.Eeprom.mac_from
  mac_from-eq zero i mac w = refl
  mac_from-eq (suc n) i mac w =
      ap next (eerd_read-eq w i ∙ ap (E1000.Eeprom.read_eeprom w) (omega arith))
      ∙ same (λ mac' w'. mac_from-eq n (i + 1) mac' w') (E1000.Eeprom.read_eeprom w (0 + i))
    where
      next : Option ℕ × io.World → Option (List ℕ) × io.World
      next r = elim r.0 [
        | none ↦ (none, r.1)
        | some word ↦ mac_from n (i + 1) (mac ++ (bit_and word 0xff ∷ word / 256 ∷ [])) r.1
      ]

      next' : Option ℕ × io.World → Option (List ℕ) × io.World
      next' r = elim r.0 [
        | none ↦ (none, r.1)
        | some word ↦
            E1000.Eeprom.mac_from n (i + 1) (mac ++ (bit_and word 0xff ∷ word / 256 ∷ [])) r.1
      ]

      same :
          ((mac' : List ℕ) (w' : io.World)
            → mac_from n (i + 1) mac' w' ≡ E1000.Eeprom.mac_from n (i + 1) mac' w')
          → (r : Option ℕ × io.World) → next r ≡ next' r
      same ih (none, w') = refl
      same ih (some word, w') = ih (mac ++ (bit_and word 0xff ∷ word / 256 ∷ [])) w'

  -- `read_mac_from_eerd` does what the `read_mac_addr_from_eeprom` of the e1000 driver does.
  pub read_mac_from_eerd-eq :
      (w : io.World) → read_mac_from_eerd w ≡ E1000.Eeprom.read_mac_addr_from_eeprom w
  unfolding read_mac_from_eerd E1000.Eeprom.read_mac_addr_from_eeprom
  read_mac_from_eerd-eq w = mac_from-eq 3 0 [] w

-- A device whose EERD register never shows that a read is done.
pub record Stuck ⦃io : Registers⦄ : Type 1 where
  pub Is : io.World → Type 0
  pub after_write : (w : io.World) (v : ℕ) → Is w → Is (io.write w eerd v)
  pub never_done :
      (w : io.World) → Is w → (has (io.read w eerd).0 eerd_done ≡ false) × Is (io.read w eerd).1

module _ ⦃io : Registers⦄ (dev : Stuck) where
  poll_done_stuck :
      (n : ℕ) (w : io.World) → dev.Is w → ((poll_done n w).0 ≡ none) × dev.Is (poll_done n w).1
  unfolding poll_done
  poll_done_stuck zero w s = (refl, s)
  poll_done_stuck (suc n) w s =
      let (wait, s') = dev.never_done w s in
      rw (poll_done, wait) (poll_done_stuck n (io.read w eerd).1 s')

  -- On a device that is never done, `eerd_read` reports the time-out at every offset.
  pub eerd_read_stuck : (w : io.World) (offset : ℕ) → dev.Is w → (eerd_read w offset).0 ≡ none
  unfolding eerd_read
  eerd_read_stuck w offset s = (poll_done_stuck 1000 _ (dev.after_write w _ s)).0

  -- On a device that is never done, reading the address ends with the read of its first word, which
  -- fails: no other register is touched after it, no address is returned, and `init` goes on with the
  -- fallback address on the device as that read leaves it.
  pub init_mac_stuck :
      (w : io.World)
      → dev.Is w
      → ((eerd_read w 0).0 ≡ none)
        × (read_mac_from_eerd w ≡ (none, (eerd_read w 0).1))
        × (init_mac w ≡ (fallback_mac, (eerd_read w 0).1))
  unfolding init_mac read_mac_from_eerd mac_from
  init_mac_stuck w s =
      let e = eerd_read_stuck w 0 s in
      (
        e,
        rw (read_mac_from_eerd, mac_from, e) refl,
        rw (init_mac, read_mac_from_eerd, mac_from, e) refl,
      )
