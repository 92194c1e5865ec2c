-- ===== src/R8169/Phy/Config.antt =====
-- Where a paged write goes.
use driver_workflow.Prelude.{
  ℕ, ◌+◌, ◌-◌, ◌*◌, ◌%◌, ◌^◌, ◌<◌, ◌≤◌, ◌≡◌, ◌≢◌, refl, ap, ◌∙◌, false, arith, ◌==◌, ==_false, inl,
  inr, Bool-cases,
}
use driver_workflow.Mmio.{Mmio}
use driver_workflow.R8169.Regs.{ocp_std_phy_base}
use driver_workflow.R8169.Phy.{
  PhyAccess, phy_ocp_write, mdio_write, mdio_read, window, phy_select_page, phy_restore_page,
  phy_write_paged,
}
use driver_workflow.R8169.Phy.Base.{base_of, mdio_write-page}

module _ ⦃io : Mmio⦄ where
  mdio_read-page_world : (a : PhyAccess) → (mdio_read a 0x1f).1.world ≡ a.world
  unfolding mdio_read
  mdio_read-page_world a = elim (Bool-cases (a.ocp_base == ocp_std_phy_base)) [
    | inl is ↦ rw is refl
    | inr ne ↦ rw ne refl
  ]

  mdio_write-page_world : (a : PhyAccess) (v : ℕ) → (mdio_write a 0x1f v).world ≡ a.world
  unfolding mdio_write
  mdio_write-page_world a v = refl

  base_of-paged : (page : ℕ) → 0 < page → page < 2 ^ 16 → base_of page ≡ page * 2 ^ 4
  base_of-paged page pos small =
      rw (==_false page 0 (λ z. omega arith))
        (let fits : page * 2 ^ 4 % 2 ^ 32 ≡ page * 2 ^ 4 = omega arith in fits)

  not_standard : (page : ℕ) → page ≢ 0xa40 → (page * 2 ^ 4 == ocp_std_phy_base) ≡ false
  not_standard page other = ==_false (page * 2 ^ 4) ocp_std_phy_base (λ z. other (omega arith))

  window-paged :
      (page reg : ℕ)
      → 0 < page
      → page < 2 ^ 16
      → page ≢ 0xa40
      → 0x10 ≤ reg
      → reg < 0x1f
      → window (base_of page) reg ≡ page * 2 ^ 4 + (reg - 0x10) * 2
  window-paged page reg pos small other low high =
      let adjusted : (reg + 2 ^ 32 - 0x10) % 2 ^ 32 ≡ reg - 0x10 = omega arith in
      rw (base_of-paged page pos small, not_standard page other, adjusted)
        (let fits : (page * 2 ^ 4 + (reg - 0x10) * 2 % 2 ^ 32) % 2 ^ 32
              ≡ page * 2 ^ 4 + (reg - 0x10) * 2 =
            omega arith in
          fits)

  mdio_write-world :
      (a : PhyAccess) (reg v : ℕ)
      → (a.ocp_base == ocp_std_phy_base) ≡ false
      → reg ≢ 0x1f
      → (mdio_write a reg v).world ≡ phy_ocp_write a.world (window a.ocp_base reg) v
  unfolding mdio_write
  mdio_write-world a reg v other ne = rw (==_false reg 0x1f ne, other) refl

  -- `phy_write_paged` to one of the registers 16 to 30 of a page but 0 and 0xa40, whose base is the
  -- standard one, is one write through the window, at the page's base and twice the register's
  -- distance from 16, whatever page was selected before.
  pub phy_write_paged-window :
      (a : PhyAccess) (page reg val : ℕ)
      → 0 < page
      → page < 2 ^ 16
      → page ≢ 0xa40
      → 0x10 ≤ reg
      → reg < 0x1f
      → (phy_write_paged a page reg val).world
        ≡ phy_ocp_write a.world (page * 2 ^ 4 + (reg - 0x10) * 2) val
  unfolding phy_write_paged phy_select_page phy_restore_page
  phy_write_paged-window a page reg val pos small other low high =
      let a1 = mdio_write (mdio_read a 0x1f).1 0x1f page in
      let base : a1.ocp_base ≡ base_of page = mdio_write-page (mdio_read a 0x1f).1 page in
      let away : (a1.ocp_base == ocp_std_phy_base) ≡ false =
        rw (base, base_of-paged page pos small) (not_standard page other) in
      mdio_write-page_world (mdio_write a1 reg val) _
      ∙ mdio_write-world a1 reg val away (λ z. omega arith)
      ∙ ap (λ b. phy_ocp_write a1.world (window b reg) val) base
      ∙ ap (λ r. phy_ocp_write a1.world r val) (window-paged page reg pos small other low high)
      ∙ ap (λ w. phy_ocp_write w (page * 2 ^ 4 + (reg - 0x10) * 2) val)
          (mdio_write-page_world (mdio_read a 0x1f).1 page ∙ mdio_read-page_world a)
