-- ===== src/R8169/Phy/Base.antt =====
-- The base of the OCP window: which operations move it, and that the paged ones put it back.
use driver_workflow.Prelude.{
  ℕ, ◌*◌, ◌/◌, ◌%◌, ◌^◌, ◌<◌, ◌≡◌, ◌≢◌, inl, inr, refl, sym, ap, ◌∙◌, not, arith, ◌==◌,
  if◌then◌else◌, Bool-cases, ==_iff, ==_false,
}
use driver_workflow.Mmio.{Mmio}
use driver_workflow.R8169.Regs.{ocp_std_phy_base}
use driver_workflow.R8169.Phy.{
  PhyAccess, mdio_write, mdio_read, phy_modify, phy_select_page, phy_restore_page, phy_read_paged,
  phy_write_paged, phy_modify_paged, r8168g_phy_param,
}

-- The base of a page, or the standard one.
pub data IsBase : ℕ → Type 0 where
  standard : IsBase ocp_std_phy_base
  paged : (page : ℕ) → 0 < page → page < 2 ^ 16 → IsBase (page * 2 ^ 4)

-- The base that a write of the page register selects, and the page that a read of it gives.
abbrev pub base_of : ℕ → ℕ
base_of page = if not (page == 0) then page * 2 ^ 4 % 2 ^ 32 else ocp_std_phy_base

abbrev pub page_of : ℕ → ℕ
page_of base = if base == ocp_std_phy_base then 0 else base / 2 ^ 4 % 2 ^ 16

base_of-page_of : (b : ℕ) → IsBase b → base_of (page_of b) ≡ b
base_of-page_of b standard = refl
base_of-page_of b (paged page pos small) = elim (Bool-cases (page * 2 ^ 4 == ocp_std_phy_base)) [
  | inl is ↦ rw is (sym ((==_iff (page * 2 ^ 4) ocp_std_phy_base).0 is))
  | inr ne ↦
      let back : page * 2 ^ 4 / 2 ^ 4 % 2 ^ 16 ≡ page = omega arith in
      rw (ne, back, ==_false page 0 (λ z. omega (arith, pos, z)))
        (let fits : page * 2 ^ 4 % 2 ^ 32 ≡ page * 2 ^ 4 = omega arith in fits)
]

module _ ⦃io : Mmio⦄ where
  mdio_write-base :
      (a : PhyAccess) (reg v : ℕ) → reg ≢ 0x1f → (mdio_write a reg v).ocp_base ≡ a.ocp_base
  unfolding mdio_write
  mdio_write-base a reg v ne = rw (==_false reg 0x1f ne) refl

  mdio_read-base : (a : PhyAccess) (reg : ℕ) → (mdio_read a reg).1.ocp_base ≡ a.ocp_base
  unfolding mdio_read
  mdio_read-base a reg = elim (Bool-cases (reg == 0x1f)) [
    | inr other ↦ rw other refl
    | inl page ↦ elim (Bool-cases (a.ocp_base == ocp_std_phy_base)) [
      | inl is ↦ rw (page, is) refl
      | inr ne ↦ rw (page, ne) refl
    ]
  ]

  pub mdio_write-page : (a : PhyAccess) (v : ℕ) → (mdio_write a 0x1f v).ocp_base ≡ base_of v
  unfolding mdio_write
  mdio_write-page a v = refl

  phy_modify-base :
      (a : PhyAccess) (reg mask set : ℕ)
      → reg ≢ 0x1f
      → (phy_modify a reg mask set).ocp_base ≡ a.ocp_base
  unfolding phy_modify
  phy_modify-base a reg mask set ne =
      mdio_write-base (mdio_read a reg).1 reg _ ne ∙ mdio_read-base a reg

  mdio_read-page : (a : PhyAccess) → (mdio_read a 0x1f).0 ≡ page_of a.ocp_base
  unfolding mdio_read
  mdio_read-page a = elim (Bool-cases (a.ocp_base == ocp_std_phy_base)) [
    | inl is ↦ rw is refl
    | inr ne ↦ rw ne refl
  ]

  -- The page that a selection returns is the one that leads back.
  restore :
      (a : PhyAccess) (page : ℕ) (a' : PhyAccess)
      → IsBase a.ocp_base
      → (phy_restore_page a' (phy_select_page a page).0).ocp_base ≡ a.ocp_base
  unfolding phy_restore_page phy_select_page
  restore a page a' b =
      mdio_write-page a' _ ∙ ap base_of (mdio_read-page a) ∙ base_of-page_of a.ocp_base b

  -- `phy_read_paged`, `phy_write_paged`, `phy_modify_paged` and `r8168g_phy_param` leave the base as
  -- they find it, if it is that of a page.
  pub paged-restores :
      (a : PhyAccess) (page reg mask val : ℕ)
      → IsBase a.ocp_base
      → ((phy_read_paged a page reg).1.ocp_base ≡ a.ocp_base)
        × ((phy_write_paged a page reg val).ocp_base ≡ a.ocp_base)
        × ((phy_modify_paged a page reg mask val).ocp_base ≡ a.ocp_base)
        × ((r8168g_phy_param a reg mask val).ocp_base ≡ a.ocp_base)
  unfolding phy_read_paged phy_write_paged phy_modify_paged r8168g_phy_param
  paged-restores a page reg mask val b =
      (restore a page _ b, restore a page _ b, restore a page _ b, restore a 0x0a43 _ b)
