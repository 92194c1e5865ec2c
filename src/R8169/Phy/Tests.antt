-- ===== src/R8169/Phy/Tests.antt =====
-- The PHY on concrete inputs, and the theorems about it at such inputs.
use driver_workflow.Prelude.{◌*◌, ◌^◌, ◌≡◌, refl, true, false, [], arith}
use driver_workflow.Sample.{register_log}
use driver_workflow.R8169.Regs.{ocp_std_phy_base}
use driver_workflow.R8169.Phy.{
  PhyAccess, ocp_reg_ok, phy_read_paged, phy_write_paged, phy_modify_paged, r8168g_phy_param,
  phy_restore_page, mdio_write, phy_select_page, mdio_read, writephy_batch,
  rtl8168g_1_hw_phy_config, disable_aldps, config_eee_phy,
}
use driver_workflow.R8169.Phy.Base.{paged, paged-restores}

-- `ocp_reg_ok_checks`
even : (ocp_reg_ok 0xa400 ≡ true) × ((ocp_reg_ok 0xa401 ≡ false) × (ocp_reg_ok 0x10000 ≡ false))
even = (refl, (refl, refl))

-- An access on page 0xa43.
abbrev on_page : PhyAccess
on_page = record { world = []; ocp_base = 0x0a43 * 2 ^ 4 }

paged-restores_example :
    ((phy_read_paged on_page 0x0bcc 0x14).1.ocp_base ≡ on_page.ocp_base)
    × ((phy_write_paged on_page 0x0bcc 0x14 7).ocp_base ≡ on_page.ocp_base)
    × ((phy_modify_paged on_page 0x0bcc 0x14 (2 ^ 8) 7).ocp_base ≡ on_page.ocp_base)
    × ((r8168g_phy_param on_page 0x14 (2 ^ 8) 7).ocp_base ≡ on_page.ocp_base)
paged-restores_example =
    paged-restores on_page 0x0bcc 0x14 (2 ^ 8) 7 (paged 0x0a43 (omega arith) (omega arith))

-- The configuration leaves the standard base behind.
configured : (rtl8168g_1_hw_phy_config []).ocp_base ≡ ocp_std_phy_base
unfolding rtl8168g_1_hw_phy_config disable_aldps config_eee_phy phy_modify_paged phy_restore_page
    mdio_write phy_select_page mdio_read writephy_batch
configured = refl
