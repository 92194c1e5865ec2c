-- ===== src/R8169/Phy.antt =====
-- kernel/comps/r8169/src/phy.rs: the PHY behind its OCP window, whose base stands for the page. The
-- delays and warnings have no effect on the state and are left out; results of writes are dropped in
-- the source. `!x` of a word is its width's largest number less x.
pub mod Base
pub mod Config
mod Tests
use driver_workflow.Prelude.{
  ℕ, zero, suc, ◌+◌, ◌-◌, ◌*◌, ◌/◌, ◌%◌, ◌^◌, bit_and, bit_or, Bool, true, false, not, ◌&&◌, ◌||◌,
  Option, none, some, List, [], ◌∷◌, ◌==◌, if◌then◌else◌, ltb,
}
use driver_workflow.Bits.{has}
use driver_workflow.Mmio.{Mmio}
use driver_workflow.R8169.Regs.{
  eriar, eridr, gphy_ocp, ocpar_flag, ocp_std_phy_base, eriar_flag, eriar_write_cmd, eriar_read_cmd,
  eriar_exgmac, eriar_mask_1111, phy_status, link_status_flag, gbps_f_1000, mbps_100, mbps_10,
  full_dup, mii_bmcr, bmcr_reset, bmcr_pdown,
}

-- `PhyAccess::ocp_reg_ok`
abbrev pub ocp_reg_ok : ℕ → Bool
ocp_reg_ok reg = (bit_and reg 1 == 0) && ltb reg 0x10000

-- What a poll waits for, in a register that may not have been read.
abbrev pub is_low : Option ℕ → ℕ → Bool
is_low none flag = false
is_low (some v) flag = not (has v flag)

abbrev pub is_high : Option ℕ → ℕ → Bool
is_high none flag = false
is_high (some v) flag = has v flag

abbrev pub value_or : Option ℕ → ℕ → ℕ
value_or none v = v
value_or (some x) v = x

module _ ⦃io : Mmio⦄ where
  -- `PhyAccess`
  pub record PhyAccess : Type 0 where
    pub world : io.World
    pub ocp_base : ℕ

  -- `PhyAccess::new`
  abbrev pub new : io.World → PhyAccess
  new w = record { world = w; ocp_base = ocp_std_phy_base }

  -- The loops of `poll_gphy_ocp_low`, `poll_gphy_ocp_high`, `poll_eriar_low` and `poll_eriar_high`,
  -- on the register and the flag, with `n` rounds left.
  unfoldable pub poll_low : ℕ → ℕ → ℕ → io.World → io.World
  poll_low reg flag zero w = w
  poll_low reg flag (suc n) w =
      let (v, w') = io.read w 4 reg in
      let rest = poll_low reg flag n w' in if is_low v flag then w' else rest

  unfoldable pub poll_high : ℕ → ℕ → ℕ → io.World → Bool × io.World
  poll_high reg flag zero w = (false, w)
  poll_high reg flag (suc n) w =
      let (v, w') = io.read w 4 reg in
      let rest = poll_high reg flag n w' in if is_high v flag then (true, w') else rest

  -- `phy_ocp_write`
  unfoldable pub phy_ocp_write : io.World → ℕ → ℕ → io.World
  phy_ocp_write w reg data_word =
      let cmd = bit_or (bit_or ocpar_flag (reg * 2 ^ 15 % 2 ^ 32)) data_word in
      if not (ocp_reg_ok reg)
      then w
      else poll_low gphy_ocp ocpar_flag 10 (io.write w 4 gphy_ocp cmd).1

  -- `phy_ocp_read`
  unfoldable pub phy_ocp_read : io.World → ℕ → ℕ × io.World
  phy_ocp_read w reg =
      let (high, w1) =
        poll_high gphy_ocp ocpar_flag 10 (io.write w 4 gphy_ocp (reg * 2 ^ 15 % 2 ^ 32)).1 in
      let (v, w2) = io.read w1 4 gphy_ocp in
      if not (ocp_reg_ok reg)
      then (0, w)
      else if high
      then (bit_and (value_or v 0) 0xffff, w2)
      else (0, w1)

  -- `eri_read`, `eri_write` and `eri_modify`
  unfoldable pub eri_read : io.World → ℕ → ℕ × io.World
  eri_read w addr =
      let cmd = bit_or (bit_or (bit_or eriar_read_cmd eriar_exgmac) eriar_mask_1111) addr in
      let (high, w1) = poll_high eriar eriar_flag 100 (io.write w 4 eriar cmd).1 in
      let (v, w2) = io.read w1 4 eridr in
      if high then (value_or v 0xffff_ffff, w2) else (0xffff_ffff, w1)

  unfoldable pub eri_write : io.World → ℕ → ℕ → ℕ → io.World
  eri_write w addr mask val =
      let cmd = bit_or (bit_or (bit_or eriar_write_cmd eriar_exgmac) mask) addr in
      let w1 = (io.write w 4 eridr val).1 in
      let w2 = (io.write w1 4 eriar cmd).1 in poll_low eriar eriar_flag 100 w2

  unfoldable pub eri_modify : io.World → ℕ → ℕ → ℕ → io.World
  eri_modify w addr set clear =
      let (val, w') = eri_read w addr in
      eri_write w' addr eriar_mask_1111 (bit_or (bit_and val (0xffff_ffff - clear)) set)

  -- `eri_set_bits` and `eri_clear_bits`
  abbrev pub eri_set_bits : io.World → ℕ → ℕ → io.World
  eri_set_bits w addr bits = eri_modify w addr bits 0

  abbrev pub eri_clear_bits : io.World → ℕ → ℕ → io.World
  eri_clear_bits w addr bits = eri_modify w addr 0 bits

  -- `phy_suspend_quirk`
  unfoldable pub phy_suspend_quirk : io.World → ℕ → io.World
  phy_suspend_quirk w value =
      if has value bmcr_reset || not (has value bmcr_pdown)
      then eri_set_bits w 0x1a8 0xfc00_0000
      else eri_clear_bits w 0x1a8 0xfc00_0000

  -- The register's address in the window; `wrapping_sub` is the source's, and the sum is that of a
  -- build without overflow checks.
  abbrev pub adjusted_reg : ℕ → ℕ → ℕ
  adjusted_reg base reg =
      if not (base == ocp_std_phy_base) then (reg + 2 ^ 32 - 0x10) % 2 ^ 32 else reg

  abbrev pub window : ℕ → ℕ → ℕ
  window base reg = (base + adjusted_reg base reg * 2 % 2 ^ 32) % 2 ^ 32

  -- `mdio_write`
  unfoldable pub mdio_write : PhyAccess → ℕ → ℕ → PhyAccess
  mdio_write a reg value =
      let base = a.ocp_base in
      let quirk = (base == ocp_std_phy_base) && (adjusted_reg base reg == mii_bmcr) in
      let w = if quirk then phy_suspend_quirk a.world value else a.world in
      if reg == 0x1f
      then record a {
        ocp_base = if not (value == 0) then value * 2 ^ 4 % 2 ^ 32 else ocp_std_phy_base;
      }
      else record a { world = phy_ocp_write w (window base reg) value }

  -- `mdio_read`
  unfoldable pub mdio_read : PhyAccess → ℕ → ℕ × PhyAccess
  mdio_read a reg =
      let (v, w) = phy_ocp_read a.world (window a.ocp_base reg) in
      if reg == 0x1f
      then (if a.ocp_base == ocp_std_phy_base then (0, a) else (a.ocp_base / 2 ^ 4 % 2 ^ 16, a))
      else (v, record a { world = w })

  -- `phy_modify`; `phy_write` and `phy_read` are `mdio_write` and `mdio_read`.
  unfoldable pub phy_modify : PhyAccess → ℕ → ℕ → ℕ → PhyAccess
  phy_modify a reg mask set =
      let (val, a') = mdio_read a reg in
      mdio_write a' reg (bit_or (bit_and val (0xffff - mask)) set)

  -- `phy_set_bits` and `phy_clear_bits`
  abbrev pub phy_set_bits : PhyAccess → ℕ → ℕ → PhyAccess
  phy_set_bits a reg bits = phy_modify a reg 0 bits

  abbrev pub phy_clear_bits : PhyAccess → ℕ → ℕ → PhyAccess
  phy_clear_bits a reg bits = phy_modify a reg bits 0

  -- `phy_select_page` and `phy_restore_page`
  unfoldable pub phy_select_page : PhyAccess → ℕ → ℕ × PhyAccess
  phy_select_page a page = let (old, a') = mdio_read a 0x1f in (old, mdio_write a' 0x1f page)

  unfoldable pub phy_restore_page : PhyAccess → ℕ → PhyAccess
  phy_restore_page a old_page = mdio_write a 0x1f old_page

  -- `phy_read_paged`, `phy_write_paged` and `phy_modify_paged`
  unfoldable pub phy_read_paged : PhyAccess → ℕ → ℕ → ℕ × PhyAccess
  phy_read_paged a page reg =
      let (old, a1) = phy_select_page a page in
      let (val, a2) = mdio_read a1 reg in (val, phy_restore_page a2 old)

  unfoldable pub phy_write_paged : PhyAccess → ℕ → ℕ → ℕ → PhyAccess
  phy_write_paged a page reg val =
      let (old, a1) = phy_select_page a page in phy_restore_page (mdio_write a1 reg val) old

  unfoldable pub phy_modify_paged : PhyAccess → ℕ → ℕ → ℕ → ℕ → PhyAccess
  phy_modify_paged a page reg mask set =
      let (old, a1) = phy_select_page a page in phy_restore_page (phy_modify a1 reg mask set) old

  -- `r8168g_phy_param`
  unfoldable pub r8168g_phy_param : PhyAccess → ℕ → ℕ → ℕ → PhyAccess
  r8168g_phy_param a parm mask val =
      let (old, a1) = phy_select_page a 0x0a43 in
      let a2 = mdio_write a1 0x13 parm in
      let a3 = phy_modify a2 0x14 mask val in phy_restore_page a3 old

  -- `writephy_batch`
  unfoldable pub writephy_batch : PhyAccess → List (ℕ × ℕ) → PhyAccess
  writephy_batch a [] = a
  writephy_batch a (rv ∷ rvs) = writephy_batch (mdio_write a rv.0 rv.1) rvs

  -- `config_eee_phy`, `disable_aldps` and `adjust_10m_aldps`
  unfoldable pub config_eee_phy : PhyAccess → PhyAccess
  config_eee_phy a = phy_modify_paged a 0x0a43 0x11 0 (2 ^ 4)

  unfoldable pub disable_aldps : PhyAccess → PhyAccess
  disable_aldps a = phy_modify_paged a 0x0a43 0x10 (2 ^ 2) 0

  unfoldable pub adjust_10m_aldps : PhyAccess → PhyAccess
  adjust_10m_aldps a =
      let a1 = phy_modify_paged a 0x0bcc 0x14 (2 ^ 8) 0 in
      let a2 = phy_modify_paged a1 0x0a44 0x11 0 (bit_or (2 ^ 7) (2 ^ 6)) in
      let a3 = r8168g_phy_param a2 0x8084 0x6000 0x0000 in
      phy_modify_paged a3 0x0a43 0x10 0x0000 0x1003

  -- The two fix-ups at the start of `rtl8168g_1_hw_phy_config`.
  unfoldable pub fix_ups : PhyAccess → PhyAccess
  fix_ups a =
      let (v, a1) = phy_read_paged a 0x0a46 0x10 in
      let a2 =
        if has v (2 ^ 8)
        then phy_modify_paged a1 0x0bcc 0x12 (2 ^ 15) 0
        else phy_modify_paged a1 0x0bcc 0x12 0 (2 ^ 15) in
      let (u, a3) = phy_read_paged a2 0x0a46 0x13 in
      if has u (2 ^ 8)
      then phy_modify_paged a3 0x0c41 0x15 0 (2 ^ 1)
      else phy_modify_paged a3 0x0c41 0x15 (2 ^ 1) 0

  -- Its writes for the efficiency of the switching regulator.
  abbrev pub swr_writes : List (ℕ × ℕ)
  swr_writes =
      (0x1f, 0x0bcd)
      ∷ (0x14, 0x5065)
      ∷ (0x14, 0xd065)
      ∷ (0x1f, 0x0bc8)
      ∷ (0x11, 0x5655)
      ∷ (0x1f, 0x0bcd)
      ∷ (0x14, 0x1065)
      ∷ (0x14, 0x9065)
      ∷ (0x14, 0x1065)
      ∷ (0x1f, 0x0000)
      ∷ []

  -- `rtl8168g_1_hw_phy_config`
  unfoldable pub rtl8168g_1_hw_phy_config : io.World → PhyAccess
  rtl8168g_1_hw_phy_config w =
      let a1 = fix_ups (new w) in
      let a2 = phy_modify_paged a1 0x0a44 0x11 0 (bit_or (2 ^ 3) (2 ^ 2)) in
      let a3 = adjust_10m_aldps a2 in
      let a4 = phy_modify_paged a3 0x0a4b 0x11 0 (2 ^ 2) in
      let a5 = r8168g_phy_param a4 0x8012 0x0000 0x8000 in
      let a6 = phy_modify_paged a5 0x0c42 0x11 (2 ^ 13) (2 ^ 14) in
      let a7 = writephy_batch a6 swr_writes in config_eee_phy (disable_aldps a7)

  -- `r8169_hw_phy_config`
  abbrev pub r8169_hw_phy_config : io.World → ℕ → PhyAccess
  r8169_hw_phy_config w mac_ver = rtl8168g_1_hw_phy_config w

  -- `phy_reset_ocp_base`
  unfoldable pub phy_reset_ocp_base : io.World → PhyAccess
  phy_reset_ocp_base w = mdio_write (new w) 0x1f 0

  -- `phy_link_up` and `phy_link_speed`
  unfoldable pub phy_link_up : io.World → Bool × io.World
  phy_link_up w = let (v, w') = io.read w 1 phy_status in (is_high v link_status_flag, w')

  unfoldable pub speed_of : Option ℕ → ℕ × Bool
  speed_of none = (0, false)
  speed_of (some status) =
      let speed =
        if has status gbps_f_1000
        then 1000
        else if has status mbps_100
        then 100
        else if has status mbps_10
        then 10
        else 0 in
      if not (has status link_status_flag) then (0, false) else (speed, has status full_dup)

  unfoldable pub phy_link_speed : io.World → (ℕ × Bool) × io.World
  unfolding speed_of
  phy_link_speed w = let (v, w') = io.read w 1 phy_status in (speed_of v, w')
