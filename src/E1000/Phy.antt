-- ===== src/E1000/Phy.antt =====
-- kernel/comps/e1000/src/phy.rs: the PHY behind the MDIC register, and the set-up of the link. The
-- delays have no effect on the state and are left out; the four errors, whose text is only logged,
-- are `none` and `false`. `!x` of a word is its width's largest number less x.
mod Tests
use driver_workflow.Prelude.{
  ℕ, zero, suc, ◌-◌, ◌*◌, ◌%◌, ◌^◌, bit_and, bit_or, Bool, true, false, not, ◌&&◌, Option, none,
  some, ◌==◌, if◌then◌else◌,
}
use driver_workflow.Bits.{has}
use driver_workflow.Mmio.{Registers}
use driver_workflow.E1000.LinkRegs.{
  ctrl, mdic, ctrl_asde, ctrl_slu, ctrl_frcspd, ctrl_frcdpx, ctrl_phy_rst, mdic_data_mask,
  mdic_reg_mask, mdic_reg_shift, mdic_phy_mask, mdic_phy_shift, mdic_op_write, mdic_op_read,
  mdic_ready, mdic_error, phy_ctrl, phy_id1, phy_id2, phy_autoneg_adv, phy_1000t_ctrl,
  m88e1000_phy_spec_ctrl, m88e1000_phy_spec_status, mii_cr_full_duplex, mii_cr_restart_auto_neg,
  mii_cr_auto_neg_en, mii_cr_speed_select_msb, mii_cr_speed_select_lsb, mii_cr_speed_1000,
  mii_cr_speed_100, mii_cr_reset, nway_ar_10t_hd_caps, nway_ar_10t_fd_caps, nway_ar_100tx_hd_caps,
  nway_ar_100tx_fd_caps, nway_ar_pause, nway_ar_asm_dir, cr_1000t_hd_caps, cr_1000t_fd_caps,
  m88e1000_pscr_polarity_reversal, m88e1000_pscr_auto_x_1000t, m88e1000_pscr_auto_x_mode,
  m88e1000_pscr_assert_crs_on_tx, m88e1000_pssr_speed_mask, m88e1000_pssr_1000mbs,
  m88e1000_pssr_100mbs, m88e1000_pssr_dplx, m88e1000_pssr_link, speed_10, speed_100, speed_1000,
  half_duplex, full_duplex,
}
use driver_workflow.E1000.Hw.{
  FlowControlMode, no_pause, rx_pause, tx_pause, full_pause, E1000Hw, config_collision_dist,
}

-- The advertised pause modes.
abbrev pub pause_bits : FlowControlMode → ℕ → ℕ
pause_bits no_pause v = bit_and v (0xffff - bit_or nway_ar_pause nway_ar_asm_dir)
pause_bits rx_pause v = bit_or v (bit_or nway_ar_pause nway_ar_asm_dir)
pause_bits tx_pause v = bit_and (bit_or v nway_ar_asm_dir) (0xffff - nway_ar_pause)
pause_bits full_pause v = bit_or v (bit_or nway_ar_pause nway_ar_asm_dir)

-- A bit that is added for an advertised capability.
abbrev pub cap_bit : ℕ → ℕ → ℕ → ℕ → ℕ
cap_bit advertised flag bit v = if has advertised flag then bit_or v bit else v

-- The two advertisement registers that `setup_autoneg` writes for what they held.
unfoldable pub adv_value : ℕ → FlowControlMode → ℕ → ℕ
adv_value advertised fc v =
    let caps =
      bit_or (bit_or (bit_or nway_ar_100tx_fd_caps nway_ar_100tx_hd_caps) nway_ar_10t_fd_caps)
        nway_ar_10t_hd_caps in
    let v0 = bit_and v (0xffff - caps) in
    let v1 = cap_bit advertised 0x01 nway_ar_10t_hd_caps v0 in
    let v2 = cap_bit advertised 0x02 nway_ar_10t_fd_caps v1 in
    let v3 = cap_bit advertised 0x04 nway_ar_100tx_hd_caps v2 in
    let v4 = cap_bit advertised 0x08 nway_ar_100tx_fd_caps v3 in pause_bits fc v4

unfoldable pub ctrl_1000t_value : ℕ → ℕ → ℕ
ctrl_1000t_value advertised v =
    let v0 = bit_and v (0xffff - bit_or cr_1000t_hd_caps cr_1000t_fd_caps) in
    let v1 = cap_bit advertised 0x10 cr_1000t_hd_caps v0 in
    cap_bit advertised 0x20 cr_1000t_fd_caps v1

-- What `setup_forced_link` makes of the control register.
unfoldable pub forced_value : ℕ → ℕ → ℕ
forced_value forced v =
    let v0 = bit_and v (0xffff - mii_cr_auto_neg_en) in
    let v1 = bit_and v0 (0xffff - bit_or mii_cr_speed_select_msb mii_cr_speed_select_lsb) in
    let speed = bit_and forced 0xf0 in
    let v2 =
      if speed == 0x10
      then v1
      else if speed == 0x20
      then bit_or v1 mii_cr_speed_100
      else bit_or v1 mii_cr_speed_1000 in
    if has forced 0x01
    then bit_or v2 mii_cr_full_duplex
    else bit_and v2 (0xffff - mii_cr_full_duplex)

-- What `setup_copper_link` makes of the register of the M88 PHY, and of CTRL.
unfoldable pub spec_ctrl_value : ℕ → ℕ
spec_ctrl_value v =
    let v1 = bit_or v m88e1000_pscr_assert_crs_on_tx in
    let v2 = bit_and v1 (0xffff - m88e1000_pscr_auto_x_mode) in
    let v3 = bit_or v2 m88e1000_pscr_auto_x_1000t in
    bit_and v3 (0xffff - m88e1000_pscr_polarity_reversal)

unfoldable pub link_ctrl_value : Bool → ℕ → ℕ
link_ctrl_value autoneg v =
    let up = bit_or v ctrl_slu in
    if autoneg
    then bit_and (bit_or up ctrl_asde) (0xffff_ffff - bit_or ctrl_frcspd ctrl_frcdpx)
    else up

-- What `get_phy_info` reads off the status register of the M88 PHY.
abbrev pub phy_info : ℕ → Bool × ℕ × ℕ
phy_info status =
    let speed = bit_and status m88e1000_pssr_speed_mask in
    (
      has status m88e1000_pssr_link,
      if speed == m88e1000_pssr_1000mbs
          then speed_1000
          else if speed == m88e1000_pssr_100mbs
          then speed_100
          else speed_10,
      if has status m88e1000_pssr_dplx then full_duplex else half_duplex,
    )

module _ ⦃io : Registers⦄ where
  -- What is written to MDIC for a register of the PHY.
  abbrev pub mdic_command : E1000Hw → ℕ → ℕ
  mdic_command h reg_addr =
      bit_or (bit_and (reg_addr * 2 ^ mdic_reg_shift % 2 ^ 32) mdic_reg_mask)
        (bit_and (h.phy_addr * 2 ^ mdic_phy_shift % 2 ^ 32) mdic_phy_mask)

  -- The loop of `read_phy_reg` and `write_phy_reg`, with `n` rounds left, giving MDIC once it is
  -- ready without an error.
  unfoldable pub poll_ready : ℕ → io.World → Option ℕ × io.World
  poll_ready zero w = (none, w)
  poll_ready (suc n) w =
      let (v, w') = io.read w mdic in
      let rest = poll_ready n w' in
      if has v mdic_ready then if has v mdic_error then (none, w') else (some v, w') else rest

  abbrev pub data_of : Option ℕ → Option ℕ
  data_of none = none
  data_of (some v) = some (bit_and v mdic_data_mask % 2 ^ 16)

  abbrev pub is_some : Option ℕ → Bool
  is_some none = false
  is_some (some v) = true

  -- `read_phy_reg`
  unfoldable pub read_phy_reg : E1000Hw → ℕ → Option ℕ × E1000Hw
  read_phy_reg h reg_addr =
      let (v, w) =
        poll_ready 64 (io.write h.world mdic (bit_or (mdic_command h reg_addr) mdic_op_read)) in
      (data_of v, record h { world = w })

  -- `write_phy_reg`
  unfoldable pub write_phy_reg : E1000Hw → ℕ → ℕ → Bool × E1000Hw
  write_phy_reg h reg_addr value =
      let cmd = bit_or (bit_or value (mdic_command h reg_addr)) mdic_op_write in
      let (v, w) = poll_ready 64 (io.write h.world mdic cmd) in (is_some v, record h { world = w })

  -- `?` after a step with and without a value.
  abbrev pub with_value : Option ℕ × E1000Hw → (ℕ → E1000Hw → Bool × E1000Hw) → Bool × E1000Hw
  with_value (none, h) f = (false, h)
  with_value (some v, h) f = f v h

  abbrev pub and_then : Bool × E1000Hw → (E1000Hw → Bool × E1000Hw) → Bool × E1000Hw
  and_then (false, h) f = (false, h)
  and_then (true, h) f = f h

  -- A register read, changed and written.
  abbrev pub modify_reg : ℕ → (ℕ → ℕ) → E1000Hw → Bool × E1000Hw
  modify_reg reg f h = with_value (read_phy_reg h reg) (λ v h'. write_phy_reg h' reg (f v))

  -- `detect_phy`
  unfoldable pub detect_phy : E1000Hw → Bool × E1000Hw
  detect_phy h = with_value (read_phy_reg h phy_id1) (λ id1 h1.
      with_value (read_phy_reg h1 phy_id2) (λ id2 h2.
        (true, record h2 { phy_id = bit_or (id1 * 2 ^ 16 % 2 ^ 32) (bit_and id2 0xfff0) })))

  -- `phy_hw_reset`
  unfoldable pub phy_hw_reset : E1000Hw → E1000Hw
  phy_hw_reset h =
      let (v, w) = io.read h.world ctrl in
      let w' = io.write w ctrl (bit_or v ctrl_phy_rst) in record h { world = io.write w' ctrl v }

  -- `phy_reset`
  unfoldable pub phy_reset : E1000Hw → Bool × E1000Hw
  phy_reset h = modify_reg phy_ctrl (λ v. bit_or v mii_cr_reset) h

  -- `setup_autoneg`
  unfoldable pub setup_autoneg : E1000Hw → Bool × E1000Hw
  setup_autoneg h = with_value (read_phy_reg h phy_autoneg_adv) (λ adv h1.
      with_value (read_phy_reg h1 phy_1000t_ctrl) (λ gig h2.
        and_then (write_phy_reg h2 phy_autoneg_adv (adv_value h.autoneg_advertised h.fc adv)) (λ h3.
          and_then (write_phy_reg h3 phy_1000t_ctrl (ctrl_1000t_value h.autoneg_advertised gig)) (
            modify_reg phy_ctrl
              (λ v. bit_or v (bit_or mii_cr_auto_neg_en mii_cr_restart_auto_neg))))))

  -- `setup_forced_link`
  unfoldable pub setup_forced_link : E1000Hw → Bool × E1000Hw
  setup_forced_link h = modify_reg phy_ctrl (forced_value h.forced_speed_duplex) h

  -- The end of `setup_copper_link`.
  unfoldable pub force_link_up : E1000Hw → Bool × E1000Hw
  force_link_up h =
      let (v, w) = io.read h.world ctrl in
      (
        true,
        config_collision_dist (record h { world = io.write w ctrl (link_ctrl_value h.autoneg v) }),
      )

  -- `setup_copper_link`
  unfoldable pub setup_copper_link : E1000Hw → Bool × E1000Hw
  setup_copper_link h = and_then (detect_phy h) (λ h1. and_then (phy_reset h1) (λ h2.
      and_then (modify_reg m88e1000_phy_spec_ctrl spec_ctrl_value h2) (λ h3.
        and_then (if h3.autoneg then setup_autoneg h3 else setup_forced_link h3) force_link_up)))

  abbrev pub info_of : Option ℕ → Option (Bool × ℕ × ℕ)
  info_of none = none
  info_of (some v) = some (phy_info v)

  -- `get_phy_info`
  unfoldable pub get_phy_info : E1000Hw → Option (Bool × ℕ × ℕ) × E1000Hw
  get_phy_info h = let (v, h') = read_phy_reg h m88e1000_phy_spec_status in (info_of v, h')

  -- `power_up_phy`
  unfoldable pub power_up_phy : E1000Hw → Bool × E1000Hw
  power_up_phy h = modify_reg phy_ctrl (λ v. bit_and v (0xffff - 0x0800)) h
