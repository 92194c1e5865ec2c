-- ===== src/E1000/Phy/Tests.antt =====
-- The PHY of e1000 on concrete inputs: a device that never answers, and register values.
use driver_workflow.Prelude.{◌≡◌, refl, false, none, [], ◌∷◌}
use driver_workflow.Bits.{has}
use driver_workflow.Sample.{write_log}
use driver_workflow.E1000.Hw.{full_pause, new, hash_mc_addr}
use driver_workflow.E1000.Phy.{
  adv_value, ctrl_1000t_value, forced_value, poll_ready, read_phy_reg, detect_phy,
  setup_copper_link,
}

silent : (read_phy_reg (new []) 2).0 ≡ none
unfolding read_phy_reg poll_ready has
silent = refl

no_link : (setup_copper_link (new [])).0 ≡ false
unfolding setup_copper_link detect_phy read_phy_reg poll_ready has
no_link = refl

-- The default advertisement is of 10 and 100 Mbit/s, of 1000 Mbit/s full duplex and of pauses.
advertised : (adv_value 0x2f full_pause 0 ≡ 0x0de0) × (ctrl_1000t_value 0x2f 0 ≡ 0x0200)
unfolding adv_value ctrl_1000t_value has
advertised = (refl, refl)

forced : forced_value 0x21 0x1000 ≡ 0x2100
unfolding forced_value has
forced = refl

hashed : hash_mc_addr (0x01 ∷ 0x00 ∷ 0x5e ∷ 0x00 ∷ 0x00 ∷ 0xfb ∷ []) ≡ 0xfb0
unfolding hash_mc_addr
hashed = refl
