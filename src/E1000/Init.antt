-- ===== src/E1000/Init.antt =====
-- `setup_link` and `init_hw` of kernel/comps/e1000/src/hw.rs, which go through the PHY.
use driver_workflow.Prelude.{ℕ, List, [], ◌∷◌, ◌==◌, Bool, true, ◌&&◌, if◌then◌else◌}
use driver_workflow.Mmio.{Registers}
use driver_workflow.E1000.LinkRegs.{ledctl, num_mta_registers}
use driver_workflow.E1000.Hw.{
  E1000Hw, read_mac_addr, force_mac_fc, rar_set, zero_mta, clear_hw_counters,
}
use driver_workflow.E1000.Phy.{and_then, setup_copper_link}

-- The comparison with `[0u8; 6]`.
abbrev pub is_zero : List ℕ → Bool
is_zero [] = true
is_zero (b ∷ bs) = (b == 0) && is_zero bs

module _ ⦃io : Registers⦄ where
  -- `setup_link`
  unfoldable pub setup_link : E1000Hw → Bool × E1000Hw
  setup_link h = and_then (if is_zero h.perm_mac_addr then read_mac_addr h else (true, h)) (λ h1.
      and_then (setup_copper_link (record h1 { fc = h1.original_fc }))
        (λ h2. (true, force_mac_fc h2)))

  -- `init_hw`
  unfoldable pub init_hw : E1000Hw → Bool × E1000Hw
  init_hw h =
      let (v, w) = io.read h.world ledctl in
      let h1 = rar_set (record h { world = io.write w ledctl v }) h.mac_addr 0 in
      and_then (setup_link (record h1 { world = zero_mta num_mta_registers 0 h1.world }))
        (λ h2. (true, clear_hw_counters h2))
