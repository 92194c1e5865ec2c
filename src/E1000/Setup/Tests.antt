-- ===== src/E1000/Setup/Tests.antt =====
-- The register writes of the two set-up functions, newest first.
use driver_workflow.Prelude.{◌≡◌, refl, [], ◌∷◌}
use driver_workflow.Sample.{write_log}
use driver_workflow.E1000.Setup.{configure_tx, configure_rx}

tx_writes :
    configure_tx [] 0x1_2345_6000
    ≡ (0x410, 0x602008)
      ∷ (0x400, 0x400fa)
      ∷ (0x3828, 0x1010000)
      ∷ (0x3820, 8)
      ∷ (0x3818, 0)
      ∷ (0x3810, 0)
      ∷ (0x3808, 4096)
      ∷ (0x3804, 1)
      ∷ (0x3800, 0x2345_6000)
      ∷ []
unfolding configure_tx
tx_writes = refl

rx_writes :
    configure_rx [] 0x1_2345_6000
    ≡ (0x5000, 0x300)
      ∷ (0x100, 0x4008002)
      ∷ (0x2820, 0)
      ∷ (0x2818, 0)
      ∷ (0x2810, 0)
      ∷ (0x2808, 4096)
      ∷ (0x2804, 1)
      ∷ (0x2800, 0x2345_6000)
      ∷ []
unfolding configure_rx
rx_writes = refl
