-- ===== src/E1000/Driver/Tests.antt =====
-- The e1000 driver on concrete inputs.
use driver_workflow.Prelude.{◌≡◌, refl, true, false, some, []}
use driver_workflow.Sample.{write_log}
use driver_workflow.E1000.Hw.{speed100, half}
use driver_workflow.E1000.Driver.{is_supported, handle_interrupt, speed_value, duplex_value}

supported : is_supported 0x8086 0x100e ≡ true
unfolding is_supported
supported = refl

link_values : (speed_value (some speed100) ≡ 100) × (duplex_value (some half) ≡ 1)
link_values = (refl, refl)

-- A device that shows no cause did not interrupt.
not_ours : (handle_interrupt []).0 ≡ false
unfolding handle_interrupt
not_ours = refl
