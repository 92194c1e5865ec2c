-- ===== src/E1000.antt =====
-- The e1000 driver: kernel/comps/e1000/src.
pub mod Regs
pub mod Desc
pub mod Tx
pub mod Rx
pub mod Eeprom
pub mod Intr
pub mod Setup
pub mod LinkRegs
pub mod Hw
pub mod Phy
pub mod Init
pub mod Driver
