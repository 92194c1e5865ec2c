-- ===== src/E1000e.antt =====
-- The e1000e driver: kernel/comps/e1000e/src.
pub mod Regs
pub mod Desc
pub mod Rx
pub mod Tx
pub mod Setup
pub mod Driver
