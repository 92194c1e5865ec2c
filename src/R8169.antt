-- ===== src/R8169.antt =====
-- kernel/comps/r8169/src: the RTL8168g driver.
pub mod Regs
pub mod Desc
pub mod Tx
pub mod Device
pub mod Phy
pub mod Rx
