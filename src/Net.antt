-- ===== src/Net.antt =====
-- The kernel's side of the network interfaces: kernel/src/net.
pub mod Stack
pub mod Iface
pub mod Socket
mod Sample
