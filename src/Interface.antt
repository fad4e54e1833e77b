-- ===== src/Interface.antt =====
-- components/interface: the ways in and out of the device.
pub mod Serial
pub mod Broadcast
