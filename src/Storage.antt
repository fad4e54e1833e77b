-- ===== src/Storage.antt =====
-- components/infrastructure/src/storage/nvs.cpp: the settings in the flash memory.
pub mod Nvs
pub mod Laws
pub mod Settings
pub mod Writes
pub mod Frame
pub mod RoundTrip
pub mod Survival
pub mod FirstBoot
pub mod AdcRoundTrip
