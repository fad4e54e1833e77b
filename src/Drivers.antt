-- ===== src/Drivers.antt =====
-- Drivers of components/infrastructure/src/drivers that the motor task does not hold.
pub mod TmcUart
pub mod Valve
pub mod OneWire
pub mod Adc
pub mod TempThread
