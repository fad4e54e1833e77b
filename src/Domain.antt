-- ===== src/Domain.antt =====
-- The domain layer: components/domain. Pure data and state machines, no hardware.
pub mod Types
pub mod LogBuffer
pub mod Burette
pub mod Rinse
pub mod CalDose
pub mod CalSpeed
pub mod CalSpeedSeq
pub mod CalRun
pub mod Calibration
pub mod Dns
pub mod Ols
pub mod ZFactor
