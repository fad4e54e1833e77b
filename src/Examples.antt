-- ===== src/Examples.antt =====
-- Concrete runs of the components.
mod Domain
mod Motor
mod Application
mod Drivers
mod Interface
mod Controller
mod Command
mod Storage
mod Calibration
mod Dispatch
