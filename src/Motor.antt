-- ===== src/Motor.antt =====
-- The motor task: components/infrastructure/src/motor and the stepper driver below it.
pub mod JsonSearch
pub mod Machine
pub mod Stepper
pub mod Motion
pub mod Homing
pub mod Runners
pub mod Task
pub mod Controller
