-- ===== src/Application.antt =====
-- The application layer: components/application.
pub mod StateMachine
pub mod BuretteOps
pub mod ValveOps
pub mod Response
pub mod CommandTypes
pub mod Command
pub mod Scheduler
pub mod BuretteCal
pub mod AdcCal
pub mod Sensors
pub mod World
pub mod Results
pub mod Dispatch
