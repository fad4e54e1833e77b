-- ===== src/Lib.antt =====
-- The firmware of an automatic burette on an ESP32-S3 (components/, main/): a stepper motor drives
-- a piston between two limit switches, and a valve connects the cylinder to the reservoir (input)
-- or to the outlet (output). Commands arrive over USB, BLE or HTTP, are parsed and dispatched by
-- the application layer, and become motor commands in a queue. One task, the motor task, owns the
-- motor, the valve and the burette's state; limit switches and handlers set two stop flags that it
-- polls.
--
-- Common/ holds the shared helpers: lists over the native numbers, Boolean tests, case splits,
-- machine words (`% 2 ^ w`), signed integers, texts as bytes, a ring that is read backwards from a
-- counter, and `FloatOps`, the operations of the program's `float`, which is not interpreted.
-- `fixed_point` is an instance to run the model with.
--
-- Domain/ models components/domain/include/domain, one file for each header: Types (types.hpp,
-- errors.hpp), Burette (burette.hpp, src/burette.cpp), Rinse (rinse_sm.hpp), CalDose
-- (cal_dose_sm.hpp), CalSpeed and CalSpeedSeq (cal_speed_sm.hpp), CalRun (cal_run_planner.hpp) and
-- Calibration (calibration.hpp), LogBuffer (log_buffer.hpp, src/log_buffer.cpp) and Dns (dns.hpp).
-- A method that changes its object returns the new record with its result.
--
-- Diag/BlackBox models components/diag/src/black_box.cpp, and Interface/Serial the lines of the
-- serial input (components/interface/include/interface/serial.hpp): a buffer is the list of its
-- bytes. Interface/Broadcast has the texts of components/interface/src/broadcast.cpp, over a
-- parameter that prints a number.
--
-- Application/StateMachine models components/application/src/state_machine.cpp,
-- Application/Scheduler src/scheduler.cpp. Application/Command and Application/Response model
-- src/command.cpp there: the parsing of a command, with the JSON library as the parameter
-- `JsonApi`, and the responses; Application/CommandTypes has the types of
-- components/domain/include/domain/command_types.hpp and the table of names.
-- Application/BuretteOps models components/application/src/handlers/burette_ops.cpp: the handlers
-- that claim the burette by a compare-and-set on its state and send the motor command. Motor/
-- models the motor task of components/infrastructure. Motor/Machine is its state: position, pins,
-- the global atoms of types.hpp and the queues. What the hardware and the other tasks do is an
-- `Env` of streams, indexed by a count of the looks at the outside: whether a switch or a handler
-- has set a flag since the last look, what the RMT and the tick count return. Motor/Stepper is
-- src/drivers/stepper.cpp, and src/motor/ has Motion (motion.cpp), Homing (homing.cpp), Runners
-- (sm_runners.cpp) and Task (task.cpp). Functions keep their names, in snake case. Beside the task
-- stands the controller that queues its commands (motor_controller_impl.cpp): JsonSearch for the
-- search of a key in a JSON text, Controller for the commands. `strtod` is a parameter.
--
-- Drivers/TmcUart models the frames of src/drivers/tmc_uart.cpp and their checksum.
-- Drivers/OneWire is src/drivers/onewire.cpp, Drivers/Adc src/drivers/adc.cpp, and
-- Drivers/TempThread the task that reads both (src/temp_thread.cpp). Drivers/Valve is
-- src/drivers/valve.cpp with the settle timer, over a record of the `esp_timer` functions whose
-- documented laws are `TimerLaws`; Application/ValveOps has the handlers that call it.
--
-- Storage/ models components/infrastructure/src/storage/nvs.cpp: Nvs the handle of a namespace
-- over the parameter `NvsApi`, Settings the settings by name and the first boot. Laws has what the
-- code relies on in ESP-IDF, `NvsLaws`; Writes and Frame say what a chain of writes changes and
-- keeps.
--
-- The handlers of the calibration (src/handlers/burette_cal.cpp of components/application) are in
-- Application/BuretteCal, with the mathematics of Domain/Ols (ols.hpp) and Domain/ZFactor
-- (z_factor.hpp); they reach the storage through the interface `CalStore`.
-- src/handlers/sensors.cpp is in Application/AdcCal and Application/Sensors. Application/World is
-- what all handlers share, and Application/Dispatch models src/dispatch.cpp there: the choice of
-- the handler, and its run. Main has the lines of the main loop of main/main.cpp, from the text to
-- the answer, and the results of the motor task, whose texts are in Application/Results
-- (src/response.cpp).
--
-- A loop that the source leaves unbounded takes fuel, and `none` says that it still runs. The fuel
-- bounds the waits for the RMT, the rounds to an end stop and the rounds of a runner; where the
-- theorems say that a loop ends, they say how much is enough: `b + 2` if the switch closes within
-- `b` looks, and the number of cycles and three more for a rinse. Loops over a number of steps
-- take no fuel: they run once for each step at most. A search in a text and a walk over a DNS name
-- take the length of the text as fuel, since every round drops a byte. The attempts of a
-- measurement of the ADC are ten, as in the source.
--
-- Not modelled: logs, tracers, watchdog feeding and the calls that record into the black box,
-- which record nothing that the modelled code reads back; the set-up of queues, pins and ESP-IDF
-- handles; delays, except that a delay between two stores is a look at the outside. The other
-- parts of the firmware (network, the web page, the REST interface, the driver of the switches,
-- diagnostics) are not modelled.
pub mod Common
pub mod Domain
pub mod Application
pub mod Motor
pub mod Diag
pub mod Drivers
pub mod Interface
pub mod Storage
pub mod Main
mod Examples
