-- ===== src/Application/CommandTypes.antt =====
-- components/domain/include/domain/command_types.hpp: the commands of the application layer.
use esp32_rs_on_idf.Common.{ℕ, Option, List, [], ◌∷◌}
use esp32_rs_on_idf.Common.Int.{ℤ}
use esp32_rs_on_idf.Common.Text.{codes}
use esp32_rs_on_idf.Domain.Types.{Direction, ValvePosition}

pub data CommandType : Type 0 where
  fill empty dose_volume rinse stop emergency_stop get_status move_steps : CommandType
  set_direction set_speed set_accel cal_get cal_calc_volume cal_calc_speed cal_save : CommandType
  cal_reset cal_run cal_get_result cal_run_speed_seq move_to_stop temp_read : CommandType
  adc_cal_get adc_cal_save adc_cal_measure adc_cal_compute adc_cal_reset : CommandType
  stall_guard_get stall_guard_set_threshold valve_set_position valve_get_state : CommandType
  system_get_status system_get_formatted_logs system_read_log system_firmware_version : CommandType
  serial_ping : CommandType

-- The arrays are the entries that are filled, with their counts as lengths.
pub record Command (F : Type 0) : Type 0 where
  pub type : CommandType
  pub volume : Option F
  pub steps : Option ℤ
  pub direction : Option Direction
  pub speed : Option ℕ
  pub accel : Option ℕ
  pub speed_ml_min : Option F
  pub target_volume : Option F
  pub valve_pos : Option ValvePosition
  pub sg_threshold : Option ℕ
  pub mode : Option (List ℕ)
  pub freq_hz : Option F
  pub mass_g : Option F
  pub temperature : Option F
  pub pressure : Option F
  pub ref_mv : Option F
  pub id : ℕ
  pub measurements : List (F × F)
  pub freqs_array : List F

-- The table of components/application/src/command.cpp.
abbrev pub cmd_names : List (List ℕ × CommandType)
cmd_names =
    (codes "burette.fill", fill)
    ∷ (codes "burette.empty", empty)
    ∷ (codes "burette.doseVolume", dose_volume)
    ∷ (codes "burette.rinse", rinse)
    ∷ (codes "burette.stop", stop)
    ∷ (codes "burette.emergencyStop", emergency_stop)
    ∷ (codes "burette.getStatus", get_status)
    ∷ (codes "burette.status", get_status)
    ∷ (codes "burette.moveSteps", move_steps)
    ∷ (codes "burette.setDirection", set_direction)
    ∷ (codes "burette.setSpeed", set_speed)
    ∷ (codes "burette.setAccel", set_accel)
    ∷ (codes "burette.cal.get", cal_get)
    ∷ (codes "burette.cal.calcVolume", cal_calc_volume)
    ∷ (codes "burette.cal.calcSpeed", cal_calc_speed)
    ∷ (codes "burette.cal.save", cal_save)
    ∷ (codes "burette.cal.reset", cal_reset)
    ∷ (codes "burette.cal.run", cal_run)
    ∷ (codes "burette.cal.getResult", cal_get_result)
    ∷ (codes "burette.cal.runSpeedSeq", cal_run_speed_seq)
    ∷ (codes "burette.moveToStop", move_to_stop)
    ∷ (codes "temperature.read", temp_read)
    ∷ (codes "adc.cal.get", adc_cal_get)
    ∷ (codes "adc.cal.save", adc_cal_save)
    ∷ (codes "adc.cal.measure", adc_cal_measure)
    ∷ (codes "adc.cal.compute", adc_cal_compute)
    ∷ (codes "adc.cal.reset", adc_cal_reset)
    ∷ (codes "stallGuard.get", stall_guard_get)
    ∷ (codes "stallGuard.setThreshold", stall_guard_set_threshold)
    ∷ (codes "valve.setPosition", valve_set_position)
    ∷ (codes "valve.getState", valve_get_state)
    ∷ (codes "system.getStatus", system_get_status)
    ∷ (codes "system.getFormattedLogs", system_get_formatted_logs)
    ∷ (codes "system.readLog", system_read_log)
    ∷ (codes "system.firmwareVersion", system_firmware_version)
    ∷ (codes "serial.ping", serial_ping)
    ∷ (codes "ping", serial_ping)
    ∷ []

abbrev pub max_measurements : ℕ
max_measurements = 16
