-- ===== src/Application/Sensors.antt =====
-- components/application/src/handlers/sensors.cpp: the temperature and StallGuard. The register reads
-- and the threshold go to the motor task through its queue; `accepts` says whether it has room.
use esp32_rs_on_idf.Common.{ℕ, Bool, if◌then◌else◌, Option, none, some}
use esp32_rs_on_idf.Common.Int.{ℤ, negsuc, ltb_ℤ}
use esp32_rs_on_idf.Common.Float.{FloatOps, lit, ◌/f◌}
use esp32_rs_on_idf.Motor.Task.{MotorCommand}
use esp32_rs_on_idf.Storage.Nvs.{NvsApi}
use esp32_rs_on_idf.Storage.Settings.{stallguard_write_threshold}
use esp32_rs_on_idf.Application.BuretteOps.{Globals, enqueue}

pub data SensorResponse (F : Type 0) : Type 0 where
  threshold_required accepted : SensorResponse F
  temperature : F → SensorResponse F
  threshold : ℕ → SensorResponse F

-- -99999, the reading of a sensor that failed.
abbrev pub temp_sentinel_cx100 : ℤ
temp_sentinel_cx100 = negsuc 99_998

abbrev pub tmc_reg_sg_result : ℕ
tmc_reg_sg_result = 65

abbrev pub tmc_reg_drv_status : ℕ
tmc_reg_drv_status = 111

unfoldable pub handle_read_temperature : {F : Type 0} ⦃o : FloatOps F⦄ → ℤ → SensorResponse F
handle_read_temperature ⦃o = o⦄ temp_cx100 =
    temperature
      (if ltb_ℤ temp_sentinel_cx100 temp_cx100 then o.of_ℤ temp_cx100 /f lit 100 0 else lit 0 0)

module _ {F : Type 0} where
  abbrev try_enqueue : Bool → MotorCommand F → Globals F → Globals F
  try_enqueue accepts cmd g = if accepts then enqueue cmd g else g

  -- `controller` says whether the motor controller is set.
  unfoldable pub handle_stall_guard_get :
      (controller accepts accepts_next : Bool) → Globals F → Globals F × SensorResponse F
  handle_stall_guard_get controller accepts accepts_next g =
      let first = try_enqueue accepts (MotorCommand.read_tmc_register tmc_reg_sg_result) g in
      let second =
        try_enqueue accepts_next (MotorCommand.read_tmc_register tmc_reg_drv_status) first in
      (if controller then second else g, accepted)

  -- The new threshold of `gStallGuardThreshold`, if there is one; the write may fail unnoticed.
  unfoldable pub handle_stall_guard_set_threshold :
      {S H : Type 0} (api : NvsApi S H) (accepts : Bool)
      → Option ℕ
      → Globals F
      → ℕ
      → S
      → (Globals F × ℕ × S) × SensorResponse F
  handle_stall_guard_set_threshold api accepts none g old s = ((g, old, s), threshold_required)
  handle_stall_guard_set_threshold api accepts (some t) g old s = (
    (
      try_enqueue accepts (MotorCommand.set_stall_threshold t) g,
      t,
      (stallguard_write_threshold api t s).0,
    ),
    threshold t,
  )
