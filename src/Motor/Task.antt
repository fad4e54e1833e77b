-- ===== src/Motor/Task.antt =====
-- components/infrastructure/src/motor/task.cpp: the commands of the motor task. The queues exist
-- (`createMotorQueues` succeeded), and `CalibrationData{}` is a record of zeros.
pub mod Steps
use esp32_rs_on_idf.Common.{
  ℕ, zero, suc, Bool, true, false, ◌&&◌, if◌then◌else◌, leb, Option, none, some, ◌>>=◌, List, [],
  ◌∷◌,
}
use esp32_rs_on_idf.Common.Int.{ℤ, pos, ltb_ℤ, ◌-ℤ◌, signed32}
use esp32_rs_on_idf.Common.Float.{FloatOps, lit}
use esp32_rs_on_idf.Domain.Types.{Direction, BuretteState, idle, dosing, rinsing, stopping, error}
use esp32_rs_on_idf.Motor.Machine.{
  plain, Flag, stop_full, stop_empty, Env, stallguard_result, Machine, advance,
}
use esp32_rs_on_idf.Motor.Motion.{
  dir_level, step_freq_min_hz, step_freq_max_hz, move_to_endstop, execute_move_steps,
}
use esp32_rs_on_idf.Motor.Homing.{run_homing}
use esp32_rs_on_idf.Motor.Runners.{
  plain_result, run_rinse_sm, run_cal_dose_sm, run_cal_speed_sm, run_cal_speed_seq_sm,
}

-- `MotorCommand` with the fields that its type makes the task read.
pub data MotorCommand (F : Type 0) : Type 0 where
  move_steps : ℤ → MotorCommand F
  move_continuous : Direction → ℕ → MotorCommand F
  stop emergency_stop home : MotorCommand F
  set_direction : Direction → MotorCommand F
  set_speed set_accel set_stall_threshold : ℕ → MotorCommand F
  start_rinse : (cycles : ℕ) → F → MotorCommand F
  start_cal_dose : F → MotorCommand F
  start_cal_speed : F → (test_freq_hz : ℕ) → MotorCommand F
  start_cal_speed_seq : List ℕ → F → MotorCommand F
  read_tmc_register : ℕ → MotorCommand F

abbrev pub magnitude : ℤ → ℤ
magnitude steps = if ltb_ℤ steps (pos 0) then pos 0 -ℤ steps else steps

module _ {F : Type 0} ⦃o : FloatOps F⦄ where
  unfoldable pub handle_move_steps : Env → ℕ → ℤ → Machine F → Option (Machine F)
  handle_move_steps e fuel steps m = execute_move_steps e fuel steps m >>= λ m1.
      some (plain_result plain (magnitude (signed32 m1.position -ℤ signed32 m.position)) m1)

  unfoldable pub handle_move_continuous : Env → ℕ → Direction → ℕ → Machine F → Option (Machine F)
  handle_move_continuous e fuel dir speed_hz m =
      move_to_endstop e fuel dir speed_hz stop_full m >>= λ m1. some (plain_result plain (pos 0) m1)

  -- The delay between the two stores is one look at the outside.
  unfoldable pub handle_stop : Env → Machine F → Machine F
  handle_stop e m =
      let m1 = advance e (record m { burette_state = stopping; full_flag = true }) in
      record m1 { full_flag = false; burette_state = idle }

  -- `cancelValveSettleTimer` disarms the timer.
  unfoldable pub handle_emergency_stop : Machine F → Machine F
  handle_emergency_stop m = record m {
    valve_timer_armed = false;
    valve_is_settling = false;
    full_flag = true;
    empty_flag = true;
    burette_state = error;
  }

  unfoldable pub handle_set_direction : Direction → Machine F → Machine F
  handle_set_direction dir m = record m { direction = dir; dir_pin = dir_level dir }

  unfoldable pub handle_set_speed : ℕ → Machine F → Machine F
  handle_set_speed speed_hz m =
      if leb step_freq_min_hz speed_hz && leb speed_hz step_freq_max_hz
      then record m { speed = speed_hz }
      else m

  unfoldable pub handle_set_accel : ℕ → Machine F → Machine F
  handle_set_accel accel_hz_per_s m = record m { accel = accel_hz_per_s }

  -- What the driver's register write returns is ignored.
  unfoldable pub handle_set_stall_threshold : Env → ℕ → Machine F → Machine F
  handle_set_stall_threshold e threshold m =
      advance e (record m { stall_guard_threshold = threshold })

  -- `CalibrationData{}.nominalVolumeMl`.
  abbrev pub blank_nominal_volume_ml : F
  blank_nominal_volume_ml = lit 0 0

  unfoldable pub handle_start_rinse : Env → ℕ → ℕ → F → Machine F → Option (Machine F)
  handle_start_rinse e fuel cycles speed m =
      run_rinse_sm e fuel speed cycles m.volume_ml blank_nominal_volume_ml
        (record m { burette_state = rinsing })

  unfoldable pub handle_start_cal_dose : Env → ℕ → F → Machine F → Option (Machine F)
  handle_start_cal_dose e fuel speed m =
      run_cal_dose_sm e fuel speed m.volume_ml blank_nominal_volume_ml
        (record m { burette_state = dosing })

  unfoldable pub handle_start_cal_speed : Env → ℕ → F → ℕ → Machine F → Option (Machine F)
  handle_start_cal_speed e fuel speed test_freq_hz m =
      run_cal_speed_sm e fuel speed test_freq_hz m.volume_ml blank_nominal_volume_ml
        (record m { burette_state = dosing })

  unfoldable pub handle_start_cal_speed_seq : Env → ℕ → List ℕ → F → Machine F → Option (Machine F)
  handle_start_cal_speed_seq e fuel freqs speed m =
      run_cal_speed_seq_sm e fuel freqs speed m.volume_ml blank_nominal_volume_ml
        (record m { burette_state = dosing })

  unfoldable pub handle_read_tmc_register : Env → ℕ → Machine F → Machine F
  handle_read_tmc_register e reg m =
      let m1 = advance e m in
      elim (e.read_register m.clock) [
        | none ↦ m1
        | some value ↦ record m1 { broadcasts = stallguard_result reg value ∷ m1.broadcasts }
      ]

  -- The `switch` of `motorTaskEntry`.
  unfoldable pub step : Env → ℕ → MotorCommand F → Machine F → Option (Machine F)
  step e fuel (move_steps n) m = handle_move_steps e fuel n m
  step e fuel (move_continuous d hz) m = handle_move_continuous e fuel d hz m
  step e fuel stop m = some (handle_stop e m)
  step e fuel emergency_stop m = some (handle_emergency_stop m)
  step e fuel home m = run_homing e fuel stop_empty m
  step e fuel (set_direction d) m = some (handle_set_direction d m)
  step e fuel (set_speed hz) m = some (handle_set_speed hz m)
  step e fuel (set_accel a) m = some (handle_set_accel a m)
  step e fuel (set_stall_threshold n) m = some (handle_set_stall_threshold e n m)
  step e fuel (start_rinse cycles speed) m = handle_start_rinse e fuel cycles speed m
  step e fuel (start_cal_dose speed) m = handle_start_cal_dose e fuel speed m
  step e fuel (start_cal_speed speed hz) m = handle_start_cal_speed e fuel speed hz m
  step e fuel (start_cal_speed_seq freqs speed) m = handle_start_cal_speed_seq e fuel freqs speed m
  step e fuel (read_tmc_register reg) m = some (handle_read_tmc_register e reg m)
