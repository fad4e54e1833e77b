-- ===== src/Motor/Motion.antt =====
-- components/infrastructure/src/motor/motion.cpp. A loop without a bound in the source takes fuel,
-- and `none` says that it still runs. `fuel` bounds the waits of the stepper driver too.
-- FreeRTOS runs at 1000 Hz (sdkconfig.defaults), so a tick is a millisecond.
pub mod Effects
pub mod Ends
pub mod Steps
pub mod Pulses
pub mod Quiet
use esp32_rs_on_idf.Common.{
  ℕ, zero, suc, ◌+◌, ◌-◌, ◌/◌, Bool, true, false, if◌then◌else◌, ltb, leb, ◌==◌, Option, none, some,
  ◌>>=◌, List, [], ◌∷◌, ◌++◌, take, replicate,
}
use Prim.Native.Nat.{min}
use esp32_rs_on_idf.Common.Int.{ℤ, pos, negsuc}
use esp32_rs_on_idf.Common.Float.{FloatOps, lit}
use esp32_rs_on_idf.Domain.Types.{
  Direction, liq_in, liq_out, ValvePosition, input, output, BuretteState, idle, filling, emptying,
  error, StepperError, limit_switch_triggered, ok, unexpected, Result,
}
use esp32_rs_on_idf.Domain.Calibration.{
  default_steps_per_ml, default_speed_coeff, default_min_freq_hz, default_max_freq_hz,
  speed_ml_min_to_hz,
}
use esp32_rs_on_idf.Motor.Machine.{
  ResultType, SmResult, Flag, stop_full, stop_empty, Env, Broadcast, motor_complete, Machine,
  store_flag, poll,
}
use esp32_rs_on_idf.Motor.Stepper.{rmt_chunk_symbols, emergency_stop, enable, move_steps_intervals}

abbrev pub step_freq_min_hz : ℕ
step_freq_min_hz = 30

abbrev pub step_freq_max_hz : ℕ
step_freq_max_hz = 3000

abbrev pub valve_settle_ms : ℕ
valve_settle_ms = 500

abbrev pub max_stored_results : ℕ
max_stored_results = 3

abbrev pub dir_level : Direction → ℕ
dir_level liq_in = 1
dir_level liq_out = 0

abbrev pub valve_level : ValvePosition → ℕ
valve_level input = 0
valve_level output = 1

-- The zeros that `SmResult sr{…, {}, …}` starts with, overwritten by the first results.
abbrev pub stored : {F : Type 0} ⦃o : FloatOps F⦄ → ℕ → List F → List F
stored count results =
    take max_stored_results
      (take (min count max_stored_results) results ++ replicate max_stored_results (lit 0 0))

abbrev pub clamp_speed : ℕ → ℕ
clamp_speed speed =
    let s = if ltb speed step_freq_min_hz then step_freq_min_hz else speed in
    if ltb step_freq_max_hz s then step_freq_max_hz else s

module _ {F : Type 0} where
  -- `Valve::setPosition` and the global atom.
  unfoldable pub set_valve : ValvePosition → Machine F → Machine F
  set_valve p m = record m {
    valve_pin = valve_level p ∷ m.valve_pin;
    valve_driver = p;
    valve_position = p;
  }

  unfoldable pub settle : Env → Flag → ℕ → Machine F → Machine F
  settle e f zero m = m
  settle e f (suc steps) m =
      let (m1, stop) = poll e (some f) m in
      let later = settle e f steps m1 in if stop then m1 else later

  unfoldable pub settle_valve : Env → Flag → Machine F → Machine F
  settle_valve e f m = settle e f (valve_settle_ms / 10) m

  -- The `while (true)` of `move_to_endstop`.
  unfoldable pub endstop_loop : Env → ℕ → ℕ → Flag → List ℕ → Machine F → Option (Machine F)
  endstop_loop e fuel zero f intervals m = none
  endstop_loop e fuel (suc rounds) f intervals m =
      let (m1, stop) = poll e (some f) m in
      if stop then some m1 else do
        (m2, r) ← move_steps_intervals e (some f) fuel intervals m1
        elim r [ unexpected _ ↦ some m2 | ok _ ↦ endstop_loop e fuel rounds f intervals m2 ]

  -- The callers see to it that `speedHz` is not 0, by which the source would divide.
  unfoldable pub move_to_endstop : Env → ℕ → Direction → ℕ → Flag → Machine F → Option (Machine F)
  move_to_endstop e fuel dir speed_hz f m =
      let intervals = replicate rmt_chunk_symbols (1_000_000 / speed_hz) in
      let m0 = store_flag f false (record m { dir_pin = dir_level dir }) in
      do m1 ← endstop_loop e fuel fuel f intervals m0; some (enable (emergency_stop e m1))

  unfoldable pub move_fill : Env → ℕ → ℕ → Machine F → Option (Machine F)
  move_fill e fuel speed_hz m =
      let m1 = settle_valve e stop_full (set_valve input m) in
      move_to_endstop e fuel liq_in speed_hz stop_full (record m1 { burette_state = filling })

  unfoldable pub move_empty : Env → ℕ → ℕ → Machine F → Option (Machine F)
  move_empty e fuel speed_hz m =
      let m1 = settle_valve e stop_empty (set_valve output m) in
      move_to_endstop e fuel liq_out speed_hz stop_empty (record m1 { burette_state = emptying })

  -- The rounds of `execute_move_steps`: at most one for each step that remains.
  unfoldable pub move_loop : Env → ℕ → ℕ → ℕ → ℕ → Machine F → Option (Machine F)
  move_loop e fuel zero interval_us remaining m = some m
  move_loop e fuel (suc rounds) interval_us remaining m =
      let (m1, stop) = poll e (some stop_full) m in
      let chunk = min remaining rmt_chunk_symbols in
      if remaining == 0 then some m else if stop then some m1 else do
        (m2, r) ← move_steps_intervals e (some stop_full) fuel (replicate chunk interval_us) m1
        elim r [
          | ok _ ↦ move_loop e fuel rounds interval_us (remaining - chunk) m2
          | unexpected limit_switch_triggered ↦ some (record m2 { burette_state = error })
          | unexpected _ ↦ some m2
        ]

  unfoldable pub execute_move_steps : Env → ℕ → ℤ → Machine F → Option (Machine F)
  execute_move_steps e fuel (negsuc n) m = some m
  execute_move_steps e fuel (pos zero) m = some m
  execute_move_steps e fuel (pos (suc n)) m =
      move_loop e fuel (suc n) (1_000_000 / clamp_speed m.speed) (suc n)
        (record m { dir_pin = dir_level m.direction })

module _ {F : Type 0} ⦃o : FloatOps F⦄ where
  unfoldable pub ml_min_to_hz : F → ℕ
  ml_min_to_hz speed_ml_min = speed_ml_min_to_hz speed_ml_min (record {
    steps_per_ml = default_steps_per_ml;
    nominal_volume_ml = lit 50 0;
    speed_coeff = default_speed_coeff;
    min_freq_hz = default_min_freq_hz;
    max_freq_hz = default_max_freq_hz;
  })

  -- The result overwrites the one in its queue; the broadcast goes out as far as there is room.
  unfoldable pub store_result : ResultType → ℤ → F → List F → ℕ → Machine F → Machine F
  store_result type steps_taken measured_speed results result_count m = record m {
    result = some (record {
      type = type;
      steps_taken = steps_taken;
      measured_speed_ml_min = measured_speed;
      results = stored result_count results;
      result_count = result_count;
    });
    broadcasts = motor_complete type steps_taken ∷ m.broadcasts;
    burette_state = idle;
  }
