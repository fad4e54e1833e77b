-- ===== src/Application/Dispatch.antt =====
-- components/application/src/dispatch.cpp: `dispatch`, over the handlers of the other modules. `none`
-- is a restart of the device. The answers that only print something are named, not spelled out.
pub mod Busy
use esp32_rs_on_idf.Common.{
  ℕ, zero, suc, ◌+◌, Bool, true, false, if◌then◌else◌, u32, Option, none, some, ◌>>=◌, List, [],
  ◌∷◌,
}
use esp32_rs_on_idf.Common.Int.{ℤ, pos, pos_part}
use esp32_rs_on_idf.Common.Float.{FloatOps, lit}
use esp32_rs_on_idf.Domain.Types.{Direction, ValvePosition, Result, ok, unexpected}
use esp32_rs_on_idf.Domain.Calibration.{CalibrationData, to_u32}
use esp32_rs_on_idf.Motor.Machine.{SmResult}
use esp32_rs_on_idf.Drivers.Valve.{TimerApi, Valve, Settle, cancel_valve_settle_timer}
use esp32_rs_on_idf.Storage.Nvs.{NvsApi, FloatBits, ResourceError, Action}
use esp32_rs_on_idf.Storage.Settings.{Memory, adc_calibration_read, adc_calibration_write}
use esp32_rs_on_idf.Application.BuretteOps
use esp32_rs_on_idf.Application.BuretteOps.{Globals, handle_emergency_stop}
use esp32_rs_on_idf.Application.BuretteOps.Claims
use esp32_rs_on_idf.Application.BuretteOps.Claims.{Request}
use esp32_rs_on_idf.Application.BuretteCal
use esp32_rs_on_idf.Application.BuretteCal.{CalState, CalResponse, handle_get_cal_result}
use esp32_rs_on_idf.Application.BuretteCal.Saved
use esp32_rs_on_idf.Application.BuretteCal.Saved.{CalRequest, nvs_store}
use esp32_rs_on_idf.Application.AdcCal
use esp32_rs_on_idf.Application.AdcCal.{AdcCal}
use esp32_rs_on_idf.Application.AdcCal.Points
use esp32_rs_on_idf.Application.AdcCal.Points.{Callbacks}
use esp32_rs_on_idf.Application.Sensors.{
  SensorResponse, handle_read_temperature, handle_stall_guard_get, handle_stall_guard_set_threshold,
}
use esp32_rs_on_idf.Application.ValveOps
use esp32_rs_on_idf.Application.ValveOps.{handle_set_position, handle_get_state}
use esp32_rs_on_idf.Application.CommandTypes.{CommandType, Command}
use esp32_rs_on_idf.Application.World.{
  World, Env, Reply, status_reply, logs_reply, entries_reply, version_reply, pong, burette_reply,
  cal_reply, adc_reply, sensor_reply, valve_reply, is_present, memory_of, with_memory, settle_of,
  with_settle, valve_world, with_valve,
}

-- A call of a handler, with its arguments.
pub data Call (F : Type 0) : Type 0 where
  emergency_stop status cal_result stall_guard_get valve_state : Call F
  formatted_logs read_log firmware_version ping : Call F
  burette : Request F → Call F
  cal : CalRequest F → Call F
  adc : AdcCal.Points.Request F → Call F
  temperature : ℤ → Call F
  stall_guard_threshold : Option ℕ → Call F
  valve_position : Option ValvePosition → Call F

module _ {F : Type 0} ⦃o : FloatOps F⦄ where
  abbrev as_u32 : Option F → Option ℕ
  as_u32 none = none
  as_u32 (some x) = some (to_u32 x)

  abbrev speed_or : F → Option F → F
  speed_or d none = d
  speed_or d (some x) = x

  -- The `switch` on the type of a command, with what it passes to the handlers.
  unfoldable pub route : Command F → Call F
  route cmd = elim cmd.type [
    | CommandType.fill ↦ burette Request.fill
    | CommandType.empty ↦ burette Request.empty
    | CommandType.dose_volume ↦ burette (Request.dose_volume cmd.volume)
    | CommandType.rinse ↦ burette (Request.rinse (as_u32 cmd.volume))
    | CommandType.stop ↦ burette Request.stop
    | CommandType.move_to_stop ↦
        burette (Request.move_continuous cmd.direction (as_u32 cmd.freq_hz))
    | CommandType.emergency_stop ↦ emergency_stop
    | CommandType.get_status ↦ status
    | CommandType.move_steps ↦ burette (Request.move_steps cmd.steps)
    | CommandType.set_direction ↦ burette (Request.set_direction cmd.direction)
    | CommandType.set_speed ↦ burette (Request.set_speed cmd.speed)
    | CommandType.set_accel ↦ burette (Request.set_accel cmd.accel)
    | CommandType.cal_get ↦ cal CalRequest.get
    | CommandType.cal_calc_volume ↦
        cal (CalRequest.calc_volume_of cmd.mass_g cmd.temperature cmd.pressure)
    | CommandType.cal_calc_speed ↦ cal (CalRequest.calc_speed_of cmd.measurements)
    | CommandType.cal_save ↦ cal (CalRequest.save cmd.volume cmd.target_volume)
    | CommandType.cal_reset ↦ cal CalRequest.reset
    | CommandType.cal_run ↦ burette (Request.cal_run cmd.mode cmd.freq_hz cmd.speed_ml_min)
    | CommandType.cal_get_result ↦ cal_result
    | CommandType.cal_run_speed_seq ↦
        burette (Request.run_calibration cmd.freqs_array (speed_or (lit 20 0) cmd.speed_ml_min))
    | CommandType.temp_read ↦ temperature (pos 0)
    | CommandType.adc_cal_get ↦ adc AdcCal.Points.get
    | CommandType.adc_cal_save ↦ adc AdcCal.Points.save
    | CommandType.adc_cal_measure ↦ adc (AdcCal.Points.measure cmd.ref_mv)
    | CommandType.adc_cal_compute ↦ adc AdcCal.Points.compute
    | CommandType.adc_cal_reset ↦ adc AdcCal.Points.reset
    | CommandType.stall_guard_get ↦ stall_guard_get
    | CommandType.stall_guard_set_threshold ↦ stall_guard_threshold cmd.sg_threshold
    | CommandType.valve_set_position ↦ valve_position cmd.valve_pos
    | CommandType.valve_get_state ↦ valve_state
    | CommandType.system_get_status ↦ status
    | CommandType.system_get_formatted_logs ↦ formatted_logs
    | CommandType.system_read_log ↦ read_log
    | CommandType.system_firmware_version ↦ firmware_version
    | CommandType.serial_ping ↦ ping
  ]

module _ {S H T F D : Type 0} ⦃o : FloatOps F⦄ ⦃d : FloatOps D⦄ (e : Env S H T F D) where
  -- `stubSampleRead`, and the callbacks of the storage beside the count of the samples.
  abbrev read_sample : Memory S F × ℕ → (Memory S F × ℕ) × ℕ
  read_sample (m, n) = elim e.sample [ none ↦ ((m, n), 0) | some at ↦ ((m, n + 1), at n) ]

  abbrev read_adc : Memory S F × ℕ → (Memory S F × ℕ) × (ℕ × ℤ)
  read_adc (m, n) =
      let (s, p) = adc_calibration_read e.nvs m.flash in ((record m { flash = s }, n), p)

  abbrev write_adc : ℕ → ℤ → Action (Memory S F × ℕ) Unit
  write_adc a b (m, n) = let (m1, r) = adc_calibration_write e.nvs a b m in ((m1, n), r)

  abbrev callbacks : Callbacks (Memory S F × ℕ) F D
  callbacks = record {
    read_sample = read_sample;
    read = read_adc;
    write = write_adc;
    to_double = e.to_double;
    sqrt = e.sqrt;
  }

  unfoldable pub run_cal : CalRequest F → World S T F → World S T F × Reply F D
  run_cal request w =
      let (st, r) =
        BuretteCal.Saved.handle (nvs_store e.nvs e.bits) request
          (record { pending = w.pending_cal; outside = memory_of w }) in
      (record (with_memory st.outside w) { pending_cal = st.pending }, cal_reply r)

  unfoldable pub run_adc : AdcCal.Points.Request F → World S T F → World S T F × Reply F D
  run_adc request w =
      let ((s, (m, n)), r) =
        AdcCal.Points.handle callbacks request (w.adc_cal, (memory_of w, w.samples_read)) in
      (record (with_memory m w) { adc_cal = s; samples_read = n }, adc_reply r)

  unfoldable pub run : Call F → World S T F → Option (World S T F × Reply F D)
  run (burette request) w =
      let (g, r) = BuretteOps.Claims.handle e.accepts request w.globals in
      some (record w { globals = g }, burette_reply r)
  run emergency_stop w = cancel_valve_settle_timer e.timers (settle_of w) >>= λ s.
      let (g, r) = handle_emergency_stop e.accepts (with_settle s w).globals in
      some (record (with_settle s w) { globals = g }, burette_reply r)
  run (cal request) w = some (run_cal request w)
  run cal_result w = some (w, cal_reply (handle_get_cal_result e.controller))
  run (adc request) w = some (run_adc request w)
  run (temperature t) w = some (w, sensor_reply (handle_read_temperature t))
  run stall_guard_get w =
      let (g, r) =
        handle_stall_guard_get (is_present e.controller) e.accepts e.accepts_next w.globals in
      some (record w { globals = g }, sensor_reply r)
  run (stall_guard_threshold t) w =
      let ((g, threshold, s), r) =
        handle_stall_guard_set_threshold e.nvs e.accepts t w.globals w.stall_guard_threshold
          w.flash in
      some (record w { globals = g; stall_guard_threshold = threshold; flash = s }, sensor_reply r)
  run (valve_position where_to) w =
      handle_set_position e.timers where_to (valve_world w) >>= λ (v, r).
      some (with_valve v w, valve_reply r)
  run valve_state w = some (w, valve_reply (handle_get_state w.valve_position))
  run status w = some (w, status_reply)
  run formatted_logs w = some (w, logs_reply)
  run read_log w = some (w, entries_reply)
  run firmware_version w = some (w, version_reply)
  run ping w = some (w, pong)

  -- `withId` copies the id of the command into the response.
  unfoldable pub dispatch : Command F → World S T F → Option (World S T F × (ℕ × Reply F D))
  dispatch cmd w = run (route cmd) w >>= λ (n, r). some (n, (cmd.id, r))
