-- ===== src/Application/BuretteOps.antt =====
-- components/application/src/handlers/burette_ops.cpp: the handlers that claim the burette by a
-- compare-and-set on its state and queue a motor command. A handler runs without the motor task
-- between its steps. `accepts` says whether `xQueueSend` finds room in the motor's queue. A
-- response stands for its bytes. `handleGetStatus`, which changes nothing, is left out. No mode
-- that is known is cut by the buffer of seven characters; a mode with a NUL is left out.
pub mod Claims
pub mod Grants
use esp32_rs_on_idf.Common.{
  ℕ, Bool, true, false, not, ◌||◌, if◌then◌else◌, ◌==◌, u8, u16, Option, none, some, List, ◌∷◌,
}
use esp32_rs_on_idf.Common.Int.{ℤ, pos, pos_part, ltb_ℤ}
use esp32_rs_on_idf.Common.Float.{FloatOps, ltf, lit, ◌*f◌}
use esp32_rs_on_idf.Domain.Types.{
  Direction, liq_in, liq_out, BuretteState, idle, filling, emptying, dosing, rinsing, stopping,
  error, is_idle,
}
use esp32_rs_on_idf.Domain.Calibration.{CalibrationData, plan_dose}
use esp32_rs_on_idf.Domain.CalRun
use esp32_rs_on_idf.Domain.CalRun.{CalRunPlan, CalRunAction, CalRunRejectReason, plan_cal_run}
use esp32_rs_on_idf.Motor.Task.{MotorCommand}

-- The reason in the body of an error response.
pub data Reason : Type 0 where
  burette_busy start_failed busy invalid_params valve_settling_try_again : Reason

pub data Response : Type 0 where
  error_response : Reason → Response
  ack_then stopped emergency_stopped status_ok : Response

-- The global atoms that the handlers read or write, with the motor's queue, newest first.
pub record Globals (F : Type 0) : Type 0 where
  pub burette_state : BuretteState
  pub valve_is_settling : Bool
  pub valve_timer_armed : Bool
  pub stop_full : Bool
  pub direction : Direction
  pub speed : ℕ
  pub accel : ℕ
  pub volume_ml : F
  pub cal_cache : Option (CalibrationData F)
  pub queue : List (MotorCommand F)

abbrev pub min_steps_threshold : ℕ
min_steps_threshold = 10

abbrev pub rinse_default_speed_ml_min : {F : Type 0} ⦃o : FloatOps F⦄ → F
rinse_default_speed_ml_min = lit 50 0

module _ {F : Type 0} where
  -- `compare_exchange_strong` from `Idle`, after the test of the settling valve.
  abbrev pub claim :
      BuretteState → Globals F → (Globals F → Globals F × Response) → Globals F × Response
  claim state g go =
      if g.valve_is_settling || not (is_idle g.burette_state)
      then (g, error_response burette_busy)
      else go (record g { burette_state = state })

  -- `sendMotorCommand`.
  abbrev pub enqueue : MotorCommand F → Globals F → Globals F
  enqueue cmd g = record g { queue = cmd ∷ g.queue }

  -- What follows a claim: the command is queued, or the claim is undone.
  abbrev pub send : Bool → MotorCommand F → Response → Globals F → Globals F × Response
  send accepts cmd response g =
      if accepts
      then (enqueue cmd g, response)
      else (record g { burette_state = idle }, error_response busy)

  -- A setting: it is stored, and the command queued, if the burette is idle.
  abbrev pub settle_setting : Bool → MotorCommand F → Globals F → Globals F → Globals F × Response
  settle_setting accepts cmd stored g =
      if g.valve_is_settling || not (is_idle g.burette_state)
      then (g, error_response burette_busy)
      else if accepts
      then (enqueue cmd stored, status_ok)
      else (stored, error_response busy)

  unfoldable pub handle_stop : Bool → Globals F → Globals F × Response
  handle_stop accepts g =
      if g.valve_is_settling
      then (g, error_response valve_settling_try_again)
      else claim stopping g (send accepts MotorCommand.stop stopped)

  unfoldable pub handle_emergency_stop : Bool → Globals F → Globals F × Response
  handle_emergency_stop accepts g =
      let g1 = record g {
        valve_timer_armed = false;
        valve_is_settling = false;
        burette_state = if is_idle g.burette_state then error else g.burette_state;
        stop_full = true;
      } in
      if accepts
      then (enqueue MotorCommand.emergency_stop g1, emergency_stopped)
      else (g1, error_response busy)

  unfoldable pub handle_move_steps : Bool → Option ℤ → Globals F → Globals F × Response
  handle_move_steps accepts none g = (g, error_response invalid_params)
  handle_move_steps accepts (some steps) g =
      claim dosing g (send accepts (MotorCommand.move_steps steps) ack_then)

  unfoldable pub handle_set_direction : Bool → Option Direction → Globals F → Globals F × Response
  handle_set_direction accepts none g = (g, error_response invalid_params)
  handle_set_direction accepts (some dir) g =
      settle_setting accepts (MotorCommand.set_direction dir) (record g { direction = dir }) g

  unfoldable pub handle_set_speed : Bool → Option ℕ → Globals F → Globals F × Response
  handle_set_speed accepts none g = (g, error_response invalid_params)
  handle_set_speed accepts (some speed_hz) g =
      settle_setting accepts (MotorCommand.set_speed speed_hz) (record g { speed = speed_hz }) g

  unfoldable pub handle_set_accel : Bool → Option ℕ → Globals F → Globals F × Response
  handle_set_accel accepts none g = (g, error_response invalid_params)
  handle_set_accel accepts (some accel_steps) g =
      settle_setting accepts (MotorCommand.set_accel accel_steps) (record g { accel = accel_steps })
        g

  unfoldable pub handle_move_continuous :
      Bool → Option Direction → Option ℕ → Globals F → Globals F × Response
  handle_move_continuous accepts (some dir) (some freq_hz) g =
      if freq_hz == 0
      then (g, error_response invalid_params)
      else claim dosing g (send accepts (MotorCommand.move_continuous dir freq_hz) ack_then)
  handle_move_continuous accepts dir freq_hz g = (g, error_response invalid_params)

module _ {F : Type 0} ⦃o : FloatOps F⦄ where
  -- Exact, where the source converts to `int32_t`: a product that does not fit has no defined value.
  abbrev steps_of : F → CalibrationData F → ℤ
  steps_of volume cal = o.lround (volume *f cal.steps_per_ml)

  -- The part of a handler that needs the calibration.
  abbrev with_cal :
      (CalibrationData F → Globals F → Globals F × Response) → Globals F → Globals F × Response
  with_cal go g = elim g.cal_cache [ none ↦ (g, error_response start_failed) | some cal ↦ go cal g ]

  unfoldable pub handle_fill : Bool → Globals F → Globals F × Response
  handle_fill accepts g = claim filling g (
      with_cal (λ cal g1.
        send accepts (MotorCommand.move_steps (steps_of cal.nominal_volume_ml cal)) ack_then
          (record g1 { direction = liq_in })))

  unfoldable pub handle_empty : Bool → Globals F → Globals F × Response
  handle_empty accepts g = claim emptying g (
      with_cal (λ cal g1.
        let steps = steps_of g1.volume_ml cal in
        let enough =
          if ltb_ℤ steps (pos min_steps_threshold)
          then steps_of cal.nominal_volume_ml cal
          else steps in
        send accepts (MotorCommand.move_steps enough) ack_then (record g1 { direction = liq_out })))

  -- The speed that the source puts into the command is read by no handler of a `MoveSteps`.
  unfoldable pub handle_dose_volume : Bool → Option F → Globals F → Globals F × Response
  handle_dose_volume accepts none g = (g, error_response invalid_params)
  handle_dose_volume accepts (some volume) g = claim dosing g (
      with_cal (λ cal g1.
        let plan = plan_dose volume g1.volume_ml cal in
        if not plan.valid
        then (g1, error_response invalid_params)
        else send accepts (MotorCommand.move_steps (steps_of plan.first_cycle_vol_ml cal)) ack_then
            (record g1 { direction = liq_in })))

  unfoldable pub handle_rinse : Bool → Option ℕ → Globals F → Globals F × Response
  handle_rinse accepts none g = (g, error_response invalid_params)
  handle_rinse accepts (some cycles) g =
      if cycles == 0
      then (g, error_response invalid_params)
      else claim rinsing g (
          with_cal (λ cal g1.
            send accepts (MotorCommand.start_rinse (u8 cycles) rinse_default_speed_ml_min) ack_then
              g1))

  abbrev pub freq_of : Option F → ℕ
  freq_of none = 0
  freq_of (some freq_hz) = if ltf (lit 0 0) freq_hz then u16 (pos_part (o.lround freq_hz)) else 0

  abbrev pub value_or_zero : Option F → F
  value_or_zero none = lit 0 0
  value_or_zero (some v) = v

  -- What `handleCalRun` does with its plan.
  unfoldable pub run_plan : Bool → CalRunPlan F → Globals F → Globals F × Response
  run_plan accepts plan g = elim plan.action [
    | CalRunAction.reject ↦ elim plan.reject_reason [
      | CalRunRejectReason.burette_busy ↦ (g, error_response burette_busy)
      | _ ↦ (g, error_response invalid_params)
    ]
    | CalRunAction.cal_dose ↦
        claim dosing g (send accepts (MotorCommand.start_cal_dose plan.speed_ml_min) ack_then)
    | CalRunAction.cal_speed ↦
        claim dosing g
          (send accepts (MotorCommand.start_cal_speed plan.speed_ml_min plan.freq_hz) ack_then)
  ]

  unfoldable pub handle_cal_run :
      Bool → Option (List ℕ) → Option F → Option F → Globals F → Globals F × Response
  handle_cal_run accepts none freq_hz speed g = (g, error_response invalid_params)
  handle_cal_run accepts (some mode) freq_hz speed g =
      if g.valve_is_settling
      then (g, error_response burette_busy)
      else with_cal
          (λ cal g1.
            run_plan accepts
              (plan_cal_run (some mode) (value_or_zero speed) (freq_of freq_hz)
                (o.of_ℤ (pos cal.max_freq_hz)) cal.speed_coeff (not (is_idle g1.burette_state)))
              g1)
          g
