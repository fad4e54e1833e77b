-- ===== src/Application/BuretteCal.antt =====
-- components/application/src/handlers/burette_cal.cpp: the handlers of the calibration. The callbacks
-- `ReadCalCb` and `WriteCalCb` are a record, `CalStore`; a response stands for its bytes. The
-- handlers share `gPendingCal`, what has been computed and is not saved.
pub mod Saved
use esp32_rs_on_idf.Common.{
  ℕ, ◌-◌, zero, suc, Bool, true, false, ◌||◌, if◌then◌else◌, ltb, u16, Option, none, some, List, [],
  ◌∷◌, length, take, map, ◌++◌, replicate,
}
use esp32_rs_on_idf.Common.Int.{ℤ, pos_part}
use esp32_rs_on_idf.Common.Float.{FloatOps, lit, ltf, lef, ◌-f◌, ◌*f◌, ◌/f◌}
use esp32_rs_on_idf.Domain.Types.{dosing, idle, Result, ok, unexpected}
use esp32_rs_on_idf.Domain.Calibration.{
  CalibrationData, default_steps_per_ml, default_speed_coeff, default_min_freq_hz,
  default_max_freq_hz,
}
use esp32_rs_on_idf.Domain.Ols.{calculate_speed_calibration}
use esp32_rs_on_idf.Domain.ZFactor.{get_z_factor, calculate_new_steps_per_ml}
use esp32_rs_on_idf.Storage.Nvs.{Action}
use esp32_rs_on_idf.Storage.Settings.{default_nominal_volume_ml}
use esp32_rs_on_idf.Motor.Machine.{
  SmResult, plain, rinse_complete, cal_dose_complete, cal_speed_complete, cal_speed_seq_complete,
}
use esp32_rs_on_idf.Motor.Controller.{peek_result}
use esp32_rs_on_idf.Motor.Task.{MotorCommand}
use esp32_rs_on_idf.Application.BuretteOps.{
  Response, error_response, ack_then, invalid_params, start_failed, Globals, claim, enqueue,
  freq_of,
}

pub record CalStore (W F : Type 0) : Type 0 where
  pub read_cal : Action W (CalibrationData F)
  pub write_cal : CalibrationData F → Action W Unit

-- "resultType" with what follows it.
pub data RunResult (F : Type 0) : Type 0 where
  rinse failed : RunResult F
  cal_dose : ℤ → RunResult F
  cal_speed : F → RunResult F
  cal_speed_seq : List F → RunResult F

pub data CalResponse (F : Type 0) : Type 0 where
  refused_params refused_start no_result : CalResponse F
  calibration : CalibrationData F → CalResponse F
  volume : (z actual_vol new_spm rel_error : F) → CalResponse F
  speed : (k r_squared : F) → (min_freq max_freq : ℕ) → CalResponse F
  saved : (steps_per_ml nominal_volume : F) → CalResponse F
  run_result : RunResult F → CalResponse F

-- `gPendingCal`, and what the callbacks read and write.
pub record CalState (W F : Type 0) : Type 0 where
  pub pending : CalibrationData F
  pub outside : W

abbrev pub max_cal_seq_points : ℕ
max_cal_seq_points = 3

module _ {F : Type 0} ⦃o : FloatOps F⦄ where
  -- The factory calibration, which `gPendingCal` starts with.
  abbrev pub defaults : CalibrationData F
  defaults = record {
    steps_per_ml = default_steps_per_ml;
    nominal_volume_ml = default_nominal_volume_ml;
    speed_coeff = default_speed_coeff;
    min_freq_hz = default_min_freq_hz;
    max_freq_hz = default_max_freq_hz;
  }

  abbrev pub or_else : Option F → F → F
  or_else none d = d
  or_else (some x) d = x

  -- What follows the reading of the calibration.
  unfoldable pub calc_volume :
      {W : Type 0} → F → F → F → CalibrationData F → CalState W F → CalState W F × CalResponse F
  calc_volume mass_g temp press cal st =
      let z = get_z_factor temp press in
      let actual_vol = mass_g *f z in
      let new_spm = calculate_new_steps_per_ml cal.steps_per_ml cal.nominal_volume_ml actual_vol in
      let rel_error = (actual_vol -f cal.nominal_volume_ml) /f cal.nominal_volume_ml *f lit 100 0 in
      (
        record st {
          pending = record st.pending { steps_per_ml = new_spm; nominal_volume_ml = actual_vol };
        },
        volume z actual_vol new_spm rel_error,
      )

  unfoldable pub calc_speed :
      {W : Type 0} → List (F × F) → CalibrationData F → CalState W F → CalState W F × CalResponse F
  calc_speed measurements cal st =
      let result = calculate_speed_calibration measurements in
      (
        record st { pending = record st.pending { speed_coeff = result.k } },
        speed result.k result.r_squared cal.min_freq_hz cal.max_freq_hz,
      )

  -- The pending calibration, with what the command says of it.
  abbrev pub overridden : Option F → Option F → CalibrationData F → CalibrationData F
  overridden steps_per_ml nom_volume cal = record cal {
    steps_per_ml = or_else steps_per_ml cal.steps_per_ml;
    nominal_volume_ml = or_else nom_volume cal.nominal_volume_ml;
  }

  module _ {W : Type 0} (store : CalStore W F) where
    unfoldable pub handle_get_calibration : W → W × CalResponse F
    handle_get_calibration w =
        let (w1, r) = store.read_cal w in
        elim r [ ok cal ↦ (w1, calibration cal) | unexpected e ↦ (w1, refused_start) ]

    unfoldable pub handle_calc_volume :
        Option F → Option F → Option F → CalState W F → CalState W F × CalResponse F
    handle_calc_volume none temperature pressure st = (st, refused_params)
    handle_calc_volume (some mass_g) temperature pressure st =
        if lef mass_g (lit 0 0)
        then (st, refused_params)
        else let (w1, r) = store.read_cal st.outside in
          elim r [
            | ok cal ↦
                calc_volume mass_g (or_else temperature (lit 25 0)) (or_else pressure (lit 1013 1))
                  cal (record st { outside = w1 })
            | unexpected e ↦ (record st { outside = w1 }, refused_start)
          ]

    -- The arrays are one list of pairs.
    unfoldable pub handle_calc_speed : List (F × F) → CalState W F → CalState W F × CalResponse F
    handle_calc_speed measurements st =
        if ltb (length measurements) 2
        then (st, refused_params)
        else let (w1, r) = store.read_cal st.outside in
          elim r [
            | ok cal ↦ calc_speed measurements cal (record st { outside = w1 })
            | unexpected e ↦ (record st { outside = w1 }, refused_start)
          ]

    unfoldable pub handle_save_calibration :
        Option F → Option F → CalState W F → CalState W F × CalResponse F
    handle_save_calibration steps_per_ml nom_volume st =
        let cal = overridden steps_per_ml nom_volume st.pending in
        let (w1, r) = store.write_cal cal st.outside in
        elim r [
          | ok _ ↦
              (record { pending = cal; outside = w1 }, saved cal.steps_per_ml cal.nominal_volume_ml)
          | unexpected e ↦ (record st { outside = w1 }, refused_start)
        ]

    unfoldable pub handle_reset_calibration : CalState W F → CalState W F × CalResponse F
    handle_reset_calibration st =
        let (w1, r) = store.write_cal defaults st.outside in
        elim r [
          | ok _ ↦
              (record st { outside = w1 }, saved default_steps_per_ml default_nominal_volume_ml)
          | unexpected e ↦ (record st { outside = w1 }, refused_start)
        ]

  abbrev pub fill_default_speed_ml_min : F
  fill_default_speed_ml_min = lit 20 0

  -- The three entries of the command; those without a frequency are zero.
  abbrev pub seq_freqs : List F → List ℕ
  seq_freqs freqs =
      let first = take max_cal_seq_points freqs in
      map (λ f. freq_of (some f)) first ++ replicate (max_cal_seq_points - length first) 0

  unfoldable pub handle_run_calibration : Bool → List F → F → Globals F → Globals F × Response
  handle_run_calibration accepts freqs speed_ml_min g =
      let cmd =
        MotorCommand.start_cal_speed_seq (seq_freqs freqs)
          (if ltf (lit 0 0) speed_ml_min then speed_ml_min else fill_default_speed_ml_min) in
      if ltb (length freqs) 2
      then (g, error_response invalid_params)
      else claim dosing g (λ g1.
        if accepts
        then (enqueue cmd g1, ack_then)
        else (record g1 { burette_state = idle }, error_response start_failed))

-- The answer to a result that is there.
unfoldable pub run_result_of : {F : Type 0} → SmResult F → CalResponse F
run_result_of r = elim r.type [
  | plain ↦ no_result
  | rinse_complete ↦ run_result rinse
  | cal_dose_complete ↦ run_result (cal_dose r.steps_taken)
  | cal_speed_complete ↦ run_result (cal_speed r.measured_speed_ml_min)
  | cal_speed_seq_complete ↦
      run_result (cal_speed_seq (take r.result_count (take max_cal_seq_points r.results)))
  | _ ↦ run_result failed
]

-- `none` for a controller that is not set; inside it, for a queue that does not exist.
unfoldable pub handle_get_cal_result :
    {F : Type 0} → Option (Option (List (SmResult F))) → CalResponse F
handle_get_cal_result none = refused_start
handle_get_cal_result (some queue) = elim (peek_result queue) [
  | none ↦ no_result
  | some r ↦ run_result_of r
]
