-- ===== src/Application/Results.antt =====
-- components/application/src/response.cpp: the text in which a result of the motor task is sent.
-- `print2` stands for `%.2f` of a `float`. A text of 2,048 bytes or more is cut in the buffer, and the
-- main loop then does not send it.
use esp32_rs_on_idf.Common.{ℕ, List, ◌++◌, if◌then◌else◌}
use esp32_rs_on_idf.Common.Int.{ℤ, pos, ltb_ℤ}
use esp32_rs_on_idf.Common.Float.{FloatOps, lit, ◌/f◌}
use esp32_rs_on_idf.Common.Text.{codes, u64_text}
use esp32_rs_on_idf.Domain.Types.{Result, ok, unexpected}
use esp32_rs_on_idf.Domain.Calibration.{CalibrationData}
use esp32_rs_on_idf.Motor.Machine.{
  SmResult, plain, rinse_complete, cal_dose_complete, cal_speed_complete, cal_speed_seq_complete,
  error,
}
use esp32_rs_on_idf.Storage.Nvs.{NvsApi, FloatBits, ResourceError}
use esp32_rs_on_idf.Storage.Settings.{Memory, calibration_read}

abbrev pub ok_text : ℕ → List ℕ → List ℕ
ok_text result_id members =
    codes "{\"id\":"
    ++ u64_text result_id
    ++ codes ",\"status\":\"ok\",\"data\":{"
    ++ members
    ++ codes "}}"

abbrev pub start_failed_text : ℕ → List ℕ
start_failed_text result_id =
    codes "{\"id\":"
    ++ u64_text result_id
    ++ codes ",\"status\":\"error\",\"message\":\"start_failed\"}"

module _ {S H F : Type 0} ⦃o : FloatOps F⦄ (api : NvsApi S H) (bits : FloatBits F)
    (print2 : F → List ℕ) where
  abbrev vol_dispensed : ℤ → Result (CalibrationData F) ResourceError → F
  vol_dispensed steps_taken (ok cal) = o.of_ℤ steps_taken /f cal.steps_per_ml
  vol_dispensed steps_taken (unexpected e) = lit 0 0

  -- The calibration is read, and put into the cache.
  unfoldable pub volume_result : ℕ → ℤ → Memory S F → Memory S F × List ℕ
  volume_result result_id steps_taken m =
      let (m', cal) = calibration_read api bits m in
      (
        m',
        ok_text result_id
            (codes "\"volume_dispensed_ml\":" ++ print2 (vol_dispensed steps_taken cal)),
      )

  unfoldable pub format_sm_result : ℕ → SmResult F → Memory S F → Memory S F × List ℕ
  format_sm_result result_id r m = elim r.type [
    | plain ↦
        if ltb_ℤ (pos 0) r.steps_taken
        then volume_result result_id r.steps_taken m
        else (m, ok_text result_id (codes "\"status\":\"complete\""))
    | rinse_complete ↦ (m, ok_text result_id (codes "\"cycles_completed\":1"))
    | cal_dose_complete ↦ volume_result result_id r.steps_taken m
    | cal_speed_complete ↦
        (m, ok_text result_id (codes "\"speed_ml_min\":" ++ print2 r.measured_speed_ml_min))
    | cal_speed_seq_complete ↦ (m, ok_text result_id (codes "\"status\":\"complete\""))
    | error ↦ (m, start_failed_text result_id)
  ]
