-- ===== src/Domain/Calibration/Bounds.antt =====
-- What holds of the conversions and of the tracked volume whatever the floats are.
use esp32_rs_on_idf.Common.{◌≤◌, ◌≡◌, false, arith}
use esp32_rs_on_idf.Common.Int.{ℤ}
use esp32_rs_on_idf.Common.Float.{FloatOps, ltf, lit}
use esp32_rs_on_idf.Domain.Calibration.{
  CalibrationData, VolumeTracker, speed_ml_min_to_hz, on_dose_complete, on_stop_during_fill,
  on_stop_during_empty,
}

module _ {F : Type 0} ⦃o : FloatOps F⦄ where
  -- Whatever the speed, also if it is negative or not a number, the frequency lies in the range of
  -- the calibration.
  pub speed_ml_min_to_hz_bounds :
      (speed : F) (cal : CalibrationData F)
      → cal.min_freq_hz ≤ cal.max_freq_hz
      → (cal.min_freq_hz ≤ speed_ml_min_to_hz speed cal)
        × (speed_ml_min_to_hz speed cal ≤ cal.max_freq_hz)
  unfolding speed_ml_min_to_hz
  speed_ml_min_to_hz_bounds speed cal h = ground arith

  -- If no float is below itself, which holds of NaN too, a dose and a stopped emptying never leave a
  -- volume below zero, and a stopped filling never leaves one above the nominal volume.
  pub volume_tracker_bounds :
      (irreflexive : (x : F) → ltf x x ≡ false) (t : VolumeTracker F) (cal : CalibrationData F)
      (start v : F) (steps : ℤ)
      → (ltf (on_dose_complete t v).current_volume_ml (lit 0 0) ≡ false)
        × (ltf (on_stop_during_empty t start steps cal).current_volume_ml (lit 0 0) ≡ false)
        × (ltf cal.nominal_volume_ml (on_stop_during_fill t start steps cal).current_volume_ml
            ≡ false)
  unfolding on_dose_complete on_stop_during_empty on_stop_during_fill
  volume_tracker_bounds irreflexive t cal start v steps =
      ground (arith, irreflexive (lit 0 0), irreflexive cal.nominal_volume_ml)
