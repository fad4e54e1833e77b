-- ===== src/Domain/Calibration.antt =====
-- components/domain/include/domain/calibration.hpp. A float whose conversion to an integer type would
-- be undefined is reduced modulo 2 ^ 32.
pub mod Bounds
use esp32_rs_on_idf.Common.{ℕ, ◌+◌, ◌-◌, Bool, true, false, ◌||◌, if◌then◌else◌, ltb, u32}
use esp32_rs_on_idf.Common.Int.{ℤ, pos, pos_part}
use esp32_rs_on_idf.Common.Float.{FloatOps, ltf, lit, ◌+f◌, ◌-f◌, ◌*f◌, ◌/f◌}

pub record CalibrationData (F : Type 0) : Type 0 where
  pub steps_per_ml : F
  pub nominal_volume_ml : F
  pub speed_coeff : F
  pub min_freq_hz : ℕ
  pub max_freq_hz : ℕ

pub record AdcCalibration (F : Type 0) : Type 0 where
  pub a : F
  pub b : F

pub record DosePlan (F : Type 0) : Type 0 where
  pub total_cycles : ℕ
  pub first_cycle_vol_ml : F
  pub remaining_vol_ml : F
  pub single_cycle : Bool
  pub needs_fill_first : Bool
  pub valid : Bool

pub record VolumeTracker (F : Type 0) : Type 0 where
  pub current_volume_ml : F

abbrev pub default_min_freq_hz : ℕ
default_min_freq_hz = 30

abbrev pub default_max_freq_hz : ℕ
default_max_freq_hz = 3000

module _ {F : Type 0} ⦃o : FloatOps F⦄ where
  abbrev pub default_steps_per_ml : F
  default_steps_per_ml = lit 7730 0

  abbrev pub default_speed_coeff : F
  default_speed_coeff = lit 3052 5

  abbrev pub to_u32 : F → ℕ
  to_u32 x = u32 (pos_part (o.trunc x))

  unfoldable pub adc_to_mv : ℕ → AdcCalibration F → F
  adc_to_mv raw cal = o.of_ℤ (pos raw) *f cal.a +f cal.b

  unfoldable pub ml_to_steps : F → CalibrationData F → ℤ
  ml_to_steps volume cal = o.trunc (volume *f cal.steps_per_ml)

  unfoldable pub steps_to_ml : ℤ → CalibrationData F → F
  steps_to_ml steps cal = o.of_ℤ steps /f cal.steps_per_ml

  clamp_freq : CalibrationData F → ℕ → ℕ
  clamp_freq cal freq =
      let f = if ltb freq cal.min_freq_hz then cal.min_freq_hz else freq in
      if ltb cal.max_freq_hz f then cal.max_freq_hz else f

  unfoldable pub speed_ml_min_to_hz : F → CalibrationData F → ℕ
  unfolding clamp_freq
  speed_ml_min_to_hz speed_ml_min cal =
      if ltf cal.speed_coeff (lit 1 6)
      then cal.min_freq_hz
      else clamp_freq cal (to_u32 (speed_ml_min /f cal.speed_coeff +f lit 5 1))

  -- A plan that is refused: every field is zero.
  abbrev pub no_plan : DosePlan F
  no_plan = record {
    total_cycles = 0;
    first_cycle_vol_ml = lit 0 0;
    remaining_vol_ml = lit 0 0;
    single_cycle = false;
    needs_fill_first = false;
    valid = false;
  }

  -- The cycles of a dose above the nominal volume: `fmod` leaves a rest, or (almost) none.
  several_cycles : F → CalibrationData F → ℕ × F
  several_cycles volume_ml cal =
      let rest = o.fmod volume_ml cal.nominal_volume_ml in
      let cycles = u32 (to_u32 (volume_ml /f cal.nominal_volume_ml) + 1) in
      if ltf rest (lit 1 2)
      then (to_u32 (volume_ml /f cal.nominal_volume_ml +f lit 999_999 6), cal.nominal_volume_ml)
      else (if ltb 1 cycles then cycles - 1 else cycles, rest)

  plan_several : F → F → CalibrationData F → DosePlan F
  unfolding several_cycles
  plan_several volume_ml current_volume_ml cal =
      let (cycles, rest) = several_cycles volume_ml cal in
      record {
        total_cycles = cycles;
        first_cycle_vol_ml = cal.nominal_volume_ml;
        remaining_vol_ml = rest;
        single_cycle = false;
        needs_fill_first = ltf current_volume_ml (cal.nominal_volume_ml -f lit 1 3);
        valid = true;
      }

  plan_single : F → F → DosePlan F
  plan_single volume_ml current_volume_ml = record {
    total_cycles = 1;
    first_cycle_vol_ml = volume_ml;
    remaining_vol_ml = lit 0 0;
    single_cycle = true;
    needs_fill_first = ltf current_volume_ml (volume_ml -f lit 1 3);
    valid = true;
  }

  unfoldable pub plan_dose : F → F → CalibrationData F → DosePlan F
  unfolding plan_several plan_single
  plan_dose volume_ml current_volume_ml cal =
      if ltf volume_ml (lit 1 2) || ltf (lit 50 0) volume_ml || ltf cal.nominal_volume_ml (lit 1 3)
      then no_plan
      else if ltf (cal.nominal_volume_ml +f lit 1 3) volume_ml
      then plan_several volume_ml current_volume_ml cal
      else plan_single volume_ml current_volume_ml

  abbrev at_least_zero : F → F
  at_least_zero v = if ltf v (lit 0 0) then lit 0 0 else v

  abbrev at_most : F → F → F
  at_most limit v = if ltf limit v then limit else v

  unfoldable pub on_fill_complete : VolumeTracker F → CalibrationData F → VolumeTracker F
  on_fill_complete t cal = record { current_volume_ml = cal.nominal_volume_ml }

  unfoldable pub on_empty_complete : VolumeTracker F → VolumeTracker F
  on_empty_complete t = record { current_volume_ml = lit 0 0 }

  unfoldable pub on_dose_complete : VolumeTracker F → F → VolumeTracker F
  on_dose_complete t dispensed_vol_ml = record {
    current_volume_ml = at_least_zero (t.current_volume_ml -f dispensed_vol_ml);
  }

  unfoldable pub on_stop_during_fill : VolumeTracker F → F → ℤ → CalibrationData F → VolumeTracker F
  on_stop_during_fill t start_vol_ml steps_taken cal = record {
    current_volume_ml =
        at_most cal.nominal_volume_ml (start_vol_ml +f o.of_ℤ steps_taken /f cal.steps_per_ml);
  }

  unfoldable pub on_stop_during_empty :
      VolumeTracker F → F → ℤ → CalibrationData F → VolumeTracker F
  on_stop_during_empty t start_vol_ml steps_taken cal = record {
    current_volume_ml = at_least_zero (start_vol_ml -f o.of_ℤ steps_taken /f cal.steps_per_ml);
  }

  unfoldable pub on_homing_complete : VolumeTracker F → CalibrationData F → VolumeTracker F
  on_homing_complete t cal = record { current_volume_ml = cal.nominal_volume_ml }
