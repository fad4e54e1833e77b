-- ===== src/Domain/CalSpeed.antt =====
-- `CalSpeedSingleSm` of components/domain/include/domain/cal_speed_sm.hpp. Times are `uint32_t`
-- milliseconds and wrap.
use esp32_rs_on_idf.Common.{ℕ, Bool, true, false, not, if◌then◌else◌, ◌==◌, sub32}
use esp32_rs_on_idf.Common.Int.{pos}
use esp32_rs_on_idf.Common.Float.{FloatOps, ltf, lit, ◌-f◌, ◌/f◌}

pub data CalSpeedAction : Type 0 where
  fill_to_limit empty_to_limit complete error settle_valve : CalSpeedAction

pub data Phase : Type 0 where
  idle filling emptying done : Phase

pub record CalSpeedSingleSm (F : Type 0) : Type 0 where
  pub phase : Phase
  pub elapsed_ms : ℕ
  pub measured_speed_ml_min : F
  pub started : Bool

module _ {F : Type 0} ⦃o : FloatOps F⦄ where
  -- `start` overwrites every field.
  unfoldable pub start : CalSpeedSingleSm F
  start = record { phase = idle; elapsed_ms = 0; measured_speed_ml_min = lit 0 0; started = true }

  unfoldable pub on_start : CalSpeedSingleSm F → F → F → CalSpeedSingleSm F × CalSpeedAction
  on_start s current_volume_ml nominal_volume_ml =
      if not s.started
      then (s, error)
      else if ltf current_volume_ml (nominal_volume_ml -f lit 1 1)
      then (record s { phase = filling }, fill_to_limit)
      else (record s { phase = emptying }, empty_to_limit)

  unfoldable pub on_fill_complete : CalSpeedSingleSm F → ℕ → CalSpeedSingleSm F × CalSpeedAction
  on_fill_complete s now_ms = (record s { phase = emptying; elapsed_ms = now_ms }, empty_to_limit)

  -- A volume in millilitres over a time in milliseconds, in ml/min.
  abbrev pub speed_over : F → ℕ → F
  speed_over volume ms = volume /f (o.of_ℤ (pos ms) /f lit 60_000 0)

  unfoldable pub on_empty_complete :
      CalSpeedSingleSm F → ℕ → F → CalSpeedSingleSm F × CalSpeedAction
  on_empty_complete s now_ms nominal_volume_ml =
      let d = sub32 now_ms s.elapsed_ms in
      let diff = if d == 0 then 1 else d in
      (
        record s {
          elapsed_ms = diff;
          measured_speed_ml_min = speed_over nominal_volume_ml diff;
          phase = done;
          started = false;
        },
        complete,
      )
