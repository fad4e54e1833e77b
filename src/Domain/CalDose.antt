-- ===== src/Domain/CalDose.antt =====
-- components/domain/include/domain/cal_dose_sm.hpp. Positions are `int32_t`; a difference that
-- overflows is undefined in the source, and is the exact one here.
use esp32_rs_on_idf.Common.{Bool, true, false, not, if◌then◌else◌}
use esp32_rs_on_idf.Common.Int.{ℤ, pos, ltb_ℤ, ◌-ℤ◌}
use esp32_rs_on_idf.Common.Float.{FloatOps, ltf, lit, ◌-f◌}

pub data CalDoseAction : Type 0 where
  fill_to_limit empty_to_limit complete error : CalDoseAction

pub data Phase : Type 0 where
  idle filling emptying done : Phase

pub record CalDoseSm : Type 0 where
  pub phase : Phase
  pub steps_before : ℤ
  pub steps_taken : ℤ
  pub started : Bool

-- `start` overwrites every field.
unfoldable pub start : CalDoseSm
start = record { phase = idle; steps_before = pos 0; steps_taken = pos 0; started = true }

unfoldable pub on_start :
    {F : Type 0} ⦃o : FloatOps F⦄ → CalDoseSm → F → F → CalDoseSm × CalDoseAction
on_start s current_volume_ml nominal_volume_ml =
    if not s.started
    then (s, error)
    else if ltf current_volume_ml (nominal_volume_ml -f lit 1 1)
    then (record s { phase = filling }, fill_to_limit)
    else (record s { phase = emptying }, empty_to_limit)

unfoldable pub on_fill_complete : CalDoseSm → ℤ → CalDoseSm × CalDoseAction
on_fill_complete s position =
    (record s { steps_before = position; phase = emptying }, empty_to_limit)

unfoldable pub on_empty_complete : CalDoseSm → ℤ → CalDoseSm × CalDoseAction
on_empty_complete s position =
    let diff = position -ℤ s.steps_before in
    (
      record s {
        steps_taken = if ltb_ℤ (pos 0) diff then diff else pos 0 -ℤ diff;
        phase = done;
        started = false;
      },
      complete,
    )
