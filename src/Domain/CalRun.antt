-- ===== src/Domain/CalRun.antt =====
-- components/domain/include/domain/cal_run_planner.hpp. A mode is its bytes; `none` is a null
-- mode; a float whose conversion to `uint16_t` would be undefined is reduced modulo 2 ^ 16.
use esp32_rs_on_idf.Common.{ℕ, Bool, not, ◌&&◌, if◌then◌else◌, ◌==◌, u16, Option, none, some, List}
use esp32_rs_on_idf.Common.Int.{pos, pos_part}
use esp32_rs_on_idf.Common.Text.{codes, same_text}
use esp32_rs_on_idf.Common.Float.{FloatOps, ltf, lit, ◌+f◌, ◌*f◌, ◌/f◌}

pub data CalRunAction : Type 0 where
  reject cal_dose cal_speed : CalRunAction

pub data CalRunRejectReason : Type 0 where
  no_reason invalid_mode burette_busy : CalRunRejectReason

pub record CalRunPlan (F : Type 0) : Type 0 where
  pub action : CalRunAction
  pub reject_reason : CalRunRejectReason
  pub freq_hz : ℕ
  pub speed_ml_min : F

module _ {F : Type 0} ⦃o : FloatOps F⦄ where
  abbrev pub min_cal_speed_ml_min : F
  min_cal_speed_ml_min = lit 15 0

  abbrev pub rejected : CalRunRejectReason → CalRunPlan F
  rejected why = record {
    action = reject;
    reject_reason = why;
    freq_hz = 0;
    speed_ml_min = lit 0 0;
  }

  plan_dose_run : ℕ → F → F → CalRunPlan F
  plan_dose_run freq_hz max_freq_hz speed_coeff =
      let cal_freq =
        if freq_hz == 0
        then u16 (pos_part (o.trunc (max_freq_hz /f lit 2 0 +f lit 5 1)))
        else freq_hz in
      let cal_speed = o.of_ℤ (pos cal_freq) *f speed_coeff in
      record {
        action = cal_dose;
        reject_reason = no_reason;
        freq_hz = cal_freq;
        speed_ml_min =
            if ltf cal_speed min_cal_speed_ml_min then min_cal_speed_ml_min else cal_speed;
      }

  plan_speed_run : F → ℕ → F → F → CalRunPlan F
  plan_speed_run speed_ml_min freq_hz max_freq_hz speed_coeff =
      if freq_hz == 0 then rejected invalid_mode else record {
        action = cal_speed;
        reject_reason = no_reason;
        freq_hz = freq_hz;
        speed_ml_min =
            if ltf speed_ml_min min_cal_speed_ml_min
            then max_freq_hz /f lit 2 0 *f speed_coeff
            else speed_ml_min;
      }

  plan_mode : List ℕ → F → ℕ → F → F → Bool → CalRunPlan F
  unfolding plan_dose_run plan_speed_run
  plan_mode mode speed_ml_min freq_hz max_freq_hz speed_coeff is_busy =
      if not (same_text mode (codes "dose")) && not (same_text mode (codes "speed"))
      then rejected invalid_mode
      else if is_busy
      then rejected burette_busy
      else if same_text mode (codes "dose")
      then plan_dose_run freq_hz max_freq_hz speed_coeff
      else plan_speed_run speed_ml_min freq_hz max_freq_hz speed_coeff

  unfoldable pub plan_cal_run : Option (List ℕ) → F → ℕ → F → F → Bool → CalRunPlan F
  unfolding plan_mode
  plan_cal_run none speed_ml_min freq_hz max_freq_hz speed_coeff is_busy = rejected invalid_mode
  plan_cal_run (some mode) speed_ml_min freq_hz max_freq_hz speed_coeff is_busy =
      plan_mode mode speed_ml_min freq_hz max_freq_hz speed_coeff is_busy
