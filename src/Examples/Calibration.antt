-- ===== src/Examples/Calibration.antt =====
-- The theorems about the calibrations at concrete inputs, over the memory of Examples/Storage.
use esp32_rs_on_idf.Common.{ℕ, ◌+◌, ◌≡◌, refl, some, none, [], ◌∷◌, arith}
use esp32_rs_on_idf.Common.Int.{ℤ, pos, ◌+ℤ◌, ◌*ℤ◌, ◌-ℤ◌}
use esp32_rs_on_idf.Common.Float.{fixed_point, scale_down, fixed_div}
use esp32_rs_on_idf.Domain.Types.{ok}
use esp32_rs_on_idf.Domain.ZFactor.{get_z_factor, last_at_most, calculate_new_steps_per_ml}
use esp32_rs_on_idf.Storage.Nvs.{with_handle, get_f32, set_f32, set_u32, set_i32}
use esp32_rs_on_idf.Storage.Settings.{
  write_calibration, read_calibration, calibration_read, calibration_write,
}
use esp32_rs_on_idf.Storage.Survival.{boot, change_all}
use esp32_rs_on_idf.Application.BuretteCal.{
  calc_volume, handle_calc_volume, handle_save_calibration, handle_reset_calibration,
}
use esp32_rs_on_idf.Application.BuretteCal.Saved.{
  calc_volume_of, initial, nvs_store, handle_all, handle_calc_volume-saved,
  handle_reset_calibration-pending,
}
use esp32_rs_on_idf.Application.AdcCal.{handle_adc_cal_measure}
use esp32_rs_on_idf.Application.AdcCal
use esp32_rs_on_idf.Application.AdcCal.Points
use esp32_rs_on_idf.Application.AdcCal.Points.{
  Callbacks, IsFilled, Measured, measure, handle_all-IsFilled, handle_adc_cal_measure-Measured,
}
use esp32_rs_on_idf.Examples.Storage.{flash_api, flash_laws, bits, blank_memory}

abbrev constant : Callbacks ℕ ℤ ℤ
constant = record {
  read_sample = λ n. (n + 1, 700);
  read = λ n. (n, (1000, pos 0));
  write = λ a b n. (n, ok tt);
  to_double = λ x. x;
  sqrt = λ x. x;
}

handle_all-IsFilled_example :
    IsFilled
      (AdcCal.Points.handle_all ⦃o = fixed_point⦄ ⦃d = fixed_point⦄ constant
        (measure (some (pos 0)) ∷ [])
        (AdcCal.initial ⦃o = fixed_point⦄, 0)).0
handle_all-IsFilled_example =
    handle_all-IsFilled ⦃o = fixed_point⦄ ⦃d = fixed_point⦄ constant (measure (some (pos 0)) ∷ [])
      (AdcCal.initial ⦃o = fixed_point⦄) 0
      (record {
        size = refl;
        within = omega arith;
        flags = (refl, (refl, (refl, (refl, (refl, tt)))));
        small_a = omega arith;
        small_b = refl;
      })

handle_adc_cal_measure-Measured_example :
    Measured
      (λ n. (n + 1, 700))
      (pos 0)
      (AdcCal.initial ⦃o = fixed_point⦄)
      0
      (handle_adc_cal_measure ⦃o = fixed_point⦄ {D = ℤ}
        (λ n. (n + 1, 700))
        (some (pos 0))
        (AdcCal.initial ⦃o = fixed_point⦄, 0))
handle_adc_cal_measure-Measured_example =
    handle_adc_cal_measure-Measured {D = ℤ} ⦃o = fixed_point⦄ (λ n. (n + 1, 700)) (pos 0)
      (AdcCal.initial ⦃o = fixed_point⦄) 0

-- The same volume, which makes 7,642.1 steps per millilitre.
handle_calc_volume-saved_example :
    let store = nvs_store flash_api ⦃o = fixed_point⦄ bits in
    let st = handle_all ⦃o = fixed_point⦄ store [] (initial ⦃o = fixed_point⦄ blank_memory) in
    let n =
      (handle_save_calibration ⦃o = fixed_point⦄ store none none
        (handle_calc_volume ⦃o = fixed_point⦄ store (some (pos 8_200_000)) none none st).0).0 in
    (calibration_read flash_api ⦃o = fixed_point⦄ bits
      (change_all ⦃o = fixed_point⦄ flash_api bits (boot ∷ []) n.outside)).1
    ≡ ok (record st.pending { steps_per_ml = pos 7_642_106_388; nominal_volume_ml = pos 8_233_620 })
unfolding handle_save_calibration calibration_write with_handle write_calibration set_f32 set_u32
    set_i32 handle_calc_volume calc_volume get_z_factor fixed_point calibration_read ◌+ℤ◌ ◌*ℤ◌ ◌-ℤ◌
    calculate_new_steps_per_ml last_at_most scale_down fixed_div read_calibration get_f32 handle_all
handle_calc_volume-saved_example =
    handle_calc_volume-saved flash_laws ⦃o = fixed_point⦄ bits [] blank_memory (boot ∷ [])
      (some (pos 8_200_000)) none none (pos 1_004_100) (pos 8_233_620) (pos 7_642_106_388)
      (pos 1_150_100) refl refl

handle_reset_calibration-pending_example :
    let store = nvs_store flash_api ⦃o = fixed_point⦄ bits in
    let st =
      handle_all ⦃o = fixed_point⦄ store
        (calc_volume_of (some (pos 8_200_000)) none none ∷ [])
        (initial ⦃o = fixed_point⦄ blank_memory) in
    let n =
      (handle_save_calibration ⦃o = fixed_point⦄ store none none
        (handle_reset_calibration ⦃o = fixed_point⦄ store st).0).0 in
    (calibration_read flash_api ⦃o = fixed_point⦄ bits
      (change_all ⦃o = fixed_point⦄ flash_api bits [] n.outside)).1
    ≡ ok st.pending
unfolding handle_save_calibration calibration_write with_handle write_calibration set_f32 set_u32
    set_i32
handle_reset_calibration-pending_example =
    handle_reset_calibration-pending flash_laws ⦃o = fixed_point⦄ bits
      (calc_volume_of (some (pos 8_200_000)) none none ∷ []) blank_memory [] refl
