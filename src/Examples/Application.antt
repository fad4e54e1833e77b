-- ===== src/Examples/Application.antt =====
-- The theorems about the burette's handlers at one state of the globals.
use esp32_rs_on_idf.Common.{◌≡◌, refl, true, false, none, some, []}
use esp32_rs_on_idf.Common.Int.{ℤ, pos}
use esp32_rs_on_idf.Common.Float.{fixed_point}
use esp32_rs_on_idf.Domain.Types.{liq_in, idle, filling}
use esp32_rs_on_idf.Domain.Calibration.{CalibrationData}
use esp32_rs_on_idf.Application.BuretteOps.{
  Globals, error_response, start_failed, handle_move_steps,
}
use esp32_rs_on_idf.Application.BuretteOps.Claims.{fill, stop, move_steps, is_refusal, handle}
use esp32_rs_on_idf.Application.BuretteOps.Grants.{
  Granted, handle-Granted, fill_without_calibration,
}

abbrev calibration : CalibrationData ℤ
calibration = record {
  steps_per_ml = pos 7_730_000_000;
  nominal_volume_ml = pos 50_000_000;
  speed_coeff = pos 30_520;
  min_freq_hz = 30;
  max_freq_hz = 3000;
}

abbrev pub ready : Globals ℤ
ready = record {
  burette_state = idle;
  valve_is_settling = false;
  valve_timer_armed = false;
  stop_full = false;
  direction = liq_in;
  speed = 1000;
  accel = 500;
  volume_ml = pos 50_000_000;
  cal_cache = some calibration;
  queue = [];
}

abbrev blank : Globals ℤ
blank = record ready { cal_cache = none }

abbrev pub running : Globals ℤ
running = record ready { burette_state = filling }

handle-Granted_example :
    Granted false ready (handle ⦃o = fixed_point⦄ true (move_steps (some (pos 300))) ready).0
unfolding handle handle_move_steps
handle-Granted_example =
    handle-Granted ⦃o = fixed_point⦄ true (move_steps (some (pos 300))) ready refl

fill_without_calibration_example :
    let (n, response) = handle ⦃o = fixed_point⦄ true fill blank in
    (response ≡ error_response start_failed)
    × ((handle ⦃o = fixed_point⦄ true stop n).0 ≡ n)
    × (is_refusal (handle ⦃o = fixed_point⦄ true stop n).1 ≡ true)
fill_without_calibration_example =
    fill_without_calibration ⦃o = fixed_point⦄ true true stop blank refl refl refl
