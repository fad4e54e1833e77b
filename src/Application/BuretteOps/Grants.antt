-- ===== src/Application/BuretteOps/Grants.antt =====
-- What a request that is granted has done, and what becomes of the next one.
use esp32_rs_on_idf.Common.{◌≡◌, ◌∙◌, Bool, true, false, none, some, List, [], ◌∷◌, drop, arith}
use esp32_rs_on_idf.Common.Float.{FloatOps}
use esp32_rs_on_idf.Domain.Types.{is_idle}
use esp32_rs_on_idf.Domain.CalRun.{CalRunPlan}
use esp32_rs_on_idf.Application.BuretteOps.{
  Response, error_response, status_ok, Globals, start_failed, handle_fill, handle_empty,
  handle_dose_volume, handle_rinse, handle_cal_run, run_plan, handle_stop, handle_emergency_stop,
  handle_move_steps, handle_set_direction, handle_set_speed, handle_set_accel,
  handle_move_continuous,
}
use esp32_rs_on_idf.Application.BuretteCal.{handle_run_calibration}
use esp32_rs_on_idf.Application.BuretteOps.Claims.{
  Request, fill, empty, stop, dose_volume, rinse, cal_run, move_steps, set_direction, set_speed,
  set_accel, move_continuous, run_calibration, is_refusal, choose, cached, handle, handle_busy,
}

abbrev pub is_setting : Response → Bool
is_setting status_ok = true
is_setting _ = false

abbrev pub has_command : {A : Type 0} → List A → Bool
has_command [] = false
has_command (x ∷ xs) = true

-- The request found the burette idle, put one command in front of the motor's queue, and claimed
-- the burette unless it was a setting.
pub record Granted {F : Type 0} (setting : Bool) (g n : Globals F) : Type 0 where
  pub queued : has_command n.queue ≡ true
  pub rest : drop 1 n.queue ≡ g.queue
  pub was_idle : is_idle g.burette_state ≡ true
  pub claimed : is_idle n.burette_state ≡ setting

module _ {F : Type 0} ⦃o : FloatOps F⦄ where
  run_plan-Granted :
      (accepts : Bool) (plan : CalRunPlan F) (g : Globals F)
      → is_refusal (run_plan accepts plan g).1 ≡ false
      → Granted (is_setting (run_plan accepts plan g).1) g (run_plan accepts plan g).0
  unfolding run_plan
  run_plan-Granted accepts plan g h = ground arith

  -- A request other than the emergency stop that is not refused found the burette idle, has put
  -- exactly one command into the motor's queue, and has claimed the burette unless it was a setting.
  pub handle-Granted :
      (accepts : Bool) (request : Request F) (g : Globals F)
      → is_refusal (handle accepts request g).1 ≡ false
      → Granted (is_setting (handle accepts request g).1) g (handle accepts request g).0
  unfolding handle handle_fill handle_empty handle_stop handle_dose_volume handle_rinse
      handle_cal_run handle_move_steps handle_set_direction handle_set_speed handle_set_accel
      handle_move_continuous handle_run_calibration
  handle-Granted accepts fill g h = ground arith
  handle-Granted accepts empty g h = ground arith
  handle-Granted accepts stop g h = ground arith
  handle-Granted accepts (dose_volume none) g h = ground arith
  handle-Granted accepts (dose_volume (some v)) g h = ground arith
  handle-Granted accepts (rinse none) g h = ground arith
  handle-Granted accepts (rinse (some n)) g h = ground arith
  handle-Granted accepts (cal_run none freq speed) g h = ground arith
  handle-Granted accepts (cal_run (some mode) freq speed) g h =
      let P =
        λ (x : Globals F × Response). is_refusal x.1 ≡ false → Granted (is_setting x.1) g x.0 in
      choose P g.valve_is_settling _ _ (λ h. cc)
        (λ free. cached P g.cal_cache _ _ (λ h. cc) (λ cal h. run_plan-Granted accepts _ g h)) h
  handle-Granted accepts (move_steps none) g h = ground arith
  handle-Granted accepts (move_steps (some n)) g h = ground arith
  handle-Granted accepts (set_direction none) g h = ground arith
  handle-Granted accepts (set_direction (some d)) g h = ground arith
  handle-Granted accepts (set_speed none) g h = ground arith
  handle-Granted accepts (set_speed (some n)) g h = ground arith
  handle-Granted accepts (set_accel none) g h = ground arith
  handle-Granted accepts (set_accel (some n)) g h = ground arith
  handle-Granted accepts (move_continuous none freq) g h = ground arith
  handle-Granted accepts (move_continuous (some d) none) g h = ground arith
  handle-Granted accepts (move_continuous (some d) (some n)) g h = ground arith
  handle-Granted accepts (run_calibration freqs speed) g h = ground arith

  fill_keeps_claim :
      (accepts : Bool) (g : Globals F)
      → is_idle g.burette_state ≡ true
      → g.valve_is_settling ≡ false
      → g.cal_cache ≡ none
      → ((handle accepts fill g).1 ≡ error_response start_failed)
        × (is_idle (handle accepts fill g).0.burette_state ≡ false)
  unfolding handle handle_fill
  fill_keeps_claim accepts g free settled blank = ground (arith, free, settled, blank)

  -- Without a calibration in the cache, a fill that finds the burette idle and no valve settling is
  -- refused with `start_failed`, but it keeps its claim: it leaves a burette that is not idle, and
  -- every later request but the emergency stop is refused and changes nothing.
  pub fill_without_calibration :
      (accepts accepts_later : Bool) (request : Request F) (g : Globals F)
      → is_idle g.burette_state ≡ true
      → g.valve_is_settling ≡ false
      → g.cal_cache ≡ none
      → let (n, response) = handle accepts fill g in
        (response ≡ error_response start_failed)
        × ((handle accepts_later request n).0 ≡ n)
        × (is_refusal (handle accepts_later request n).1 ≡ true)
  fill_without_calibration accepts accepts_later request g free settled blank =
      let (e, busy_now) = fill_keeps_claim accepts g free settled blank in
      let (same, no_grant) = handle_busy accepts_later request (handle accepts fill g).0 busy_now in
      (e, same, no_grant)

  -- Two requests in a row are not both granted, if the first is not a setting.
  pub second_request_refused :
      (accepts accepts_later : Bool) (first second : Request F) (g : Globals F)
      → is_refusal (handle accepts first g).1 ≡ false
      → is_setting (handle accepts first g).1 ≡ false
      → is_refusal (handle accepts_later second (handle accepts first g).0).1 ≡ true
  second_request_refused accepts accepts_later first second g granted motion =
      let v = handle-Granted accepts first g granted in
      (handle_busy accepts_later second (handle accepts first g).0 (v.claimed ∙ motion)).1

  emergency_stop_claims :
      (accepts : Bool) (g : Globals F)
      → let n = (handle_emergency_stop accepts g).0 in
        (is_idle n.burette_state ≡ false)
        × (n.stop_full ≡ true)
        × (n.valve_is_settling ≡ false)
        × (n.valve_timer_armed ≡ false)
  unfolding handle_emergency_stop
  emergency_stop_claims accepts g = ground arith

  -- The emergency stop, in every state and also if the motor's queue is full, sets the stop flag of
  -- the full switch and ends the settling of the valve, and the request after it is refused and
  -- changes nothing.
  pub handle_emergency_stop_blocks :
      (accepts accepts_later : Bool) (request : Request F) (g : Globals F)
      → let n = (handle_emergency_stop accepts g).0 in
        (n.stop_full ≡ true)
        × (n.valve_is_settling ≡ false)
        × (n.valve_timer_armed ≡ false)
        × ((handle accepts_later request n).0 ≡ n)
        × (is_refusal (handle accepts_later request n).1 ≡ true)
  handle_emergency_stop_blocks accepts accepts_later request g =
      let (claimed, flag, settled, disarmed) = emergency_stop_claims accepts g in
      let (same, no_grant) =
        handle_busy accepts_later request (handle_emergency_stop accepts g).0 claimed in
      (flag, settled, disarmed, same, no_grant)
