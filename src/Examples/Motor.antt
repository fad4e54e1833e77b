-- ===== src/Examples/Motor.antt =====
-- The theorems about the motor task at one machine: the full switch closes at every hundredth look
-- at the outside, and the empty switch too.
use esp32_rs_on_idf.Common.{
  if◌then◌else◌, ℕ, ◌+◌, ◌*◌, ◌/◌, ◌%◌, ◌≤◌, ◌<◌, replicate, ◌≡◌, refl, ◌↔◌, ◌⊎◌, Bool, true, false,
  ◌==◌, none, some, List, [], ◌∷◌, arith,
}
use esp32_rs_on_idf.Common.Int.{ℤ, pos, ◌-ℤ◌}
use esp32_rs_on_idf.Common.Float.{fixed_point}
use esp32_rs_on_idf.Domain.Types.{liq_in, input, idle, ok}
use esp32_rs_on_idf.Motor.Machine.{plain, stop_full, stop_empty, esp_ok, Env, Machine}
use esp32_rs_on_idf.Motor.Stepper.{symbol, Outcome, move_steps_intervals}
use esp32_rs_on_idf.Motor.Stepper.Progress.{symbol_durations}
use esp32_rs_on_idf.Motor.Stepper.Position.{Covers, move_steps_intervals-Covers}
use esp32_rs_on_idf.Motor.Motion.{ml_min_to_hz, move_fill, clamp_speed}
use esp32_rs_on_idf.Motor.Motion.Pulses.{Sends}
use esp32_rs_on_idf.Motor.Motion.Ends.{Recurs, move_fill_ends, move_empty_ends}
use esp32_rs_on_idf.Motor.Motion.Quiet.{Quiet, move_chunks-Arrives}
use esp32_rs_on_idf.Motor.Homing.{run_homing}
use esp32_rs_on_idf.Motor.Homing.Outcome.{Homed}
use esp32_rs_on_idf.Motor.Homing.Ends.{Ending, closes_at, over_at, run_homing_ends-Homed}
use esp32_rs_on_idf.Motor.Runners.Dosing.{Dosed, run_cal_dose_sm_ends}
use esp32_rs_on_idf.Motor.Runners.{run_cal_dose_sm, position_of, run_rinse_sm, plain_result}
use esp32_rs_on_idf.Motor.Runners.Rinsing.{Rinsed, run_rinse_sm_ends, run_rinse_sm_never_ends}
use esp32_rs_on_idf.Motor.Task.{handle_move_steps, handle_emergency_stop, step, move_steps}
use esp32_rs_on_idf.Motor.Task.Steps.{
  Reported, handle_move_steps-Reported, handle_move_steps_arrives, emergency_stop-move_steps,
}

abbrev pub at_rest : Machine ℤ
at_rest = record {
  position = 40;
  dir_pin = 0;
  en_pin = 0;
  valve_pin = [];
  sent = [];
  valve_driver = input;
  burette_state = idle;
  valve_position = input;
  direction = liq_in;
  speed = 1000;
  accel = 100;
  volume_ml = pos 50_000_000;
  full_flag = false;
  empty_flag = false;
  stall_guard_threshold = 0;
  valve_is_settling = false;
  valve_timer_armed = false;
  homing_done = false;
  result = none;
  broadcasts = [];
  clock = 0;
}

abbrev pub closes : ℕ → Bool
closes k = k % 100 == 99

abbrev pub switches : Env
switches = record {
  full = closes;
  empty = closes;
  transmit = λ _. esp_ok;
  wait_all_done = λ _. esp_ok;
  tick_count = λ k. k;
  write_register = λ _. true;
  read_register = λ _. none;
}

abbrev calm : Env
calm = record switches { full = λ _. false }

calm-Quiet : Quiet calm
calm-Quiet = record { full = λ _. refl; transmit = λ _. refl; wait_all_done = λ _. refl }

closes_again : (n : ℕ) → (t : ℕ) × (n ≤ t) × (t ≤ n + 100) × (closes t ≡ true)
closes_again n = (n / 100 * 100 + 99, omega arith, omega arith, ground arith)

switches-Recurs_full : Recurs switches stop_full 100
switches-Recurs_full n = closes_again n

switches-Recurs_empty : Recurs switches stop_empty 100
switches-Recurs_empty n = closes_again n

-- A rinse of three cycles from an empty burette.
run_rinse_sm_ends_example :
    (n : Machine ℤ) × (run_rinse_sm ⦃o = fixed_point⦄ switches 200
        (pos 10_000_000)
        3
        (pos 0)
        (pos 50_000_000)
        at_rest
      ≡ some n)
    × Rinsed ⦃o = fixed_point⦄ (1 ∷ 1 ∷ 0 ∷ 1 ∷ 0 ∷ []) at_rest n
unfolding fixed_point ◌-ℤ◌
run_rinse_sm_ends_example =
    run_rinse_sm_ends ⦃o = fixed_point⦄ switches 200 100 (omega arith) switches-Recurs_full
      switches-Recurs_empty (pos 10_000_000) 2 (pos 0) (pos 50_000_000) at_rest (omega arith)
      (omega arith)

run_rinse_sm_never_ends_example :
    run_rinse_sm ⦃o = fixed_point⦄ switches 7 (pos 10_000_000) 255 (pos 0) (pos 50_000_000) at_rest
    ≡ none
run_rinse_sm_never_ends_example =
    run_rinse_sm_never_ends ⦃o = fixed_point⦄ switches 7 (pos 10_000_000) (pos 0) (pos 50_000_000)
      at_rest

handle_move_steps_arrives_example :
    (n : Machine ℤ) × (handle_move_steps ⦃o = fixed_point⦄ calm 1 (pos 300) at_rest ≡ some n)
    × Sends (replicate 300 (symbol (1_000_000 / clamp_speed 1000))) at_rest n
    × (0 < 300 → n.dir_pin ≡ 1)
    × Reported ⦃o = fixed_point⦄ 300 at_rest n
handle_move_steps_arrives_example =
    handle_move_steps_arrives ⦃o = fixed_point⦄ calm 0 300 at_rest calm-Quiet refl (omega arith)

emergency_stop-move_steps_example :
    (n : Machine ℤ) × (step ⦃o = fixed_point⦄ switches 5
        (move_steps (pos 300))
        (handle_emergency_stop ⦃o = fixed_point⦄ at_rest)
      ≡ some n)
    × (n.sent ≡ [])
    × (n.position ≡ 40)
    × (n.burette_state ≡ idle)
    × (n.result ≡ (plain_result ⦃o = fixed_point⦄ plain (pos 0) at_rest).result)
emergency_stop-move_steps_example =
    emergency_stop-move_steps ⦃o = fixed_point⦄ switches 5 (pos 300) at_rest

-- The slowest speed, 30 Hz.
symbol_durations_example :
    (((symbol 33_333).duration0 + (symbol 33_333).duration1 ≡ 33_333) ↔ (33_333 ≤ 32_772))
    × ((symbol 33_333).duration0 ≤ 5)
    × ((32_773 ≤ 33_333) ⊎ ((symbol 33_333).duration0 ≤ (symbol 33_333).duration1))
symbol_durations_example = symbol_durations 33_333

-- Machines and outcomes that the witnesses below end in.
abbrev arrived : Machine ℤ
arrived =
    (handle_move_steps_arrives ⦃o = fixed_point⦄ calm 0 300 at_rest calm-Quiet refl (omega arith)).0

abbrev filled : Machine ℤ
filled = (move_fill_ends switches 200 100 (omega arith) 1000 at_rest switches-Recurs_full).0

abbrev emptied : Machine ℤ
emptied = (move_empty_ends switches 200 100 (omega arith) 1000 at_rest switches-Recurs_empty).0

abbrev three_intervals : List ℕ
three_intervals = 1000 ∷ 900 ∷ 800 ∷ []

abbrev stepped : Outcome ℤ
stepped =
    ((move_chunks-Arrives calm calm-Quiet 4 3 three_intervals at_rest (omega arith) refl).at, ok tt)

stepped_eq : move_steps_intervals calm (some stop_full) 5 three_intervals at_rest ≡ some stepped
unfolding move_steps_intervals
stepped_eq =
    (move_chunks-Arrives calm calm-Quiet 4 3 three_intervals at_rest (omega arith) refl).ends

handle_move_steps-Reported_example :
    (by : ℕ) × (by ≤ 300) × Reported ⦃o = fixed_point⦄ by at_rest arrived
handle_move_steps-Reported_example =
    handle_move_steps-Reported ⦃o = fixed_point⦄ calm 1 (pos 300) at_rest arrived (omega arith)
      (handle_move_steps_arrives ⦃o = fixed_point⦄ calm 0 300 at_rest calm-Quiet refl
        (omega arith)).1

move_steps_intervals-Covers_example : Covers 3 at_rest stepped
move_steps_intervals-Covers_example =
    move_steps_intervals-Covers calm (some stop_full) 5 three_intervals at_rest stepped
      (omega arith) stepped_eq

-- The full switch closes while the second chunk is under way.
abbrev near_switch : Env
near_switch = record switches { full = λ k. k == 9 }

-- A switch that never closes, with a tick count that jumps.
abbrev no_switch : Env
no_switch = record calm { tick_count = λ k. if k == 0 then 0 else 2000 }

no_switch-Ending : Ending no_switch 0 1
no_switch-Ending = over_at (λ k h. cc h) (λ k from. ground arith)

run_homing_ends-Homed_example :
    (n : Machine ℤ) × (run_homing near_switch 20 stop_empty at_rest ≡ some n)
    × Homed near_switch 0 n
    × (n.en_pin ≡ 0)
run_homing_ends-Homed_example =
    run_homing_ends-Homed near_switch 9 20 stop_empty at_rest (closes_at refl) (omega arith)
      (omega arith)

-- A calibration that starts from an empty burette.
run_cal_dose_sm_ends_example :
    (m1 : Machine ℤ) × (move_fill switches 200
        (ml_min_to_hz ⦃o = fixed_point⦄ (pos 10_000_000))
        at_rest
      ≡ some m1)
    × (n : Machine ℤ) × (run_cal_dose_sm ⦃o = fixed_point⦄ switches 200
          (pos 10_000_000)
          (pos 0)
          (pos 50_000_000)
          at_rest
        ≡ some n)
    × Dosed ⦃o = fixed_point⦄ (1 ∷ 0 ∷ []) (position_of ⦃o = fixed_point⦄ m1) at_rest n
unfolding fixed_point ◌-ℤ◌
run_cal_dose_sm_ends_example =
    run_cal_dose_sm_ends ⦃o = fixed_point⦄ switches 200 100 (omega arith) switches-Recurs_full
      switches-Recurs_empty (pos 10_000_000) (pos 0) (pos 50_000_000) at_rest
