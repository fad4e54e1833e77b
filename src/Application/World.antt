-- ===== src/Application/World.antt =====
-- What the handlers of components/application/src/dispatch.cpp share, and the views of it that one
-- component has: the burette's globals with the calibration's cache, the valve and its timer, the
-- flash memory, and what the handlers keep between the commands.
use esp32_rs_on_idf.Common.{ℕ, Bool, true, false, Option, none, some, List}
use esp32_rs_on_idf.Common.Int.{ℤ}
use esp32_rs_on_idf.Domain.Types.{ValvePosition}
use esp32_rs_on_idf.Domain.Calibration.{CalibrationData}
use esp32_rs_on_idf.Motor.Machine.{SmResult}
use esp32_rs_on_idf.Drivers.Valve.{TimerApi, Valve, Settle}
use esp32_rs_on_idf.Storage.Nvs.{NvsApi, FloatBits}
use esp32_rs_on_idf.Storage.Settings.{Memory}
use esp32_rs_on_idf.Application.BuretteOps
use esp32_rs_on_idf.Application.BuretteOps.{Globals, handle_emergency_stop}
use esp32_rs_on_idf.Application.BuretteCal.{CalResponse}
use esp32_rs_on_idf.Application.AdcCal
use esp32_rs_on_idf.Application.AdcCal.{AdcCal}
use esp32_rs_on_idf.Application.Sensors.{SensorResponse}
use esp32_rs_on_idf.Application.ValveOps
use esp32_rs_on_idf.Application.ValveOps.{handle_set_position, handle_get_state}

pub record World (S T F : Type 0) : Type 0 where
  pub globals : Globals F
  pub valve_position : ValvePosition
  pub valve : Valve
  pub timer : Option T
  pub events : List (List ℕ)
  pub flash : S
  pub coeff_a_x1000 : ℕ
  pub coeff_b : ℤ
  pub stall_guard_threshold : ℕ
  pub pending_cal : CalibrationData F
  pub adc_cal : AdcCal F
  pub samples_read : ℕ

-- What the handlers call, and what comes from outside: the samples of the ADC, if their callback
-- is set, the motor controller with its queue of results, and whether the motor's queue has room,
-- the same for all commands of a run: its four places are not counted.
pub record Env (S H T F D : Type 0) : Type 0 where
  pub timers : TimerApi T
  pub nvs : NvsApi S H
  pub bits : FloatBits F
  pub to_double : F → D
  pub sqrt : D → D
  pub sample : Option (ℕ → ℕ)
  pub controller : Option (Option (List (SmResult F)))
  pub accepts : Bool
  pub accepts_next : Bool

-- A response, by the handler that makes it.
pub data Reply (F D : Type 0) : Type 0 where
  status_reply logs_reply entries_reply version_reply pong : Reply F D
  burette_reply : BuretteOps.Response → Reply F D
  cal_reply : CalResponse F → Reply F D
  adc_reply : AdcCal.Response F D → Reply F D
  sensor_reply : SensorResponse F → Reply F D
  valve_reply : ValveOps.Response → Reply F D

abbrev pub is_present : {A : Type 0} → Option A → Bool
is_present none = false
is_present (some a) = true

module _ {S T F : Type 0} where
  abbrev pub memory_of : World S T F → Memory S F
  memory_of w = record {
    flash = w.flash;
    cal_cache = w.globals.cal_cache;
    coeff_a_x1000 = w.coeff_a_x1000;
    coeff_b = w.coeff_b;
  }

  abbrev pub with_memory : Memory S F → World S T F → World S T F
  with_memory m w = record w {
    globals = record w.globals { cal_cache = m.cal_cache };
    flash = m.flash;
    coeff_a_x1000 = m.coeff_a_x1000;
    coeff_b = m.coeff_b;
  }

  abbrev pub settle_of : World S T F → Settle T
  settle_of w = record {
    timer = w.timer;
    timer_armed = w.globals.valve_timer_armed;
    is_settling = w.globals.valve_is_settling;
    events = w.events;
  }

  abbrev pub with_settle : Settle T → World S T F → World S T F
  with_settle s w = record w {
    globals = record w.globals {
      valve_is_settling = s.is_settling;
      valve_timer_armed = s.timer_armed;
    };
    timer = s.timer;
    events = s.events;
  }

  abbrev pub valve_world : World S T F → ValveOps.World T
  valve_world w = record {
    burette_state = w.globals.burette_state;
    valve_position = w.valve_position;
    valve = w.valve;
    valve_settle = settle_of w;
  }

  -- The handler of the valve leaves the burette's state alone.
  abbrev pub with_valve : ValveOps.World T → World S T F → World S T F
  with_valve v w = record (with_settle v.valve_settle w) {
    valve_position = v.valve_position;
    valve = v.valve;
  }
