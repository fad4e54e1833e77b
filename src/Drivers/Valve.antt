-- ===== src/Drivers/Valve.antt =====
-- components/infrastructure/src/drivers/valve.cpp: the valve and its settle timer. The `esp_timer`
-- functions of ESP-IDF are a parameter, `TimerApi`. An `ESP_ERROR_CHECK` of an error restarts the
-- device: that is `none`. The queue of the network task exists, and `events` lists what is sent to it,
-- newest first.
pub mod Timer
use esp32_rs_on_idf.Common.{
  ℕ, ◌*◌, Bool, true, false, if◌then◌else◌, ◌==◌, Option, none, some, ◌>>=◌, List, [], ◌∷◌, ◌++◌,
}
use esp32_rs_on_idf.Common.Text.{codes}
use esp32_rs_on_idf.Domain.Types.{ValvePosition, input, output}
use esp32_rs_on_idf.Motor.Motion.{valve_settle_ms}
use esp32_rs_on_idf.Motor.Machine.{EspErr, esp_ok, esp_err_invalid_state}

-- A timer handle `H` of `esp_timer`, with what its callback is given.
pub record TimerApi (H : Type 0) : Type 0 where
  pub create : (callback_arg : ℕ) → H
  pub start_once : (timeout_us : ℕ) → H → H × EspErr
  pub stop : H → H × EspErr
  pub is_active : H → Bool
  pub arg : H → ℕ
  -- The timer when its time has passed and its callback is about to run.
  pub expire : H → H

pub record Valve : Type 0 where
  pub level : ℕ
  pub position : ValvePosition

abbrev pub fresh_valve : Valve
fresh_valve = record { level = 0; position = input }

unfoldable pub set_position : ValvePosition → Valve → Valve
set_position input v = record { level = 0; position = input }
set_position output v = record { level = 1; position = output }

-- `s_valveTimer`, `s_valveTimerArmed` and the global `gValveIsSettling`.
pub record Settle (H : Type 0) : Type 0 where
  pub timer : Option H
  pub timer_armed : Bool
  pub is_settling : Bool
  pub events : List (List ℕ)

abbrev pub position_text : ValvePosition → List ℕ
position_text input = codes "input"
position_text output = codes "output"

abbrev pub position_number : ValvePosition → ℕ
position_number input = 0
position_number output = 1

-- `static_cast<domain::ValvePosition>`, which the callback compares with `Input`.
abbrev pub position_of_arg : ℕ → ValvePosition
position_of_arg n = if n == 0 then input else output

abbrev pub settled_event : ValvePosition → List ℕ
settled_event pos =
    codes "{\"event\":\"valve_settled\",\"position\":\"" ++ position_text pos ++ codes "\"}"

abbrev pub is_benign : EspErr → Bool
is_benign esp_ok = true
is_benign esp_err_invalid_state = true
is_benign _ = false

abbrev pub is_ok : EspErr → Bool
is_ok esp_ok = true
is_ok _ = false

module _ {H : Type 0} (api : TimerApi H) where
  -- `esp_timer_stop` and the test of its error.
  abbrev pub stop_timer : H → Option H
  stop_timer h = let (h', err) = api.stop h in if is_benign err then some h' else none

  abbrev pub start_timer : H → Option H
  start_timer h =
      let (h', err) = api.start_once (valve_settle_ms * 1000) h in
      if is_ok err then some h' else none

  unfoldable pub valve_settle_callback : H → Settle H → Settle H
  valve_settle_callback h s = record s {
    events = settled_event (position_of_arg (api.arg h)) ∷ s.events;
    is_settling = false;
    timer_armed = false;
  }

  -- The timer may expire: if it runs, its callback is called.
  unfoldable pub expire_timer : Settle H → Settle H
  expire_timer s = elim s.timer [
    | none ↦ s
    | some h ↦
        if api.is_active h
        then valve_settle_callback (api.expire h) (record s { timer = some (api.expire h) })
        else s
  ]

  unfoldable pub arm_valve_settle_timer : ValvePosition → Settle H → Option (Settle H)
  arm_valve_settle_timer pos s = elim s.timer [
    | none ↦
        start_timer (api.create (position_number pos)) >>= λ h. some (record s { timer = some h })
    | some h ↦ (if s.timer_armed then stop_timer h else some h) >>= λ h'.
        start_timer h' >>= λ h''. some (record s { timer = some h''; timer_armed = true })
  ]

  unfoldable pub cancel_valve_settle_timer : Settle H → Option (Settle H)
  cancel_valve_settle_timer s =
      let disarmed = record s { timer_armed = false } in
      if s.timer_armed
      then elim s.timer [
        | none ↦ some disarmed
        | some h ↦ stop_timer h >>= λ h'. some (record disarmed { timer = some h' })
      ]
      else some disarmed
