-- ===== src/Application/ValveOps.antt =====
-- components/application/src/handlers/valve.cpp: the handlers of the valve. A handler runs without
-- another task between its steps. A response stands for its bytes.
pub mod Settling
use esp32_rs_on_idf.Common.{Bool, true, if◌then◌else◌, not, Option, none, some, ◌>>=◌}
use esp32_rs_on_idf.Domain.Types.{ValvePosition, BuretteState, is_idle}
use esp32_rs_on_idf.Drivers.Valve.{TimerApi, Valve, set_position, Settle, arm_valve_settle_timer}

pub data Reason : Type 0 where
  invalid_params burette_busy : Reason

pub data Response : Type 0 where
  error_response : Reason → Response
  position_is : ValvePosition → Response

-- What the handler reads and writes: `gBuretteState`, `gValvePosition`, the valve and its timer.
pub record World (H : Type 0) : Type 0 where
  pub burette_state : BuretteState
  pub valve_position : ValvePosition
  pub valve : Valve
  pub valve_settle : Settle H

module _ {H : Type 0} (api : TimerApi H) where
  -- `none` is a restart of the device.
  unfoldable pub handle_set_position : Option ValvePosition → World H → Option (World H × Response)
  handle_set_position none w = some (w, error_response invalid_params)
  handle_set_position (some pos) w =
      if not (is_idle w.burette_state)
      then some (w, error_response burette_busy)
      else if w.valve_settle.is_settling
      then some (w, error_response burette_busy)
      else arm_valve_settle_timer api pos (record w.valve_settle { is_settling = true })
        >>= λ valve_settle. some (
          record w {
            valve = set_position pos w.valve;
            valve_position = pos;
            valve_settle = valve_settle;
          },
          position_is pos,
        )

unfoldable pub handle_get_state : ValvePosition → Response
handle_get_state pos = position_is pos
