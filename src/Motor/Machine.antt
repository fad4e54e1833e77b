-- ===== src/Motor/Machine.antt =====
-- The state of the motor task: the stepper's position, the pins that it drives, the global atoms of
-- components/domain/include/domain/types.hpp that it reads or writes, and its two queues. Everything
-- that the hardware, FreeRTOS and the other tasks decide is a stream, indexed by how often the task
-- has looked at the outside so far: whether a limit switch or a stop request set a flag since the
-- last look, what an RMT call returns, what the tick count is.
use esp32_rs_on_idf.Common.{ℕ, ◌+◌, Bool, false, ◌||◌, Option, none, some, List}
use esp32_rs_on_idf.Common.Int.{ℤ}
use esp32_rs_on_idf.Domain.Types.{Direction, ValvePosition, BuretteState}

-- `SmResult::Type`.
pub data ResultType : Type 0 where
  plain rinse_complete cal_dose_complete cal_speed_complete cal_speed_seq_complete error :
      ResultType

pub record SmResult (F : Type 0) : Type 0 where
  pub type : ResultType
  pub steps_taken : ℤ
  pub measured_speed_ml_min : F
  pub results : List F
  pub result_count : ℕ

pub data EspErr : Type 0 where
  esp_ok esp_err_invalid_state esp_err_timeout esp_fail : EspErr

-- `rmt_symbol_word_t`.
pub record Symbol : Type 0 where
  pub duration0 : ℕ
  pub level0 : ℕ
  pub duration1 : ℕ
  pub level1 : ℕ

-- The two stop flags, which the limit switches and the handlers set.
pub data Flag : Type 0 where
  stop_full stop_empty : Flag

pub record Env : Type 0 where
  pub full : ℕ → Bool
  pub empty : ℕ → Bool
  pub transmit : ℕ → EspErr
  pub wait_all_done : ℕ → EspErr
  pub tick_count : ℕ → ℕ
  pub write_register : ℕ → Bool
  pub read_register : ℕ → Option ℕ

-- What goes to `gWsBroadcastQueue`, as often as it has room.
pub data Broadcast : Type 0 where
  motor_complete : ResultType → ℤ → Broadcast
  stallguard_result : ℕ → ℕ → Broadcast

pub record Machine (F : Type 0) : Type 0 where
  -- The pattern of the `int32_t` position.
  pub position : ℕ
  pub dir_pin : ℕ
  pub en_pin : ℕ
  -- The levels written to the valve's pin and the symbols sent to the RMT, newest first.
  pub valve_pin : List ℕ
  pub sent : List (List Symbol)
  pub valve_driver : ValvePosition
  pub burette_state : BuretteState
  pub valve_position : ValvePosition
  pub direction : Direction
  pub speed : ℕ
  pub accel : ℕ
  pub volume_ml : F
  pub full_flag : Bool
  pub empty_flag : Bool
  pub stall_guard_threshold : ℕ
  pub valve_is_settling : Bool
  pub valve_timer_armed : Bool
  pub homing_done : Bool
  pub result : Option (SmResult F)
  pub broadcasts : List Broadcast
  pub clock : ℕ

module _ {F : Type 0} where
  -- A look at the outside: the flags may have been set since the last one.
  abbrev pub advance : Env → Machine F → Machine F
  advance e m = record m {
    full_flag = m.full_flag || e.full m.clock;
    empty_flag = m.empty_flag || e.empty m.clock;
    clock = m.clock + 1;
  }

  abbrev pub load_flag : Flag → Machine F → Bool
  load_flag stop_full m = m.full_flag
  load_flag stop_empty m = m.empty_flag

  abbrev pub store_flag : Flag → Bool → Machine F → Machine F
  store_flag stop_full b m = record m { full_flag = b }
  store_flag stop_empty b m = record m { empty_flag = b }

  -- `stopFlag != nullptr && stopFlag->load(...)`.
  abbrev pub poll : Env → Option Flag → Machine F → Machine F × Bool
  poll e none m = (m, false)
  poll e (some f) m = let m' = advance e m in (m', load_flag f m')
