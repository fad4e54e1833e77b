-- ===== src/Application/StateMachine.antt =====
-- components/application/include/application/state_machine.hpp and src/state_machine.cpp: the
-- controller with one pending operation that a timer ends. Ticks are `uint32_t` and wrap; the length
-- of a tick in milliseconds, `portTICK_PERIOD_MS`, is FreeRTOS's and an argument.
pub mod Timeout
use esp32_rs_on_idf.Common.{ℕ, ◌*◌, Bool, true, false, not, ◌&&◌, if◌then◌else◌, leb, u32, sub32}
use esp32_rs_on_idf.Domain.Types.{
  BuretteState, idle, stopping, BuretteCommand, StateError, Result, is_idle,
}
use esp32_rs_on_idf.Domain.Burette.{BuretteController, transition}

pub data TransportState : Type 0 where
  usb_active ble_disconnected ble_connected http_connected : TransportState

pub record PendingOperation : Type 0 where
  pub start_tick : ℕ
  pub expected_duration_ticks : ℕ
  pub active : Bool

abbrev pub pending_watchdog_ms : ℕ
pending_watchdog_ms = 300_000

pub record ApplicationStateMachine : Type 0 where
  pub controller : BuretteController
  pub transport : TransportState
  pub pending : PendingOperation

abbrev pub initial : ApplicationStateMachine
initial = record {
  controller = record { state = idle };
  transport = usb_active;
  pending = record { start_tick = 0; expected_duration_ticks = 0; active = false };
}

abbrev pub burette_state : ApplicationStateMachine → BuretteState
burette_state m = m.controller.state

abbrev pub set_transport_state : ApplicationStateMachine → TransportState → ApplicationStateMachine
set_transport_state m ts = record m { transport = ts }

abbrev pub is_ready : ApplicationStateMachine → Bool
is_ready m = is_idle m.controller.state && not m.pending.active

abbrev is_stopping : BuretteState → Bool
is_stopping stopping = true
is_stopping _ = false

abbrev pub is_emergency : ApplicationStateMachine → Bool
is_emergency m = is_stopping m.controller.state

unfoldable pub apply :
    ApplicationStateMachine
    → BuretteCommand
    → ApplicationStateMachine × Result (Unit {0}) StateError
unfolding transition
apply m cmd = let (c, r) = transition m.controller cmd in (record m { controller = c }, r)

unfoldable pub start_operation : ApplicationStateMachine → ℕ → ℕ → ApplicationStateMachine
start_operation m current_tick duration_ticks = record m {
  pending = record {
    start_tick = current_tick;
    expected_duration_ticks = duration_ticks;
    active = true;
  };
}

-- The state in which a pending operation has just ended.
abbrev pub finished : ApplicationStateMachine → ApplicationStateMachine
finished m = record m {
  pending = record m.pending { active = false };
  controller = record m.controller { state = idle };
}

unfoldable pub tick :
    (tick_period_ms : ℕ) → ApplicationStateMachine → ℕ → ApplicationStateMachine × Bool
tick tick_period_ms m current_tick =
    if not m.pending.active
    then (m, false)
    else let elapsed = sub32 current_tick m.pending.start_tick in
      let elapsed_ms = u32 (elapsed * tick_period_ms) in
      if leb pending_watchdog_ms elapsed_ms
      then (finished m, true)
      else if leb m.pending.expected_duration_ticks elapsed
      then (finished m, true)
      else (m, false)

unfoldable pub reset : ApplicationStateMachine → ApplicationStateMachine
reset m = finished m
