-- ===== src/Domain/Types.antt =====
-- Enumerations of components/domain/include/domain/types.hpp and errors.hpp.
use esp32_rs_on_idf.Common.{Bool, true, false}

pub data Direction : Type 0 where
  liq_in liq_out : Direction

pub data ValvePosition : Type 0 where
  input output : ValvePosition

pub data BuretteState : Type 0 where
  idle homing filling emptying dosing rinsing stopping error : BuretteState

pub data BuretteCommand : Type 0 where
  fill dose empty rinse stop emergency_stop reset : BuretteCommand

pub data StepperError : Type 0 where
  init_failed rmt limit_switch_triggered limit_switch_reached timeout : StepperError

pub data StateError : Type 0 where
  busy invalid_transition already_running : StateError

-- `std::expected`.
pub data Result {ℓ κ} (A : Type ℓ) (E : Type κ) : Type (ℓ ⊔ κ) where
  ok : A → Result A E
  unexpected : E → Result A E

abbrev pub is_idle : BuretteState → Bool
is_idle idle = true
is_idle _ = false

abbrev pub is_error : BuretteState → Bool
is_error error = true
is_error _ = false
