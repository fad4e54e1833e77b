-- ===== src/Domain/Burette.antt =====
-- components/domain/include/domain/burette.hpp and components/domain/src/burette.cpp: the guard and
-- the effect of the high-level commands. A method returns the new controller with its result.
pub mod Graph
use esp32_rs_on_idf.Common.{Bool, true, false, not, ◌||◌, if◌then◌else◌}
use esp32_rs_on_idf.Domain.Types.{
  BuretteState, idle, filling, emptying, dosing, rinsing, stopping, BuretteCommand, fill, dose,
  empty, rinse, stop, emergency_stop, reset, StateError, busy, invalid_transition, Result, ok,
  unexpected, is_idle, is_error,
}

pub record BuretteController : Type 0 where
  pub state : BuretteState

abbrev is_stop : BuretteCommand → Bool
is_stop stop = true
is_stop _ = false

abbrev is_emergency_stop : BuretteCommand → Bool
is_emergency_stop emergency_stop = true
is_emergency_stop _ = false

abbrev is_reset : BuretteCommand → Bool
is_reset reset = true
is_reset _ = false

unfoldable pub validate_transition :
    BuretteController → BuretteCommand → Result (Unit {0}) StateError
validate_transition c cmd =
    if is_stop cmd || is_emergency_stop cmd
    then (if is_idle c.state then unexpected invalid_transition else ok tt)
    else if is_reset cmd
    then (if not (is_error c.state) then unexpected invalid_transition else ok tt)
    else if not (is_idle c.state)
    then unexpected busy
    else ok tt

-- The `switch` of `transition`.
abbrev pub target : BuretteCommand → BuretteState
target fill = filling
target dose = dosing
target empty = emptying
target rinse = rinsing
target stop = stopping
target emergency_stop = stopping
target reset = idle

unfoldable pub transition :
    BuretteController → BuretteCommand → BuretteController × Result (Unit {0}) StateError
unfolding validate_transition
transition c cmd = elim (validate_transition c cmd) [
  | unexpected e ↦ (c, unexpected e)
  | ok _ ↦ (record c { state = target cmd }, ok tt)
]
