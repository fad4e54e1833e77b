-- ===== src/Domain/Rinse.antt =====
-- components/domain/include/domain/rinse_sm.hpp. A `uint8_t` counter wraps.
use esp32_rs_on_idf.Common.{ℕ, ◌+◌, Bool, true, false, not, if◌then◌else◌, ltb, u8}
use esp32_rs_on_idf.Common.Float.{FloatOps, ltf, lit, ◌-f◌}

pub data RinseAction : Type 0 where
  fill_to_limit empty_to_limit complete error : RinseAction

pub data Phase : Type 0 where
  pre_fill emptying filling done : Phase

pub record RinseSm : Type 0 where
  pub total_cycles : ℕ
  pub current_cycle : ℕ
  pub phase : Phase
  pub started : Bool

unfoldable pub start : {F : Type 0} ⦃o : FloatOps F⦄ → ℕ → F → F → RinseSm
start cycles current_volume_ml nominal_volume_ml = record {
  total_cycles = cycles;
  current_cycle = 1;
  phase = if ltf current_volume_ml (nominal_volume_ml -f lit 1 2) then pre_fill else emptying;
  started = true;
}

-- The `switch` of `onMotorComplete`.
dispatch : Phase → RinseSm → RinseSm × RinseAction
dispatch pre_fill s = (record s { phase = emptying }, empty_to_limit)
dispatch emptying s = (record s { phase = filling }, fill_to_limit)
dispatch filling s =
    let s' = record s { current_cycle = u8 (s.current_cycle + 1) } in
    if ltb s'.total_cycles s'.current_cycle
    then (record s' { phase = done; started = false }, complete)
    else (s', empty_to_limit)
dispatch done s = (s, complete)

-- The two volumes that `onMotorComplete` is given are not read.
unfoldable pub on_motor_complete : RinseSm → RinseSm × RinseAction
unfolding dispatch
on_motor_complete s = if not s.started then (s, error) else dispatch s.phase s

abbrev pub is_complete : RinseSm → Bool
is_complete s = elim s.phase [ done ↦ true | _ ↦ false ]
