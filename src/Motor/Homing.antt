-- ===== src/Motor/Homing.antt =====
-- components/infrastructure/src/motor/homing.cpp. The loop takes fuel, and `none` says that it still
-- runs.
pub mod Outcome
pub mod Ends
use esp32_rs_on_idf.Common.{
  ℕ, zero, suc, ◌+◌, ◌/◌, Bool, true, false, ◌||◌, if◌then◌else◌, leb, u32, sub32, Option, none,
  some, ◌>>=◌, List, [], ◌∷◌, replicate,
}
use esp32_rs_on_idf.Domain.Types.{
  BuretteState, homing, idle, error, limit_switch_triggered, ok, unexpected,
}
use esp32_rs_on_idf.Motor.Machine.{Flag, stop_full, Env, Machine, advance, store_flag, poll}
use esp32_rs_on_idf.Motor.Stepper.{rmt_chunk_symbols, emergency_stop, enable, move_steps_intervals}

abbrev pub home_interval_us : ℕ
home_interval_us = 1_000_000 / 1500

abbrev pub homing_timeout_ms : ℕ
homing_timeout_ms = 2000

-- The local variables of `run_homing`.
pub record Progress : Type 0 where
  pub homed : Bool
  pub timed_out : Bool
  pub failed : Bool
  pub total_sent : ℕ

abbrev pub not_yet : Progress
not_yet = record { homed = false; timed_out = false; failed = false; total_sent = 0 }

-- `totalSent += chunk`.
abbrev pub counted : Progress → Progress
counted p = record p { total_sent = u32 (p.total_sent + rmt_chunk_symbols) }

module _ {F : Type 0} where
  -- `checkHomingTermination`: the flags that it sets, and whether homing should stop.
  unfoldable pub check_homing_termination :
      Env → ℕ → Progress → Machine F → Machine F × Progress × Bool
  check_homing_termination e start_tick p m =
      let (m1, stop) = poll e (some stop_full) m in
      let m2 = advance e m1 in
      if stop
      then (m1, record p { homed = true }, true)
      else if leb homing_timeout_ms (sub32 (e.tick_count m1.clock) start_tick)
      then (m2, record p { timed_out = true }, true)
      else (m2, p, false)

  -- The `while` of `run_homing`.
  unfoldable pub homing_loop :
      Env → ℕ → ℕ → ℕ → Progress → Machine F → Option (Machine F × Progress)
  homing_loop e fuel zero start p m = none
  homing_loop e fuel (suc rounds) start p m =
      let (m1, p1, stop) = check_homing_termination e start p m in
      if p.homed || p.timed_out || p.failed then some (m, p) else if stop then some (m1, p1) else do
        (m2, r) ←
            move_steps_intervals e (some stop_full) fuel
              (replicate rmt_chunk_symbols home_interval_us) m1
        elim r [
          | ok _ ↦
              let (m3, p3, _) = check_homing_termination e start (counted p1) m2 in
              homing_loop e fuel rounds start p3 m3
          | unexpected limit_switch_triggered ↦
              let (m3, p3, _) =
                check_homing_termination e start (counted (record p1 { homed = true })) m2 in
              homing_loop e fuel rounds start p3 m3
          | unexpected _ ↦ some (record m2 { burette_state = error }, record p1 { failed = true })
        ]

  unfoldable pub post_homing_cleanup : Env → Progress → Machine F → Machine F
  post_homing_cleanup e p m =
      let m1 = enable (emergency_stop e m) in
      if p.failed
      then m1
      else if p.homed
      then record m1 { position = 0; full_flag = false; burette_state = idle }
      else record m1 { burette_state = idle }

  -- `switch` is the flag of the limit switch that is cleared first.
  unfoldable pub run_homing : Env → ℕ → Flag → Machine F → Option (Machine F)
  run_homing e fuel switch m =
      let m1 = store_flag switch false (record m { burette_state = homing; dir_pin = 1 }) in
      let m2 = store_flag stop_full false m1 in
      let m3 = advance e m2 in
      do
        (m4, p') ← homing_loop e fuel fuel (e.tick_count m2.clock) not_yet m3
        some (post_homing_cleanup e p' m4)
