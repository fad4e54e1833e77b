-- ===== src/Motor/Runners.antt =====
-- components/infrastructure/src/motor/sm_runners.cpp: the state machines of the domain drive the
-- moves. The logs, the state tracer, the watchdogs and the black box record nothing that the code
-- reads back, and are left out. `fuel` bounds every loop; `none` says that one still runs.
pub mod Rinsing
pub mod Dosing
use esp32_rs_on_idf.Common.{
  ℕ, zero, suc, ◌+◌, Bool, true, false, if◌then◌else◌, ltb, Option, none, some, ◌>>=◌, List, [],
  ◌∷◌, get_or,
}
use esp32_rs_on_idf.Common.Int.{ℤ, pos, signed32}
use esp32_rs_on_idf.Common.Float.{FloatOps, lit, ltf, lef, ◌-f◌}
use esp32_rs_on_idf.Domain.Rinse
use esp32_rs_on_idf.Domain.Rinse.{RinseSm, RinseAction}
use esp32_rs_on_idf.Domain.CalDose
use esp32_rs_on_idf.Domain.CalDose.{CalDoseSm, CalDoseAction}
use esp32_rs_on_idf.Domain.CalSpeed
use esp32_rs_on_idf.Domain.CalSpeed.{CalSpeedSingleSm, CalSpeedAction}
use esp32_rs_on_idf.Domain.CalSpeedSeq
use esp32_rs_on_idf.Domain.CalSpeedSeq.{CalSpeedSeqSm}
use esp32_rs_on_idf.Motor.Machine.{
  ResultType, rinse_complete, cal_dose_complete, cal_speed_complete, cal_speed_seq_complete, error,
  Flag, stop_full, Env, Machine, advance,
}
use esp32_rs_on_idf.Motor.Motion.{move_fill, move_empty, settle_valve, store_result, ml_min_to_hz}

abbrev pub is_pre_fill : Rinse.Phase → Bool
is_pre_fill Rinse.pre_fill = true
is_pre_fill _ = false

abbrev pub min_cal_speed_ml_min : {F : Type 0} ⦃o : FloatOps F⦄ → F
min_cal_speed_ml_min = lit 15 0

module _ {F : Type 0} ⦃o : FloatOps F⦄ where
  -- A result that carries no measurement.
  abbrev pub plain_result : ResultType → ℤ → Machine F → Machine F
  plain_result type steps m = store_result type steps (lit 0 0) [] 0 m

  abbrev pub position_of : Machine F → ℤ
  position_of m = signed32 m.position

  -- The `while` of `run_rinse_sm`.
  unfoldable pub rinse_loop : Env → ℕ → ℕ → ℕ → RinseSm → Machine F → Option (Machine F)
  rinse_loop e fuel zero speed_hz s m = none
  rinse_loop e fuel (suc rounds) speed_hz s m =
      let (s1, action) = Rinse.on_motor_complete s in
      if Rinse.is_complete s then some m else elim action [
        | RinseAction.fill_to_limit ↦
            (move_fill e fuel speed_hz m >>= λ m1. rinse_loop e fuel rounds speed_hz s1 m1)
        | RinseAction.empty_to_limit ↦
            (move_empty e fuel speed_hz m >>= λ m1. rinse_loop e fuel rounds speed_hz s1 m1)
        | RinseAction.complete ↦ some (plain_result rinse_complete (pos 0) m)
        | RinseAction.error ↦ some (plain_result error (pos 0) m)
      ]

  unfoldable pub run_rinse_sm : Env → ℕ → F → ℕ → F → F → Machine F → Option (Machine F)
  run_rinse_sm e fuel speed_ml_min cycles current_volume_ml nominal_volume_ml m =
      let s = Rinse.start cycles current_volume_ml nominal_volume_ml in
      let speed_hz = ml_min_to_hz speed_ml_min in
      (if is_pre_fill s.phase then move_fill e fuel speed_hz m else some m) >>= λ m1.
      rinse_loop e fuel fuel speed_hz s m1

  -- The `if (action == FillToLimit)` of `run_cal_dose_sm`.
  unfoldable pub dose_fill :
      Env
      → ℕ
      → ℕ
      → CalDoseSm × CalDoseAction
      → Machine F
      → Option ((CalDoseSm × CalDoseAction) × Machine F)
  dose_fill e fuel speed_hz (s, CalDoseAction.fill_to_limit) m =
      move_fill e fuel speed_hz m >>= λ m1. some (CalDose.on_fill_complete s (position_of m1), m1)
  dose_fill e fuel speed_hz (s, action) m = some ((s, action), m)

  -- Its `if (action == EmptyToLimit)`.
  unfoldable pub dose_empty :
      Env
      → ℕ
      → ℕ
      → CalDoseSm × CalDoseAction
      → Machine F
      → Option ((CalDoseSm × CalDoseAction) × Machine F)
  dose_empty e fuel speed_hz (s, CalDoseAction.empty_to_limit) m =
      move_empty e fuel speed_hz m >>= λ m1. some (CalDose.on_empty_complete s (position_of m1), m1)
  dose_empty e fuel speed_hz (s, action) m = some ((s, action), m)

  unfoldable pub dose_finish : CalDoseSm × CalDoseAction → Machine F → Machine F
  dose_finish (s, CalDoseAction.complete) m = plain_result cal_dose_complete s.steps_taken m
  dose_finish (s, action) m = plain_result error (pos 0) m

  unfoldable pub run_cal_dose_sm : Env → ℕ → F → F → F → Machine F → Option (Machine F)
  run_cal_dose_sm e fuel speed_ml_min current_volume_ml nominal_volume_ml m = do
    let speed_hz = ml_min_to_hz speed_ml_min
    let started = CalDose.on_start CalDose.start current_volume_ml nominal_volume_ml
    (filled, m1) ← dose_fill e fuel speed_hz started m
    (emptied, m2) ← dose_empty e fuel speed_hz filled m1
    some (dose_finish emptied m2)

  -- A look at the tick count, in milliseconds.
  abbrev pub now : Env → Machine F → ℕ
  now e m = e.tick_count m.clock

  unfoldable pub speed_fill :
      Env
      → ℕ
      → ℕ
      → CalSpeedSingleSm F × CalSpeedAction
      → Machine F
      → Option ((CalSpeedSingleSm F × CalSpeedAction) × Machine F)
  speed_fill e fuel speed_hz (s, CalSpeedAction.fill_to_limit) m =
      move_fill e fuel speed_hz m >>= λ m1.
      some (CalSpeed.on_fill_complete s (now e m1), advance e m1)
  speed_fill e fuel speed_hz (s, action) m = some ((s, action), m)

  unfoldable pub speed_empty :
      Env
      → ℕ
      → ℕ
      → F
      → CalSpeedSingleSm F × CalSpeedAction
      → Machine F
      → Option ((CalSpeedSingleSm F × CalSpeedAction) × Machine F)
  speed_empty e fuel test_freq_hz nominal (s, CalSpeedAction.empty_to_limit) m =
      let least = ml_min_to_hz {F = F} min_cal_speed_ml_min in
      move_empty e fuel (if ltb test_freq_hz least then least else test_freq_hz) m >>= λ m1.
      some (CalSpeed.on_empty_complete s (now e m1) nominal, advance e m1)
  speed_empty e fuel test_freq_hz nominal (s, action) m = some ((s, action), m)

  unfoldable pub speed_finish : CalSpeedSingleSm F × CalSpeedAction → Machine F → Machine F
  speed_finish (s, CalSpeedAction.complete) m =
      store_result cal_speed_complete (pos 0) s.measured_speed_ml_min [] 0 m
  speed_finish (s, action) m = plain_result error (pos 0) m

  unfoldable pub run_cal_speed_sm : Env → ℕ → F → ℕ → F → F → Machine F → Option (Machine F)
  run_cal_speed_sm e fuel speed_ml_min test_freq_hz current_volume_ml nominal_volume_ml m = do
    let speed_hz = ml_min_to_hz speed_ml_min
    let started = CalSpeed.on_start CalSpeed.start current_volume_ml nominal_volume_ml
    (filled, m1) ← speed_fill e fuel speed_hz started m
    (emptied, m2) ← speed_empty e fuel test_freq_hz nominal_volume_ml filled m1
    some (speed_finish emptied m2)

  -- `dispatchCalSpeedAction`: the machine, and whether the loop goes on.
  unfoldable pub dispatch_cal_speed_action :
      Env → ℕ → CalSpeedSeqSm F → CalSpeedAction → ℕ → Machine F → Option (Machine F × Bool)
  dispatch_cal_speed_action e fuel s CalSpeedAction.fill_to_limit fill_hz m =
      move_fill e fuel fill_hz m >>= λ m1. some (m1, true)
  dispatch_cal_speed_action e fuel s CalSpeedAction.empty_to_limit fill_hz m =
      move_empty e fuel (get_or s.freqs s.seq_idx 0) m >>= λ m1. some (m1, true)
  dispatch_cal_speed_action e fuel s CalSpeedAction.settle_valve fill_hz m =
      some (settle_valve e stop_full m, true)
  dispatch_cal_speed_action e fuel s CalSpeedAction.complete fill_hz m =
      some (store_result cal_speed_seq_complete (pos 0) (lit 0 0) s.results s.seq_idx m, false)
  dispatch_cal_speed_action e fuel s CalSpeedAction.error fill_hz m =
      some (plain_result error (pos 0) m, false)

  -- The `while` of `run_cal_speed_seq_sm`.
  unfoldable pub speed_seq_loop : Env → ℕ → ℕ → ℕ → CalSpeedSeqSm F → Machine F → Option (Machine F)
  speed_seq_loop e fuel zero fill_hz s m = none
  speed_seq_loop e fuel (suc rounds) fill_hz s m =
      let (s1, action) = CalSpeedSeq.on_tick s (now e m) in
      if CalSpeedSeq.is_complete s then some m else do
        (m1, goes_on) ← dispatch_cal_speed_action e fuel s1 action fill_hz (advance e m)
        elim goes_on [ true ↦ speed_seq_loop e fuel rounds fill_hz s1 m1 | false ↦ some m1 ]

  unfoldable pub run_cal_speed_seq_sm :
      Env → ℕ → List ℕ → F → F → F → Machine F → Option (Machine F)
  run_cal_speed_seq_sm e fuel freqs fill_speed_ml_min current_volume_ml nominal_volume_ml m =
      let s = CalSpeedSeq.start freqs in
      let near_full = lef (nominal_volume_ml -f lit 1 1) current_volume_ml in
      speed_seq_loop e fuel fuel (ml_min_to_hz fill_speed_ml_min)
        (if near_full then record s { first_ever = false } else s) m
