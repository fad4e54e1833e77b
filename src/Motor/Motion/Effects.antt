-- ===== src/Motor/Motion/Effects.antt =====
-- What the moves to an end stop do.
use esp32_rs_on_idf.Common.{
  ℕ, zero, suc, ◌≡◌, false, Bool-cases, inl, inr, some, >>=-eq-some, List, ◌∷◌, arith,
}
use esp32_rs_on_idf.Domain.Types.{
  Direction, liq_in, liq_out, ValvePosition, input, output, BuretteState, filling, emptying,
}
use esp32_rs_on_idf.Motor.Machine.{
  Flag, stop_full, stop_empty, Env, Machine, advance, poll, load_flag,
}
use esp32_rs_on_idf.Motor.Stepper.{emergency_stop, enable, move_steps_intervals}
use esp32_rs_on_idf.Motor.Stepper.Progress.{
  Frame, Frame-refl, poll-Frame, move_steps_intervals-Frame,
}
use esp32_rs_on_idf.Motor.Motion.{
  set_valve, settle, settle_valve, endstop_loop, move_to_endstop, move_fill, move_empty,
  valve_level, dir_level,
}

-- What a move to an end stop leaves alone.
pub record Keeps {F : Type 0} (m n : Machine F) : Type 0 where
  pub valve : n.valve_pin ≡ m.valve_pin
  pub valve_at : n.valve_position ≡ m.valve_position
  pub driver : n.valve_driver ≡ m.valve_driver
  pub state : n.burette_state ≡ m.burette_state
  pub volume : n.volume_ml ≡ m.volume_ml
  pub result : n.result ≡ m.result
  pub broadcasts : n.broadcasts ≡ m.broadcasts

module _ {F : Type 0} where
  settle-Frame : (e : Env) (f : Flag) (steps : ℕ) (m : Machine F) → Frame m (settle e f steps m)
  unfolding settle
  settle-Frame e f zero m = Frame-refl m
  settle-Frame e f (suc steps) m =
      let m1 = (poll e (some f) m).0 in
      ground (arith, poll-Frame e (some f) m, settle-Frame e f steps m1)

  endstop_loop-Frame :
      (e : Env) (fuel rounds : ℕ) (f : Flag) (intervals : List ℕ) (m n : Machine F)
      → endstop_loop e fuel rounds f intervals m ≡ some n
      → Frame m n
  unfolding endstop_loop
  endstop_loop-Frame e fuel zero f intervals m n h = cc
  endstop_loop-Frame e fuel (suc rounds) f intervals m n h =
      let m1 = advance e m in
      elim (Bool-cases (load_flag f m1)) [
        | inl stop ↦ let h' = rw stop at h in ground (arith, poll-Frame e (some f) m)
        | inr go ↦
            let h' = rw go at h in
            let (o, e1, e2) =
              >>=-eq-some (move_steps_intervals e (some f) fuel intervals m1) _ h' in
            ground (
              arith,
              poll-Frame e (some f) m,
              move_steps_intervals-Frame e (some f) fuel intervals m1 o e1,
              endstop_loop-Frame e fuel rounds f intervals o.0 n,
              e2,
            )
      ]

  move_to_endstop-Keeps :
      (e : Env) (fuel : ℕ) (dir : Direction) (hz : ℕ) (f : Flag) (m n : Machine F)
      → move_to_endstop e fuel dir hz f m ≡ some n
      → Keeps m n
  unfolding move_to_endstop emergency_stop enable
  move_to_endstop-Keeps e fuel dir hz stop_full m n h =
      let m0 = record m { dir_pin = dir_level dir; full_flag = false } in
      let (o, e1, e2) = >>=-eq-some (endstop_loop e fuel fuel stop_full _ m0) _ h in
      ground (arith, endstop_loop-Frame e fuel fuel stop_full _ m0 o e1, e2)
  move_to_endstop-Keeps e fuel dir hz stop_empty m n h =
      let m0 = record m { dir_pin = dir_level dir; empty_flag = false } in
      let (o, e1, e2) = >>=-eq-some (endstop_loop e fuel fuel stop_empty _ m0) _ h in
      ground (arith, endstop_loop-Frame e fuel fuel stop_empty _ m0 o e1, e2)

  settle_valve-Frame : (e : Env) (f : Flag) (m : Machine F) → Frame m (settle_valve e f m)
  unfolding settle_valve
  settle_valve-Frame e f m = settle-Frame e f 50 m

  -- The machine after a move to an end stop with the valve at `p`.
  pub record Moved (p : ValvePosition) (s : BuretteState) (m n : Machine F) : Type 0 where
    pub valve : n.valve_pin ≡ valve_level p ∷ m.valve_pin
    pub valve_at : n.valve_position ≡ p
    pub driver : n.valve_driver ≡ p
    pub state : n.burette_state ≡ s
    pub volume : n.volume_ml ≡ m.volume_ml
    pub result : n.result ≡ m.result
    pub broadcasts : n.broadcasts ≡ m.broadcasts

  -- A fill that ends has switched the valve to its input once, and left the results alone.
  pub move_fill-Moved :
      (e : Env) (fuel hz : ℕ) (m n : Machine F)
      → move_fill e fuel hz m ≡ some n
      → Moved input filling m n
  unfolding move_fill set_valve
  move_fill-Moved e fuel hz m n h =
      let m1 = settle_valve e stop_full (set_valve input m) in
      let m2 = record m1 { burette_state = filling } in
      ground (
        arith,
        settle_valve-Frame e stop_full (set_valve input m),
        move_to_endstop-Keeps e fuel liq_in hz stop_full m2 n h,
      )

  -- An emptying that ends has switched it to its output once.
  pub move_empty-Moved :
      (e : Env) (fuel hz : ℕ) (m n : Machine F)
      → move_empty e fuel hz m ≡ some n
      → Moved output emptying m n
  unfolding move_empty set_valve
  move_empty-Moved e fuel hz m n h =
      let m1 = settle_valve e stop_empty (set_valve output m) in
      let m2 = record m1 { burette_state = emptying } in
      ground (
        arith,
        settle_valve-Frame e stop_empty (set_valve output m),
        move_to_endstop-Keeps e fuel liq_out hz stop_empty m2 n h,
      )
