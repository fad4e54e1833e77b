-- ===== src/Motor/Stepper/Progress.antt =====
-- What a move does to the machine.
use esp32_rs_on_idf.Common.{
  ℕ, zero, suc, ◌+◌, ◌≤◌, ◌≡◌, ◌⊎◌, ◌↔◌, ◌||◌, Option, none, some, >>=-eq-some, List, [], ◌∷◌, map,
  take, drop, length, arith,
}
use esp32_rs_on_idf.Domain.Types.{StepperError, Result, ok, unexpected}
use esp32_rs_on_idf.Motor.Machine.{Symbol, Flag, Env, Machine, advance, poll}
use esp32_rs_on_idf.Motor.Stepper.{
  symbol, Outcome, emergency_stop, send_symbols, wait_done, count_chunk, finish_chunk, move_chunk,
  move_chunks, move_steps_intervals,
}

-- A symbol lasts as long as its interval exactly if the interval is at most 32,772 us, for longer
-- low times do not fit their 15 bits; its pulse is at most 5 us, and the low time is no shorter than
-- the pulse where the interval fits.
pub symbol_durations :
    (interval : ℕ)
    → (((symbol interval).duration0 + (symbol interval).duration1 ≡ interval) ↔ (interval ≤ 32_772))
      × ((symbol interval).duration0 ≤ 5)
      × ((32_773 ≤ interval) ⊎ ((symbol interval).duration0 ≤ (symbol interval).duration1))
unfolding symbol
symbol_durations interval = ground arith

-- What a move never touches, and that no flag is cleared by one.
pub record Frame {F : Type 0} (m n : Machine F) : Type 0 where
  pub dir : n.dir_pin ≡ m.dir_pin
  pub valve : n.valve_pin ≡ m.valve_pin
  pub driver : n.valve_driver ≡ m.valve_driver
  pub state : n.burette_state ≡ m.burette_state
  pub valve_at : n.valve_position ≡ m.valve_position
  pub direction : n.direction ≡ m.direction
  pub speed : n.speed ≡ m.speed
  pub accel : n.accel ≡ m.accel
  pub volume : n.volume_ml ≡ m.volume_ml
  pub threshold : n.stall_guard_threshold ≡ m.stall_guard_threshold
  pub settling : n.valve_is_settling ≡ m.valve_is_settling
  pub armed : n.valve_timer_armed ≡ m.valve_timer_armed
  pub homing : n.homing_done ≡ m.homing_done
  pub result : n.result ≡ m.result
  pub broadcasts : n.broadcasts ≡ m.broadcasts
  pub full : (m.full_flag || n.full_flag) ≡ n.full_flag
  pub empty : (m.empty_flag || n.empty_flag) ≡ n.empty_flag
  pub later : m.clock ≤ n.clock

module _ {F : Type 0} where
  pub Frame-refl : (m : Machine F) → Frame m m
  Frame-refl m = ground arith

  pub Frame-trans : (a b c : Machine F) → Frame a b → Frame b c → Frame a c
  Frame-trans a b c p q = ground arith

  pub poll-Frame : (e : Env) (f : Option Flag) (m : Machine F) → Frame m (poll e f m).0
  poll-Frame e none m = ground arith
  poll-Frame e (some f) m = ground arith

  pub send_symbols-Frame :
      (e : Env) (f : Option Flag) (retries : ℕ) (symbols : List Symbol) (m : Machine F)
      → Frame m (send_symbols e f retries symbols m).0
  unfolding send_symbols emergency_stop
  send_symbols-Frame e f zero symbols m = ground (arith, poll-Frame e f m)
  send_symbols-Frame e f (suc retries) symbols m =
      let m1 = (poll e f m).0 in
      ground (arith, poll-Frame e f m, send_symbols-Frame e f retries symbols (advance e m1))

  pub wait_done-Frame :
      (e : Env) (f : Option Flag) (fuel : ℕ) (m : Machine F) (n : Outcome F)
      → wait_done e f fuel m ≡ some n
      → Frame m n.0
  unfolding wait_done emergency_stop
  wait_done-Frame e f zero m n h = cc
  wait_done-Frame e f (suc fuel) m n h =
      ground
        (arith, poll-Frame e f (advance e m), wait_done-Frame e f fuel (poll e f (advance e m)).0 n)

  count_chunk-Frame :
      (chunk : List ℕ) (m : Machine F) (r : Result (Unit {0}) StepperError)
      → Frame m (count_chunk chunk m r).0
  unfolding count_chunk
  count_chunk-Frame chunk m (ok _) = ground arith
  count_chunk-Frame chunk m (unexpected _) = Frame-refl m

  pub finish_chunk-Frame :
      (e : Env) (f : Option Flag) (fuel : ℕ) (chunk : List ℕ) (m : Machine F)
      (r : Result (Unit {0}) StepperError) (n : Outcome F)
      → finish_chunk e f fuel chunk m r ≡ some n
      → Frame m n.0
  unfolding finish_chunk
  finish_chunk-Frame e f fuel chunk m (unexpected err) n h = ground (arith, Frame-refl m)
  finish_chunk-Frame e f fuel chunk m (ok _) n h =
      let (o, e1, e2) = >>=-eq-some (wait_done e f fuel m) _ h in
      ground (arith, wait_done-Frame e f fuel m o e1, count_chunk-Frame chunk o.0 o.1, e2)

  pub move_chunk-Frame :
      (e : Env) (f : Option Flag) (fuel : ℕ) (chunk : List ℕ) (m : Machine F) (n : Outcome F)
      → move_chunk e f fuel chunk m ≡ some n
      → Frame m n.0
  unfolding move_chunk emergency_stop
  move_chunk-Frame e f fuel chunk m n h =
      let m1 = (poll e f m).0 in
      let (m2, r) = send_symbols e f 10 (map symbol chunk) m1 in
      ground (
        arith,
        poll-Frame e f m,
        send_symbols-Frame e f 10 (map symbol chunk) m1,
        finish_chunk-Frame e f fuel chunk m2 r n,
      )

  move_chunks-Frame :
      (e : Env) (f : Option Flag) (fuel rounds : ℕ) (xs : List ℕ) (m : Machine F) (n : Outcome F)
      → move_chunks e f fuel rounds xs m ≡ some n
      → Frame m n.0
  unfolding move_chunks
  move_chunks-Frame e f fuel zero xs m n h = ground (arith, Frame-refl m)
  move_chunks-Frame e f fuel (suc rounds) [] m n h = ground (arith, Frame-refl m)
  move_chunks-Frame e f fuel (suc rounds) (x ∷ xs) m n h =
      let (o, e1, e2) = >>=-eq-some (move_chunk e f fuel (take 128 (x ∷ xs)) m) _ h in
      ground (
        arith,
        move_chunk-Frame e f fuel (take 128 (x ∷ xs)) m o e1,
        move_chunks-Frame e f fuel rounds (drop 128 (x ∷ xs)) o.0 n,
        e2,
      )

  -- A move changes neither the burette's state nor any pin but the driver's enable pin, leaves the
  -- queues alone and clears no stop flag.
  pub move_steps_intervals-Frame :
      (e : Env) (f : Option Flag) (fuel : ℕ) (xs : List ℕ) (m : Machine F) (n : Outcome F)
      → move_steps_intervals e f fuel xs m ≡ some n
      → Frame m n.0
  unfolding move_steps_intervals
  move_steps_intervals-Frame e f fuel xs m n h = move_chunks-Frame e f fuel (length xs) xs m n h
