-- ===== src/Motor/Homing/Ends.antt =====
-- A homing ends once the full switch closes, whatever the RMT and the tick count do.
use esp32_rs_on_idf.Common.{
  ℕ, sub32, leb, zero, suc, ◌+◌, ◌≤◌, ◌<◌, ◌≡◌, ◌≢◌, true, false, ◌||◌, Bool-cases, inl, inr, Bool,
  ◌>>=◌, none, some, Option, Option-cases, List, replicate, arith,
}
use esp32_rs_on_idf.Domain.Types.{error, limit_switch_triggered, ok, unexpected}
use esp32_rs_on_idf.Motor.Machine.{Flag, stop_full, stop_empty, Env, Machine, advance}
use esp32_rs_on_idf.Motor.Stepper.{Outcome, move_steps_intervals}
use esp32_rs_on_idf.Motor.Stepper.Progress.{move_steps_intervals-Frame}
use esp32_rs_on_idf.Motor.Stepper.Ends.{
  Due, advance-Due, move_steps_intervals-Due, move_steps_intervals_ends,
}
use esp32_rs_on_idf.Motor.Stepper.Prompt.{Prompt, move_steps_intervals_prompt}
use esp32_rs_on_idf.Motor.Homing.{
  Progress, not_yet, counted, check_homing_termination, homing_loop, post_homing_cleanup,
  run_homing, home_interval_us,
}
use esp32_rs_on_idf.Motor.Homing.Outcome.{Homed, run_homing-Homed}

rounds_left :
    (t : ℕ) (stop : Bool)
    → stop ≡ false
    → (rounds clock : ℕ) → (t ≤ clock → stop ≡ true)
    → t + 2 ≤ clock + suc rounds
    → 0 < rounds
rounds_left t stop go zero clock late left = cc (late (omega arith))
rounds_left t stop go (suc rounds) clock late left = omega arith

-- What makes a homing end: `Inv` holds of the machine, a check from look `t` on says that homing
-- should stop, and every move ends.
record Stops {F : Type 0} (e : Env) (start t : ℕ) (Inv : Machine F → Type 0) : Type 0 where
  of_check : (p : Progress) (m : Machine F) → Inv m → Inv (check_homing_termination e start p m).0
  of_move :
      (fuel : ℕ) (xs : List ℕ) (m : Machine F) (o : Outcome F)
      → Inv m
      → move_steps_intervals e (some stop_full) fuel xs m ≡ some o
      → Inv o.0
  late :
      (p : Progress) (m : Machine F)
      → Inv m
      → t ≤ m.clock
      → (check_homing_termination e start p m).2 ≡ true
  move_ends :
      (fuel : ℕ) (xs : List ℕ) (m : Machine F)
      → Inv m
      → 0 < fuel
      → t + 2 ≤ m.clock + fuel
      → move_steps_intervals e (some stop_full) fuel xs m ≢ none

-- A check looks at the outside.
check_later :
    {F : Type 0} (e : Env) (start : ℕ) (p : Progress) (m : Machine F)
    → m.clock + 1 ≤ (check_homing_termination e start p m).0.clock
unfolding check_homing_termination
check_later e start p m = ground arith

after_move_ends :
    {F : Type 0} (p : Progress) (o : Outcome F) (moved hit : Option (Machine F × Progress))
    → moved ≢ none
    → hit ≢ none
    → ◌≢◌ {A = Option (Machine F × Progress)}
        (elim o.1 [
          | ok _ ↦ moved
          | unexpected limit_switch_triggered ↦ hit
          | unexpected _ ↦ some (record o.0 { burette_state = error }, record p { failed = true })
        ])
        none
after_move_ends p (o, ok _) moved hit h k = h
after_move_ends p (o, unexpected limit_switch_triggered) moved hit h k = k
after_move_ends p (o, unexpected _) moved hit h k = λ e. cc

module _ {F : Type 0} (e : Env) (start t : ℕ) {Inv : Machine F → Type 0}
    (stops : Stops e start t Inv) where
  homing_loop_ends :
      (fuel rounds : ℕ) (p : Progress) (m : Machine F)
      → Inv m
      → 0 < fuel
      → t + 2 ≤ m.clock + fuel
      → 0 < rounds
      → t + 2 ≤ m.clock + rounds
      → homing_loop e fuel rounds start p m ≢ none
  unfolding homing_loop
  homing_loop_ends fuel zero p m d some_fuel enough some_rounds left = absurd (omega arith)
  homing_loop_ends fuel (suc rounds) p m d some_fuel enough some_rounds left =
      let (m1, p1, stop) = check_homing_termination e start p m in
      let d1 = stops.of_check p m d in
      let later = check_later e start p m in
      let late = stops.late p m d in
      elim (Bool-cases (p.homed || p.timed_out || p.failed)) [
        | inl over ↦ rw over (λ h. cc)
        | inr more ↦ elim (Bool-cases stop) [
          | inl now ↦ rw (more, now) (λ h. cc)
          | inr go ↦
              let xs = replicate 128 home_interval_us in
              rw (more, go)
                (elim (Option-cases (move_steps_intervals e (some stop_full) fuel xs m1)) [
                  | inl e0 ↦
                      absurd (stops.move_ends fuel xs m1 d1 some_fuel (omega (arith, later)) e0)
                  | inr (o, e1) ↦
                      let moved =
                        (move_steps_intervals-Frame e (some stop_full) fuel xs m1 o e1).later in
                      let d2 = stops.of_move fuel xs m1 o d1 e1 in
                      let some_more : 0 < rounds =
                        rounds_left t stop go rounds (m.clock) late left in
                      let next = λ (q : Progress).
                        let again = check_homing_termination e start q o.0 in
                        let later2 = check_later e start q o.0 in
                        homing_loop_ends fuel rounds again.1 again.0 (stops.of_check q o.0 d2)
                          some_fuel (omega (arith, later, moved, later2)) some_more
                          (omega (arith, later, moved, later2)) in
                      rw e1 (
                        after_move_ends p1 o _ _ (next (counted p1))
                          (next (counted (record p1 { homed = true }))))
                ])
        ]
      ]

  run_from_ends :
      (fuel : ℕ) (m : Machine F)
      → Inv m
      → 0 < fuel
      → t + 2 ≤ m.clock + fuel
      → (homing_loop e fuel fuel start not_yet m >>= λ (m4, p'). some (post_homing_cleanup e p' m4))
        ≢ none
  run_from_ends fuel m d some_fuel enough =
      elim (Option-cases (homing_loop e fuel fuel start not_yet m)) [
        | inl e0 ↦
            absurd (homing_loop_ends fuel fuel not_yet m d some_fuel enough some_fuel enough e0)
        | inr (o, e1) ↦ rw e1 (λ h. cc)
      ]

module _ {F : Type 0} (e : Env) (start t : ℕ) where
  -- The full switch closes at look `t`.
  by_switch : e.full t ≡ true → Stops {F = F} e start t (Due stop_full t)
  unfolding check_homing_termination
  by_switch set = record {
    of_check = λ p m d.
        let d1 = advance-Due e stop_full t set m d in
        ground (arith, d1, advance-Due e stop_full t set (advance e m) d1);
    of_move = λ fuel xs m o d h. move_steps_intervals-Due e stop_full t set fuel xs m o d h;
    late = λ p m d from. let d1 = advance-Due e stop_full t set m d in ground (arith, d1);
    move_ends = λ fuel xs m d some_fuel enough.
        move_steps_intervals_ends e stop_full t set fuel xs m d some_fuel enough;
  }

  -- The RMT is never slow, and the looks at the tick count from `t` on find the time to be over.
  by_time :
      Prompt e
      → ((k : ℕ) → t ≤ k → 2000 ≤ sub32 (e.tick_count k) start)
      → Stops {F = F} e start t (λ m. Unit)
  unfolding check_homing_termination
  by_time prompt over = record {
    of_check = λ p m d. tt;
    of_move = λ fuel xs m o d h. tt;
    late = λ p m d from.
        let up : leb 2000 (sub32 (e.tick_count (m.clock + 1)) start) ≡ true =
          ground (arith, over (m.clock + 1) (omega arith)) in
        ground (arith, up);
    move_ends = λ fuel xs m d some_fuel enough.
        move_steps_intervals_prompt e prompt (some stop_full) fuel xs m some_fuel;
  }

-- Why a homing that starts at look `from` comes to an end: the full switch closes at look `t`, or
-- the waits for the RMT are prompt and 2000 ms have passed at every look from `t` on.
pub data Ending (e : Env) (from t : ℕ) : Type 0 where
  closes_at : e.full t ≡ true → Ending e from t
  over_at :
      Prompt e
      → ((k : ℕ) → t ≤ k → 2000 ≤ sub32 (e.tick_count k) (e.tick_count from))
      → Ending e from t

module _ {F : Type 0} (e : Env) (t : ℕ) where
  run_homing_ends :
      (fuel : ℕ) (switch : Flag) (m : Machine F)
      → Ending e m.clock t
      → m.clock ≤ t
      → t + 2 ≤ m.clock + fuel
      → run_homing e fuel switch m ≢ none
  unfolding run_homing
  run_homing_ends fuel stop_full m (closes_at set) from enough =
      run_from_ends e (e.tick_count m.clock) t (by_switch e (e.tick_count m.clock) t set) fuel _
        (ground arith) (omega arith) (omega arith)
  run_homing_ends fuel stop_empty m (closes_at set) from enough =
      run_from_ends e (e.tick_count m.clock) t (by_switch e (e.tick_count m.clock) t set) fuel _
        (ground arith) (omega arith) (omega arith)
  run_homing_ends fuel stop_full m (over_at prompt over) from enough =
      run_from_ends e (e.tick_count m.clock) t (by_time e (e.tick_count m.clock) t prompt over) fuel
        _ tt (omega arith) (omega arith)
  run_homing_ends fuel stop_empty m (over_at prompt over) from enough =
      run_from_ends e (e.tick_count m.clock) t (by_time e (e.tick_count m.clock) t prompt over) fuel
        _ tt (omega arith) (omega arith)

  -- Where the full switch closes at a look `t` after the start, whatever the RMT and the tick count
  -- do, or where the RMT makes no wait time out and 2000 ms are over at every look from `t` on, a
  -- homing ends, with fuel for the looks up to then. It leaves the burette idle at position 0 with
  -- the full switch's flag clear, or idle because a look at the tick count, read modulo 2 ^ 32, found
  -- 2000 ms to be over, or in the error state. The driver is enabled in all three cases.
  pub run_homing_ends-Homed :
      (fuel : ℕ) (switch : Flag) (m : Machine F)
      → Ending e m.clock t
      → m.clock ≤ t
      → t + 2 ≤ m.clock + fuel
      → (n : Machine F) × (run_homing e fuel switch m ≡ some n)
        × Homed e (e.tick_count m.clock) n
        × (n.en_pin ≡ 0)
  run_homing_ends-Homed fuel switch m ending from enough =
      elim (Option-cases (run_homing e fuel switch m)) [
        | inl e0 ↦ absurd (run_homing_ends fuel switch m ending from enough e0)
        | inr (n, e1) ↦
            let (homed, enabled) = run_homing-Homed e fuel switch m n e1 in (n, e1, homed, enabled)
      ]
