-- ===== src/Motor/Motion/Ends.antt =====
-- A move to an end stop ends once its flag is set.
use esp32_rs_on_idf.Common.{
  ℕ, zero, suc, ◌+◌, ◌/◌, ◌≤◌, ◌<◌, ◌≡◌, ◌≢◌, true, false, Bool-cases, inl, inr, none, some,
  Option-cases, List, replicate, arith,
}
use esp32_rs_on_idf.Domain.Types.{Direction, liq_in, liq_out}
use esp32_rs_on_idf.Motor.Machine.{Flag, stop_full, stop_empty, Env, Machine, advance, load_flag}
use esp32_rs_on_idf.Motor.Stepper.{rmt_chunk_symbols, move_steps_intervals}
use esp32_rs_on_idf.Motor.Stepper.Progress.{move_steps_intervals-Frame}
use esp32_rs_on_idf.Motor.Stepper.Ends.{
  stream, Due, advance-Due, move_steps_intervals-Due, move_steps_intervals_ends,
}
use esp32_rs_on_idf.Motor.Motion.{endstop_loop, move_to_endstop, move_fill, move_empty, dir_level}

module _ {F : Type 0} (e : Env) (f : Flag) (t : ℕ) (set : stream e f t ≡ true) where
  endstop_loop_ends :
      (fuel rounds : ℕ) (intervals : List ℕ) (m : Machine F)
      → Due f t m
      → 0 < fuel
      → t + 2 ≤ m.clock + fuel
      → 0 < rounds
      → t + 2 ≤ m.clock + rounds
      → endstop_loop e fuel rounds f intervals m ≢ none
  unfolding endstop_loop
  endstop_loop_ends fuel zero intervals m d some_fuel enough some_rounds left = absurd (omega arith)
  endstop_loop_ends fuel (suc rounds) intervals m d some_fuel enough some_rounds left =
      let m1 = advance e m in
      let d1 = advance-Due e f t set m d in
      elim (Bool-cases (load_flag f m1)) [
        | inl stop ↦ rw stop (λ h. cc)
        | inr go ↦ rw go (elim (Option-cases (move_steps_intervals e (some f) fuel intervals m1)) [
          | inl e0 ↦
              absurd (
                move_steps_intervals_ends e f t set fuel intervals m1 d1 some_fuel (omega arith) e0)
          | inr (o, e1) ↦
              let later = (move_steps_intervals-Frame e (some f) fuel intervals m1 o e1).later in
              let d2 = move_steps_intervals-Due e f t set fuel intervals m1 o d1 e1 in
              rw e1 (
                ground (
                  arith,
                  endstop_loop_ends fuel rounds intervals o.0 d2 some_fuel (omega (arith, later)),
                  d1,
                  later,
                ))
        ])
      ]

-- The outside sets the flag again and again, at most `b` looks apart: the carriage, driven on,
-- reaches its limit switch.
abbrev pub Recurs : Env → Flag → ℕ → Type 0
Recurs e f b = (n : ℕ) → (t : ℕ) × (n ≤ t) × (t ≤ n + b) × (stream e f t ≡ true)

module _ {F : Type 0} (e : Env) (fuel b : ℕ) (enough : b + 2 ≤ fuel) where
  move_to_endstop_ends :
      (dir : Direction) (hz : ℕ) (f : Flag) (m : Machine F)
      → Recurs e f b
      → move_to_endstop e fuel dir hz f m ≢ none
  unfolding move_to_endstop
  move_to_endstop_ends dir hz stop_full m recurs =
      let m0 = record m { dir_pin = dir_level dir; full_flag = false } in
      let (t, from, to, set) = recurs m.clock in
      elim (Option-cases
        (endstop_loop e fuel fuel stop_full (replicate rmt_chunk_symbols (1_000_000 / hz)) m0)) [
          | inl e0 ↦ absurd (
              endstop_loop_ends e stop_full t set fuel fuel _ m0 (λ past. absurd (omega arith))
                (omega arith) (omega arith) (omega arith) (omega arith) e0)
          | inr (o, e1) ↦ rw e1 (λ h. cc)
        ]
  move_to_endstop_ends dir hz stop_empty m recurs =
      let m0 = record m { dir_pin = dir_level dir; empty_flag = false } in
      let (t, from, to, set) = recurs m.clock in
      elim (Option-cases
        (endstop_loop e fuel fuel stop_empty (replicate rmt_chunk_symbols (1_000_000 / hz)) m0)) [
          | inl e0 ↦ absurd (
              endstop_loop_ends e stop_empty t set fuel fuel _ m0 (λ past. absurd (omega arith))
                (omega arith) (omega arith) (omega arith) (omega arith) e0)
          | inr (o, e1) ↦ rw e1 (λ h. cc)
        ]

  pub move_fill_ends :
      (hz : ℕ) (m : Machine F)
      → Recurs e stop_full b
      → (n : Machine F) × (move_fill e fuel hz m ≡ some n)
  unfolding move_fill
  move_fill_ends hz m recurs = elim (Option-cases (move_fill e fuel hz m)) [
    | inl e0 ↦ absurd (move_to_endstop_ends liq_in hz stop_full _ recurs e0)
    | inr found ↦ found
  ]

  pub move_empty_ends :
      (hz : ℕ) (m : Machine F)
      → Recurs e stop_empty b
      → (n : Machine F) × (move_empty e fuel hz m ≡ some n)
  unfolding move_empty
  move_empty_ends hz m recurs = elim (Option-cases (move_empty e fuel hz m)) [
    | inl e0 ↦ absurd (move_to_endstop_ends liq_out hz stop_empty _ recurs e0)
    | inr found ↦ found
  ]
