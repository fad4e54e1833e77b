-- ===== src/Motor/Runners/Rinsing.antt =====
-- What a rinse does to the valve, and when it ends.
use esp32_rs_on_idf.Common.{
  ℕ, zero, suc, ◌+◌, ◌≤◌, ◌<◌, ◌≡◌, refl, Bool, true, false, Bool-cases, inl, inr, none, some,
  Option-cases, List, [], ◌∷◌, ◌++◌, replicate, arith, u8,
}
use esp32_rs_on_idf.Common.Int.{pos}
use esp32_rs_on_idf.Common.Float.{FloatOps, ltf, lit, ◌-f◌}
use mathlib.Core.List.{append_assoc}
use mathlib.Core.Path.{ap, sym, subst}
use esp32_rs_on_idf.Domain.Types.{
  ValvePosition, BuretteState, idle, filling, emptying, input, output,
}
use esp32_rs_on_idf.Domain.Rinse
use esp32_rs_on_idf.Domain.Rinse.{RinseSm}
use esp32_rs_on_idf.Motor.Machine.{rinse_complete, stop_full, stop_empty, Env, Machine}
use esp32_rs_on_idf.Motor.Motion.{move_fill, move_empty, valve_level, ml_min_to_hz, store_result}
use esp32_rs_on_idf.Motor.Motion.Effects.{Moved, move_fill-Moved, move_empty-Moved}
use esp32_rs_on_idf.Motor.Motion.Ends.{Recurs, move_fill_ends, move_empty_ends}
use esp32_rs_on_idf.Motor.Runners.{rinse_loop, run_rinse_sm, plain_result}

-- A rinse that has ended: the levels that it wrote to the valve's pin, newest first, and its result.
pub record Rinsed {F : Type 0} ⦃o : FloatOps F⦄ (levels : List ℕ) (m n : Machine F) : Type 0 where
  pub valve : n.valve_pin ≡ levels ++ m.valve_pin
  pub state : n.burette_state ≡ idle
  pub result : n.result ≡ (plain_result rinse_complete (pos 0) m).result

replicate-snoc : {A : Type 0} (k : ℕ) (a : A) → replicate k a ++ a ∷ [] ≡ a ∷ replicate k a
replicate-snoc zero a = refl
replicate-snoc (suc k) a = ap (◌∷◌ a) (replicate-snoc k a)

module _ {F : Type 0} ⦃o : FloatOps F⦄ where
  completed-Rinsed : (m : Machine F) → Rinsed [] m (plain_result rinse_complete (pos 0) m)
  unfolding store_result
  completed-Rinsed m = record { valve = refl; state = refl; result = refl }

  -- A move that wrote one level, before a rinse that wrote the others.
  after_move :
      (levels : List ℕ) (p : ValvePosition) (s : BuretteState) (m m1 n : Machine F)
      → Moved p s m m1
      → Rinsed levels m1 n
      → Rinsed (levels ++ valve_level p ∷ []) m n
  unfolding store_result
  after_move levels p s m m1 n moved r = record {
    valve =
        rw (append_assoc levels (valve_level p ∷ []) m.valve_pin) (rw (sym moved.valve) r.valve);
    state = r.state;
    result = r.result;
  }

-- The levels that a rinse of `suc k` cycles writes to the valve's pin, newest first.
abbrev pub rinse_levels : Bool → ℕ → List ℕ
rinse_levels true k = ((replicate k 1 ++ 0 ∷ []) ++ 1 ∷ []) ++ 0 ∷ []
rinse_levels false k = replicate k 1 ++ 0 ∷ []

abbrev in_phase : Rinse.Phase → ℕ → ℕ → RinseSm
in_phase phase total current = record {
  total_cycles = total;
  current_cycle = current;
  phase = phase;
  started = true;
}

module _ {F : Type 0} ⦃o : FloatOps F⦄ (e : Env) (fuel b : ℕ) (enough : b + 2 ≤ fuel)
    (full : Recurs e stop_full b) (empty : Recurs e stop_empty b) where
  -- In the filling phase with `k` cycles left the loop empties `k` times and completes.
  filling_loop :
      (k rounds hz total current : ℕ) (m : Machine F)
      → current + k ≡ total
      → total < 255
      → k < rounds
      → (n : Machine F) × (rinse_loop e fuel rounds hz (in_phase Rinse.filling total current) m
          ≡ some n)
        × Rinsed (replicate k 1) m n
  unfolding rinse_loop Rinse.on_motor_complete
  filling_loop k zero hz total current m c w r = absurd (omega arith)
  filling_loop zero (suc rounds) hz total current m c w r =
      (plain_result rinse_complete (pos 0) m, ground arith, completed-Rinsed m)
  filling_loop (suc k) (suc rounds) hz total current m c w r =
      let (m1, e1) = move_empty_ends e fuel b enough hz m empty in
      let (n, e2, v) =
        filling_loop k rounds hz total (current + 1) m1 (omega arith) w (omega arith) in
      let moved = move_empty-Moved e fuel hz m m1 e1 in
      (
        n,
        ground (arith, e1, e2),
        subst (λ l. Rinsed l m n) (replicate-snoc k 1)
            (after_move (replicate k 1) output emptying m m1 n moved v),
      )

  emptying_loop :
      (k rounds hz total : ℕ) (m : Machine F)
      → 1 + k ≡ total
      → total < 255
      → k + 1 < rounds
      → (n : Machine F) × (rinse_loop e fuel rounds hz (in_phase Rinse.emptying total 1) m ≡ some n)
        × Rinsed (replicate k 1 ++ 0 ∷ []) m n
  unfolding rinse_loop Rinse.on_motor_complete
  emptying_loop k zero hz total m c w r = absurd (omega arith)
  emptying_loop k (suc rounds) hz total m c w r =
      let (m1, e1) = move_fill_ends e fuel b enough hz m full in
      let (n, e2, v) = filling_loop k rounds hz total 1 m1 c w (omega arith) in
      let moved = move_fill-Moved e fuel hz m m1 e1 in
      (n, ground (arith, e1, e2), after_move (replicate k 1) input filling m m1 n moved v)

  pre_fill_loop :
      (k rounds hz total : ℕ) (m : Machine F)
      → 1 + k ≡ total
      → total < 255
      → k + 2 < rounds
      → (n : Machine F) × (rinse_loop e fuel rounds hz (in_phase Rinse.pre_fill total 1) m ≡ some n)
        × Rinsed ((replicate k 1 ++ 0 ∷ []) ++ 1 ∷ []) m n
  unfolding rinse_loop Rinse.on_motor_complete
  pre_fill_loop k zero hz total m c w r = absurd (omega arith)
  pre_fill_loop k (suc rounds) hz total m c w r =
      let (m1, e1) = move_empty_ends e fuel b enough hz m empty in
      let (n, e2, v) = emptying_loop k rounds hz total m1 c w (omega arith) in
      let moved = move_empty-Moved e fuel hz m m1 e1 in
      (
        n,
        ground (arith, e1, e2),
        after_move (replicate k 1 ++ 0 ∷ []) output emptying m m1 n moved v,
      )

  -- Where the two end stops recur within `b` looks, a rinse of `suc k` cycles, fewer than 255, ends
  -- idle with the result `rinse_complete`, and the valve has switched as `rinse_levels` says:
  -- from a full burette to the input once and then `k` times to the output, and otherwise
  -- to the input, the output, the input and then `k` times to the output.
  pub run_rinse_sm_ends :
      (speed : F) (k : ℕ) (current nominal : F) (m : Machine F)
      → suc k < 255
      → k + 3 ≤ fuel
      → (n : Machine F) × (run_rinse_sm e fuel speed (suc k) current nominal m ≡ some n)
        × Rinsed (rinse_levels (ltf current (nominal -f lit 1 2)) k) m n
  unfolding run_rinse_sm Rinse.start
  run_rinse_sm_ends speed k current nominal m w r =
      elim (Bool-cases (ltf current (nominal -f lit 1 2))) [
        | inl low ↦
            let hz = ml_min_to_hz speed in
            let (m1, e1) = move_fill_ends e fuel b enough hz m full in
            let (n, e2, v) = pre_fill_loop k fuel hz (suc k) m1 (omega arith) w (omega arith) in
            let moved = move_fill-Moved e fuel hz m m1 e1 in
            (
              n,
              rw low (rw e1 e2),
              rw low
                  (after_move ((replicate k 1 ++ 0 ∷ []) ++ 1 ∷ []) input filling m m1 n moved v),
            )
        | inr high ↦
            rw high
              (emptying_loop k fuel (ml_min_to_hz speed) (suc k) m (omega arith) w (omega arith))
      ]

module _ {F : Type 0} ⦃o : FloatOps F⦄ (e : Env) (fuel : ℕ) where
  filling_never_ends :
      (rounds hz current : ℕ) (m : Machine F)
      → rinse_loop e fuel rounds hz (in_phase Rinse.filling 255 current) m ≡ none
  unfolding rinse_loop Rinse.on_motor_complete
  filling_never_ends zero hz current m = refl
  filling_never_ends (suc rounds) hz current m = elim (Option-cases (move_empty e fuel hz m)) [
    | inl e0 ↦ ground (arith, e0)
    | inr (m1, e1) ↦ ground (arith, e1, filling_never_ends rounds hz (u8 (current + 1)) m1)
  ]

  emptying_never_ends :
      (rounds hz : ℕ) (m : Machine F)
      → rinse_loop e fuel rounds hz (in_phase Rinse.emptying 255 1) m ≡ none
  unfolding rinse_loop Rinse.on_motor_complete
  emptying_never_ends zero hz m = refl
  emptying_never_ends (suc rounds) hz m = elim (Option-cases (move_fill e fuel hz m)) [
    | inl e0 ↦ rw e0 refl
    | inr (m1, e1) ↦ rw e1 (filling_never_ends rounds hz 1 m1)
  ]

  pre_fill_never_ends :
      (rounds hz : ℕ) (m : Machine F)
      → rinse_loop e fuel rounds hz (in_phase Rinse.pre_fill 255 1) m ≡ none
  unfolding rinse_loop Rinse.on_motor_complete
  pre_fill_never_ends zero hz m = refl
  pre_fill_never_ends (suc rounds) hz m = elim (Option-cases (move_empty e fuel hz m)) [
    | inl e0 ↦ rw e0 refl
    | inr (m1, e1) ↦ rw e1 (emptying_never_ends rounds hz m1)
  ]

  -- A rinse of 255 cycles, the largest `uint8_t`, never ends, whatever the outside does and however
  -- long it runs: its counter wraps before it passes the total.
  pub run_rinse_sm_never_ends :
      (speed current nominal : F) (m : Machine F)
      → run_rinse_sm e fuel speed 255 current nominal m ≡ none
  unfolding run_rinse_sm Rinse.start
  run_rinse_sm_never_ends speed current nominal m =
      elim (Bool-cases (ltf current (nominal -f lit 1 2))) [
        | inl low ↦ elim (Option-cases (move_fill e fuel (ml_min_to_hz speed) m)) [
          | inl e0 ↦ rw low (rw e0 refl)
          | inr (m1, e1) ↦ rw low (rw e1 (pre_fill_never_ends fuel (ml_min_to_hz speed) m1))
        ]
        | inr high ↦ rw high (emptying_never_ends fuel (ml_min_to_hz speed) m)
      ]
