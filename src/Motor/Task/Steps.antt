-- ===== src/Motor/Task/Steps.antt =====
-- What the motor task reports of a move by a number of steps.
use esp32_rs_on_idf.Common.{
  ℕ, zero, suc, ◌+◌, ◌/◌, ◌≤◌, ◌<◌, ◌≡◌, refl, true, false, some, >>=-eq-some, replicate, u32,
  arith,
}
use mathlib.Core.Path.{ap, subst}
use mathlib.Core.Option.{some-injective}
use esp32_rs_on_idf.Common.Int.{ℤ, pos, negsuc, pos_part, signed32, ◌-ℤ◌}
use esp32_rs_on_idf.Common.Float.{FloatOps}
use esp32_rs_on_idf.Domain.Types.{idle}
use esp32_rs_on_idf.Motor.Machine.{plain, Env, Machine, advance}
use esp32_rs_on_idf.Motor.Motion.{
  execute_move_steps, move_loop, store_result, clamp_speed, dir_level,
}
use esp32_rs_on_idf.Motor.Motion.Steps.{execute_move_steps-Advanced}
use esp32_rs_on_idf.Motor.Motion.Pulses.{Sends}
use esp32_rs_on_idf.Motor.Stepper.{symbol}
use esp32_rs_on_idf.Motor.Motion.Quiet.{Quiet, execute_move_steps_quiet}
use esp32_rs_on_idf.Motor.Runners.{plain_result}
use esp32_rs_on_idf.Motor.Task.{
  magnitude, handle_move_steps, handle_emergency_stop, move_steps, step,
}

magnitude_forward :
    (p q j : ℕ)
    → p + j < 2_147_483_648
    → q ≡ u32 (p + j)
    → magnitude (signed32 q -ℤ signed32 p) ≡ pos j
unfolding ◌-ℤ◌
magnitude_forward p q j h e = ground arith

magnitude_still : (p : ℕ) → magnitude (signed32 p -ℤ signed32 p) ≡ pos 0
unfolding ◌-ℤ◌
magnitude_still p = ground arith

-- The machine is idle, it stands `by` steps further, and that is what it has reported.
pub record Reported {F : Type 0} ⦃o : FloatOps F⦄ (by : ℕ) (m n : Machine F) : Type 0 where
  pub position : n.position ≡ m.position + by
  pub state : n.burette_state ≡ idle
  pub result : n.result ≡ (plain_result plain (pos by) m).result

module _ {F : Type 0} ⦃o : FloatOps F⦄ where
  stored-Reported :
      (by : ℕ) (m n : Machine F)
      → n.position ≡ u32 (m.position + by)
      → m.position + by < 2_147_483_648
      → Reported by m
          (plain_result plain (magnitude (signed32 n.position -ℤ signed32 m.position)) n)
  unfolding store_result
  stored-Reported by m n p small = record {
    position = omega (arith, p);
    state = refl;
    result =
        ap (λ x. (plain_result plain x m).result)
          (magnitude_forward m.position n.position by small p);
  }

  -- Where the position stays below 2 ^ 31, a `MoveSteps` that ends leaves the burette idle, has
  -- advanced the position by at most the number asked (by nothing if that is negative), and reports
  -- exactly the steps that the position has counted.
  pub handle_move_steps-Reported :
      (e : Env) (fuel : ℕ) (steps : ℤ) (m n : Machine F)
      → m.position + pos_part steps < 2_147_483_648
      → handle_move_steps e fuel steps m ≡ some n
      → (by : ℕ) × (by ≤ pos_part steps) × Reported by m n
  unfolding handle_move_steps
  handle_move_steps-Reported e fuel steps m n small h =
      let (m1, e1, e2) = >>=-eq-some (execute_move_steps e fuel steps m) _ h in
      let a = execute_move_steps-Advanced e fuel steps m m1 (omega arith) e1 in
      let r = stored-Reported a.by m m1 a.position (omega (arith, a.at_most)) in
      (a.by, a.at_most, subst (Reported a.by m) (some-injective _ _ e2) r)

  -- Where nothing asks for a stop and the RMT does what it is told, a `MoveSteps` of `k` steps ends.
  -- It has sent exactly `k` symbols to the RMT, each that of one step at the clamped speed, with the
  -- direction on its pin if there is a step, and reports `k` steps. The flag is not set before, and
  -- the position stays below 2 ^ 31.
  pub handle_move_steps_arrives :
      (e : Env) (fuel k : ℕ) (m : Machine F)
      → Quiet e
      → m.full_flag ≡ false
      → m.position + k < 2_147_483_648
      → (n : Machine F) × (handle_move_steps e (suc fuel) (pos k) m ≡ some n)
        × Sends (replicate k (symbol (1_000_000 / clamp_speed m.speed))) m n
        × (0 < k → n.dir_pin ≡ dir_level m.direction)
        × Reported k m n
  unfolding handle_move_steps store_result
  handle_move_steps_arrives e fuel k m q unset small =
      let (a, dir) = execute_move_steps_quiet e q fuel k m unset (omega arith) in
      (
        _,
        rw a.ends refl,
        record { chunks = a.sends.chunks; sent = a.sends.sent; all_sent = a.sends.all_sent },
        dir,
        stored-Reported k m a.at a.counts small,
      )

  move_loop_stopped :
      (e : Env) (fuel rounds interval k : ℕ) (m : Machine F)
      → m.full_flag ≡ true
      → move_loop e fuel (suc rounds) interval (suc k) m ≡ some (advance e m)
  unfolding move_loop
  move_loop_stopped e fuel rounds interval k m set = ground arith

  -- After an emergency stop a `MoveSteps` of any number ends without a pulse or a change of the
  -- position, and reports 0 steps. It leaves the burette idle: the error state is gone.
  pub emergency_stop-move_steps :
      (e : Env) (fuel : ℕ) (steps : ℤ) (m : Machine F)
      → (n : Machine F) × (step e fuel (move_steps steps) (handle_emergency_stop m) ≡ some n)
        × (n.sent ≡ m.sent)
        × (n.position ≡ m.position)
        × (n.burette_state ≡ idle)
        × (n.result ≡ (plain_result plain (pos 0) m).result)
  unfolding step handle_move_steps handle_emergency_stop execute_move_steps move_loop store_result
  emergency_stop-move_steps e fuel (negsuc k) m = (
    _,
    refl,
    refl,
    refl,
    refl,
    ap (λ x. (plain_result plain x m).result) (magnitude_still m.position),
  )
  emergency_stop-move_steps e fuel (pos zero) m = (
    _,
    refl,
    refl,
    refl,
    refl,
    ap (λ x. (plain_result plain x m).result) (magnitude_still m.position),
  )
  emergency_stop-move_steps e fuel (pos (suc k)) m =
      let e0 =
        move_loop_stopped e fuel k (1_000_000 / clamp_speed m.speed) k
          (record (handle_emergency_stop m) { dir_pin = dir_level m.direction }) refl in
      let m1 = advance e (record (handle_emergency_stop m) { dir_pin = dir_level m.direction }) in
      (
        plain_result plain (magnitude (signed32 m.position -ℤ signed32 m.position)) m1,
        rw e0 refl,
        refl,
        refl,
        refl,
        ap (λ x. (plain_result plain x m).result) (magnitude_still m.position),
      )
