-- ===== src/Motor/Motion/Steps.antt =====
-- How far a move by a number of steps gets.
use esp32_rs_on_idf.Common.{
  ℕ, zero, suc, ◌+◌, ◌-◌, ◌*◌, ◌/◌, ◌≤◌, ◌<◌, ◌≡◌, Bool-cases, inl, inr, ◌==◌, Option, some,
  >>=-eq-some, else_eq, replicate, length-replicate, u32, arith,
}
use Prim.Native.Nat.{min}
use mathlib.Core.Path.{subst}
use esp32_rs_on_idf.Common.Int.{ℤ, pos, negsuc, pos_part}
use esp32_rs_on_idf.Domain.Types.{error, limit_switch_triggered, ok, unexpected}
use esp32_rs_on_idf.Motor.Machine.{stop_full, Env, Machine, advance}
use esp32_rs_on_idf.Motor.Stepper.{Outcome, move_steps_intervals}
use esp32_rs_on_idf.Motor.Stepper.Position.{Covers, move_steps_intervals-Covers}
use esp32_rs_on_idf.Motor.Motion.{move_loop, execute_move_steps, dir_level, clamp_speed}

-- The position went up by at most `k` steps.
pub record Advanced {F : Type 0} (k : ℕ) (m n : Machine F) : Type 0 where
  pub by : ℕ
  pub at_most : by ≤ k
  pub position : n.position ≡ u32 (m.position + by)

module _ {F : Type 0} where
  Covers-Advanced :
      (k c : ℕ) (m : Machine F) (o : Outcome F) → c ≤ k → Covers c m o → Advanced k m o.0
  Covers-Advanced k c m (o, ok _) h v = record { by = c; at_most = h; position = v }
  Covers-Advanced k c m (o, unexpected _) h (j, less, p) = record {
    by = j * 128;
    at_most = omega arith;
    position = p;
  }

  -- One round, once the move that it makes has ended with `o`.
  after_round :
      (c k : ℕ) (m : Machine F) (o : Outcome F) (n : Machine F) (rest : Option (Machine F))
      → c ≤ k
      → Covers c m o
      → (o.0.position < 4_294_967_296 → rest ≡ some n → Advanced (k - c) o.0 n)
      → ◌≡◌ {A = Option (Machine F)}
          (elim o.1 [
            | ok _ ↦ rest
            | unexpected limit_switch_triggered ↦ some (record o.0 { burette_state = error })
            | unexpected _ ↦ some o.0
          ])
          (some n)
      → Advanced k m n
  after_round c k m (o, ok _) n rest le v later h =
      let a = later (omega (arith, v)) h in
      record {
        by = c + a.by;
        at_most = omega (arith, a.at_most);
        position = omega (arith, a.position, v);
      }
  after_round c k m (o, unexpected err) n rest le v later h =
      let a = Covers-Advanced k c m (o, unexpected err) le v in
      record { by = a.by; at_most = a.at_most; position = ground (arith, a.position) }

  pub move_loop-Advanced :
      (e : Env) (fuel rounds interval remaining : ℕ) (m n : Machine F)
      → m.position < 4_294_967_296
      → move_loop e fuel rounds interval remaining m ≡ some n
      → Advanced remaining m n
  unfolding move_loop
  move_loop-Advanced e fuel zero interval remaining m n wide h = record {
    by = 0;
    at_most = omega arith;
    position = ground arith;
  }
  move_loop-Advanced e fuel (suc rounds) interval remaining m n wide h =
      elim (Bool-cases (remaining == 0)) [
        | inl over ↦ record { by = 0; at_most = omega arith; position = ground arith }
        | inr more ↦ elim (Bool-cases ((advance e m).full_flag)) [
          | inl stop ↦ record { by = 0; at_most = omega arith; position = ground arith }
          | inr go ↦
              let m1 = advance e m in
              let c = min remaining 128 in
              let h1 = else_eq (remaining == 0) _ more h in
              let h2 = else_eq m1.full_flag _ go h1 in
              let (o, e1, e2) =
                >>=-eq-some (move_steps_intervals e (some stop_full) fuel (replicate c interval) m1)
                  _ h2 in
              let v =
                move_steps_intervals-Covers e (some stop_full) fuel (replicate c interval) m1 o wide
                  e1 in
              let a =
                after_round c remaining m1 o n
                  (move_loop e fuel rounds interval (remaining - c) o.0) (omega arith)
                  (subst (λ k. Covers k m1 o) (length-replicate c interval) v)
                  (λ wide1 g.
                    move_loop-Advanced e fuel rounds interval (remaining - c) o.0 n wide1 g)
                  e2 in
              record { by = a.by; at_most = a.at_most; position = a.position }
        ]
      ]

  -- A move by a number of steps that ends advances the position by at most that number, and by
  -- nothing if the number is not positive.
  pub execute_move_steps-Advanced :
      (e : Env) (fuel : ℕ) (steps : ℤ) (m n : Machine F)
      → m.position < 4_294_967_296
      → execute_move_steps e fuel steps m ≡ some n
      → Advanced (pos_part steps) m n
  unfolding execute_move_steps
  execute_move_steps-Advanced e fuel (negsuc k) m n wide h = record {
    by = 0;
    at_most = omega arith;
    position = ground arith;
  }
  execute_move_steps-Advanced e fuel (pos zero) m n wide h = record {
    by = 0;
    at_most = omega arith;
    position = ground arith;
  }
  execute_move_steps-Advanced e fuel (pos (suc k)) m n wide h =
      let a =
        move_loop-Advanced e fuel (suc k) (1_000_000 / clamp_speed m.speed) (suc k)
          (record m { dir_pin = dir_level m.direction }) n wide h in
      record { by = a.by; at_most = a.at_most; position = a.position }
