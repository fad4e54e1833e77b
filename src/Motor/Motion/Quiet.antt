-- ===== src/Motor/Motion/Quiet.antt =====
-- A move by a number of steps that nothing disturbs.
use esp32_rs_on_idf.Common.{
  ℕ, zero, suc, ◌+◌, ◌-◌, ◌/◌, ◌≤◌, ◌<◌, ◌≡◌, refl, false, ◌==◌, Option, some, List, [], ◌∷◌, ◌++◌,
  map, take, drop, replicate, length, length-replicate, u32, arith, else_is,
}
use Prim.Native.Nat.{min}
use mathlib.Core.Path.{subst, ◌∙◌}
use esp32_rs_on_idf.Common.Int.{pos}
use esp32_rs_on_idf.Domain.Types.{ok}
use esp32_rs_on_idf.Motor.Machine.{esp_ok, stop_full, Symbol, Env, Machine, advance}
use esp32_rs_on_idf.Motor.Stepper.{
  symbol, Outcome, send_symbols, wait_done, count_chunk, finish_chunk, move_chunk, move_chunks,
  move_steps_intervals,
}
use esp32_rs_on_idf.Motor.Stepper.Position.{length-split, move_steps_intervals-Covers}
use esp32_rs_on_idf.Motor.Motion.Pulses.{
  Sends, Sends-nothing, Sends-trans, map-split, map-replicate, replicate-append,
}
use esp32_rs_on_idf.Motor.Motion.{move_loop, execute_move_steps, dir_level, clamp_speed}

-- No stop is asked for, and the RMT does what it is told.
pub record Quiet (e : Env) : Type 0 where
  pub full : (k : ℕ) → e.full k ≡ false
  pub transmit : (k : ℕ) → e.transmit k ≡ esp_ok
  pub wait_all_done : (k : ℕ) → e.wait_all_done k ≡ esp_ok

-- A move that ends well, finds no stop flag set, and has sent the symbols of its intervals.
pub record Arrives {F : Type 0} (intervals : List ℕ) (m : Machine F) (o : Option (Outcome F))
    : Type 0 where
  pub at : Machine F
  pub ends : o ≡ some (at, ok tt)
  pub unset : at.full_flag ≡ false
  pub sends : Sends (map symbol intervals) m at
  pub same_dir : at.dir_pin ≡ m.dir_pin

-- A loop that ends where it has sent its steps and counted them.
pub record Stepped {F : Type 0} (k interval : ℕ) (m : Machine F) (o : Option (Machine F))
    : Type 0 where
  pub at : Machine F
  pub ends : o ≡ some at
  pub counts : at.position ≡ u32 (m.position + k)
  pub sends : Sends (replicate k (symbol interval)) m at

stay :
    {F : Type 0} (interval : ℕ) (m : Machine F)
    → m.position < 4_294_967_296
    → (a : Stepped 0 interval m (some m)) × (a.at.dir_pin ≡ m.dir_pin)
stay interval m wide =
    (record { at = m; ends = refl; counts = omega arith; sends = Sends-nothing m m refl }, refl)

module _ {F : Type 0} (e : Env) (q : Quiet e) (fuel : ℕ) where
  send_symbols_quiet :
      (symbols : List Symbol) (m : Machine F)
      → m.full_flag ≡ false
      → (m2 : Machine F) × (send_symbols e (some stop_full) 10 symbols m ≡ (m2, ok tt))
        × (m2.full_flag ≡ false)
        × (m2.sent ≡ symbols ∷ m.sent)
        × (m2.dir_pin ≡ m.dir_pin)
  unfolding send_symbols
  send_symbols_quiet symbols m unset =
      let m1 = advance e (advance e m) in
      (
        record m1 { sent = symbols ∷ m.sent },
        ground (arith, unset, q.full m.clock, q.transmit (m.clock + 1)),
        ground (arith, unset, q.full m.clock, q.full (m.clock + 1)),
        refl,
        refl,
      )

  wait_done_quiet :
      (m : Machine F)
      → m.full_flag ≡ false
      → (m2 : Machine F) × (wait_done e (some stop_full) (suc fuel) m ≡ some (m2, ok tt))
        × (m2.full_flag ≡ false)
        × (m2.sent ≡ m.sent)
        × (m2.dir_pin ≡ m.dir_pin)
  unfolding wait_done
  wait_done_quiet m unset = (
    advance e m,
    ground (arith, unset, q.wait_all_done m.clock),
    ground (arith, unset, q.full m.clock),
    refl,
    refl,
  )

  move_chunk-Arrives :
      (chunk : List ℕ) (m : Machine F)
      → m.full_flag ≡ false
      → Arrives chunk m (move_chunk e (some stop_full) (suc fuel) chunk m)
  unfolding move_chunk finish_chunk count_chunk
  move_chunk-Arrives chunk m unset =
      let m1 = advance e m in
      let u1 : m1.full_flag ≡ false = ground (arith, unset, q.full m.clock) in
      let (m2, e2, u2, s2, d2) = send_symbols_quiet (map symbol chunk) m1 u1 in
      let (m3, e3, u3, s3, d3) = wait_done_quiet m2 u2 in
      record {
        at = record m3 { position = u32 (m3.position + length chunk) };
        ends = ground (arith, u1, e2, e3);
        unset = u3;
        sends = record { chunks = map symbol chunk ∷ []; sent = s3 ∙ s2; all_sent = refl };
        same_dir = d3 ∙ d2;
      }

  pub move_chunks-Arrives :
      (rounds : ℕ) (xs : List ℕ) (m : Machine F)
      → length xs ≤ rounds
      → m.full_flag ≡ false
      → Arrives xs m (move_chunks e (some stop_full) (suc fuel) rounds xs m)
  unfolding move_chunks
  move_chunks-Arrives zero [] m fits unset = record {
    at = m;
    ends = refl;
    unset = unset;
    sends = Sends-nothing m m refl;
    same_dir = refl;
  }
  move_chunks-Arrives zero (x ∷ xs) m fits unset = absurd (omega arith)
  move_chunks-Arrives (suc rounds) [] m fits unset = record {
    at = m;
    ends = refl;
    unset = unset;
    sends = Sends-nothing m m refl;
    same_dir = refl;
  }
  move_chunks-Arrives (suc rounds) (x ∷ xs) m fits unset =
      let a = move_chunk-Arrives (take 128 (x ∷ xs)) m unset in
      let rest = drop 128 (x ∷ xs) in
      let b = move_chunks-Arrives rounds rest a.at (omega (arith, length-split 127 xs)) a.unset in
      record {
        at = b.at;
        ends = rw a.ends b.ends;
        unset = b.unset;
        sends =
            subst (λ t. Sends t m b.at) (map-split symbol 128 (x ∷ xs))
              (Sends-trans (map symbol (take 128 (x ∷ xs))) (map symbol rest) m a.at b.at a.sends
                b.sends);
        same_dir = b.same_dir ∙ a.same_dir;
      }

  -- Every round of the loop moves what it asks for.
  move_loop_quiet :
      (rounds interval remaining : ℕ) (m : Machine F)
      → m.full_flag ≡ false
      → m.position < 4_294_967_296
      → remaining ≤ rounds
      → (a : Stepped remaining interval m (move_loop e (suc fuel) rounds interval remaining m))
        × (a.at.dir_pin ≡ m.dir_pin)
  unfolding move_loop move_steps_intervals
  move_loop_quiet zero interval zero m unset wide fits = stay interval m wide
  move_loop_quiet zero interval (suc k) m unset wide fits = absurd (omega arith)
  move_loop_quiet (suc rounds) interval zero m unset wide fits = stay interval m wide
  move_loop_quiet (suc rounds) interval (suc k) m unset wide fits =
      let c = min (suc k) 128 in
      let xs = replicate c interval in
      let m1 = advance e m in
      let u1 : m1.full_flag ≡ false = ground (arith, unset, q.full m.clock) in
      let a = move_chunks-Arrives (length xs) xs m1 (omega arith) u1 in
      let v =
        move_steps_intervals-Covers e (some stop_full) (suc fuel) xs m1 (a.at, ok tt) wide a.ends in
      let p : a.at.position ≡ u32 (m.position + c) =
        subst (λ j. a.at.position ≡ u32 (m.position + j)) (length-replicate c interval) v in
      let (b, dir) =
        move_loop_quiet rounds interval (suc k - c) a.at a.unset (omega (arith, p)) (omega arith) in
      let first : Sends (replicate c (symbol interval)) m a.at = record {
        chunks = a.sends.chunks;
        sent = a.sends.sent;
        all_sent = a.sends.all_sent ∙ map-replicate symbol c interval;
      } in
      let whole : replicate c (symbol interval) ++ replicate (suc k - c) (symbol interval)
          ≡ replicate (suc k) (symbol interval) =
        replicate-append c (suc k - c) (suc k) (symbol interval) (omega arith) in
      let more : (suc k == 0) ≡ false = ground arith in
      (
        record {
          at = b.at;
          ends = rw more (else_is _ _ _ u1 ∙ rw a.ends b.ends);
          counts = omega (arith, p, b.counts);
          sends = subst (λ t. Sends t m b.at) whole (Sends-trans _ _ m a.at b.at first b.sends);
        },
        dir ∙ a.same_dir,
      )

  -- A move by any number of steps ends, sends a pulse for each of them and counts them. Its direction
  -- is on the pin, unless there is no step.
  pub execute_move_steps_quiet :
      (k : ℕ) (m : Machine F)
      → m.full_flag ≡ false
      → m.position < 4_294_967_296
      → (a : Stepped k
          (1_000_000 / clamp_speed m.speed)
          m
          (execute_move_steps e (suc fuel) (pos k) m))
        × (0 < k → a.at.dir_pin ≡ dir_level m.direction)
  unfolding execute_move_steps
  execute_move_steps_quiet zero m unset wide =
      ((stay _ m wide).0, λ some_step. absurd (omega arith))
  execute_move_steps_quiet (suc k) m unset wide =
      let (a, dir) =
        move_loop_quiet (suc k) (1_000_000 / clamp_speed m.speed) (suc k)
          (record m { dir_pin = dir_level m.direction }) unset wide (omega arith) in
      (
        record {
          at = a.at;
          ends = a.ends;
          counts = a.counts;
          sends = record {
            chunks = a.sends.chunks;
            sent = a.sends.sent;
            all_sent = a.sends.all_sent;
          };
        },
        λ some_step. dir,
      )
