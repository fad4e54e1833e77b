-- ===== src/Motor/Homing/Outcome.antt =====
-- How a homing ends.
use esp32_rs_on_idf.Common.{
  ℕ, zero, suc, ◌≤◌, ◌≡◌, refl, true, false, ◌||◌, Bool-cases, inl, inr, leb→le, leb, sub32, Option,
  some, ◌>>=◌, >>=-eq-some, else_eq, then_eq, replicate, arith,
}
use mathlib.Core.Path.{subst}
use mathlib.Core.Option.{some-injective}
use esp32_rs_on_idf.Domain.Types.{idle, error, limit_switch_triggered, ok, unexpected}
use esp32_rs_on_idf.Motor.Machine.{Flag, stop_full, stop_empty, Env, Machine, advance}
use esp32_rs_on_idf.Motor.Stepper.{Outcome, emergency_stop, enable, move_steps_intervals}
use esp32_rs_on_idf.Motor.Homing.{
  Progress, not_yet, counted, check_homing_termination, homing_loop, post_homing_cleanup,
  run_homing, home_interval_us,
}

-- Some look at the tick count found the time to be up.
abbrev pub TimeUp : Env → ℕ → Type 0
TimeUp e start = (k : ℕ) × (2000 ≤ sub32 (e.tick_count k) start)

-- What the loop knows of its variables.
record Sound (e : Env) (start : ℕ) (p : Progress) : Type 0 where
  pub not_failed : p.failed ≡ false
  pub in_time : p.timed_out ≡ true → TimeUp e start

counted-Sound : (e : Env) (start : ℕ) (p : Progress) → Sound e start p → Sound e start (counted p)
counted-Sound e start p s = record { not_failed = s.not_failed; in_time = s.in_time }

-- Why the loop ended: a failed move, a limit switch, or the time.
data Ended {F : Type 0} (e : Env) (start : ℕ) (m : Machine F) (p : Progress) : Type 0 where
  by_failure : p.failed ≡ true → m.burette_state ≡ error → Ended e start m p
  by_switch : p.failed ≡ false → p.homed ≡ true → Ended e start m p
  by_time : p.failed ≡ false → p.homed ≡ false → TimeUp e start → Ended e start m p

module _ {F : Type 0} where
  check-Sound :
      (e : Env) (start : ℕ) (p : Progress) (m : Machine F)
      → Sound e start p
      → Sound e start (check_homing_termination e start p m).1
  unfolding check_homing_termination
  check-Sound e start p m s =
      let m1 = advance e m in
      elim (Bool-cases m1.full_flag) [
        | inl stop ↦ rw stop (record { not_failed = s.not_failed; in_time = s.in_time })
        | inr go ↦ elim (Bool-cases (leb 2000 (sub32 (e.tick_count m1.clock) start))) [
          | inl late ↦
              rw (go, late)
                (record { not_failed = s.not_failed; in_time = λ _. (m1.clock, leb→le _ _ late) })
          | inr early ↦ rw (go, early) s
        ]
      ]

  Sound-Ended :
      (e : Env) (start : ℕ) (p : Progress) (m : Machine F)
      → Sound e start p
      → (p.homed || p.timed_out || p.failed) ≡ true
      → Ended e start m p
  Sound-Ended e start p m s h = elim (Bool-cases p.homed) [
    | inl hit ↦ by_switch s.not_failed hit
    | inr miss ↦ by_time s.not_failed miss (s.in_time (ground (arith, miss, s.not_failed, h)))
  ]

  -- Where the check says that the loop should stop, it has set a flag.
  check_stops :
      (e : Env) (start : ℕ) (p : Progress) (m : Machine F)
      → (check_homing_termination e start p m).2 ≡ true
      → let p' = (check_homing_termination e start p m).1 in
        (p'.homed || p'.timed_out || p'.failed) ≡ true
  unfolding check_homing_termination
  check_stops e start p m h = ground arith

  -- What follows the move of a round, whose two ways on end as the loop does.
  after_move :
      (e : Env) (start : ℕ) (p : Progress) (o : Outcome F) (n : Machine F × Progress)
      (moved hit : Option (Machine F × Progress))
      → (moved ≡ some n → Ended e start n.0 n.1)
      → (hit ≡ some n → Ended e start n.0 n.1)
      → ◌≡◌ {A = Option (Machine F × Progress)}
          (elim o.1 [
            | ok _ ↦ moved
            | unexpected limit_switch_triggered ↦ hit
            | unexpected _ ↦ some (record o.0 { burette_state = error }, record p { failed = true })
          ])
          (some n)
      → Ended e start n.0 n.1
  after_move e start p (o, ok _) n moved hit on_moved on_hit h = on_moved h
  after_move e start p (o, unexpected limit_switch_triggered) n moved hit on_moved on_hit h =
      on_hit h
  after_move e start p (o, unexpected _) n moved hit on_moved on_hit h =
      subst (λ n. Ended e start n.0 n.1) (some-injective _ _ h) (by_failure refl refl)

  homing_loop-Ended :
      (e : Env) (fuel rounds start : ℕ) (p : Progress) (m : Machine F) (n : Machine F × Progress)
      → Sound e start p
      → homing_loop e fuel rounds start p m ≡ some n
      → Ended e start n.0 n.1
  unfolding homing_loop
  homing_loop-Ended e fuel zero start p m n s h = cc
  homing_loop-Ended e fuel (suc rounds) start p m n s h =
      let checked = check_homing_termination e start p m in
      let s1 = check-Sound e start p m s in
      elim (Bool-cases (p.homed || p.timed_out || p.failed)) [
        | inl over ↦
            let same = some-injective _ _ (then_eq _ _ over h) in
            subst (λ n. Ended e start n.0 n.1) same (Sound-Ended e start p m s over)
        | inr more ↦ elim (Bool-cases checked.2) [
          | inl stop ↦
              let same = some-injective _ _ (then_eq _ _ stop (else_eq _ _ more h)) in
              subst (λ n. Ended e start n.0 n.1) same
                (Sound-Ended e start checked.1 checked.0 s1 (check_stops e start p m stop))
          | inr go ↦
              let h2 = else_eq _ _ go (else_eq _ _ more h) in
              let (o, e1, e2) =
                >>=-eq-some
                  (move_steps_intervals e (some stop_full) fuel (replicate 128 home_interval_us)
                    checked.0)
                  _ h2 in
              let next = λ (q : Progress) (sq : Sound e start q).
                let again = check_homing_termination e start q o.0 in
                homing_loop-Ended e fuel rounds start again.1 again.0 n
                  (check-Sound e start q o.0 sq) in
              let s2 = counted-Sound e start checked.1 s1 in
              after_move e start checked.1 o n _ _ (next (counted checked.1) s2)
                (next (counted (record checked.1 { homed = true }))
                  (record { not_failed = s2.not_failed; in_time = s2.in_time }))
                e2
        ]
      ]

-- How `run_homing` leaves the machine.
pub data Homed {F : Type 0} (e : Env) (start : ℕ) (n : Machine F) : Type 0 where
  found : n.burette_state ≡ idle → n.position ≡ 0 → n.full_flag ≡ false → Homed e start n
  gave_up : n.burette_state ≡ idle → TimeUp e start → Homed e start n
  broke : n.burette_state ≡ error → Homed e start n

module _ {F : Type 0} where
  cleanup-Homed :
      (e : Env) (start : ℕ) (p : Progress) (m : Machine F)
      → Ended e start m p
      → Homed e start (post_homing_cleanup e p m)
  unfolding post_homing_cleanup emergency_stop enable
  cleanup-Homed e start p m (by_failure f s) = rw f (broke s)
  cleanup-Homed e start p m (by_switch f h) = rw (f, h) (found refl refl refl)
  cleanup-Homed e start p m (by_time f h t) = rw (f, h) (gave_up refl t)

  cleanup-en_pin : (e : Env) (p : Progress) (m : Machine F) → (post_homing_cleanup e p m).en_pin ≡ 0
  unfolding post_homing_cleanup emergency_stop enable
  cleanup-en_pin e p m = ground arith

  run_from :
      (e : Env) (fuel start : ℕ) (m n : Machine F)
      → (homing_loop e fuel fuel start not_yet m >>= λ (m4, p'). some (post_homing_cleanup e p' m4))
        ≡ some n
      → Homed e start n × (n.en_pin ≡ 0)
  run_from e fuel start m n h =
      let ((m4, p'), e1, e2) = >>=-eq-some (homing_loop e fuel fuel start not_yet m) _ h in
      let fresh : Sound e start not_yet = record { not_failed = refl; in_time = λ h. cc } in
      let ended = homing_loop-Ended e fuel fuel start not_yet m (m4, p') fresh e1 in
      subst (λ n. Homed e start n × (n.en_pin ≡ 0)) (some-injective _ _ e2)
        (cleanup-Homed e start p' m4 ended, cleanup-en_pin e p' m4)

  -- A homing that ends leaves the burette idle at position 0 with the full switch's flag clear, or
  -- idle because a look at the tick count, read modulo 2 ^ 32, found 2000 ms to be over, or in the error state. The
  -- driver is enabled in all three cases.
  pub run_homing-Homed :
      (e : Env) (fuel : ℕ) (switch : Flag) (m n : Machine F)
      → run_homing e fuel switch m ≡ some n
      → Homed e (e.tick_count m.clock) n × (n.en_pin ≡ 0)
  unfolding run_homing
  run_homing-Homed e fuel stop_full m n h = run_from e fuel (e.tick_count m.clock) _ n h
  run_homing-Homed e fuel stop_empty m n h = run_from e fuel (e.tick_count m.clock) _ n h
