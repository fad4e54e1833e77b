-- ===== src/Motor/Stepper/Ends.antt =====
-- A move ends once its stop flag is set, whatever the RMT does.
use esp32_rs_on_idf.Common.{
  ℕ, zero, suc, ◌+◌, ◌≤◌, ◌<◌, ◌≡◌, ◌≢◌, Bool, true, inl, inr, none, some, >>=-eq-some,
  Option-cases, List, [], ◌∷◌, map, take, drop, length, arith,
}
use esp32_rs_on_idf.Domain.Types.{StepperError, Result, ok, unexpected}
use esp32_rs_on_idf.Motor.Machine.{
  Symbol, Flag, stop_full, stop_empty, Env, Machine, advance, load_flag,
}
use esp32_rs_on_idf.Motor.Stepper.Progress.{send_symbols-Frame, move_chunk-Frame}
use esp32_rs_on_idf.Motor.Stepper.{
  symbol, Outcome, emergency_stop, send_symbols, wait_done, count_chunk, finish_chunk, move_chunk,
  move_chunks, move_steps_intervals,
}

-- What the outside sets at look `t`.
abbrev pub stream : Env → Flag → ℕ → Bool
stream e stop_full = e.full
stream e stop_empty = e.empty

-- After that look the flag is set.
abbrev pub Due : {F : Type 0} → Flag → ℕ → Machine F → Type 0
Due f t m = t < m.clock → load_flag f m ≡ true

module _ {F : Type 0} (e : Env) (f : Flag) (t : ℕ) (set : stream e f t ≡ true) where
  pub advance-Due : (m : Machine F) → Due f t m → Due f t (advance e m)
  advance-Due m h = ground arith

  pub emergency_stop-Due : (m : Machine F) → Due f t m → Due f t (emergency_stop e m)
  unfolding emergency_stop
  emergency_stop-Due m h = ground arith

  send_symbols-Due :
      (retries : ℕ) (symbols : List Symbol) (m : Machine F)
      → Due f t m
      → Due f t (send_symbols e (some f) retries symbols m).0
  unfolding send_symbols
  send_symbols-Due zero symbols m h =
      let h1 = advance-Due m h in
      ground (arith, h1, advance-Due (advance e m) h1, emergency_stop-Due (advance e m) h1)
  send_symbols-Due (suc retries) symbols m h =
      let h1 = advance-Due m h in
      let h2 = advance-Due (advance e m) h1 in
      ground (
        arith,
        h2,
        emergency_stop-Due (advance e m) h1,
        send_symbols-Due retries symbols (advance e (advance e m)) h2,
      )

  wait_done-Due :
      (fuel : ℕ) (m : Machine F) (n : Outcome F)
      → Due f t m
      → wait_done e (some f) fuel m ≡ some n
      → Due f t n.0
  unfolding wait_done
  wait_done-Due zero m n d h = cc
  wait_done-Due (suc fuel) m n d h =
      let d1 = advance-Due m d in
      let d2 = advance-Due (advance e m) d1 in
      ground (
        arith,
        d1,
        emergency_stop-Due (advance e (advance e m)) d2,
        wait_done-Due fuel (advance e (advance e m)) n d2,
      )

  wait_done_ends :
      (fuel : ℕ) (m : Machine F)
      → Due f t m
      → 0 < fuel
      → t + 2 ≤ m.clock + fuel
      → wait_done e (some f) fuel m ≢ none
  unfolding wait_done
  wait_done_ends zero m d some_fuel enough = absurd (omega arith)
  wait_done_ends (suc fuel) m d some_fuel enough =
      let d2 = advance-Due (advance e m) (advance-Due m d) in
      ground (arith, d2, wait_done_ends fuel (advance e (advance e m)) d2)

  finish_chunk-Due :
      (fuel : ℕ) (chunk : List ℕ) (m : Machine F) (r : Result (Unit {0}) StepperError)
      (n : Outcome F)
      → Due f t m
      → finish_chunk e (some f) fuel chunk m r ≡ some n
      → Due f t n.0
  unfolding finish_chunk count_chunk
  finish_chunk-Due fuel chunk m (unexpected err) n d h = ground arith
  finish_chunk-Due fuel chunk m (ok _) n d h =
      let (o, e1, e2) = >>=-eq-some (wait_done e (some f) fuel m) _ h in
      ground (arith, wait_done-Due fuel m o d e1, e2)

  finish_chunk_ends :
      (fuel : ℕ) (chunk : List ℕ) (m : Machine F) (r : Result (Unit {0}) StepperError)
      → Due f t m
      → 0 < fuel
      → t + 2 ≤ m.clock + fuel
      → finish_chunk e (some f) fuel chunk m r ≢ none
  unfolding finish_chunk
  finish_chunk_ends fuel chunk m (unexpected err) d some_fuel enough = λ h. cc
  finish_chunk_ends fuel chunk m (ok _) d some_fuel enough =
      elim (Option-cases (wait_done e (some f) fuel m)) [
        | inl e0 ↦ absurd (wait_done_ends fuel m d some_fuel enough e0)
        | inr (o, e1) ↦ rw e1 (λ h. cc)
      ]

  move_chunk-Due :
      (fuel : ℕ) (chunk : List ℕ) (m : Machine F) (n : Outcome F)
      → Due f t m
      → move_chunk e (some f) fuel chunk m ≡ some n
      → Due f t n.0
  unfolding move_chunk
  move_chunk-Due fuel chunk m n d h =
      let d1 = advance-Due m d in
      let (m2, r) = send_symbols e (some f) 10 (map symbol chunk) (advance e m) in
      ground (
        arith,
        emergency_stop-Due (advance e m) d1,
        finish_chunk-Due fuel chunk m2 r n
            (send_symbols-Due 10 (map symbol chunk) (advance e m) d1),
      )

  move_chunk_ends :
      (fuel : ℕ) (chunk : List ℕ) (m : Machine F)
      → Due f t m
      → 0 < fuel
      → t + 2 ≤ m.clock + fuel
      → move_chunk e (some f) fuel chunk m ≢ none
  unfolding move_chunk
  move_chunk_ends fuel chunk m d some_fuel enough =
      let d1 = advance-Due m d in
      let (m2, r) = send_symbols e (some f) 10 (map symbol chunk) (advance e m) in
      let later = (send_symbols-Frame e (some f) 10 (map symbol chunk) (advance e m)).later in
      ground (
        arith,
        finish_chunk_ends fuel chunk m2 r (send_symbols-Due 10 (map symbol chunk) (advance e m) d1)
            some_fuel (omega (arith, later)),
      )

  move_chunks-Due :
      (fuel rounds : ℕ) (xs : List ℕ) (m : Machine F) (n : Outcome F)
      → Due f t m
      → move_chunks e (some f) fuel rounds xs m ≡ some n
      → Due f t n.0
  unfolding move_chunks
  move_chunks-Due fuel zero xs m n d h = ground arith
  move_chunks-Due fuel (suc rounds) [] m n d h = ground arith
  move_chunks-Due fuel (suc rounds) (x ∷ xs) m n d h =
      let (o, e1, e2) = >>=-eq-some (move_chunk e (some f) fuel (take 128 (x ∷ xs)) m) _ h in
      let d' = move_chunk-Due fuel (take 128 (x ∷ xs)) m o d e1 in
      ground (arith, d', move_chunks-Due fuel rounds (drop 128 (x ∷ xs)) o.0 n d', e2)

  move_chunks_ends :
      (fuel rounds : ℕ) (xs : List ℕ) (m : Machine F)
      → Due f t m
      → 0 < fuel
      → t + 2 ≤ m.clock + fuel
      → move_chunks e (some f) fuel rounds xs m ≢ none
  unfolding move_chunks
  move_chunks_ends fuel zero xs m d some_fuel enough = λ h. cc
  move_chunks_ends fuel (suc rounds) [] m d some_fuel enough = λ h. cc
  move_chunks_ends fuel (suc rounds) (x ∷ xs) m d some_fuel enough =
      let chunk = take 128 (x ∷ xs) in
      elim (Option-cases (move_chunk e (some f) fuel chunk m)) [
        | inl e0 ↦ absurd (move_chunk_ends fuel chunk m d some_fuel enough e0)
        | inr (o, e1) ↦
            let later = (move_chunk-Frame e (some f) fuel chunk m o e1).later in
            rw e1 (
              ground (
                arith,
                move_chunks_ends fuel rounds (drop 128 (x ∷ xs)) o.0
                    (move_chunk-Due fuel chunk m o d e1) some_fuel (omega (arith, later)),
              ))
      ]

  pub move_steps_intervals-Due :
      (fuel : ℕ) (xs : List ℕ) (m : Machine F) (n : Outcome F)
      → Due f t m
      → move_steps_intervals e (some f) fuel xs m ≡ some n
      → Due f t n.0
  unfolding move_steps_intervals
  move_steps_intervals-Due fuel xs m n d h = move_chunks-Due fuel (length xs) xs m n d h

  -- If the outside sets the stop flag at its look `t` and no earlier setting is lost, a move ends:
  -- fuel for the looks up to `t` is enough.
  pub move_steps_intervals_ends :
      (fuel : ℕ) (xs : List ℕ) (m : Machine F)
      → Due f t m
      → 0 < fuel
      → t + 2 ≤ m.clock + fuel
      → move_steps_intervals e (some f) fuel xs m ≢ none
  unfolding move_steps_intervals
  move_steps_intervals_ends fuel xs m d some_fuel enough =
      move_chunks_ends fuel (length xs) xs m d some_fuel enough
