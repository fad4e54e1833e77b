-- ===== src/Motor/Stepper/Prompt.antt =====
-- A move ends where the RMT is prompt, whatever the stop flags do.
use esp32_rs_on_idf.Common.{
  ℕ, zero, suc, ◌<◌, ◌≢◌, inl, inr, Option, none, Option-cases, List, [], ◌∷◌, map, take, drop,
  length, arith,
}
use esp32_rs_on_idf.Domain.Types.{StepperError, Result, ok, unexpected}
use esp32_rs_on_idf.Motor.Machine.{esp_err_timeout, Flag, Env, Machine, poll}
use esp32_rs_on_idf.Motor.Stepper.{
  symbol, send_symbols, wait_done, finish_chunk, move_chunk, move_chunks, move_steps_intervals,
}

-- No wait for the RMT times out.
abbrev pub Prompt : Env → Type 0
Prompt e = (k : ℕ) → e.wait_all_done k ≢ esp_err_timeout

module _ {F : Type 0} (e : Env) (prompt : Prompt e) (f : Option Flag) where
  wait_done_prompt : (fuel : ℕ) (m : Machine F) → 0 < fuel → wait_done e f fuel m ≢ none
  unfolding wait_done
  wait_done_prompt zero m some_fuel = absurd (omega arith)
  wait_done_prompt (suc fuel) m some_fuel = ground (arith, prompt m.clock)

  finish_chunk_prompt :
      (fuel : ℕ) (chunk : List ℕ) (m : Machine F) (r : Result (Unit {0}) StepperError)
      → 0 < fuel
      → finish_chunk e f fuel chunk m r ≢ none
  unfolding finish_chunk
  finish_chunk_prompt fuel chunk m (unexpected err) some_fuel = λ h. cc
  finish_chunk_prompt fuel chunk m (ok _) some_fuel = elim (Option-cases (wait_done e f fuel m)) [
    | inl e0 ↦ absurd (wait_done_prompt fuel m some_fuel e0)
    | inr (o, e1) ↦ rw e1 (λ h. cc)
  ]

  move_chunk_prompt :
      (fuel : ℕ) (chunk : List ℕ) (m : Machine F) → 0 < fuel → move_chunk e f fuel chunk m ≢ none
  unfolding move_chunk
  move_chunk_prompt fuel chunk m some_fuel =
      let (m2, r) = send_symbols e f 10 (map symbol chunk) (poll e f m).0 in
      ground (arith, finish_chunk_prompt fuel chunk m2 r some_fuel)

  move_chunks_prompt :
      (fuel rounds : ℕ) (xs : List ℕ) (m : Machine F)
      → 0 < fuel
      → move_chunks e f fuel rounds xs m ≢ none
  unfolding move_chunks
  move_chunks_prompt fuel zero xs m some_fuel = λ h. cc
  move_chunks_prompt fuel (suc rounds) [] m some_fuel = λ h. cc
  move_chunks_prompt fuel (suc rounds) (x ∷ xs) m some_fuel =
      let chunk = take 128 (x ∷ xs) in
      elim (Option-cases (move_chunk e f fuel chunk m)) [
        | inl e0 ↦ absurd (move_chunk_prompt fuel chunk m some_fuel e0)
        | inr (o, e1) ↦
            rw e1 (ground (arith, move_chunks_prompt fuel rounds (drop 128 (x ∷ xs)) o.0 some_fuel))
      ]

  pub move_steps_intervals_prompt :
      (fuel : ℕ) (xs : List ℕ) (m : Machine F)
      → 0 < fuel
      → move_steps_intervals e f fuel xs m ≢ none
  unfolding move_steps_intervals
  move_steps_intervals_prompt fuel xs m some_fuel =
      move_chunks_prompt fuel (length xs) xs m some_fuel
