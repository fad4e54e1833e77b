-- ===== src/Motor/Stepper.antt =====
-- components/infrastructure/src/drivers/stepper.cpp: `StepperMotor`. The loop that waits for the RMT
-- has no bound in the source; it takes fuel here, and `none` says that it still waits.
pub mod Progress
pub mod Position
pub mod Ends
pub mod Prompt
use esp32_rs_on_idf.Common.{
  ℕ, zero, suc, ◌+◌, ◌-◌, ◌/◌, ◌%◌, Bool, true, false, if◌then◌else◌, leb, u16, u32, Option, none,
  some, ◌>>=◌, List, [], ◌∷◌, length, take, drop, map,
}
use esp32_rs_on_idf.Domain.Types.{StepperError, rmt, limit_switch_triggered, Result, ok, unexpected}
use esp32_rs_on_idf.Motor.Machine.{
  EspErr, esp_ok, esp_err_invalid_state, esp_err_timeout, Symbol, Flag, Env, Machine, advance, poll,
}

abbrev pub rmt_chunk_symbols : ℕ
rmt_chunk_symbols = 128

abbrev pub max_retries : ℕ
max_retries = 10

-- A duration of ESP-IDF's `rmt_symbol_word_t` is a bit-field of 15 bits.
abbrev pub duration_bits : ℕ → ℕ
duration_bits n = u16 n % 32_768

-- One step: a pulse of 5 us, or of half the interval if that is short, and then low.
unfoldable pub symbol : ℕ → Symbol
symbol interval =
    let pulse_us = if leb interval 10 then interval / 2 else 5 in
    record {
      duration0 = duration_bits pulse_us;
      level0 = 1;
      duration1 = duration_bits (interval - pulse_us);
      level1 = 0;
    }

abbrev pub Outcome : Type 0 → Type 0
Outcome F = Machine F × Result (Unit {0}) StepperError

module _ {F : Type 0} where
  -- Active low: 1 disables the driver. The wait with timeout 0 is one look at the outside.
  unfoldable pub emergency_stop : Env → Machine F → Machine F
  emergency_stop e m = advance e (record m { en_pin = 1 })

  unfoldable pub enable : Machine F → Machine F
  enable m = record m { en_pin = 0 }

  unfoldable pub disable : Machine F → Machine F
  disable m = record m { en_pin = 1 }

  abbrev pub triggered : Env → Machine F → Outcome F
  triggered e m = (emergency_stop e m, unexpected limit_switch_triggered)

  -- The loop round `rmt_transmit`, with the retries that are left.
  unfoldable pub send_symbols : Env → Option Flag → ℕ → List Symbol → Machine F → Outcome F
  send_symbols e f zero symbols m =
      let (m1, stop) = poll e f m in
      let m2 = advance e m1 in
      if stop then triggered e m1 else elim (e.transmit m1.clock) [
        | esp_ok ↦ (record m2 { sent = symbols ∷ m2.sent }, ok tt)
        | _ ↦ (m2, unexpected rmt)
      ]
  send_symbols e f (suc retries) symbols m =
      let (m1, stop) = poll e f m in
      let m2 = advance e m1 in
      let again = send_symbols e f retries symbols m2 in
      if stop then triggered e m1 else elim (e.transmit m1.clock) [
        | esp_ok ↦ (record m2 { sent = symbols ∷ m2.sent }, ok tt)
        | esp_err_invalid_state ↦ again
        | _ ↦ (m2, unexpected rmt)
      ]

  -- The loop round `rmt_tx_wait_all_done`.
  unfoldable pub wait_done : Env → Option Flag → ℕ → Machine F → Option (Outcome F)
  wait_done e f zero m = none
  wait_done e f (suc fuel) m =
      let m1 = advance e m in
      let (m2, stop) = poll e f m1 in
      let again = wait_done e f fuel m2 in
      elim (e.wait_all_done m.clock) [
        | esp_ok ↦ some (m1, ok tt)
        | esp_err_timeout ↦ if stop then some (triggered e m2) else again
        | _ ↦ some (m1, unexpected rmt)
      ]

  -- The position counts a chunk once the RMT has sent it.
  unfoldable pub count_chunk : List ℕ → Machine F → Result (Unit {0}) StepperError → Outcome F
  count_chunk chunk m (unexpected err) = (m, unexpected err)
  count_chunk chunk m (ok _) = (record m { position = u32 (m.position + length chunk) }, ok tt)

  -- What follows a transmission.
  unfoldable pub finish_chunk :
      Env
      → Option Flag
      → ℕ
      → List ℕ
      → Machine F
      → Result (Unit {0}) StepperError
      → Option (Outcome F)
  finish_chunk e f fuel chunk m (unexpected err) = some (m, unexpected err)
  finish_chunk e f fuel chunk m (ok _) = do
    (m', r) ← wait_done e f fuel m
    some (count_chunk chunk m' r)

  -- One round of the outer loop, on a chunk that is not empty.
  unfoldable pub move_chunk : Env → Option Flag → ℕ → List ℕ → Machine F → Option (Outcome F)
  move_chunk e f fuel chunk m =
      let (m1, stop) = poll e f m in
      let (m2, r) = send_symbols e f max_retries (map symbol chunk) m1 in
      if stop then some (triggered e m1) else finish_chunk e f fuel chunk m2 r

  -- The rounds of the outer loop, at most as many as there are intervals.
  unfoldable pub move_chunks : Env → Option Flag → ℕ → ℕ → List ℕ → Machine F → Option (Outcome F)
  move_chunks e f fuel zero intervals m = some (m, ok tt)
  move_chunks e f fuel (suc rounds) [] m = some (m, ok tt)
  move_chunks e f fuel (suc rounds) (i ∷ is) m = do
    (m1, r) ← move_chunk e f fuel (take rmt_chunk_symbols (i ∷ is)) m
    elim r [
      | unexpected err ↦ some (m1, unexpected err)
      | ok _ ↦ move_chunks e f fuel rounds (drop rmt_chunk_symbols (i ∷ is)) m1
    ]

  unfoldable pub move_steps_intervals :
      Env → Option Flag → ℕ → List ℕ → Machine F → Option (Outcome F)
  move_steps_intervals e f fuel intervals m = move_chunks e f fuel (length intervals) intervals m
