-- ===== src/Examples/Domain.antt =====
-- The theorems about the domain and the application layer at concrete inputs.
use Prim.Native.String.{String}
use esp32_rs_on_idf.Common.{
  some, ℕ, ◌≤◌, ◌≡◌, ◌↔◌, ◌⊎◌, true, false, if◌then◌else◌, List, [], ◌∷◌, arith,
}
use esp32_rs_on_idf.Common.Int.{ℤ, pos, ltb_ℤ}
use esp32_rs_on_idf.Common.Float.{fixed_point}
use esp32_rs_on_idf.Domain.Types.{filling, stop, stopping, ok}
use esp32_rs_on_idf.Common.Text.{codes}
use esp32_rs_on_idf.Domain.LogBuffer.{Slot, stored_slot, fetch}
use esp32_rs_on_idf.Domain.LogBuffer.History
use esp32_rs_on_idf.Domain.LogBuffer.History.{Entry, Call, pushed, cleared, fetch-after}
use esp32_rs_on_idf.Domain.Burette.{BuretteController, transition}
use esp32_rs_on_idf.Domain.Burette.Graph.{Allowed, transition-Allowed}
use esp32_rs_on_idf.Domain.CalSpeedSeq.{start, run, is_complete}
use esp32_rs_on_idf.Domain.CalSpeedSeq.Counts.{
  Inv, empties, empties_by, run-start-Inv, run-start_completes,
}
use esp32_rs_on_idf.Domain.Calibration.{CalibrationData, VolumeTracker}
use esp32_rs_on_idf.Application.StateMachine.{
  initial, start_operation, tick, is_ready, finished, pending_watchdog_ms,
}
use esp32_rs_on_idf.Application.StateMachine.Timeout.{tick-start_operation}

abbrev busy_filling : BuretteController
busy_filling = record { state = filling }

transition-Allowed_example :
    (transition busy_filling stop ≡ (record { state = stopping }, ok tt))
    ↔ Allowed filling stop stopping
transition-Allowed_example = transition-Allowed busy_filling stop stopping

-- Twelve ticks, 1000 ms apart, on a counter that wraps after the second.
abbrev ticks : List ℕ
ticks =
    4_294_966_000 ∷ 4_294_967_000 ∷ 704 ∷ 1704 ∷ 2704 ∷ 3704 ∷ 4704 ∷ 5704 ∷ 6704 ∷ 7704 ∷ 8704
    ∷ 9704 ∷ []

abbrev points : List ℕ
points = 300 ∷ 600 ∷ 900 ∷ []

run-start-Inv_example :
    let (t, actions) = run ⦃o = fixed_point⦄ (start {F = ℤ} ⦃o = fixed_point⦄ points) ticks in
    Inv t × (empties actions ≡ empties_by t.phase t.seq_idx)
run-start-Inv_example = run-start-Inv {F = ℤ} ⦃o = fixed_point⦄ points ticks

run-start_completes_example :
    is_complete (run ⦃o = fixed_point⦄ (start {F = ℤ} ⦃o = fixed_point⦄ points) ticks).0 ≡ true
run-start_completes_example =
    run-start_completes ℤ ⦃o = fixed_point⦄ points ticks 4_294_965_000
      (
        omega arith,
        (
          omega arith,
          (
            omega arith,
            (
              omega arith,
              (
                omega arith,
                (
                  omega arith,
                  (
                    omega arith,
                    (omega arith, (omega arith, (omega arith, (omega arith, (omega arith, tt))))),
                  ),
                ),
              ),
            ),
          ),
        ),
      )
      (omega arith)

abbrev calibrated : CalibrationData ℤ
calibrated = record {
  steps_per_ml = pos 7_730_000_000;
  nominal_volume_ml = pos 50_000_000;
  speed_coeff = pos 30_520;
  min_freq_hz = 30;
  max_freq_hz = 3000;
}

ltb_ℤ_irreflexive : (x : ℤ) → ltb_ℤ x x ≡ false
ltb_ℤ_irreflexive x = ground arith

abbrev half_full : VolumeTracker ℤ
half_full = record { current_volume_ml = pos 25_000_000 }

-- An operation of 50 ticks of 10 ms that starts just before the counter wraps.
tick-start_operation_example :
    let (m', finish) = tick 10 (start_operation initial 4_294_967_290 50) 40 in
    ((finish ≡ true) ↔ ((50 ≤ 46) ⊎ (pending_watchdog_ms ≤ 460)))
    × (is_ready m' ≡ finish)
    × (m' ≡ (
        if finish
        then finished (start_operation initial 4_294_967_290 50)
        else start_operation initial 4_294_967_290 50))
tick-start_operation_example =
    tick-start_operation initial 10 4_294_967_290 50 46 (omega arith) (omega arith) (omega arith)

abbrev message : ℕ → String → Call
message at level =
    pushed (record { timestamp_ms = at; level = codes level; message = codes "hello" })

abbrev shown : ℕ → String → Slot
shown at level = record { timestamp_ms = at; level = codes level; message = codes "hello" }

-- Five messages after a clear, in a buffer of four.
abbrev calls : List Call
calls =
    message 9 "I"
    ∷ message 8 "W"
    ∷ message 7 "I"
    ∷ message 6 "I"
    ∷ message 5 "I"
    ∷ cleared
    ∷ message 4 "I"
    ∷ []

fetch-after_example :
    fetch 2 (some (codes "I")) (History.after 4 calls) ≡ shown 9 "I" ∷ shown 7 "I" ∷ []
unfolding stored_slot
fetch-after_example = fetch-after 4 2 (some (codes "I")) calls (omega arith) (omega arith)
