-- ===== src/Motor/Runners/Dosing.antt =====
-- What a dose calibration reports, and when it ends.
use esp32_rs_on_idf.Common.{
  ℕ, ◌+◌, ◌≤◌, ◌≡◌, refl, ap, ◌∙◌, Bool-cases, inl, inr, if◌then◌else◌, some, List, [], ◌∷◌, ◌++◌,
}
use esp32_rs_on_idf.Common.Int.{ℤ, pos, ltb_ℤ, ◌-ℤ◌}
use esp32_rs_on_idf.Common.Float.{FloatOps, ltf, lit, ◌-f◌}
use esp32_rs_on_idf.Domain.Types.{idle}
use esp32_rs_on_idf.Domain.CalDose
use esp32_rs_on_idf.Domain.CalDose.{CalDoseSm}
use esp32_rs_on_idf.Motor.Machine.{cal_dose_complete, stop_full, stop_empty, Env, Machine}
use esp32_rs_on_idf.Motor.Motion.{move_fill, ml_min_to_hz, store_result}
use esp32_rs_on_idf.Motor.Motion.Effects.{move_fill-Moved, move_empty-Moved}
use esp32_rs_on_idf.Motor.Motion.Ends.{Recurs, move_fill_ends, move_empty_ends}
use esp32_rs_on_idf.Motor.Runners.{
  plain_result, position_of, run_cal_dose_sm, dose_fill, dose_empty, dose_finish,
}

abbrev pub distance : ℤ → ℤ → ℤ
distance a b = let diff = a -ℤ b in if ltb_ℤ (pos 0) diff then diff else pos 0 -ℤ diff

-- A calibration that has ended: the levels written to the valve's pin, and the steps reported, which
-- are counted from `before`.
pub record Dosed {F : Type 0} ⦃o : FloatOps F⦄ (levels : List ℕ) (before : ℤ) (m n : Machine F)
    : Type 0 where
  pub valve : n.valve_pin ≡ levels ++ m.valve_pin
  pub state : n.burette_state ≡ idle
  pub result :
      n.result ≡ (plain_result cal_dose_complete (distance (position_of n) before) m).result

module _ {F : Type 0} ⦃o : FloatOps F⦄ (e : Env) (fuel b : ℕ) (enough : b + 2 ≤ fuel)
    (full : Recurs e stop_full b) (empty : Recurs e stop_empty b) where
  -- Where the two end stops recur within `b` looks, a dose calibration ends idle with the result
  -- `cal_dose_complete`. A burette below its nominal volume is filled first and then emptied, and
  -- the steps reported are those from the position after the filling; a full one is emptied at
  -- once, and the steps reported are the distance of the position from 0, wherever it began.
  pub run_cal_dose_sm_ends :
      (speed current nominal : F) (m : Machine F)
      → let low = ltf current (nominal -f lit 1 1) in
        (m1 : Machine F) × ((if low then move_fill e fuel (ml_min_to_hz speed) m else some m)
          ≡ some m1)
        × (n : Machine F) × (run_cal_dose_sm e fuel speed current nominal m ≡ some n)
        × Dosed (if low then 1 ∷ 0 ∷ [] else 1 ∷ []) (if low then position_of m1 else pos 0) m n
  unfolding run_cal_dose_sm dose_fill dose_empty dose_finish CalDose.start CalDose.on_start
      CalDose.on_fill_complete CalDose.on_empty_complete store_result
  run_cal_dose_sm_ends speed current nominal m =
      let hz = ml_min_to_hz speed in
      elim (Bool-cases (ltf current (nominal -f lit 1 1))) [
        | inl low ↦
            let (m1, e1) = move_fill_ends e fuel b enough hz m full in
            let (m2, e2) = move_empty_ends e fuel b enough hz m1 empty in
            let filled = move_fill-Moved e fuel hz m m1 e1 in
            let emptied = move_empty-Moved e fuel hz m1 m2 e2 in
            let steps = distance (position_of m2) (position_of m1) in
            rw low (
              m1,
              e1,
              plain_result cal_dose_complete steps m2,
              rw e1 (rw e2 refl),
              record {
                valve = emptied.valve ∙ ap (◌∷◌ 1) filled.valve;
                state = refl;
                result = refl;
              },
            )
        | inr high ↦
            let (m2, e2) = move_empty_ends e fuel b enough hz m empty in
            let emptied = move_empty-Moved e fuel hz m m2 e2 in
            let steps = distance (position_of m2) (pos 0) in
            rw high (
              m,
              refl,
              plain_result cal_dose_complete steps m2,
              rw e2 refl,
              record { valve = emptied.valve; state = refl; result = refl },
            )
      ]
