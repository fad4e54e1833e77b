-- ===== src/Application/AdcCal/Compute.antt =====
-- components/application/src/handlers/sensors.cpp: `handleAdcCalCompute`. The program's `double` is a
-- second type, `D`, with `FloatOps`; `sqrt` and the conversion from `float` are arguments.
use esp32_rs_on_idf.Common.{
  ℕ, if◌then◌else◌, ltb, u16, Option, none, some, List, [], ◌∷◌, take, map,
}
use esp32_rs_on_idf.Common.Int.{ℤ, pos, negsuc, pos_part}
use esp32_rs_on_idf.Common.Float.{FloatOps, lit, ltf, ◌+f◌, ◌-f◌, ◌*f◌, ◌/f◌}
use esp32_rs_on_idf.Storage.Settings.{i16}
use esp32_rs_on_idf.Application.AdcCal.{
  AdcCal, Response, refused, computed, not_enough, degenerate, adc_cal_max_points,
}

-- The sums of the loop of `handleAdcCalCompute`.
pub record Sums (D : Type 0) : Type 0 where
  pub x : D
  pub y : D
  pub xy : D
  pub x2 : D
  pub y2 : D

module _ {D : Type 0} ⦃d : FloatOps D⦄ where
  unfoldable pub add_points : List (D × D) → Sums D → Sums D
  add_points [] s = s
  add_points ((x, y) ∷ points) s = add_points points (record {
    x = s.x +f x;
    y = s.y +f y;
    xy = s.xy +f x *f y;
    x2 = s.x2 +f x *f x;
    y2 = s.y2 +f y *f y;
  })

  -- `std::clamp`.
  abbrev pub clamp : D → D → D → D
  clamp v low high = if ltf v low then low else if ltf high v then high else v

  -- The coefficients as they are stored.
  unfoldable pub stored_a : D → ℕ
  stored_a coeff_a =
      u16 (pos_part (d.trunc (clamp (coeff_a *f lit 1000 0 +f lit 5 1) (lit 0 0) (lit 65_535 0))))

  abbrev pub rounded_b : D → ℤ
  rounded_b coeff_b =
      d.trunc (clamp (coeff_b +f lit 5 1) (d.of_ℤ (negsuc 32_767)) (d.of_ℤ (pos 32_767)))

  unfoldable pub stored_b : D → ℤ
  stored_b coeff_b = i16 (rounded_b coeff_b)

  module _ (sqrt : D → D) where
    -- The coefficients, or none for points without a spread.
    unfoldable pub solve : List (D × D) → Option (ℕ × ℤ × D × D)
    solve points =
        let zero_d : D = lit 0 0 in
        let s =
          add_points points
            (record { x = zero_d; y = zero_d; xy = zero_d; x2 = zero_d; y2 = zero_d }) in
        let n : D = d.of_ℤ (pos adc_cal_max_points) in
        let denom = n *f s.x2 -f s.x *f s.x in
        let num = n *f s.xy -f s.x *f s.y in
        let a_raw = num /f denom in
        let b_raw = (s.y -f a_raw *f s.x) /f n in
        let coeff_a = lit 1 0 /f a_raw in
        let coeff_b = d.of_ℤ (negsuc 0) *f b_raw /f a_raw in
        let denom_r = denom *f (n *f s.y2 -f s.y *f s.y) in
        let r = num /f sqrt denom_r in
        let r_squared = if ltf zero_d denom_r then r *f r else zero_d in
        if ltf (d.fabs denom) (lit 1 12)
        then none
        else some (stored_a coeff_a, stored_b coeff_b, coeff_a, r_squared)

    unfoldable pub handle_adc_cal_compute :
        {F : Type 0} (to_double : F → D) → AdcCal F → AdcCal F × Response F D
    handle_adc_cal_compute to_double s =
        let pairs =
          map (λ p. (to_double p.ref_mv, d.of_ℤ (pos p.raw_mv)))
            (take adc_cal_max_points s.points) in
        if ltb s.point_count adc_cal_max_points
        then (s, refused not_enough)
        else elim (solve pairs) [
          | none ↦ (s, refused degenerate)
          | some (a, b, coeff_a, r_squared) ↦
              (record s { pending_a_x1000 = a; pending_b = b }, computed coeff_a b r_squared)
        ]
