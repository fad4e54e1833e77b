-- ===== src/Domain/Ols.antt =====
-- components/domain/include/domain/ols.hpp: the least squares of a speed calibration. The two arrays
-- are one list of pairs, a frequency and a speed.
use esp32_rs_on_idf.Common.{if◌then◌else◌, ltb, List, [], ◌∷◌, length}
use esp32_rs_on_idf.Common.Int.{pos}
use esp32_rs_on_idf.Common.Float.{FloatOps, lit, ltf, ◌+f◌, ◌-f◌, ◌*f◌, ◌/f◌}

pub record SpeedCalResult (F : Type 0) : Type 0 where
  pub k : F
  pub r_squared : F

-- The sums of the first loop.
record Sums (F : Type 0) : Type 0 where
  f : F
  v : F
  ff : F
  fv : F

module _ {F : Type 0} ⦃o : FloatOps F⦄ where
  add_sums : List (F × F) → Sums F → Sums F
  add_sums [] s = s
  add_sums ((f, v) ∷ points) s =
      add_sums points
        (record { f = s.f +f f; v = s.v +f v; ff = s.ff +f f *f f; fv = s.fv +f f *f v })

  -- The residues and the deviations of the second loop.
  add_squares : F → F → List (F × F) → F × F → F × F
  add_squares k mean_v [] s = s
  add_squares k mean_v ((f, v) ∷ points) (ss_res, ss_tot) =
      let res = v -f k *f f in
      let dev = v -f mean_v in
      add_squares k mean_v points (ss_res +f res *f res, ss_tot +f dev *f dev)

  unfoldable pub calculate_speed_calibration : List (F × F) → SpeedCalResult F
  unfolding add_sums add_squares
  calculate_speed_calibration points =
      let zero_f : F = lit 0 0 in
      let s = add_sums points (record { f = zero_f; v = zero_f; ff = zero_f; fv = zero_f }) in
      let n = o.of_ℤ (pos (length points)) in
      let denom = s.ff -f s.f *f s.f /f n in
      let k = (s.fv -f s.f *f s.v /f n) /f denom in
      let (ss_res, ss_tot) = add_squares k (s.v /f n) points (zero_f, zero_f) in
      if ltb (length points) 2
      then record { k = zero_f; r_squared = zero_f }
      else if ltf (o.fabs denom) (lit 1 6)
      then record { k = zero_f; r_squared = zero_f }
      else record {
        k = k;
        r_squared = if ltf (lit 1 6) ss_tot then lit 1 0 -f ss_res /f ss_tot else zero_f;
      }
