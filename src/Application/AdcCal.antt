-- ===== src/Application/AdcCal.antt =====
-- components/application/src/handlers/sensors.cpp: the calibration of the ADC, with its points and
-- the coefficients that are computed and not saved. A sample comes from `read_sample`, which changes
-- the outside; the callbacks of the storage are arguments; a response stands for its values. `D` is
-- the program's `double`, in which Compute has the coefficients.
pub mod Compute
pub mod Median
pub mod Attempts
pub mod Points
use esp32_rs_on_idf.Common.{
  ℕ, zero, suc, ◌+◌, ◌-◌, Bool, true, false, ◌&&◌, if◌then◌else◌, ltb, leb, ◌==◌, u16, Option, none,
  some, List, [], ◌∷◌, length, get_or, set, take, replicate, map, ◌/◌,
}
use esp32_rs_on_idf.Common.Int.{ℤ, pos, negsuc, pos_part}
use esp32_rs_on_idf.Common.Float.{FloatOps, lit, ltf, ◌+f◌, ◌-f◌, ◌*f◌, ◌/f◌}
use esp32_rs_on_idf.Domain.Types.{Result, ok, unexpected}
use esp32_rs_on_idf.Storage.Nvs.{Action}
use esp32_rs_on_idf.Storage.Settings.{i16}

pub record AdcCalPoint (F : Type 0) : Type 0 where
  pub ref_mv : F
  pub raw_mv : ℕ
  pub collected : Bool

-- `gPoints` with `gPointCount`, and the pending coefficients.
pub record AdcCal (F : Type 0) : Type 0 where
  pub points : List (AdcCalPoint F)
  pub point_count : ℕ
  pub pending_a_x1000 : ℕ
  pub pending_b : ℤ

pub data Reason : Type 0 where
  no_ref all_collected not_stable not_enough degenerate save_failed reset_failed : Reason

pub data Response (F D : Type 0) : Type 0 where
  refused : Reason → Response F D
  reset_done : Response F D
  point : (index voltage : ℕ) → Response F D
  saved : ℕ → ℤ → Response F D
  computed : (a : D) → ℤ → (r_squared : D) → Response F D
  coefficients :
      (a : F) (b : ℤ) (is_default : Bool)
      → List (AdcCalPoint F)
      → (raw : ℕ) → (calibrated : ℤ) → Response F D

abbrev pub adc_cal_max_points : ℕ
adc_cal_max_points = 5

abbrev pub adc_cal_stab_samples : ℕ
adc_cal_stab_samples = 32

abbrev pub adc_cal_stab_tolerance : ℕ
adc_cal_stab_tolerance = 5

abbrev pub adc_cal_stab_max_attempts : ℕ
adc_cal_stab_max_attempts = 10

abbrev is_zero : ℤ → Bool
is_zero (pos n) = n == 0
is_zero (negsuc n) = false

-- The loop over a batch for its extremes.
abbrev pub lower : ℕ → List ℕ → ℕ
lower low [] = low
lower low (s ∷ samples) = lower (if ltb s low then s else low) samples

abbrev pub upper : ℕ → List ℕ → ℕ
upper high [] = high
upper high (s ∷ samples) = upper (if ltb high s then s else high) samples

abbrev pub is_stable : List ℕ → Bool
is_stable [] = false
is_stable (s ∷ samples) = leb (upper s samples - lower s samples) adc_cal_stab_tolerance

-- `std::qsort` by `compareU16`.
unfoldable pub insert : ℕ → List ℕ → List ℕ
insert x [] = x ∷ []
insert x (y ∷ ys) = if leb x y then x ∷ y ∷ ys else y ∷ insert x ys

unfoldable pub sort : List ℕ → List ℕ
sort [] = []
sort (x ∷ xs) = insert x (sort xs)

-- The point of a stable batch.
abbrev pub median : List ℕ → ℕ
median samples = get_or (sort samples) (adc_cal_stab_samples / 2) 0

abbrev value_or : {A : Type 0} → Option A → A → A
value_or none d = d
value_or (some v) d = v

module _ {W : Type 0} (read_sample : W → W × ℕ) where
  unfoldable pub read_batch : ℕ → W → W × List ℕ
  read_batch zero w = (w, [])
  read_batch (suc n) w =
      let (w1, s) = read_sample w in let (w2, samples) = read_batch n w1 in (w2, s ∷ samples)

  -- The loop over the attempts, with those that are left.
  unfoldable pub stabilize : ℕ → W → W × Option (List ℕ)
  stabilize zero w = (w, none)
  stabilize (suc attempts) w =
      let (w1, samples) = read_batch adc_cal_stab_samples w in
      let rest = stabilize attempts w1 in if is_stable samples then (w1, some samples) else rest

module _ {F : Type 0} where
  unfoldable pub store_point : F → ℕ → AdcCal F → AdcCal F
  store_point ref_mv median_mv s = record s {
    points =
        set s.points s.point_count
          (record { ref_mv = ref_mv; raw_mv = median_mv; collected = true });
    point_count = s.point_count + 1;
  }

  -- `gPoints` keeps its references.
  unfoldable pub clear_points : List (AdcCalPoint F) → List (AdcCalPoint F)
  clear_points [] = []
  clear_points (p ∷ points) = record p { raw_mv = 0; collected = false } ∷ clear_points points

module _ {F : Type 0} ⦃o : FloatOps F⦄ where
  abbrev no_point : AdcCalPoint F
  no_point = record { ref_mv = lit 0 0; raw_mv = 0; collected = false }

  abbrev pub initial : AdcCal F
  initial = record {
    points = replicate adc_cal_max_points no_point;
    point_count = 0;
    pending_a_x1000 = 1000;
    pending_b = pos 0;
  }

  abbrev first_collected : List (AdcCalPoint F) → ℕ
  first_collected [] = 0
  first_collected (p ∷ points) = if p.collected then p.raw_mv else first_collected points

  abbrev collected_of : List (AdcCalPoint F) → List (AdcCalPoint F)
  collected_of [] = []
  collected_of (p ∷ points) = if p.collected then p ∷ collected_of points else collected_of points

  module _ {W D : Type 0} where
    unfoldable pub handle_adc_cal_get : (W → W × (ℕ × ℤ)) → AdcCal F → W → W × Response F D
    handle_adc_cal_get read s w =
        let (w1, p) = read w in
        let (a_x1000, b) = p in
        let a_val = if ltb 0 a_x1000 then o.of_ℤ (pos a_x1000) /f lit 1000 0 else lit 1 0 in
        let points = take s.point_count s.points in
        let raw_mv = first_collected points in
        let calibrated_mv =
          if ltb 0 raw_mv
          then i16 (o.lround (o.of_ℤ (pos raw_mv) *f a_val +f o.of_ℤ b))
          else pos 0 in
        (
          w1,
          coefficients a_val b ((a_x1000 == 1000) && is_zero b) (collected_of points) raw_mv
              calibrated_mv,
        )

    unfoldable pub handle_adc_cal_save :
        (ℕ → ℤ → Action W Unit) → Option ℕ → Option ℤ → AdcCal F × W → (AdcCal F × W) × Response F D
    handle_adc_cal_save write a_x1000 b (s, w) =
        let a = value_or a_x1000 s.pending_a_x1000 in
        let b_val = value_or b s.pending_b in
        let (w1, r) = write a b_val w in
        elim r [
          | ok _ ↦ ((record s { pending_a_x1000 = a; pending_b = b_val }, w1), saved a b_val)
          | unexpected e ↦ ((s, w1), refused save_failed)
        ]

    unfoldable pub handle_adc_cal_measure :
        (W → W × ℕ) → Option F → AdcCal F × W → (AdcCal F × W) × Response F D
    handle_adc_cal_measure read_sample none (s, w) = ((s, w), refused no_ref)
    handle_adc_cal_measure read_sample (some ref_mv) (s, w) =
        let (w1, batch) = stabilize read_sample adc_cal_stab_max_attempts w in
        if leb adc_cal_max_points s.point_count
        then ((s, w), refused all_collected)
        else elim batch [
          | none ↦ ((s, w1), refused not_stable)
          | some samples ↦
              ((store_point ref_mv (median samples) s, w1), point s.point_count (median samples))
        ]

    unfoldable pub handle_adc_cal_reset :
        (ℕ → ℤ → Action W Unit) → AdcCal F × W → (AdcCal F × W) × Response F D
    handle_adc_cal_reset write (s, w) =
        let n : AdcCal F = record {
          points = clear_points s.points;
          point_count = 0;
          pending_a_x1000 = 1000;
          pending_b = pos 0;
        } in
        let (w1, r) = write 1000 (pos 0) w in
        elim r [ ok _ ↦ ((n, w1), reset_done) | unexpected e ↦ ((n, w1), refused reset_failed) ]
