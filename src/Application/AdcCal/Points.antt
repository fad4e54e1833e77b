-- ===== src/Application/AdcCal/Points.antt =====
-- The points of the ADC's calibration over any requests, and what is saved of them.
use mathlib.Core.Path.{subst}
use esp32_rs_on_idf.Common.{
  ℕ, zero, suc, ◌+◌, ◌≤◌, ◌<◌, ◌≡◌, refl, ap, ◌∙◌, sym, Bool, true, false, if◌then◌else◌, ltb, leb,
  if_split, option_split, some, none, Option, List, [], ◌∷◌, length, set, length-set, All, arith,
}
use esp32_rs_on_idf.Common.Int.{ℤ, pos}
use esp32_rs_on_idf.Common.Float.{FloatOps}
use esp32_rs_on_idf.Storage.Nvs.{Action}
use esp32_rs_on_idf.Storage.Settings.{i16}
use esp32_rs_on_idf.Application.AdcCal.{
  AdcCal, AdcCalPoint, Response, refused, not_stable, all_collected, point, adc_cal_max_points,
  adc_cal_stab_samples, adc_cal_stab_max_attempts, stabilize, median, store_point, clear_points,
  handle_adc_cal_get, handle_adc_cal_save, handle_adc_cal_measure, handle_adc_cal_reset,
}
use esp32_rs_on_idf.Application.AdcCal.Compute.{
  handle_adc_cal_compute, solve, stored_a, stored_b, rounded_b,
}
use esp32_rs_on_idf.Application.AdcCal.Median.{count, IsClose, median_is_middle, median-IsClose}
use esp32_rs_on_idf.Application.AdcCal.Attempts.{
  NoneStable, FirstStable, Stabilized, stabilize-Stabilized,
}

-- A request to the handlers; the dispatch saves what is pending.
pub data Request (F : Type 0) : Type 0 where
  get save compute reset : Request F
  measure : Option F → Request F

-- The callbacks, and the arithmetic of `double`.
pub record Callbacks (W F D : Type 0) : Type 0 where
  pub read_sample : W → W × ℕ
  pub read : W → W × (ℕ × ℤ)
  pub write : ℕ → ℤ → Action W Unit
  pub to_double : F → D
  pub sqrt : D → D

module _ {W F D : Type 0} ⦃o : FloatOps F⦄ ⦃d : FloatOps D⦄ (c : Callbacks W F D) where
  unfoldable pub handle : Request F → AdcCal F × W → (AdcCal F × W) × Response F D
  handle get (s, w) = let (w1, r) = handle_adc_cal_get c.read s w in ((s, w1), r)
  handle save st = handle_adc_cal_save c.write none none st
  handle compute (s, w) = let (s1, r) = handle_adc_cal_compute c.sqrt c.to_double s in ((s1, w), r)
  handle reset st = handle_adc_cal_reset c.write st
  handle (measure ref_mv) st = handle_adc_cal_measure c.read_sample ref_mv st

  unfoldable pub handle_all : List (Request F) → AdcCal F × W → AdcCal F × W
  handle_all [] st = st
  handle_all (r ∷ requests) st = handle_all requests (handle r st).0

-- The first `n` points are collected, and no other.
abbrev pub Collected : {F : Type 0} → ℕ → List (AdcCalPoint F) → Type 0
Collected n [] = Unit
Collected zero (p ∷ points) = (p.collected ≡ false) × Collected zero points
Collected (suc n) (p ∷ points) = (p.collected ≡ true) × Collected n points

pub record IsFilled {F : Type 0} (s : AdcCal F) : Type 0 where
  pub size : length s.points ≡ adc_cal_max_points
  pub within : s.point_count ≤ adc_cal_max_points
  pub flags : Collected s.point_count s.points
  pub small_a : s.pending_a_x1000 < 65_536
  pub small_b : i16 s.pending_b ≡ s.pending_b

module _ {F : Type 0} where
  Collected-set :
      (points : List (AdcCalPoint F)) (n : ℕ) (p : AdcCalPoint F)
      → p.collected ≡ true
      → Collected n points
      → Collected (suc n) (set points n p)
  Collected-set [] n p e h = tt
  Collected-set (q ∷ points) zero p e h = (e, h.1)
  Collected-set (q ∷ points) (suc n) p e h = (h.0, Collected-set points n p e h.1)

  Collected-clear_points : (points : List (AdcCalPoint F)) → Collected 0 (clear_points points)
  unfolding clear_points
  Collected-clear_points [] = tt
  Collected-clear_points (p ∷ points) = (refl, Collected-clear_points points)

  length-clear_points :
      (points : List (AdcCalPoint F)) → length (clear_points points) ≡ length points
  unfolding clear_points
  length-clear_points [] = refl
  length-clear_points (p ∷ points) = ap suc (length-clear_points points)

suc_is : (n : ℕ) → suc n ≡ n + 1
suc_is n = omega arith

i16_idem : (x : ℤ) → i16 (i16 x) ≡ i16 x
i16_idem x = ground arith

else_some : {A : Type 0} (b : Bool) (x y : A) → (if b then none else some x) ≡ some y → x ≡ y
else_some true x y h = cc
else_some false x y h = cc

module _ {D : Type 0} ⦃d : FloatOps D⦄ (sqrt : D → D) where
  stored_a_range : (x : D) (a : ℕ) → stored_a x ≡ a → a < 65_536
  unfolding stored_a
  stored_a_range x a e = omega (arith, e)

  stored_b_range : (x : D) (b : ℤ) → stored_b x ≡ b → i16 b ≡ b
  unfolding stored_b
  stored_b_range x b e = ap i16 (sym e) ∙ i16_idem (rounded_b x) ∙ e

  solve_range :
      (points : List (D × D)) (a : ℕ) (b : ℤ) (coeff_a r_squared : D)
      → solve sqrt points ≡ some (a, b, coeff_a, r_squared)
      → (a < 65_536) × (i16 b ≡ b)
  unfolding solve
  solve_range points a b coeff_a r_squared e =
      let same = else_some _ _ _ e in
      (stored_a_range _ a (ap (λ t. t.0) same), stored_b_range _ b (ap (λ t. t.1) same))

module _ {W F D : Type 0} ⦃o : FloatOps F⦄ ⦃d : FloatOps D⦄ (c : Callbacks W F D) where
  store_point-IsFilled :
      (ref_mv : F) (v : ℕ) (s : AdcCal F)
      → s.point_count < adc_cal_max_points
      → IsFilled s
      → IsFilled (store_point ref_mv v s)
  unfolding store_point
  store_point-IsFilled ref_mv v s room w = record {
    size = length-set s.points s.point_count _ ∙ w.size;
    within = omega arith;
    flags =
        let p : AdcCalPoint F = record { ref_mv = ref_mv; raw_mv = v; collected = true } in
        subst (λ n. Collected n (set s.points s.point_count p)) (suc_is s.point_count)
          (Collected-set s.points s.point_count p refl w.flags);
    small_a = w.small_a;
    small_b = w.small_b;
  }

  clear_points-IsFilled :
      (s : AdcCal F)
      → IsFilled s
      → IsFilled {F = F} (record {
        points = clear_points s.points;
        point_count = 0;
        pending_a_x1000 = 1000;
        pending_b = pos 0;
      })
  clear_points-IsFilled s v = record {
    size = length-clear_points s.points ∙ v.size;
    within = omega arith;
    flags = Collected-clear_points s.points;
    small_a = omega arith;
    small_b = refl;
  }

  pending-IsFilled :
      (s : AdcCal F)
      → IsFilled s
      → (a : ℕ) (b : ℤ) → (a < 65_536) × (i16 b ≡ b)
      → IsFilled (record s { pending_a_x1000 = a; pending_b = b })
  pending-IsFilled s v a b range = record {
    size = v.size;
    within = v.within;
    flags = v.flags;
    small_a = range.0;
    small_b = range.1;
  }

  handle-IsFilled :
      (r : Request F) (s : AdcCal F) (w : W) → IsFilled s → IsFilled (handle c r (s, w)).0.0
  unfolding handle handle_adc_cal_get handle_adc_cal_save handle_adc_cal_reset
      handle_adc_cal_compute handle_adc_cal_measure
  handle-IsFilled get s w v = v
  handle-IsFilled save s w v = ground arith
  handle-IsFilled reset s w v = let cleared = clear_points-IsFilled s v in ground arith
  handle-IsFilled compute s w v =
      if_split (λ (x : AdcCal F × Response F D). IsFilled x.0)
        (ltb s.point_count adc_cal_max_points) _ _ (λ e. v)
        (λ full.
          option_split (λ (x : AdcCal F × Response F D). IsFilled x.0) (solve c.sqrt _) _ _ (λ e. v)
            (λ x e. pending-IsFilled s v x.0 x.1 (solve_range c.sqrt _ x.0 x.1 x.2 x.3 e)))
  handle-IsFilled (measure none) s w v = v
  handle-IsFilled (measure (some ref_mv)) s w v =
      if_split (λ (x : (AdcCal F × W) × Response F D). IsFilled x.0.0)
        (leb adc_cal_max_points s.point_count) _ _ (λ e. v)
        (λ room.
          option_split (λ (x : (AdcCal F × W) × Response F D). IsFilled x.0.0)
            (stabilize c.read_sample adc_cal_stab_max_attempts w).1 _ _ (λ e. v)
            (λ samples e. store_point-IsFilled ref_mv (median samples) s (ground arith) v))

  -- After any requests the points that are collected are the first ones, as many as are counted,
  -- of five, and the pending coefficients fit 16 bits.
  pub handle_all-IsFilled :
      (requests : List (Request F)) (s : AdcCal F) (w : W)
      → IsFilled s
      → IsFilled (handle_all c requests (s, w)).0
  unfolding handle_all
  handle_all-IsFilled [] s w v = v
  handle_all-IsFilled (r ∷ requests) s w v =
      handle_all-IsFilled requests (handle c r (s, w)).0.0 (handle c r (s, w)).0.1
        (handle-IsFilled r s w v)

-- A point is the middle of 32 samples that are close to it.
pub record IsMiddle (v : ℕ) (samples : List ℕ) : Type 0 where
  pub size : length samples ≡ adc_cal_stab_samples
  pub near : All (λ a. IsClose a v) samples
  pub below : 17 ≤ count (λ a. leb a v) samples
  pub above : 16 ≤ count (λ a. leb v a) samples

-- How a measurement goes: there is no free place, or none of ten batches is stable, or the first
-- stable batch gives the point, which is stored at the first free place.
pub data Measured {W F D : Type 0} (read_sample : W → W × ℕ) (ref_mv : F) (s : AdcCal F) (w : W)
    (x : (AdcCal F × W) × Response F D) : Type 0 where
  full :
      adc_cal_max_points ≤ s.point_count
      → x ≡ ((s, w), refused all_collected)
      → Measured read_sample ref_mv s w x
  unstable :
      (w1 : W)
      → s.point_count < adc_cal_max_points
      → NoneStable read_sample adc_cal_stab_max_attempts w w1
      → x ≡ ((s, w1), refused not_stable)
      → Measured read_sample ref_mv s w x
  point_stored :
      (w1 : W) (samples : List ℕ) (voltage : ℕ)
      → s.point_count < adc_cal_max_points
      → FirstStable read_sample adc_cal_stab_max_attempts w w1 samples
      → IsMiddle voltage samples
      → x ≡ ((store_point ref_mv voltage s, w1), point s.point_count voltage)
      → Measured read_sample ref_mv s w x

batch-Measured :
    {W F D : Type 0} (read_sample : W → W × ℕ) (ref_mv : F) (s : AdcCal F) (w : W)
    (r : W × Option (List ℕ))
    → s.point_count < adc_cal_max_points
    → Stabilized read_sample adc_cal_stab_max_attempts w r
    → Measured {D = D} read_sample ref_mv s w (elim r.1 [
      | none ↦ ((s, r.0), refused not_stable)
      | some samples ↦
          ((store_point ref_mv (median samples) s, r.0), point s.point_count (median samples))
    ])
batch-Measured read_sample ref_mv s w (w1, none) room h = unstable w1 room h refl
batch-Measured read_sample ref_mv s w (w1, some samples) room h =
    let (below, above) = median_is_middle samples h.size in
    let middle : IsMiddle (median samples) samples = record {
      size = h.size;
      near = median-IsClose samples h.size h.stable;
      below = below;
      above = above;
    } in
    point_stored w1 samples (median samples) room h middle refl

-- A measurement changes nothing where five points are stored, and reads nothing then. Otherwise it
-- reads batches of 32 samples up to the first stable one, ten at most. Where none is stable it is
-- refused and stores nothing. Otherwise it stores, at the first free place, the middle of that
-- batch: at least 17 of its samples are at most the point and 16 at least, and all are within the
-- tolerance of it.
pub handle_adc_cal_measure-Measured :
    {W F D : Type 0} ⦃o : FloatOps F⦄ (read_sample : W → W × ℕ) (ref_mv : F) (s : AdcCal F) (w : W)
    → Measured read_sample ref_mv s w
        (handle_adc_cal_measure {D = D} read_sample (some ref_mv) (s, w))
unfolding handle_adc_cal_measure
handle_adc_cal_measure-Measured {W = W} {F = F} {D = D} read_sample ref_mv s w =
    if_split (Measured read_sample ref_mv s w) (leb adc_cal_max_points s.point_count) _ _
      (λ e. full (ground arith) refl)
      (λ e.
        batch-Measured read_sample ref_mv s w (stabilize read_sample adc_cal_stab_max_attempts w)
          (ground arith) (stabilize-Stabilized read_sample adc_cal_stab_max_attempts w))
