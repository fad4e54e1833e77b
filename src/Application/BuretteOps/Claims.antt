-- ===== src/Application/BuretteOps/Claims.antt =====
-- Who owns the burette after a request to its handlers.
use esp32_rs_on_idf.Common.{
  ℕ, ◌≡◌, refl, Bool, true, false, Option, none, some, List, arith, if◌then◌else◌,
}
use esp32_rs_on_idf.Common.Int.{ℤ}
use esp32_rs_on_idf.Common.Float.{FloatOps}
use esp32_rs_on_idf.Domain.Types.{Direction, is_idle}
use esp32_rs_on_idf.Domain.CalRun.{CalRunPlan}
use esp32_rs_on_idf.Application.BuretteOps.{
  Response, error_response, Globals, handle_fill, handle_empty, handle_dose_volume, handle_rinse,
  handle_cal_run, run_plan, handle_stop, handle_move_steps, handle_set_direction, handle_set_speed,
  handle_set_accel, handle_move_continuous,
}
use esp32_rs_on_idf.Application.BuretteCal.{handle_run_calibration}

-- A request to one of the handlers, other than the emergency stop.
pub data Request (F : Type 0) : Type 0 where
  fill empty stop : Request F
  dose_volume : Option F → Request F
  rinse : Option ℕ → Request F
  cal_run : Option (List ℕ) → Option F → Option F → Request F
  move_steps : Option ℤ → Request F
  set_direction : Option Direction → Request F
  set_speed : Option ℕ → Request F
  set_accel : Option ℕ → Request F
  move_continuous : Option Direction → Option ℕ → Request F
  run_calibration : List F → F → Request F

-- The responses that refuse a request.
abbrev pub is_refusal : Response → Bool
is_refusal (error_response _) = true
is_refusal _ = false

-- A property of both ways on after a test, and after a look into the calibration's cache.
pub choose {ℓ κ} :
    {A : Type ℓ} (P : A → Type κ) (b : Bool) (x y : A)
    → P x
    → (b ≡ false → P y)
    → P (if b then x else y)
choose P true x y p q = p
choose P false x y p q = q refl

pub cached {ℓ κ μ} :
    {C : Type ℓ} {A : Type κ} (P : A → Type μ) (cache : Option C) (x : A) (go : C → A)
    → P x
    → ((cal : C) → P (go cal))
    → P (elim cache [ none ↦ x | some cal ↦ go cal ])
cached P none x go p q = p
cached P (some cal) x go p q = q cal

module _ {F : Type 0} ⦃o : FloatOps F⦄ where
  unfoldable pub handle : Bool → Request F → Globals F → Globals F × Response
  handle accepts fill g = handle_fill accepts g
  handle accepts empty g = handle_empty accepts g
  handle accepts stop g = handle_stop accepts g
  handle accepts (dose_volume volume) g = handle_dose_volume accepts volume g
  handle accepts (rinse cycles) g = handle_rinse accepts cycles g
  handle accepts (cal_run mode freq speed) g = handle_cal_run accepts mode freq speed g
  handle accepts (move_steps steps) g = handle_move_steps accepts steps g
  handle accepts (set_direction dir) g = handle_set_direction accepts dir g
  handle accepts (set_speed speed) g = handle_set_speed accepts speed g
  handle accepts (set_accel accel) g = handle_set_accel accepts accel g
  handle accepts (move_continuous dir freq) g = handle_move_continuous accepts dir freq g
  handle accepts (run_calibration freqs speed) g = handle_run_calibration accepts freqs speed g

  run_plan_busy :
      (accepts : Bool) (plan : CalRunPlan F) (g : Globals F)
      → is_idle g.burette_state ≡ false
      → ((run_plan accepts plan g).0 ≡ g) × (is_refusal (run_plan accepts plan g).1 ≡ true)
  unfolding run_plan
  run_plan_busy accepts plan g h = ground arith

  -- While the burette is not idle, every request but the emergency stop is refused and changes
  -- nothing; the stop too.
  pub handle_busy :
      (accepts : Bool) (request : Request F) (g : Globals F)
      → is_idle g.burette_state ≡ false
      → ((handle accepts request g).0 ≡ g) × (is_refusal (handle accepts request g).1 ≡ true)
  unfolding handle handle_fill handle_empty handle_stop handle_dose_volume handle_rinse
      handle_cal_run handle_move_steps handle_set_direction handle_set_speed handle_set_accel
      handle_move_continuous handle_run_calibration
  handle_busy accepts fill g h = ground arith
  handle_busy accepts empty g h = ground arith
  handle_busy accepts stop g h = ground arith
  handle_busy accepts (dose_volume none) g h = ground arith
  handle_busy accepts (dose_volume (some v)) g h = ground arith
  handle_busy accepts (rinse none) g h = ground arith
  handle_busy accepts (rinse (some n)) g h = ground arith
  handle_busy accepts (cal_run none freq speed) g h = ground arith
  handle_busy accepts (cal_run (some mode) freq speed) g h =
      let P = λ (x : Globals F × Response). (x.0 ≡ g) × (is_refusal x.1 ≡ true) in
      choose P g.valve_is_settling _ _ (refl, refl)
        (λ free. cached P g.cal_cache _ _ (refl, refl) (λ cal. run_plan_busy accepts _ g h))
  handle_busy accepts (move_steps none) g h = ground arith
  handle_busy accepts (move_steps (some n)) g h = ground arith
  handle_busy accepts (set_direction none) g h = ground arith
  handle_busy accepts (set_direction (some d)) g h = ground arith
  handle_busy accepts (set_speed none) g h = ground arith
  handle_busy accepts (set_speed (some n)) g h = ground arith
  handle_busy accepts (set_accel none) g h = ground arith
  handle_busy accepts (set_accel (some n)) g h = ground arith
  handle_busy accepts (move_continuous none freq) g h = ground arith
  handle_busy accepts (move_continuous (some d) none) g h = ground arith
  handle_busy accepts (move_continuous (some d) (some n)) g h = ground arith
  handle_busy accepts (run_calibration freqs speed) g h = ground arith
