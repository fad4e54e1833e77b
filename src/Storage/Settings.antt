-- ===== src/Storage/Settings.antt =====
-- components/infrastructure/src/storage/nvs.cpp: the settings by name, with the first boot. The
-- memory holds beside the flash the globals that a setting is copied to: `gCalCache`,
-- `gCoeffAX1000` and `gCoeffB`. A conversion to `int16_t` keeps the low 16 bits.
use Prim.Native.String.{String}
use esp32_rs_on_idf.Common.{
  ℕ, ◌-◌, Bool, true, false, if◌then◌else◌, ltb, u8, u16, Option, none, some, List,
}
use esp32_rs_on_idf.Common.Int.{ℤ, pos, negsuc}
use esp32_rs_on_idf.Common.Float.{FloatOps, lit}
use esp32_rs_on_idf.Domain.Types.{Result, ok, unexpected}
use esp32_rs_on_idf.Domain.Calibration.{
  CalibrationData, default_steps_per_ml, default_speed_coeff, default_min_freq_hz,
  default_max_freq_hz,
}
use esp32_rs_on_idf.Storage.Nvs.{
  NvsApi, FloatBits, ResourceError, Action, ◌>>◌, with_handle, refuse, get_u8, set_u8, get_u32,
  set_u32, get_i32, set_i32, get_str, set_str, erase_key, get_f32, set_f32,
}

pub record Memory (S F : Type 0) : Type 0 where
  pub flash : S
  pub cal_cache : Option (CalibrationData F)
  pub coeff_a_x1000 : ℕ
  pub coeff_b : ℤ

abbrev pub nvs_ns_burette_cal : String
nvs_ns_burette_cal = "burette_cal"

abbrev pub nvs_ns_adc_cal : String
nvs_ns_adc_cal = "adc_cal"

abbrev pub nvs_ns_stallguard : String
nvs_ns_stallguard = "stallguard"

abbrev pub nvs_key_cal_spm : String
nvs_key_cal_spm = "steps_per_ml"

abbrev pub nvs_key_cal_nom : String
nvs_key_cal_nom = "nominal_vol"

abbrev pub nvs_key_cal_coeff : String
nvs_key_cal_coeff = "speed_coeff"

abbrev pub nvs_key_cal_min_freq : String
nvs_key_cal_min_freq = "min_freq"

abbrev pub nvs_key_cal_max_freq : String
nvs_key_cal_max_freq = "max_freq"

abbrev pub nvs_key_cal_date : String
nvs_key_cal_date = "cal_date"

abbrev pub nvs_key_adc_a_x1000 : String
nvs_key_adc_a_x1000 = "a_x1000"

abbrev pub nvs_key_adc_b : String
nvs_key_adc_b = "b"

abbrev pub nvs_key_sg_threshold : String
nvs_key_sg_threshold = "threshold"

abbrev pub nvs_key_wifi_count : String
nvs_key_wifi_count = "count"

abbrev pub adc_default_a_x1000 : ℕ
adc_default_a_x1000 = 1000

abbrev pub adc_default_b : ℤ
adc_default_b = pos 0

-- The `int16_t` of the low bits of an integer.
abbrev pub i16_of_bits : ℕ → ℤ
i16_of_bits w = if ltb w 32_768 then pos w else negsuc (65_535 - w)

abbrev pub i16 : ℤ → ℤ
i16 (pos n) = i16_of_bits (u16 n)
i16 (negsuc n) = i16_of_bits (65_535 - u16 n)

-- `(r && r->has_value()) ? f(r->value()) : otherwise`.
abbrev pub value_or : {A B : Type 0} → (A → B) → B → Result (Option A) ResourceError → B
value_or f otherwise (ok (some a)) = f a
value_or f otherwise _ = otherwise

-- `r && !r->has_value()`.
abbrev pub is_absent : {A : Type 0} → Result (Option A) ResourceError → Bool
is_absent (ok none) = true
is_absent _ = false

abbrev pub default_nominal_volume_ml : {F : Type 0} ⦃o : FloatOps F⦄ → F
default_nominal_volume_ml = lit 814 2

-- `CalibrationData{}`.
abbrev pub no_calibration : {F : Type 0} ⦃o : FloatOps F⦄ → CalibrationData F
no_calibration = record {
  steps_per_ml = lit 0 0;
  nominal_volume_ml = lit 0 0;
  speed_coeff = lit 0 0;
  min_freq_hz = 0;
  max_freq_hz = 0;
}

-- The next write, whatever came of the one before: `std::ignore`.
infixl 4 ◌then_try◌
abbrev pub ◌then_try◌ : {S : Type 0} → Action S Unit → Action S Unit → Action S Unit
◌then_try◌ m k s = k (m s).0

module _ {S H : Type 0} (api : NvsApi S H) where
  unfoldable pub stallguard_read_threshold : S → S × ℕ
  stallguard_read_threshold s =
      let (s', r) =
        with_handle api nvs_ns_stallguard false (refuse api)
          (λ h s. (s, get_u32 api h nvs_key_sg_threshold s)) s in
      (s', value_or u8 0 r)

  unfoldable pub stallguard_write_threshold : ℕ → Action S Unit
  stallguard_write_threshold value =
      with_handle api nvs_ns_stallguard true (refuse api)
        (λ h. set_u32 api h nvs_key_sg_threshold value)

  unfoldable pub wifi_read_str : String → (buf_size : ℕ) → Action S (Option (List ℕ))
  wifi_read_str key buf_size =
      with_handle api "wifi" false (refuse api) (λ h s. (s, get_str api h key buf_size s))

  unfoldable pub wifi_write_str : String → List ℕ → Action S Unit
  wifi_write_str key value = with_handle api "wifi" true (refuse api) (λ h. set_str api h key value)

  unfoldable pub wifi_erase : String → Action S Unit
  wifi_erase key = with_handle api "wifi" true (refuse api) (λ h. erase_key api h key)

  abbrev pub count_or_zero : Option ℕ → ℕ
  count_or_zero none = 0
  count_or_zero (some n) = n

  unfoldable pub wifi_read_count : Action S ℕ
  wifi_read_count = with_handle api "wifi" false (refuse api) (λ h s. (
    s,
    elim (get_u8 api h nvs_key_wifi_count s) [
      | ok count ↦ ok (count_or_zero count)
      | unexpected e ↦ unexpected e
    ],
  ))

  unfoldable pub wifi_write_count : ℕ → Action S Unit
  wifi_write_count count =
      with_handle api "wifi" true (refuse api) (λ h. set_u8 api h nvs_key_wifi_count count)

  -- The writes of `adcCalibrationWrite`, and of the first boot.
  unfoldable pub write_adc : ℕ → ℤ → Action S Unit
  write_adc a_x1000 b =
      with_handle api nvs_ns_adc_cal true (refuse api)
        (λ h. do set_u32 api h nvs_key_adc_a_x1000 a_x1000; set_i32 api h nvs_key_adc_b b)

  unfoldable pub read_adc : H → S → ℕ × ℤ
  read_adc h s = (
    value_or u16 adc_default_a_x1000 (get_u32 api h nvs_key_adc_a_x1000 s),
    value_or i16 adc_default_b (get_i32 api h nvs_key_adc_b s),
  )

  -- `adcCalibrationRead` returns what it stores through its references.
  unfoldable pub adc_calibration_read : S → S × (ℕ × ℤ)
  adc_calibration_read s =
      let (s', r) =
        with_handle api nvs_ns_adc_cal false (refuse api) (λ h s. (s, ok (read_adc h s))) s in
      (s', elim r [ ok p ↦ p | unexpected e ↦ (adc_default_a_x1000, adc_default_b) ])

  module _ {F : Type 0} where
    unfoldable pub adc_calibration_write : ℕ → ℤ → Action (Memory S F) Unit
    adc_calibration_write a_x1000 b m =
        let (s', r) = write_adc a_x1000 b m.flash in
        elim r [
          | ok _ ↦ (
            record { flash = s'; cal_cache = m.cal_cache; coeff_a_x1000 = a_x1000; coeff_b = b },
            ok tt,
          )
          | unexpected e ↦ (record m { flash = s' }, unexpected e)
        ]

  module _ {F : Type 0} ⦃o : FloatOps F⦄ (bits : FloatBits F) where
    -- The six writes of `calibrationWrite`.
    unfoldable pub write_calibration : CalibrationData F → H → Action S Unit
    write_calibration cal h = do
      set_f32 api bits h nvs_key_cal_spm cal.steps_per_ml
      set_f32 api bits h nvs_key_cal_nom cal.nominal_volume_ml
      set_f32 api bits h nvs_key_cal_coeff cal.speed_coeff
      set_u32 api h nvs_key_cal_min_freq cal.min_freq_hz
      set_u32 api h nvs_key_cal_max_freq cal.max_freq_hz
      set_i32 api h nvs_key_cal_date (pos 0)

    unfoldable pub calibration_write : CalibrationData F → Action (Memory S F) Unit
    calibration_write cal m =
        let (s', r) =
          with_handle api nvs_ns_burette_cal true (refuse api) (write_calibration cal) m.flash in
        elim r [
          | ok _ ↦ (record m { flash = s'; cal_cache = some cal }, ok tt)
          | unexpected e ↦ (record m { flash = s' }, unexpected e)
        ]

    unfoldable pub read_calibration : H → S → CalibrationData F
    read_calibration h s = record {
      steps_per_ml = value_or (λ v. v) default_steps_per_ml (get_f32 api bits h nvs_key_cal_spm s);
      nominal_volume_ml =
          value_or (λ v. v) default_nominal_volume_ml (get_f32 api bits h nvs_key_cal_nom s);
      speed_coeff = value_or (λ v. v) default_speed_coeff (get_f32 api bits h nvs_key_cal_coeff s);
      min_freq_hz = value_or u16 default_min_freq_hz (get_u32 api h nvs_key_cal_min_freq s);
      max_freq_hz = value_or u16 default_max_freq_hz (get_u32 api h nvs_key_cal_max_freq s);
    }

    unfoldable pub calibration_read : Action (Memory S F) (CalibrationData F)
    calibration_read m =
        let (s', r) =
          with_handle api nvs_ns_burette_cal false (refuse api)
            (λ h s. (s, ok (read_calibration h s))) m.flash in
        elim r [
          | ok cal ↦ (record m { flash = s'; cal_cache = some cal }, ok cal)
          | unexpected e ↦ (record m { flash = s' }, unexpected e)
        ]

    -- The six writes of the first boot.
    unfoldable pub write_defaults : CalibrationData F → H → Action S Unit
    write_defaults cal h =
        set_f32 api bits h nvs_key_cal_spm cal.steps_per_ml
        then_try (set_f32 api bits h nvs_key_cal_nom cal.nominal_volume_ml
            then_try (set_f32 api bits h nvs_key_cal_coeff cal.speed_coeff
                then_try (set_u32 api h nvs_key_cal_min_freq cal.min_freq_hz
                    then_try (set_u32 api h nvs_key_cal_max_freq cal.max_freq_hz
                        then_try set_i32 api h nvs_key_cal_date (pos 0)))))

    -- The calibration's namespace at the first boot, when it does not have the first key.
    unfoldable pub init_calibration : H → Action S Unit
    init_calibration h s =
        if is_absent (get_f32 api bits h nvs_key_cal_spm s)
        then write_defaults no_calibration h s
        else (s, ok tt)

    unfoldable pub init_adc : H → Action S Unit
    init_adc h s =
        if is_absent (get_u32 api h nvs_key_adc_a_x1000 s)
        then (set_u32 api h nvs_key_adc_a_x1000 adc_default_a_x1000
              then_try set_i32 api h nvs_key_adc_b adc_default_b)
            s
        else (s, ok tt)

    unfoldable pub init_threshold : H → Action S Unit
    init_threshold h s =
        if is_absent (get_u32 api h nvs_key_sg_threshold s)
        then set_u32 api h nvs_key_sg_threshold 0 s
        else (s, ok tt)

    -- `nvsInit`: a namespace that does not open is skipped.
    unfoldable pub nvs_init : S → S
    nvs_init s =
        let s1 = (with_handle api nvs_ns_burette_cal true (refuse api) init_calibration s).0 in
        let s2 = (with_handle api nvs_ns_adc_cal true (refuse api) init_adc s1).0 in
        (with_handle api nvs_ns_stallguard true (refuse api) init_threshold s2).0
