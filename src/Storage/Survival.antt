-- ===== src/Storage/Survival.antt =====
-- What becomes of a calibration, and of the other settings, in the writes and boots that follow.
use Prim.Native.String.{String}
use text.Mathlib.Text.{◌==◌ as str_eq}
use esp32_rs_on_idf.Common.{ℕ, ◌<◌, ◌≡◌, refl, ◌∙◌, true, false, some, List, [], ◌∷◌, arith}
use esp32_rs_on_idf.Common.Int.{ℤ}
use esp32_rs_on_idf.Common.Float.{FloatOps}
use esp32_rs_on_idf.Domain.Types.{ok}
use esp32_rs_on_idf.Domain.Calibration.{CalibrationData}
use esp32_rs_on_idf.Storage.Nvs.{NvsApi, FloatBits, with_handle, refuse}
use esp32_rs_on_idf.Storage.Laws.{NvsLaws}
use esp32_rs_on_idf.Storage.Settings.{
  Memory, nvs_ns_burette_cal, nvs_ns_adc_cal, nvs_ns_stallguard, nvs_key_cal_spm,
  nvs_key_sg_threshold, stallguard_write_threshold, wifi_write_str, wifi_erase, wifi_write_count,
  write_adc, adc_calibration_write, calibration_write, calibration_read, init_calibration, init_adc,
  init_threshold, nvs_init,
}
use esp32_rs_on_idf.Storage.Writes.{is_ok}
use esp32_rs_on_idf.Storage.Frame.{
  Keeps, Keeps-bind, Keeps-if, Keeps-then_try, set_u8-Keeps, set_u32-Keeps, set_i32-Keeps,
  set_str-Keeps, erase_key-Keeps, with_handle-kept, with_handle-Keeps,
}
use esp32_rs_on_idf.Storage.RoundTrip.{
  HasCalibration, HasCalibration-same, get_f32-some, calibration_write-HasCalibration,
  calibration_read-HasCalibration,
}

-- A write of another setting than the calibration, or a boot, which sets defaults.
pub data Change : Type 0 where
  set_threshold set_wifi_count : ℕ → Change
  set_adc : ℕ → ℤ → Change
  set_wifi : String → List ℕ → Change
  erase_wifi : String → Change
  boot : Change

module _ {S H F : Type 0} ⦃o : FloatOps F⦄ (api : NvsApi S H) (bits : FloatBits F) where
  -- A change, whether it succeeds or not.
  unfoldable pub change : Change → Memory S F → Memory S F
  change (set_threshold v) m = record m { flash = (stallguard_write_threshold api v m.flash).0 }
  change (set_wifi_count n) m = record m { flash = (wifi_write_count api n m.flash).0 }
  change (set_adc a_x1000 b) m = (adc_calibration_write api a_x1000 b m).0
  change (set_wifi key value) m = record m { flash = (wifi_write_str api key value m.flash).0 }
  change (erase_wifi key) m = record m { flash = (wifi_erase api key m.flash).0 }
  change boot m = record m { flash = nvs_init api bits m.flash }

  unfoldable pub change_all : List Change → Memory S F → Memory S F
  change_all [] m = m
  change_all (c ∷ changes) m = change_all changes (change c m)

module _ {S H : Type 0} {api : NvsApi S H} (laws : NvsLaws api) (n : String) where
  threshold-Keeps :
      (v : ℕ) → str_eq nvs_ns_stallguard n ≡ false → Keeps laws n (stallguard_write_threshold api v)
  unfolding stallguard_write_threshold
  threshold-Keeps v other =
      with_handle-Keeps laws n nvs_ns_stallguard true _
        (λ h e. set_u32-Keeps laws n h (rw e other) nvs_key_sg_threshold v)

  wifi_count-Keeps : (v : ℕ) → str_eq "wifi" n ≡ false → Keeps laws n (wifi_write_count api v)
  unfolding wifi_write_count
  wifi_count-Keeps v other =
      with_handle-Keeps laws n "wifi" true _ (λ h e. set_u8-Keeps laws n h (rw e other) _ v)

  wifi_str-Keeps :
      (key : String) (v : List ℕ)
      → str_eq "wifi" n ≡ false
      → Keeps laws n (wifi_write_str api key v)
  unfolding wifi_write_str
  wifi_str-Keeps key v other =
      with_handle-Keeps laws n "wifi" true _ (λ h e. set_str-Keeps laws n h (rw e other) key v)

  wifi_erase-Keeps : (key : String) → str_eq "wifi" n ≡ false → Keeps laws n (wifi_erase api key)
  unfolding wifi_erase
  wifi_erase-Keeps key other =
      with_handle-Keeps laws n "wifi" true _ (λ h e. erase_key-Keeps laws n h (rw e other) key)

  write_adc-Keeps :
      (a_x1000 : ℕ) (b : ℤ)
      → str_eq nvs_ns_adc_cal n ≡ false
      → Keeps laws n (write_adc api a_x1000 b)
  unfolding write_adc
  write_adc-Keeps a_x1000 b other = with_handle-Keeps laws n nvs_ns_adc_cal true _ (λ h e.
      let apart : str_eq (laws.name h) n ≡ false = rw e other in
      Keeps-bind laws n _ _ (set_u32-Keeps laws n h apart _ a_x1000)
        (set_i32-Keeps laws n h apart _ b))

  module _ {F : Type 0} ⦃o : FloatOps F⦄ (bits : FloatBits F) where
    pub init_adc-Keeps :
        str_eq nvs_ns_adc_cal n ≡ false
        → Keeps laws n (with_handle api nvs_ns_adc_cal true (refuse api) (init_adc api bits))
    unfolding init_adc
    init_adc-Keeps other = with_handle-Keeps laws n nvs_ns_adc_cal true _ (λ h e.
        let apart : str_eq (laws.name h) n ≡ false = rw e other in
        Keeps-if laws n _ _ (
          Keeps-then_try laws n _ _ (set_u32-Keeps laws n h apart _ _)
            (set_i32-Keeps laws n h apart _ _)))

    pub init_threshold-Keeps :
        str_eq nvs_ns_stallguard n ≡ false
        → Keeps laws n
            (with_handle api nvs_ns_stallguard true (refuse api) (init_threshold api bits))
    unfolding init_threshold
    init_threshold-Keeps other = with_handle-Keeps laws n nvs_ns_stallguard true _ (λ h e.
        let apart : str_eq (laws.name h) n ≡ false = rw e other in
        Keeps-if laws n _ _ (set_u32-Keeps laws n h apart _ _))

module _ {S H F : Type 0} ⦃o : FloatOps F⦄ {api : NvsApi S H} (laws : NvsLaws api)
    (bits : FloatBits F) (cal : CalibrationData F) where
  -- The first boot's test finds a calibration, and writes nothing.
  init_calibration-found :
      (h : H) (s : S)
      → laws.name h ≡ nvs_ns_burette_cal
      → HasCalibration laws bits cal s
      → init_calibration api bits h s ≡ (s, ok tt)
  unfolding init_calibration
  init_calibration-found h s e w =
      let there = get_f32-some laws bits h nvs_key_cal_spm s cal.steps_per_ml (rw e w.spm) in
      rw there refl

  nvs_init-HasCalibration :
      (s : S) → HasCalibration laws bits cal s → HasCalibration laws bits cal (nvs_init api bits s)
  unfolding nvs_init
  nvs_init-HasCalibration s w =
      let ns = nvs_ns_burette_cal in
      let s1 = (with_handle api ns true (refuse api) (init_calibration api bits) s).0 in
      let s2 = (with_handle api nvs_ns_adc_cal true (refuse api) (init_adc api bits) s1).0 in
      let first = with_handle-kept laws ns ns true (init_calibration api bits) s in
      let adc = init_adc-Keeps laws ns bits refl in
      let threshold = init_threshold-Keeps laws ns bits refl in
      HasCalibration-same laws bits cal s _
        (λ k.
          threshold.kept s2 k
          ∙ adc.kept s1 k
          ∙ first k (λ h e.
            let s0 = (api.nvs_open ns true s).0 in
            let w0 = HasCalibration-same laws bits cal s s0 (laws.open_contents ns true s ns) w in
            rw (init_calibration-found h s0 e w0) refl))
        w

  change-HasCalibration :
      (c : Change) (m : Memory S F)
      → HasCalibration laws bits cal m.flash
      → HasCalibration laws bits cal (change api bits c m).flash
  unfolding change adc_calibration_write
  change-HasCalibration (set_threshold v) m w =
      HasCalibration-same laws bits cal m.flash _
        ((threshold-Keeps laws nvs_ns_burette_cal v refl).kept m.flash) w
  change-HasCalibration (set_wifi_count v) m w =
      HasCalibration-same laws bits cal m.flash _
        ((wifi_count-Keeps laws nvs_ns_burette_cal v refl).kept m.flash) w
  change-HasCalibration (set_adc a_x1000 b) m w =
      let same : HasCalibration laws bits cal (write_adc api a_x1000 b m.flash).0 =
        HasCalibration-same laws bits cal m.flash _
          ((write_adc-Keeps laws nvs_ns_burette_cal a_x1000 b refl).kept m.flash) w in
      ground (arith, same)
  change-HasCalibration (set_wifi key v) m w =
      HasCalibration-same laws bits cal m.flash _
        ((wifi_str-Keeps laws nvs_ns_burette_cal key v refl).kept m.flash) w
  change-HasCalibration (erase_wifi key) m w =
      HasCalibration-same laws bits cal m.flash _
        ((wifi_erase-Keeps laws nvs_ns_burette_cal key refl).kept m.flash) w
  change-HasCalibration boot m w = nvs_init-HasCalibration m.flash w

  change_all-HasCalibration :
      (changes : List Change) (m : Memory S F)
      → HasCalibration laws bits cal m.flash
      → HasCalibration laws bits cal (change_all api bits changes m).flash
  unfolding change_all
  change_all-HasCalibration [] m w = w
  change_all-HasCalibration (c ∷ changes) m w =
      change_all-HasCalibration changes (change api bits c m) (change-HasCalibration c m w)

  -- A calibration whose write returned no error is read back, and put into the cache, after any
  -- later writes of the other settings, failed ones too, and any boots.
  pub calibration_read-calibration_write :
      (changes : List Change) (m : Memory S F)
      → cal.min_freq_hz < 65_536
      → cal.max_freq_hz < 65_536
      → is_ok (calibration_write api bits cal m).1 ≡ true
      → let later = change_all api bits changes (calibration_write api bits cal m).0 in
        let (n, r) = calibration_read api bits later in (r ≡ ok cal) × (n.cal_cache ≡ some cal)
  calibration_read-calibration_write changes m small_min small_max e =
      let w = calibration_write-HasCalibration laws bits cal m e in
      calibration_read-HasCalibration laws bits cal
        (change_all api bits changes (calibration_write api bits cal m).0) small_min small_max
        (change_all-HasCalibration changes (calibration_write api bits cal m).0 w)
