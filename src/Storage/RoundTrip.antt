-- ===== src/Storage/RoundTrip.antt =====
-- A setting is read back as it was written, also after other writes, failed ones, and boots.
use Prim.Native.String.{String}
use esp32_rs_on_idf.Common.{◌<◌, ◌≡◌, refl, sym, ◌∙◌, true, false, u16, some, List, [], ◌∷◌, arith}
use esp32_rs_on_idf.Common.Int.{pos}
use esp32_rs_on_idf.Common.Float.{FloatOps}
use esp32_rs_on_idf.Domain.Types.{Result, ok}
use esp32_rs_on_idf.Domain.Calibration.{CalibrationData}
use esp32_rs_on_idf.Storage.Nvs.{
  NvsApi, FloatBits, Action, with_handle, refuse, get_f32, ResourceError,
}
use esp32_rs_on_idf.Storage.Laws.{
  NvsValue, u32_value, i32_value, Entry, after, NvsLaws, get_u32-some,
}
use esp32_rs_on_idf.Storage.Settings.{
  Memory, nvs_ns_burette_cal, nvs_key_cal_spm, nvs_key_cal_nom, nvs_key_cal_coeff,
  nvs_key_cal_min_freq, nvs_key_cal_max_freq, nvs_key_cal_date, write_calibration,
  calibration_write, read_calibration, calibration_read,
}
use esp32_rs_on_idf.Storage.Writes.{
  is_ok, Writes, Writes-bind, set_u32-Writes, set_i32-Writes, set_f32-Writes, with_handle-Writes,
  with_handle-some,
}

abbrev entry_at : String → String → NvsValue → Entry
entry_at ns key value = record { ns = ns; key = key; value = value }

module _ {S H F : Type 0} ⦃o : FloatOps F⦄ {api : NvsApi S H} (laws : NvsLaws api)
    (bits : FloatBits F) where
  abbrev Holds : S → String → String → NvsValue → Type 0
  Holds s ns key value = laws.contents s ns key ≡ some value

  -- The flash memory holds a calibration.
  pub record HasCalibration (cal : CalibrationData F) (s : S) : Type 0 where
    pub spm : Holds s nvs_ns_burette_cal nvs_key_cal_spm (u32_value (bits.to_bits cal.steps_per_ml))
    pub nom :
        Holds s nvs_ns_burette_cal nvs_key_cal_nom (u32_value (bits.to_bits cal.nominal_volume_ml))
    pub coeff :
        Holds s nvs_ns_burette_cal nvs_key_cal_coeff (u32_value (bits.to_bits cal.speed_coeff))
    pub min_freq : Holds s nvs_ns_burette_cal nvs_key_cal_min_freq (u32_value cal.min_freq_hz)
    pub max_freq : Holds s nvs_ns_burette_cal nvs_key_cal_max_freq (u32_value cal.max_freq_hz)

  abbrev pub calibration_entries : CalibrationData F → String → List Entry
  calibration_entries cal ns =
      entry_at ns nvs_key_cal_spm (u32_value (bits.to_bits cal.steps_per_ml))
      ∷ entry_at ns nvs_key_cal_nom (u32_value (bits.to_bits cal.nominal_volume_ml))
      ∷ entry_at ns nvs_key_cal_coeff (u32_value (bits.to_bits cal.speed_coeff))
      ∷ entry_at ns nvs_key_cal_min_freq (u32_value cal.min_freq_hz)
      ∷ entry_at ns nvs_key_cal_max_freq (u32_value cal.max_freq_hz)
      ∷ entry_at ns nvs_key_cal_date (i32_value (pos 0))
      ∷ []

  write_calibration-Writes :
      (cal : CalibrationData F) (h : H)
      → Writes laws (write_calibration api bits cal h) (calibration_entries cal (laws.name h))
  unfolding write_calibration
  write_calibration-Writes cal h = Writes-bind laws _ _ _ _ (set_f32-Writes laws bits h _ _) (
      Writes-bind laws _ _ _ _ (set_f32-Writes laws bits h _ _) (
        Writes-bind laws _ _ _ _ (set_f32-Writes laws bits h _ _) (
          Writes-bind laws _ _ _ _ (set_u32-Writes laws h _ _)
            (Writes-bind laws _ _ _ _ (set_u32-Writes laws h _ _) (set_i32-Writes laws h _ _)))))

  calibration_written :
      (cal : CalibrationData F)
      → Writes laws
          (with_handle api nvs_ns_burette_cal true (refuse api) (write_calibration api bits cal))
          (calibration_entries cal nvs_ns_burette_cal)
  calibration_written cal =
      with_handle-Writes laws nvs_ns_burette_cal true (write_calibration api bits cal)
        (calibration_entries cal) (write_calibration-Writes cal)

  abbrev flash_write : CalibrationData F → Action S Unit
  flash_write cal =
      with_handle api nvs_ns_burette_cal true (refuse api) (write_calibration api bits cal)

  flash-calibration_write :
      (cal : CalibrationData F) (m : Memory S F)
      → ((calibration_write api bits cal m).0.flash ≡ (flash_write cal m.flash).0)
        × (is_ok (calibration_write api bits cal m).1 ≡ is_ok (flash_write cal m.flash).1)
  unfolding calibration_write
  flash-calibration_write cal m = ground arith

  -- The six entries in the namespace are a calibration.
  pub entries-HasCalibration :
      (cal : CalibrationData F) (s s' : S)
      → ((n k : String)
          → laws.contents s' n k
            ≡ after (calibration_entries cal nvs_ns_burette_cal) n k (laws.contents s n k))
      → HasCalibration cal s'
  entries-HasCalibration cal s s' made = record {
    spm = made nvs_ns_burette_cal nvs_key_cal_spm;
    nom = made nvs_ns_burette_cal nvs_key_cal_nom;
    coeff = made nvs_ns_burette_cal nvs_key_cal_coeff;
    min_freq = made nvs_ns_burette_cal nvs_key_cal_min_freq;
    max_freq = made nvs_ns_burette_cal nvs_key_cal_max_freq;
  }

  pub calibration_write-HasCalibration :
      (cal : CalibrationData F) (m : Memory S F)
      → is_ok (calibration_write api bits cal m).1 ≡ true
      → HasCalibration cal (calibration_write api bits cal m).0.flash
  calibration_write-HasCalibration cal m e =
      let (same, good) = flash-calibration_write cal m in
      rw same (
        entries-HasCalibration cal m.flash (flash_write cal m.flash).0
          (λ n k. (calibration_written cal).made m.flash n k (sym good ∙ e)))

  pub get_f32-some :
      (h : H) (key : String) (s : S) (x : F)
      → Holds s (laws.name h) key (u32_value (bits.to_bits x))
      → get_f32 api bits h key s ≡ ok (some x)
  unfolding get_f32
  get_f32-some h key s x e = rw (laws.get_u32_contents h key s _ e, bits.bits_back x) refl

  -- The six values come back through an open handle of the namespace.
  read_calibration-eq :
      (cal : CalibrationData F) (h : H) (s : S)
      → cal.min_freq_hz < 65_536
      → cal.max_freq_hz < 65_536
      → laws.name h ≡ nvs_ns_burette_cal
      → HasCalibration cal s
      → read_calibration api bits h s ≡ cal
  unfolding read_calibration
  read_calibration-eq cal h s small_min small_max e w =
      let spm = get_f32-some h nvs_key_cal_spm s cal.steps_per_ml (rw e w.spm) in
      let nom = get_f32-some h nvs_key_cal_nom s cal.nominal_volume_ml (rw e w.nom) in
      let coeff = get_f32-some h nvs_key_cal_coeff s cal.speed_coeff (rw e w.coeff) in
      let min = get_u32-some laws h nvs_key_cal_min_freq s cal.min_freq_hz (rw e w.min_freq) in
      let max = get_u32-some laws h nvs_key_cal_max_freq s cal.max_freq_hz (rw e w.max_freq) in
      let low : u16 cal.min_freq_hz ≡ cal.min_freq_hz = omega arith in
      let high : u16 cal.max_freq_hz ≡ cal.max_freq_hz = omega arith in
      rw (spm, nom, coeff, min, max, low, high) refl

  -- A memory with the same calibration namespace has the same calibration.
  pub HasCalibration-same :
      (cal : CalibrationData F) (s s' : S)
      → ((k : String)
          → laws.contents s' nvs_ns_burette_cal k ≡ laws.contents s nvs_ns_burette_cal k)
      → HasCalibration cal s
      → HasCalibration cal s'
  HasCalibration-same cal s s' same w = record {
    spm = same nvs_key_cal_spm ∙ w.spm;
    nom = same nvs_key_cal_nom ∙ w.nom;
    coeff = same nvs_key_cal_coeff ∙ w.coeff;
    min_freq = same nvs_key_cal_min_freq ∙ w.min_freq;
    max_freq = same nvs_key_cal_max_freq ∙ w.max_freq;
  }

  abbrev flash_read : S → S × Result (CalibrationData F) ResourceError
  flash_read =
      with_handle api nvs_ns_burette_cal false (refuse api)
        (λ h s. (s, ok (read_calibration api bits h s)))

  calibration_read-flash_read :
      (cal : CalibrationData F) (m : Memory S F)
      → (flash_read m.flash).1 ≡ ok cal
      → let (n, r) = calibration_read api bits m in (r ≡ ok cal) × (n.cal_cache ≡ some cal)
  unfolding calibration_read
  calibration_read-flash_read cal m e = ground (arith, e)

  pub calibration_read-HasCalibration :
      (cal : CalibrationData F) (m : Memory S F)
      → cal.min_freq_hz < 65_536
      → cal.max_freq_hz < 65_536
      → HasCalibration cal m.flash
      → let (n, r) = calibration_read api bits m in (r ≡ ok cal) × (n.cal_cache ≡ some cal)
  calibration_read-HasCalibration cal m small_min small_max w =
      let s1 = (api.nvs_open nvs_ns_burette_cal false m.flash).0 in
      let (h, opened) = laws.open_stored nvs_ns_burette_cal nvs_key_cal_spm m.flash _ w.spm in
      let w1 =
        HasCalibration-same cal m.flash s1 (laws.open_contents nvs_ns_burette_cal false m.flash _)
          w in
      let read =
        read_calibration-eq cal h s1 small_min small_max
          (laws.open_name nvs_ns_burette_cal false m.flash h opened) w1 in
      let result : (flash_read m.flash).1 ≡ ok cal =
        rw
          (
            with_handle-some api nvs_ns_burette_cal false (refuse api)
                (λ h s. (s, ok (read_calibration api bits h s))) m.flash h opened,
            read,
          )
          refl in
      calibration_read-flash_read cal m result
