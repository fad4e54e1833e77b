-- ===== src/Examples/Storage.antt =====
-- The theorems about the settings in the flash memory, with a memory that is a function of the
-- namespace and the key, and that never fails.
use Prim.Native.String.{String}
use text.Mathlib.Text.{◌==◌ as str_eq}
use esp32_rs_on_idf.Common.{
  ℕ, ◌+◌, ◌*◌, ◌/◌, ◌%◌, ◌≡◌, refl, true, ◌&&◌, if◌then◌else◌, ◌==◌, Option, none, some, [], ◌∷◌,
  arith,
}
use esp32_rs_on_idf.Common.Int.{ℤ, pos, negsuc}
use esp32_rs_on_idf.Common.Float.{fixed_point}
use esp32_rs_on_idf.Domain.Types.{ok}
use esp32_rs_on_idf.Domain.Calibration.{CalibrationData}
use esp32_rs_on_idf.Storage.Nvs.{
  NvsApi, FloatBits, NvsRead, found, not_found, with_handle, set_u32, set_i32, set_f32,
}
use esp32_rs_on_idf.Storage.Laws.{NvsValue, u32_value, i32_value, entered, NvsLaws}
use esp32_rs_on_idf.Storage.Settings.{
  Memory, write_calibration, calibration_read, calibration_write,
}
use esp32_rs_on_idf.Storage.Survival.{
  set_threshold, set_adc, boot, change_all, calibration_read-calibration_write,
}

abbrev pub Flash : Type 0
Flash = String → String → Option NvsValue

abbrev u32_of : Option NvsValue → NvsRead ℕ
u32_of (some (u32_value v)) = found v
u32_of _ = not_found

abbrev i32_of : Option NvsValue → NvsRead ℤ
i32_of (some (i32_value v)) = found v
i32_of _ = not_found

abbrev put : String → String → NvsValue → Flash → Flash
put ns key v s n k = entered (record { ns = ns; key = key; value = v }) n k (s n k)

abbrev wipe : String → String → Flash → Flash
wipe ns key s n k = if str_eq ns n && str_eq key k then none else s n k

abbrev pub flash_api : NvsApi Flash String
flash_api = record {
  nvs_open = λ ns read_write s. (s, some ns);
  nvs_close = λ h s. s;
  nvs_get_u8 = λ h key s. not_found;
  nvs_get_u32 = λ h key s. u32_of (s h key);
  nvs_get_i32 = λ h key s. i32_of (s h key);
  nvs_get_str = λ h key size s. not_found;
  nvs_set_u8 = λ h key v s. (wipe h key s, true);
  nvs_set_u32 = λ h key v s. (put h key (u32_value v) s, true);
  nvs_set_i32 = λ h key v s. (put h key (i32_value v) s, true);
  nvs_set_str = λ h key v s. (wipe h key s, true);
  nvs_erase_key = λ h key s. (wipe h key s, true);
  nvs_erase_all = λ h s. (s, true);
  nvs_commit = λ h s. (s, true);
}

pub same_handle : (ns h : String) → some ns ≡ some h → h ≡ ns
same_handle ns h e = cc

abbrev pub flash_laws : NvsLaws flash_api
flash_laws = record {
  contents = λ s. s;
  name = λ h. h;
  open_contents = λ ns read_write s n key. refl;
  open_name = λ ns read_write s h e. same_handle ns h e;
  open_stored = λ ns key s v e. (ns, refl);
  close_contents = λ h s n key. refl;
  commit_contents = λ h s n key. refl;
  set_u32_contents = λ h key v s n k e. refl;
  set_i32_contents = λ h key v s n k e. refl;
  set_u8_frame = λ h key v s n k e. rw e refl;
  set_u32_frame = λ h key v s n k e. rw e refl;
  set_i32_frame = λ h key v s n k e. rw e refl;
  set_str_frame = λ h key v s n k e. rw e refl;
  erase_key_frame = λ h key s n k e. rw e refl;
  get_u32_contents = λ h key s v e. rw e refl;
  get_i32_contents = λ h key s v e. rw e refl;
  get_u32_absent = λ h key s e. rw e refl;
}

abbrev pub zigzag : ℤ → ℕ
zigzag (pos n) = 2 * n
zigzag (negsuc n) = 2 * n + 1

abbrev pub zagzig : ℕ → ℤ
zagzig w = if w % 2 == 0 then pos (w / 2) else negsuc (w / 2)

pub zagzig-zigzag : (x : ℤ) → zagzig (zigzag x) ≡ x
zagzig-zigzag (pos n) = ground arith
zagzig-zigzag (negsuc n) = ground arith

abbrev pub bits : FloatBits ℤ
bits = record { to_bits = zigzag; of_bits = zagzig; bits_back = zagzig-zigzag }

abbrev pub fine : CalibrationData ℤ
fine = record {
  steps_per_ml = pos 7_812_500_000;
  nominal_volume_ml = pos 8_100_000;
  speed_coeff = pos 30_000;
  min_freq_hz = 40;
  max_freq_hz = 2800;
}

abbrev pub blank_memory : Memory Flash ℤ
blank_memory = record {
  flash = λ n k. none;
  cal_cache = none;
  coeff_a_x1000 = 1000;
  coeff_b = pos 0;
}

-- A calibration, then a threshold, the ADC's coefficients and a boot.
calibration_read-calibration_write_example :
    let changes = set_threshold 60 ∷ set_adc 1020 (negsuc 3) ∷ boot ∷ [] in
    let written = (calibration_write flash_api ⦃o = fixed_point⦄ bits fine blank_memory).0 in
    let later = change_all ⦃o = fixed_point⦄ flash_api bits changes written in
    let (n, r) = calibration_read flash_api ⦃o = fixed_point⦄ bits later in
    (r ≡ ok fine) × (n.cal_cache ≡ some fine)
unfolding calibration_write write_calibration with_handle set_f32 set_u32 set_i32
calibration_read-calibration_write_example =
    calibration_read-calibration_write ⦃o = fixed_point⦄ flash_laws bits fine
      (set_threshold 60 ∷ set_adc 1020 (negsuc 3) ∷ boot ∷ []) blank_memory (omega arith)
      (omega arith) refl
