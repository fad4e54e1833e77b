-- ===== src/Storage/AdcRoundTrip.antt =====
-- The coefficients of the ADC and the threshold, read back as they were written.
use Prim.Native.String.{String}
use esp32_rs_on_idf.Common.{
  ℕ, ◌<◌, ◌≡◌, refl, ap, ◌∙◌, true, false, List, u16, some, [], ◌∷◌, arith,
}
use esp32_rs_on_idf.Common.Int.{ℤ}
use esp32_rs_on_idf.Domain.Types.{ok}
use esp32_rs_on_idf.Storage.Nvs.{NvsApi, with_handle, refuse}
use esp32_rs_on_idf.Storage.Laws.{u32_value, i32_value, Entry, NvsLaws, get_u32-some, get_i32-some}
use esp32_rs_on_idf.Storage.Settings.{
  Memory, nvs_ns_adc_cal, nvs_key_adc_a_x1000, nvs_key_adc_b, i16, write_adc, read_adc,
  adc_calibration_read, adc_calibration_write,
}
use esp32_rs_on_idf.Storage.Writes.{
  is_ok, Writes, Writes-bind, set_u32-Writes, set_i32-Writes, with_handle-Writes, with_handle-some,
}

module _ {S H : Type 0} {api : NvsApi S H} (laws : NvsLaws api) where
  abbrev entries : ℕ → ℤ → String → List Entry
  entries a_x1000 b ns =
      record { ns = ns; key = nvs_key_adc_a_x1000; value = u32_value a_x1000 }
      ∷ record { ns = ns; key = nvs_key_adc_b; value = i32_value b }
      ∷ []

  write_adc-Writes :
      (a_x1000 : ℕ) (b : ℤ)
      → Writes laws (write_adc api a_x1000 b) (entries a_x1000 b nvs_ns_adc_cal)
  unfolding write_adc
  write_adc-Writes a_x1000 b =
      with_handle-Writes laws nvs_ns_adc_cal true _ (entries a_x1000 b)
        (λ h. Writes-bind laws _ _ _ _ (set_u32-Writes laws h _ _) (set_i32-Writes laws h _ _))

  read_adc-eq :
      (a_x1000 : ℕ) (b : ℤ) (h : H) (s : S)
      → a_x1000 < 65_536
      → i16 b ≡ b
      → laws.contents s (laws.name h) nvs_key_adc_a_x1000 ≡ some (u32_value a_x1000)
      → laws.contents s (laws.name h) nvs_key_adc_b ≡ some (i32_value b)
      → read_adc api h s ≡ (a_x1000, b)
  unfolding read_adc
  read_adc-eq a_x1000 b h s small_a small_b ea eb =
      let low : u16 a_x1000 ≡ a_x1000 = omega arith in
      rw
        (
          get_u32-some laws h nvs_key_adc_a_x1000 s a_x1000 ea,
          get_i32-some laws h nvs_key_adc_b s b eb,
          low,
          small_b,
        )
        refl

  adc_calibration_read-eq :
      (p : ℕ × ℤ) (s : S)
      → (with_handle api nvs_ns_adc_cal false (refuse api) (λ h s. (s, ok (read_adc api h s))) s).1
        ≡ ok p
      → (adc_calibration_read api s).1 ≡ p
  unfolding adc_calibration_read
  adc_calibration_read-eq p s e = ground (arith, e)

  adc_calibration_read-stored :
      (a_x1000 : ℕ) (b : ℤ) (s : S)
      → a_x1000 < 65_536
      → i16 b ≡ b
      → laws.contents s nvs_ns_adc_cal nvs_key_adc_a_x1000 ≡ some (u32_value a_x1000)
      → laws.contents s nvs_ns_adc_cal nvs_key_adc_b ≡ some (i32_value b)
      → (adc_calibration_read api s).1 ≡ (a_x1000, b)
  adc_calibration_read-stored a_x1000 b s small_a small_b ea eb =
      let ns = nvs_ns_adc_cal in
      let s1 = (api.nvs_open ns false s).0 in
      let (h, opened) = laws.open_stored ns nvs_key_adc_a_x1000 s _ ea in
      let name = laws.open_name ns false s h opened in
      let stored : (key : String) → laws.contents s1 (laws.name h) key ≡ laws.contents s ns key =
        λ key. ap (λ ns. laws.contents s1 ns key) name ∙ laws.open_contents ns false s ns key in
      adc_calibration_read-eq (a_x1000, b) s
        (rw
          (
            with_handle-some api ns false (refuse api) (λ h s. (s, ok (read_adc api h s))) s h
                opened,
            read_adc-eq a_x1000 b h s1 small_a small_b (stored nvs_key_adc_a_x1000 ∙ ea)
                (stored nvs_key_adc_b ∙ eb),
          )
          refl)

  adc_calibration_write-flash :
      {F : Type 0} (a_x1000 : ℕ) (b : ℤ) (m : Memory S F)
      → is_ok (adc_calibration_write api a_x1000 b m).1 ≡ true
      → let n = (adc_calibration_write api a_x1000 b m).0 in
        (is_ok (write_adc api a_x1000 b m.flash).1 ≡ true)
        × (n.flash ≡ (write_adc api a_x1000 b m.flash).0)
        × (n.coeff_a_x1000 ≡ a_x1000)
        × (n.coeff_b ≡ b)
  unfolding adc_calibration_write
  adc_calibration_write-flash a_x1000 b m e = ground (arith, e)

  -- Coefficients of 16 bits whose write returned no error are read back from the flash memory, and
  -- are the ones that the driver computes with.
  pub adc_calibration_read-adc_calibration_write :
      {F : Type 0} (a_x1000 : ℕ) (b : ℤ) (m : Memory S F)
      → a_x1000 < 65_536
      → i16 b ≡ b
      → is_ok (adc_calibration_write api a_x1000 b m).1 ≡ true
      → let n = (adc_calibration_write api a_x1000 b m).0 in
        ((adc_calibration_read api n.flash).1 ≡ (a_x1000, b))
        × (n.coeff_a_x1000 ≡ a_x1000)
        × (n.coeff_b ≡ b)
  adc_calibration_read-adc_calibration_write a_x1000 b m small_a small_b e =
      let (good, same, a_now, b_now) = adc_calibration_write-flash a_x1000 b m e in
      let made = (write_adc-Writes a_x1000 b).made m.flash nvs_ns_adc_cal in
      let read : (adc_calibration_read api (write_adc api a_x1000 b m.flash).0).1 ≡ (a_x1000, b) =
        adc_calibration_read-stored a_x1000 b (write_adc api a_x1000 b m.flash).0 small_a small_b
          (made nvs_key_adc_a_x1000 good) (made nvs_key_adc_b good) in
      (ap (λ s. (adc_calibration_read api s).1) same ∙ read, a_now, b_now)
