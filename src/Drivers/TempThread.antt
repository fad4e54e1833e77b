-- ===== src/Drivers/TempThread.antt =====
-- components/infrastructure/src/temp_thread.cpp: a round of the temperature task, with what it stores
-- in the globals. `line` is what the looks at the bus find, `reading` is what the ADC gives; there may
-- be no ADC driver.
use esp32_rs_on_idf.Common.{
  ℕ, ◌+◌, ◌-◌, ◌*◌, ◌/◌, ◌<◌, ◌≡◌, refl, ap, ◌∙◌, ◌%◌, true, u16, Bool, ltb, if◌then◌else◌, Option,
  none, some, arith,
}
use esp32_rs_on_idf.Common.Int.{ℤ, ltb_ℤ, pos, negsuc, pos_part, neg_part, ◌+ℤ◌}
use esp32_rs_on_idf.Common.Float.{FloatOps, lit, ◌*f◌}
use esp32_rs_on_idf.Drivers.OneWire.{OneWireBus, reset, read_sensor}
use esp32_rs_on_idf.Application.Sensors.{temperature, handle_read_temperature}
use esp32_rs_on_idf.Drivers.Adc.{AdcDriver, calibrated_from_raw, read_raw, calibrated_mv}

pub record TempTask : Type 0 where
  pub bus : OneWireBus
  pub adc : Option AdcDriver
  pub temp_cx100 : ℤ
  pub last_mv : ℕ

-- `gCoeffAX1000` and `gCoeffB`.
pub record Coeffs : Type 0 where
  pub a_x1000 : ℕ
  pub b : ℤ

abbrev stored_mv : ℤ → ℕ
stored_mv mv = if ltb_ℤ mv (pos 0) then 0 else u16 (pos_part mv)

-- Without a driver the last voltage stays.
abbrev sample_adc : Coeffs → Option ℕ → Option AdcDriver → ℕ → Option AdcDriver × ℕ
sample_adc k reading none last_mv = (none, last_mv)
sample_adc k reading (some adc) last_mv =
    let (adc', mv) = calibrated_mv k.a_x1000 k.b reading adc in (some adc', stored_mv mv)

-- The voltage in millivolts with the calibration's coefficients, from 0 to 32,767.
abbrev millivolts : Coeffs → ℕ → ℕ
millivolts k raw =
    let mv = k.a_x1000 * raw / 1000 + pos_part k.b - neg_part k.b in
    if ltb mv 32_767 then mv else 32_767

calibrated_from_raw-millivolts :
    (a : ℕ) (b : ℤ) (raw : ℕ)
    → stored_mv (calibrated_from_raw a b raw) ≡ millivolts (record { a_x1000 = a; b = b }) raw
unfolding calibrated_from_raw ◌+ℤ◌
calibrated_from_raw-millivolts a (pos n) raw = ground arith
calibrated_from_raw-millivolts a (negsuc n) raw = ground arith

sample_adc_mv :
    (k : Coeffs) (raw old : ℕ) (o : Option AdcDriver) (adc : AdcDriver)
    → o ≡ some adc
    → raw < 4_096
    → (sample_adc k (some raw) o old).1 ≡ millivolts k raw
unfolding calibrated_mv read_raw
sample_adc_mv k raw old none adc e word = cc
sample_adc_mv k raw old (some x) adc e word =
    let whole : raw % 65_536 ≡ raw = omega arith in
    ap (λ r. stored_mv (calibrated_from_raw k.a_x1000 k.b r)) whole
    ∙ calibrated_from_raw-millivolts k.a_x1000 k.b raw

abbrev cx100_of : {F : Type 0} ⦃o : FloatOps F⦄ → Option F → ℤ
cx100_of none = negsuc 99_998
cx100_of ⦃o⦄ (some temp) = o.trunc (temp *f lit 100 0)

module _ (F : Type 0) ⦃o : FloatOps F⦄ where
  unfoldable pub temp_round : Coeffs → (ℕ → Bool) → Option ℕ → TempTask → TempTask
  temp_round k line reading t =
      let (bus, temp) = read_sensor ⦃o = o⦄ line t.bus in
      let (adc, mv) = sample_adc k reading t.adc t.last_mv in
      record { bus = bus; adc = adc; temp_cx100 = cx100_of temp; last_mv = mv }

  -- A reading of 12 bits is stored as the voltage in millivolts, cut to the range from 0 to
  -- 32,767, whatever the sensor says.
  pub temp_round-last_mv :
      (k : Coeffs) (line : ℕ → Bool) (raw : ℕ) (t : TempTask) (adc : AdcDriver)
      → t.adc ≡ some adc
      → raw < 4_096
      → (temp_round k line (some raw) t).last_mv ≡ millivolts k raw
  unfolding temp_round
  temp_round-last_mv k line raw t adc e word = sample_adc_mv k raw t.last_mv t.adc adc e word

  -- Where no sensor answers the reset, the stored temperature is the one that
  -- `handleReadTemperature` shows as 0.
  pub handle_read_temperature-temp_round :
      (k : Coeffs) (line : ℕ → Bool) (reading : Option ℕ) (t : TempTask)
      → line t.bus.looks ≡ true
      → handle_read_temperature {F = F} (temp_round k line reading t).temp_cx100
        ≡ temperature (lit 0 0)
  unfolding handle_read_temperature temp_round read_sensor reset
  handle_read_temperature-temp_round k line reading t absent = rw absent refl
