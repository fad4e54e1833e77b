-- ===== src/Drivers/Adc.antt =====
-- components/infrastructure/src/drivers/adc.cpp: the reading of the ADC, with its calibration.
-- `reading` is what `adc_oneshot_read` gives, if it does not fail. The product of the two words fits
-- an `int32_t` for the readings of 12 bits that the driver configures.
use esp32_rs_on_idf.Common.{
  ℕ, ◌+◌, ◌*◌, ◌/◌, ◌≤◌, ◌≡◌, ◌∙◌, leb, u16, if◌then◌else◌, Option, none, some, List, length, set,
  replicate, length-set, arith,
}
use esp32_rs_on_idf.Common.Int.{ℤ, pos, negsuc, ltb_ℤ, ◌+ℤ◌}

-- The newest readings, and the place of the next one.
pub record AdcDriver : Type 0 where
  pub buf : List ℕ
  pub count : ℕ

abbrev pub fresh_adc : AdcDriver
fresh_adc = record { buf = replicate 64 0; count = 0 }

-- `std::clamp` to an `int16_t`.
abbrev pub clamp_i16 : ℤ → ℤ
clamp_i16 v =
    if ltb_ℤ v (negsuc 32_767)
    then negsuc 32_767
    else if ltb_ℤ (pos 32_767) v
    then pos 32_767
    else v

unfoldable pub calibrated_from_raw : (coeff_a_x1000 : ℕ) (coeff_b : ℤ) → ℕ → ℤ
calibrated_from_raw a b raw = clamp_i16 (pos (a * raw / 1000) +ℤ b)

unfoldable pub read_raw : Option ℕ → AdcDriver → AdcDriver × Option ℕ
read_raw none adc = (adc, none)
read_raw (some raw) adc =
    let at = if leb (length adc.buf) adc.count then 0 else adc.count in
    (record { buf = set adc.buf at (u16 raw); count = at + 1 }, some (u16 raw))

-- A reading that fails is 0 millivolts.
unfoldable pub calibrated_mv :
    (coeff_a_x1000 : ℕ) (coeff_b : ℤ) → Option ℕ → AdcDriver → AdcDriver × ℤ
calibrated_mv a b reading adc =
    let (adc', r) = read_raw reading adc in
    (adc', elim r [ none ↦ pos 0 | some raw ↦ calibrated_from_raw a b raw ])

-- The driver's array has 64 places, and the next one is at most behind the last.
pub record IsValid (adc : AdcDriver) : Type 0 where
  pub places : length adc.buf ≡ 64
  pub inside : adc.count ≤ 64

-- Every reading goes to a place of the array.
pub read_raw-IsValid :
    (reading : Option ℕ) (adc : AdcDriver) → IsValid adc → IsValid (read_raw reading adc).0
unfolding read_raw
read_raw-IsValid none adc h = h
read_raw-IsValid (some raw) adc h =
    let at = if leb (length adc.buf) adc.count then 0 else adc.count in
    record {
      places = length-set adc.buf at (u16 raw) ∙ h.places;
      inside = ground (arith, h.places, h.inside);
    }
