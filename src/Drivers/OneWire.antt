-- ===== src/Drivers/OneWire.antt =====
-- components/infrastructure/src/drivers/onewire.cpp: the one-wire bus of the temperature sensor. The
-- bus lists the pulses that the master sends, and counts its looks at the line; `line` is what the
-- looks find. Logs are left out.
pub mod Bytes
use esp32_rs_on_idf.Common.{
  ℕ, zero, suc, ◌+◌, ◌-◌, ◌*◌, ◌/◌, ◌%◌, ◌^◌, Bool, true, false, not, ◌||◌, if◌then◌else◌, ltb,
  ◌==◌, Option, none, some, List, [], ◌∷◌, ◌++◌, get_or,
}
use esp32_rs_on_idf.Common.Int.{ℤ, pos, negsuc}
use esp32_rs_on_idf.Common.Float.{FloatOps, lit, ltf, ◌/f◌, ◌-f◌}

-- The line is low, and then released.
pub record Pulse : Type 0 where
  pub low_us : ℕ
  pub high_us : ℕ

pub record OneWireBus : Type 0 where
  pub pulses : List Pulse
  pub looks : ℕ

abbrev pub send_pulse : ℕ → ℕ → OneWireBus → OneWireBus
send_pulse low high bus = record bus {
  pulses = bus.pulses ++ record { low_us = low; high_us = high } ∷ [];
}

unfoldable pub reset : (ℕ → Bool) → OneWireBus → OneWireBus × Bool
reset line bus = (record (send_pulse 480 480 bus) { looks = bus.looks + 1 }, not (line bus.looks))

unfoldable pub write_bit1 : OneWireBus → OneWireBus
write_bit1 bus = send_pulse 6 64 bus

unfoldable pub write_bit0 : OneWireBus → OneWireBus
write_bit0 bus = send_pulse 60 10 bus

-- `(byte >> i) & 1`.
abbrev pub is_set : ℕ → ℕ → Bool
is_set byte i = byte / 2 ^ i % 2 == 1

-- The `for` from `i` on, with the rounds that are left.
unfoldable pub write_bits : ℕ → ℕ → ℕ → OneWireBus → OneWireBus
write_bits byte zero i bus = bus
write_bits byte (suc rounds) i bus =
    write_bits byte rounds (i + 1) (if is_set byte i then write_bit1 bus else write_bit0 bus)

unfoldable pub write_byte : ℕ → OneWireBus → OneWireBus
write_byte byte bus = write_bits byte 8 0 bus

unfoldable pub read_bit : (ℕ → Bool) → OneWireBus → OneWireBus × Bool
read_bit line bus = (record (send_pulse 3 63 bus) { looks = bus.looks + 1 }, line bus.looks)

-- The `for` from `i` on. The bit is not set before, so that `|=` adds it.
unfoldable pub read_bits : (ℕ → Bool) → ℕ → ℕ → ℕ → OneWireBus → OneWireBus × ℕ
read_bits line zero i byte bus = (bus, byte)
read_bits line (suc rounds) i byte bus =
    let (bus', bit) = read_bit line bus in
    read_bits line rounds (i + 1) (if bit then byte + 2 ^ i else byte) bus'

unfoldable pub read_byte : (ℕ → Bool) → OneWireBus → OneWireBus × ℕ
read_byte line bus = read_bits line 8 0 0 bus

unfoldable pub skip_rom : OneWireBus → OneWireBus
skip_rom = write_byte 0xCC

unfoldable pub convert_t : OneWireBus → OneWireBus
convert_t = write_byte 0x44

unfoldable pub read_bytes : (ℕ → Bool) → ℕ → OneWireBus → OneWireBus × List ℕ
read_bytes line zero bus = (bus, [])
read_bytes line (suc n) bus =
    let (bus1, b) = read_byte line bus in
    let (bus2, rest) = read_bytes line n bus1 in (bus2, b ∷ rest)

unfoldable pub read_scratchpad : (ℕ → Bool) → OneWireBus → OneWireBus × List ℕ
read_scratchpad line bus = read_bytes line 9 (write_byte 0xBE bus)

-- `static_cast<int16_t>` of a word.
abbrev pub signed16 : ℕ → ℤ
signed16 w = if ltb w 32_768 then pos w else negsuc (65_535 - w)

module _ {F : Type 0} ⦃o : FloatOps F⦄ where
  -- The temperature that the first two bytes of the scratchpad stand for, if it is in range.
  unfoldable pub temperature_of : List ℕ → Option F
  temperature_of buf =
      let temp = o.of_ℤ (signed16 (get_or buf 1 0 * 256 + get_or buf 0 0)) /f lit 16 0 in
      if ltf temp (lit 0 0 -f lit 55 0) || ltf (lit 125 0) temp then none else some temp

  unfoldable pub read_sensor : (ℕ → Bool) → OneWireBus → OneWireBus × Option F
  read_sensor line bus =
      let (bus1, present) = reset line bus in
      let (bus2, still) = reset line (convert_t (skip_rom bus1)) in
      let (bus3, buf) = read_scratchpad line (skip_rom bus2) in
      if not present
      then (bus1, none)
      else if not still
      then (bus2, none)
      else (bus3, temperature_of buf)
