-- ===== src/Examples/Drivers.antt =====
-- The theorems about the TMC2209's frames at one register, GCONF, and about a byte on the one-wire bus.
use esp32_rs_on_idf.Common.{ℕ, get_or, ◌≡◌, ◌≢◌, some, [], ◌∷◌, arith}
use esp32_rs_on_idf.Drivers.OneWire.{write_byte, read_byte}
use esp32_rs_on_idf.Drivers.OneWire.Bytes.{hears, fresh, read_byte-write_byte}
use esp32_rs_on_idf.Drivers.TmcUart.{compute_crc, write_frame, validate_response}
use esp32_rs_on_idf.Drivers.TmcUart.Checksum.{compute_crc_detects}
use esp32_rs_on_idf.Drivers.TmcUart.Frames.{validate_response-write_frame}

validate_response-write_frame_example :
    validate_response 0 (write_frame 0 0x1234_5678) ≡ some 0x1234_5678
validate_response-write_frame_example =
    validate_response-write_frame 0 0x1234_5678 (omega arith) (omega arith)

compute_crc_detects_example :
    compute_crc (5 ∷ 0 ∷ 18 ∷ 52 ∷ 86 ∷ 120 ∷ []) ≢ compute_crc (5 ∷ 0 ∷ 18 ∷ 53 ∷ 86 ∷ 120 ∷ [])
compute_crc_detects_example =
    compute_crc_detects (5 ∷ 0 ∷ 18 ∷ []) (86 ∷ 120 ∷ []) 52 53
      (omega arith, (omega arith, (omega arith, tt))) (omega arith, (omega arith, tt)) (omega arith)
      (omega arith) (omega arith)

read_byte-write_byte_example :
    let sent = (write_byte 0xCC fresh).pulses in
    (read_byte (λ (k : ℕ). hears (get_or sent k (record { low_us = 60; high_us = 10 }))) fresh).1
    ≡ 0xCC
read_byte-write_byte_example = read_byte-write_byte 0xCC (omega arith)
