-- ===== src/Drivers/TmcUart/Frames.antt =====
-- Frames that are written and read back.
use esp32_rs_on_idf.Common.{ℕ, ◌<◌, ◌≡◌, some, arith}
use esp32_rs_on_idf.Drivers.TmcUart.{payload, write_frame, validate_response}
use esp32_rs_on_idf.Drivers.TmcUart.Checksum.{compute_crc_lt}

-- A frame that `writeRegister` builds is accepted by `validateResponse` for the same register, and
-- gives back the value, for every register below 256 and every 32-bit value.
pub validate_response-write_frame :
    (reg value : ℕ)
    → reg < 256
    → value < 4_294_967_296
    → validate_response reg (write_frame reg value) ≡ some value
unfolding validate_response write_frame payload
validate_response-write_frame reg value hr hv =
    let small =
      compute_crc_lt (payload reg value)
        (omega arith, (hr, (omega arith, (omega arith, (omega arith, (omega arith, tt)))))) in
    ground (arith, small)
