-- ===== src/Drivers/TmcUart.antt =====
-- components/infrastructure/src/drivers/tmc_uart.cpp: the frames of the TMC2209's serial line and their
-- checksum. The calls of ESP-IDF's UART driver are left out. Bytes are numbers below 256; the fields
-- that the source joins by `|` do not overlap, and are added here.
pub mod Checksum
pub mod Frames
use Prim.Native.Nat.{bit_xor}
use esp32_rs_on_idf.Common.{
  ℕ, zero, suc, ◌+◌, ◌*◌, ◌/◌, ◌%◌, Bool, false, ◌&&◌, not, if◌then◌else◌, leb, ◌==◌, u8, Option,
  none, some, List, [], ◌∷◌, ◌++◌, get_or, take,
}

-- One of the eight rounds on a byte: the test of bit 7, the shift and the polynomial.
unfoldable pub crc_round : ℕ → ℕ
crc_round crc = if leb 128 crc then u8 (bit_xor (crc * 2) 7) else u8 (crc * 2)

unfoldable pub crc_rounds : ℕ → ℕ → ℕ
crc_rounds zero crc = crc
crc_rounds (suc n) crc = crc_rounds n (crc_round crc)

unfoldable pub crc_from : ℕ → List ℕ → ℕ
crc_from crc [] = crc
crc_from crc (byte ∷ bytes) = crc_from (crc_rounds 8 (bit_xor crc byte)) bytes

unfoldable pub compute_crc : List ℕ → ℕ
compute_crc bytes = crc_from 0 bytes

-- The six bytes before the checksum of a write.
unfoldable pub payload : ℕ → ℕ → List ℕ
payload reg value =
    5 ∷ reg ∷ value / 16_777_216 % 256 ∷ value / 65_536 % 256 ∷ value / 256 % 256 ∷ value % 256 ∷ []

-- The eight bytes that `writeRegister` sends.
unfoldable pub write_frame : ℕ → ℕ → List ℕ
write_frame reg value =
    let crc = compute_crc (payload reg value) in payload reg value ++ crc ∷ crc ∷ []

-- The three bytes that `sendReadRequest` sends.
unfoldable pub read_request : ℕ → List ℕ
read_request reg = 7 ∷ reg ∷ compute_crc (7 ∷ reg ∷ []) ∷ []

unfoldable pub validate_response : ℕ → List ℕ → Option ℕ
validate_response reg resp =
    let at = λ (i : ℕ). get_or resp i 0 in
    let received_crc = at 6 + at 7 * 256 in
    if not (at 0 == 5 && at 1 == reg)
    then none
    else if not (compute_crc (take 6 resp) == received_crc % 256)
    then none
    else some (at 2 * 16_777_216 + at 3 * 65_536 + at 4 * 256 + at 5)

-- `testConnection` of the register IOIN that was read.
unfoldable pub test_connection : Option ℕ → Bool
test_connection none = false
test_connection (some ioin) = not (ioin == 0) && not (ioin == 4_294_967_295)
