-- ===== src/Interface/Serial.antt =====
-- components/interface/include/interface/serial.hpp: the lines of the serial input. `lineBuf_` is the
-- list of the bytes before `linePos_`, which is its length; a write behind the array makes it longer
-- than `max_cmd_size`. A line is returned as its bytes.
pub mod Lines
use esp32_rs_on_idf.Common.{
  ℕ, zero, suc, ◌+◌, Bool, true, false, if◌then◌else◌, ltb, leb, ◌==◌, Option, none, some, List, [],
  ◌∷◌, ◌++◌, length, drop,
}

-- The two cursors are `length line_buf` and `read_pos`.
pub record SerialReader : Type 0 where
  pub line_buf : List ℕ
  pub read_pos : ℕ

abbrev pub max_cmd_size : ℕ
max_cmd_size = 256

abbrev pub initial : SerialReader
initial = record { line_buf = []; read_pos = 0 }

unfoldable pub compact : SerialReader → SerialReader
compact s =
    if ltb 0 s.read_pos
    then record {
      line_buf = if ltb s.read_pos (length s.line_buf) then drop s.read_pos s.line_buf else [];
      read_pos = 0;
    }
    else s

-- One round of the first `for`; `none` is its `break`.
unfoldable pub append_byte : ℕ → SerialReader → Option SerialReader
append_byte c s =
    if c == 13
    then some s
    else if c == 10
    then some (
        if length s.line_buf == s.read_pos then s else record s { line_buf = s.line_buf ++ c ∷ [] })
    else if leb max_cmd_size (length s.line_buf)
    then none
    else some (record s { line_buf = s.line_buf ++ c ∷ [] })

unfoldable pub append_data : List ℕ → SerialReader → SerialReader
append_data [] s = s
append_data (c ∷ bytes) s = elim (append_byte c s) [
  | none ↦ initial
  | some s' ↦ append_data bytes s'
]

abbrev pub in_front : ℕ → Option (List ℕ) → Option (List ℕ)
in_front c none = none
in_front c (some line) = some (c ∷ line)

-- The bytes before the first newline, if there is one.
abbrev pub before_newline : List ℕ → Option (List ℕ)
before_newline [] = none
before_newline (c ∷ rest) = if c == 10 then some [] else in_front c (before_newline rest)

-- The second `for`.
unfoldable pub scan : SerialReader → Option (List ℕ) × SerialReader
scan s = elim (before_newline (drop s.read_pos s.line_buf)) [
  | none ↦ (none, s)
  | some line ↦ (some line, record s { read_pos = s.read_pos + length line + 1 })
]

unfoldable pub split_buffer : List ℕ → SerialReader → Option (List ℕ) × SerialReader
split_buffer bytes s = scan (append_data bytes (compact s))

-- `process`, with the bytes that `select` and `read` find in the UART, if any.
unfoldable pub process : Option (List ℕ) → SerialReader → Option (List ℕ) × SerialReader
process none s = (none, s)
process (some []) s = (none, s)
process (some (c ∷ bytes)) s = split_buffer (c ∷ bytes) s
