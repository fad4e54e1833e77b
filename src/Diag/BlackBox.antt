-- ===== src/Diag/BlackBox.antt =====
-- components/diag/include/diag/black_box.hpp and src/black_box.cpp: the ring of events. `size_t` has
-- 32 bits. A call runs without a switch between its steps. What `dump` writes is one list of bytes.
pub mod Dump
use esp32_rs_on_idf.Common.{
  ℕ, zero, suc, ◌+◌, ◌-◌, ◌/◌, ◌%◌, if◌then◌else◌, ltb, ◌==◌, u32, List, [], ◌∷◌, ◌++◌, get_or, set,
  replicate,
}
use esp32_rs_on_idf.Common.Text.{codes}

pub data EventType : Type 0 where
  ffi_enter ffi_exit state_transition thread_start tick_begin : EventType
  tick_end alloc_request error tick_duration : EventType

-- `static_cast<uint8_t>`.
abbrev pub type_number : EventType → ℕ
type_number ffi_enter = 0
type_number ffi_exit = 1
type_number state_transition = 2
type_number thread_start = 3
type_number tick_begin = 4
type_number tick_end = 5
type_number alloc_request = 6
type_number error = 7
type_number tick_duration = 8

pub record Event : Type 0 where
  pub timestamp_us : ℕ
  pub event_type : EventType
  pub thread_id : ℕ
  pub payload_id : ℕ
  pub payload_value : ℕ

pub record BlackBox : Type 0 where
  pub ring : List Event
  pub head : ℕ

abbrev pub ring_size : ℕ
ring_size = 64

abbrev pub no_event : Event
no_event = record {
  timestamp_us = 0;
  event_type = ffi_enter;
  thread_id = 0;
  payload_id = 0;
  payload_value = 0;
}

-- The static instance.
abbrev pub instance_ : BlackBox
instance_ = record { ring = replicate ring_size no_event; head = 0 }

unfoldable pub init : BlackBox → BlackBox
init b = record b { head = 0 }

-- `now` is what `esp_timer_get_time` returns.
unfoldable pub record_event : ℕ → Event → BlackBox → BlackBox
record_event now e b = record b {
  ring = set b.ring (b.head % ring_size) (record e { timestamp_us = now });
  head = u32 (b.head + 1);
}

-- The loop of `fmt_uint`, with the bytes of `buf` before `p` and the text from `p` on.
unfoldable pub fmt_loop : ℕ → ℕ → List ℕ → List ℕ
fmt_loop zero val p = p
fmt_loop (suc room) zero p = p
fmt_loop (suc room) (suc n) p = fmt_loop room (suc n / 10) ((48 + suc n % 10) ∷ p)

-- The text without its NUL, for a `cap` of 2 or more.
unfoldable pub fmt_uint : ℕ → ℕ → List ℕ
fmt_uint val cap = if val == 0 then 48 ∷ [] else fmt_loop (cap - 1) val []

-- `CallbackWriter::num`.
abbrev pub num : ℕ → List ℕ
num v = fmt_uint v 24

unfoldable pub event_line : Event → List ℕ
event_line e =
    codes "["
    ++ num e.timestamp_us
    ++ codes "] t"
    ++ num e.thread_id
    ++ codes " type="
    ++ num (type_number e.event_type)
    ++ codes " id="
    ++ num e.payload_id
    ++ codes " val="
    ++ num e.payload_value
    ++ 10 ∷ []

-- The `for` of `dump`, from `i` on, with the rounds that are left.
unfoldable pub dump_loop : BlackBox → ℕ → ℕ → List ℕ
dump_loop b zero i = []
dump_loop b (suc rounds) i =
    event_line (get_or b.ring ((b.head - 1 - i) % ring_size) no_event) ++ dump_loop b rounds (i + 1)

unfoldable pub dump : BlackBox → List ℕ
dump b =
    let count = if ltb b.head ring_size then b.head else ring_size in
    codes "=== BLACK BOX ("
    ++ num count
    ++ codes " events, newest first) ==="
    ++ 10 ∷ []
    ++ dump_loop b count 0
