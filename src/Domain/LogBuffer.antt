-- ===== src/Domain/LogBuffer.antt =====
-- components/domain/include/domain/log_buffer.hpp and src/log_buffer.cpp: the ring of log messages.
-- A text is its bytes before the NUL. `size_t` has 32 bits. One task runs at a time between the steps
-- of a call. The worker's log of the stacks is left out, and so is its callback, which is given what
-- `worker_step` returns.
pub mod History
use esp32_rs_on_idf.Common.{
  ℕ, zero, suc, ◌+◌, ◌-◌, ◌%◌, Bool, true, false, not, ◌||◌, ◌&&◌, if◌then◌else◌, ltb, leb, ◌==◌,
  u32, Option, none, some, List, [], ◌∷◌, ◌++◌, length, get_or, set, take, replicate, map,
}
use esp32_rs_on_idf.Common.Text.{same_text}

-- `Slot`, and `LogEntry` too.
pub record Slot : Type 0 where
  pub timestamp_ms : ℕ
  pub level : List ℕ
  pub message : List ℕ

pub record LogBuffer : Type 0 where
  pub initialized : Bool
  pub slots : List Slot
  pub capacity : ℕ
  pub head : ℕ
  pub pushing : Bool
  -- The indices that wait for the worker, oldest first.
  pub queue : Option (List ℕ)

abbrev pub max_msg_len : ℕ
max_msg_len = 128

abbrev pub level_len : ℕ
level_len = 8

abbrev pub log_queue_length : ℕ
log_queue_length = 16

abbrev pub no_slot : Slot
no_slot = record { timestamp_ms = 0; level = []; message = [] }

-- The static instance before `init`.
abbrev pub instance_ : LogBuffer
instance_ = record {
  initialized = false;
  slots = [];
  capacity = 0;
  head = 0;
  pushing = false;
  queue = none;
}

unfoldable pub init : ℕ → LogBuffer → LogBuffer
init capacity b = if b.initialized then b else record b {
  slots = replicate capacity no_slot;
  capacity = capacity;
  queue = none;
  initialized = true;
}

-- What `strncpy` and the NUL that is written after it leave of the two texts.
unfoldable pub stored_slot : ℕ → List ℕ → List ℕ → Slot
stored_slot timestamp_ms level message = record {
  timestamp_ms = timestamp_ms;
  level = take (level_len - 1) level;
  message = take (max_msg_len - 1) message;
}

-- `xQueueSend` into the queue that `ensureQueue` makes, if it has room.
abbrev pub queue_index : ℕ → Option (List ℕ) → Option (List ℕ)
queue_index idx none = some (idx ∷ [])
queue_index idx (some waiting) =
    some (if ltb (length waiting) log_queue_length then waiting ++ idx ∷ [] else waiting)

unfoldable pub push : ℕ → List ℕ → List ℕ → LogBuffer → LogBuffer
push timestamp_ms level message b =
    if not b.initialized || b.pushing
    then b
    else let idx = b.head % b.capacity in
      record b {
        head = u32 (b.head + 1);
        slots = set b.slots idx (stored_slot timestamp_ms level message);
        queue = queue_index idx b.queue;
        pushing = false;
      }

unfoldable pub clear : LogBuffer → LogBuffer
clear b =
    if not b.initialized
    then b
    else record b { slots = map (λ (s : Slot). no_slot) b.slots; head = 0 }

-- A slot that `fetch` copies out: written, and of the level asked for, if one is.
abbrev pub is_wanted : Option (List ℕ) → Slot → Bool
is_wanted none s = not (s.timestamp_ms == 0)
is_wanted (some []) s = not (s.timestamp_ms == 0)
is_wanted (some (c ∷ cs)) s = not (s.timestamp_ms == 0) && same_text s.level (c ∷ cs)

abbrev pub slot_before : ℕ → ℕ → ℕ → ℕ
slot_before capacity head offset =
    if leb offset head then (head - offset) % capacity else (capacity + head - offset) % capacity

-- The `for` of `fetch`, from `offset` on, with the rounds and the places of `out` that are left.
unfoldable pub fetch_loop : Option (List ℕ) → LogBuffer → ℕ → ℕ → ℕ → List Slot
fetch_loop filter b zero offset room = []
fetch_loop filter b (suc rounds) offset zero = []
fetch_loop filter b (suc rounds) offset (suc room) =
    let s = get_or b.slots (slot_before b.capacity b.head offset) no_slot in
    let kept = s ∷ fetch_loop filter b rounds (offset + 1) room in
    let skipped = fetch_loop filter b rounds (offset + 1) (suc room) in
    if is_wanted filter s then kept else skipped

-- What `fetch` writes to `out`; its length is the count that it returns.
unfoldable pub fetch : ℕ → Option (List ℕ) → LogBuffer → List Slot
fetch max_count filter b =
    if not b.initialized then [] else fetch_loop filter b b.capacity 1 max_count

-- The worker takes one index, if one waits, and hands its entry to the callback.
unfoldable pub worker_step : LogBuffer → LogBuffer × Option Slot
worker_step b = elim b.queue [
  | none ↦ (b, none)
  | some [] ↦ (b, none)
  | some (idx ∷ waiting) ↦
      let s = get_or b.slots idx no_slot in
      (record b { queue = some waiting }, if s.timestamp_ms == 0 then none else some s)
]
