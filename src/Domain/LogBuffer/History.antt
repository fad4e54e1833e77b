-- ===== src/Domain/LogBuffer/History.antt =====
-- What a fetch shows of the messages that were pushed.
use esp32_rs_on_idf.Common.{
  ℕ, zero, suc, ◌+◌, ◌-◌, ◌%◌, ◌≤◌, ◌<◌, ◌≡◌, refl, sym, ap, ◌∙◌, inl, inr, Bool, true, false, not,
  if◌then◌else◌, leb, Bool-cases, u32, Option, none, some, List, [], ◌∷◌, length, get_or, set, take,
  replicate, map, length-replicate, get_or-set_ne, else_is, arith,
}
use Prim.Native.Nat.{min}
use mathlib.Core.Path.{subst, subst₂}
use native.Mathlib.Nat.{mod-eq_of_lt}
use esp32_rs_on_idf.Common.Ring.{recents, take-empty, Holds, write-Holds, fresh-Holds}
use esp32_rs_on_idf.Domain.LogBuffer.{
  Slot, LogBuffer, no_slot, instance_, init, stored_slot, push, clear, is_wanted, slot_before,
  fetch_loop, fetch, queue_index,
}

-- What was pushed.
pub record Entry : Type 0 where
  pub timestamp_ms : ℕ
  pub level : List ℕ
  pub message : List ℕ

abbrev pub stored_entry : Entry → Slot
stored_entry e = stored_slot e.timestamp_ms e.level e.message

-- A call that changes the messages.
pub data Call : Type 0 where
  pushed : Entry → Call
  cleared : Call

-- The history of some calls, the newest first.
abbrev pub stored_all : List Call → List Slot
stored_all [] = []
stored_all (pushed e ∷ older) = stored_entry e ∷ stored_all older
stored_all (cleared ∷ older) = []

-- The buffer of the given capacity after some calls, the newest first.
unfoldable pub after : ℕ → List Call → LogBuffer
after capacity [] = init capacity instance_
after capacity (pushed e ∷ older) = push e.timestamp_ms e.level e.message (after capacity older)
after capacity (cleared ∷ older) = clear (after capacity older)

-- The buffer stands for a history, newest first, that its ring has not forgotten.
record Represents (capacity : ℕ) (b : LogBuffer) (history : List Slot) : Type 0 where
  pub ready : b.initialized ≡ true
  pub calm : b.pushing ≡ false
  pub sized : b.capacity ≡ capacity
  pub ring : Holds no_slot capacity b.slots b.head history
  pub blank : (i : ℕ) → b.head ≤ i → i < capacity → get_or b.slots i no_slot ≡ no_slot

get_or-replicate : (n i : ℕ) (s : Slot) → get_or (replicate n s) i s ≡ s
get_or-replicate zero i s = refl
get_or-replicate (suc n) zero s = refl
get_or-replicate (suc n) (suc i) s = get_or-replicate n i s

length-stored_all : (calls : List Call) → length (stored_all calls) ≤ length calls
length-stored_all [] = omega arith
length-stored_all (pushed e ∷ older) = omega (arith, length-stored_all older)
length-stored_all (cleared ∷ older) = omega arith

length-map : (f : Slot → Slot) (slots : List Slot) → length (map f slots) ≡ length slots
length-map f [] = refl
length-map f (s ∷ slots) = ap suc (length-map f slots)

get_or-blank :
    (slots : List Slot) (i : ℕ) → get_or (map (λ (s : Slot). no_slot) slots) i no_slot ≡ no_slot
get_or-blank [] i = refl
get_or-blank (s ∷ slots) zero = refl
get_or-blank (s ∷ slots) (suc i) = get_or-blank slots i

init-Represents : (capacity : ℕ) → Represents capacity (init capacity instance_) []
unfolding init
init-Represents capacity = record {
  ready = refl;
  calm = refl;
  sized = refl;
  ring =
      fresh-Holds no_slot capacity (replicate capacity no_slot) (length-replicate capacity no_slot);
  blank = λ i from below. get_or-replicate capacity i no_slot;
}

push-Represents :
    (capacity : ℕ) (e : Entry) (b : LogBuffer) (history : List Slot)
    → 0 < capacity
    → length history + 1 < 4_294_967_296
    → Represents capacity b history
    → Represents capacity (push e.timestamp_ms e.level e.message b) (stored_entry e ∷ history)
unfolding push
push-Represents capacity e b history pos small v =
    let s = stored_entry e in
    let counted = v.ring.counted in
    let ring : Holds no_slot capacity (set b.slots (b.head % b.capacity) s) (u32 (b.head + 1))
        (s ∷ history) =
      subst₂ (λ c h. Holds no_slot capacity (set b.slots (b.head % c) s) h (s ∷ history))
        (sym v.sized) (omega (arith, counted))
        (write-Holds no_slot capacity b.slots b.head history s pos v.ring) in
    let blank = λ (i : ℕ) (from : u32 (b.head + 1) ≤ i) (below : i < capacity).
      let place : b.head % b.capacity ≡ b.head =
        ap (λ t. b.head % t) v.sized ∙ mod-eq_of_lt (omega (arith, counted)) in
      get_or-set_ne b.slots (b.head % b.capacity) i s no_slot
        (λ same. omega (arith, counted, place))
      ∙ v.blank i (omega (arith, counted)) below in
    let pushed : LogBuffer = record b {
      head = u32 (b.head + 1);
      slots = set b.slots (b.head % b.capacity) s;
      queue = queue_index (b.head % b.capacity) b.queue;
      pushing = false;
    } in
    let same : pushed ≡ push e.timestamp_ms e.level e.message b = ground (arith, v.ready, v.calm) in
    subst (λ n. Represents capacity n (s ∷ history)) same
      (record { ready = v.ready; calm = refl; sized = v.sized; ring = ring; blank = blank })

clear-Represents :
    (capacity : ℕ) (b : LogBuffer) (history : List Slot)
    → Represents capacity b history
    → Represents capacity (clear b) []
unfolding clear
clear-Represents capacity b history v =
    let blanked = map (λ (s : Slot). no_slot) b.slots in
    let fresh : LogBuffer = record b { slots = blanked; head = 0 } in
    let same : fresh ≡ clear b = sym (else_is (not b.initialized) b fresh (ap not v.ready)) in
    subst (λ n. Represents capacity n []) same
      (record {
        ready = v.ready;
        calm = v.calm;
        sized = v.sized;
        ring = fresh-Holds no_slot capacity blanked (length-map _ b.slots ∙ v.ring.room);
        blank = λ i from below. get_or-blank b.slots i;
      })

after-Represents :
    (capacity : ℕ) (calls : List Call)
    → 0 < capacity
    → length calls < 4_294_967_296
    → Represents capacity (after capacity calls) (stored_all calls)
unfolding after
after-Represents capacity [] pos small = init-Represents capacity
after-Represents capacity (pushed e ∷ older) pos small =
    push-Represents capacity e (after capacity older) (stored_all older) pos
      (omega (arith, length-stored_all older)) (after-Represents capacity older pos (omega arith))
after-Represents capacity (cleared ∷ older) pos small =
    clear-Represents capacity (after capacity older) (stored_all older)
      (after-Represents capacity older pos (omega arith))

-- The slots that pass a test, in order.
abbrev pub kept : (Slot → Bool) → List Slot → List Slot
kept test [] = []
kept test (s ∷ slots) = if test s then s ∷ kept test slots else kept test slots

not_wanted : (wanted : Option (List ℕ)) → is_wanted wanted no_slot ≡ false
not_wanted none = refl
not_wanted (some []) = refl
not_wanted (some (c ∷ cs)) = refl

kept_step :
    (test : Slot → Bool) (s : Slot) (rest : List Slot) (room : ℕ) (with_s without : List Slot)
    → with_s ≡ take room (kept test rest)
    → without ≡ take (suc room) (kept test rest)
    → (if test s then s ∷ with_s else without) ≡ take (suc room) (kept test (s ∷ rest))
kept_step test s rest room with_s without p q = elim (Bool-cases (test s)) [
  | inl yes_s ↦ rw yes_s (ap (◌∷◌ s) p)
  | inr no_s ↦ rw no_s q
]

-- Before the first entry of a ring that is not yet full stands nothing that is wanted.
blank_slot :
    (wanted : Option (List ℕ)) (b : LogBuffer) (history : List Slot) (offset : ℕ)
    → Represents b.capacity b history
    → b.head < offset
    → offset ≤ b.capacity
    → is_wanted wanted (get_or b.slots (slot_before b.capacity b.head offset) no_slot) ≡ false
blank_slot wanted b history offset v before fits =
    let place : slot_before b.capacity b.head offset ≡ b.capacity + b.head - offset =
      ground (arith, mod-eq_of_lt {n = b.capacity + b.head - offset} {m = b.capacity}) in
    ap (λ i. is_wanted wanted (get_or b.slots i no_slot)) place
    ∙ ap (is_wanted wanted) (v.blank (b.capacity + b.head - offset) (omega arith) (omega arith))
    ∙ not_wanted wanted

-- The loop takes what passes of the `n` places that are left to read.
fetch_loop_kept :
    (wanted : Option (List ℕ)) (b : LogBuffer) (history : List Slot) (rounds offset room h n : ℕ)
    → Represents b.capacity b history
    → 0 < offset
    → rounds + offset ≤ b.capacity + 1
    → h ≡ b.head - (offset - 1)
    → n ≡ min rounds h
    → fetch_loop wanted b rounds offset room
      ≡ take room (kept (is_wanted wanted) (recents no_slot b.capacity b.slots h n))
unfolding fetch_loop
fetch_loop_kept wanted b history zero offset room h zero v pos fits eh en = sym (take-empty room)
fetch_loop_kept wanted b history zero offset room h (suc n) v pos fits eh en = absurd (omega arith)
fetch_loop_kept wanted b history (suc rounds) offset zero h n v pos fits eh en = refl
fetch_loop_kept wanted b history (suc rounds) offset (suc room) h zero v pos fits eh en =
    rw (blank_slot wanted b history offset v (omega arith) (omega arith)) (
      fetch_loop_kept wanted b history rounds (offset + 1) (suc room) 0 0 v (omega arith)
        (omega arith) (omega arith) (omega arith))
fetch_loop_kept wanted b history (suc rounds) offset (suc room) h (suc n) v pos fits eh en =
    let place : slot_before b.capacity b.head offset ≡ (h - 1) % b.capacity =
      let inside : leb offset b.head ≡ true = ground arith in
      rw inside (ap (λ t. t % b.capacity) (omega arith)) in
    let ih = λ (left : ℕ).
      fetch_loop_kept wanted b history rounds (offset + 1) left (h - 1) n v (omega arith)
        (omega arith) (omega arith) (omega arith) in
    rw place (
      kept_step (is_wanted wanted) (get_or b.slots ((h - 1) % b.capacity) no_slot)
        (recents no_slot b.capacity b.slots (h - 1) n) room _ _ (ih room) (ih (suc room)))

-- After any pushes and clears, fewer than 2 ^ 32, of a buffer whose capacity is not 0, `fetch`
-- writes what a plain history says: of the newest messages since the last clear, as many as the
-- capacity, those that are wanted (of the level asked for, if one is, and with a time stamp that is
-- not 0), newest first, and no more of them than `max_count`; each with its two texts cut to 7 and
-- 127 bytes.
pub fetch-after :
    (capacity max_count : ℕ) (wanted : Option (List ℕ)) (calls : List Call)
    → 0 < capacity
    → length calls < 4_294_967_296
    → fetch max_count wanted (after capacity calls)
      ≡ take max_count (kept (is_wanted wanted) (take capacity (stored_all calls)))
unfolding fetch
fetch-after capacity max_count wanted calls pos small =
    let b = after capacity calls in
    let v = after-Represents capacity calls pos small in
    let v' = subst (λ c. Represents c b (stored_all calls)) (sym v.sized) v in
    let n = min b.capacity b.head in
    else_is (not b.initialized) [] (fetch_loop wanted b b.capacity 1 max_count) (ap not v.ready)
    ∙ fetch_loop_kept wanted b (stored_all calls) b.capacity 1 max_count b.head n v' (omega arith)
        (omega arith) (omega arith) refl
    ∙ ap (λ l. take max_count (kept (is_wanted wanted) l))
        (v'.ring.newest ∙ ap (λ c. take c (stored_all calls)) v.sized)
