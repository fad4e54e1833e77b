-- ===== src/Diag/BlackBox/Dump.antt =====
-- What a dump shows of the events that were recorded.
use esp32_rs_on_idf.Common.{
  ℕ, zero, suc, ◌+◌, ◌-◌, ◌*◌, ◌/◌, ◌%◌, ◌^◌, ◌≤◌, ◌<◌, ◌≡◌, refl, ap, ◌∙◌, if◌then◌else◌, ltb,
  ◌==◌, u32, List, [], ◌∷◌, ◌++◌, length, get_or, set, take, replicate, length-replicate, else_is,
  arith,
}
use Prim.Native.Nat.{min}
use mathlib.Core.Path.{ap₂, subst}
use esp32_rs_on_idf.Common.Text.{codes, decimal}
use esp32_rs_on_idf.Common.Ring.{recents, Holds, write-Holds, fresh-Holds}
use esp32_rs_on_idf.Diag.BlackBox.{
  Event, BlackBox, no_event, ring_size, instance_, init, record_event, fmt_loop, fmt_uint, num,
  event_line, dump_loop, dump,
}

decimal-fmt_loop :
    (room val : ℕ) (p : List ℕ) → val < 10 ^ room → decimal 0 (fmt_loop room val p) ≡ decimal val p
unfolding fmt_loop
decimal-fmt_loop zero zero p h = refl
decimal-fmt_loop zero (suc n) p h = absurd (omega arith)
decimal-fmt_loop (suc room) zero p h = refl
decimal-fmt_loop (suc room) (suc n) p h =
    let e : suc n / 10 * 10 + (48 + suc n % 10 - 48) ≡ suc n = omega arith in
    let grows : 10 ^ suc room ≡ 10 ^ room * 10 = omega arith in
    decimal-fmt_loop room (suc n / 10) ((48 + suc n % 10) ∷ p) (omega (arith, grows))
    ∙ ap (λ v. decimal v p) e

-- The digits that `fmt_uint` writes are those of the number, if the buffer has room for them: below
-- 10 to the number of bytes before the NUL, which for the 24 bytes of `num` is above 2 ^ 64.
pub decimal-fmt_uint :
    (val size : ℕ) → 1 < size → val < 10 ^ (size - 1) → decimal 0 (fmt_uint val size) ≡ val
unfolding fmt_uint
decimal-fmt_uint zero size two small = refl
decimal-fmt_uint (suc n) size two small =
    ap (decimal 0) (else_is (suc n == 0) (48 ∷ []) (fmt_loop (size - 1) (suc n) []) (ground arith))
    ∙ decimal-fmt_loop (size - 1) (suc n) [] small

-- A call that changes the black box.
pub data Call : Type 0 where
  recorded : (now : ℕ) → Event → Call
  cleared : Call

-- The events since the last `init`, the newest first, each with the time of its call.
abbrev pub events : List Call → List Event
events [] = []
events (recorded now e ∷ older) = record e { timestamp_us = now } ∷ events older
events (cleared ∷ older) = []

-- The black box after some calls, the newest first.
unfoldable pub after : List Call → BlackBox
after [] = instance_
after (recorded now e ∷ older) = record_event now e (after older)
after (cleared ∷ older) = init (after older)

abbrev pub lines : List Event → List ℕ
lines [] = []
lines (e ∷ es) = event_line e ++ lines es

length-events : (calls : List Call) → length (events calls) ≤ length calls
length-events [] = omega arith
length-events (recorded now e ∷ older) = omega (arith, length-events older)
length-events (cleared ∷ older) = omega arith

after-Holds :
    (calls : List Call)
    → length calls < 4_294_967_296
    → Holds no_event ring_size (after calls).ring (after calls).head (events calls)
unfolding after init record_event
after-Holds [] small =
    fresh-Holds no_event ring_size (replicate ring_size no_event)
      (length-replicate ring_size no_event)
after-Holds (recorded now e ∷ older) small =
    let b = after older in
    let v = after-Holds older (omega arith) in
    let s : Event = record e { timestamp_us = now } in
    let counted : b.head ≡ length (events older) = v.counted in
    let same : b.head + 1 ≡ u32 (b.head + 1) = omega (arith, counted, length-events older) in
    subst (λ h. Holds no_event ring_size (set b.ring (b.head % ring_size) s) h (s ∷ events older))
      same (write-Holds no_event ring_size b.ring b.head (events older) s (omega arith) v)
after-Holds (cleared ∷ older) small =
    fresh-Holds no_event ring_size (after older).ring (after-Holds older (omega arith)).room

dump_loop-recents :
    (b : BlackBox) (rounds i : ℕ)
    → dump_loop b rounds i ≡ lines (recents no_event ring_size b.ring (b.head - i) rounds)
unfolding dump_loop
dump_loop-recents b zero i = refl
dump_loop-recents b (suc rounds) i =
    let e1 : b.head - 1 - i ≡ b.head - i - 1 = omega arith in
    let e2 : b.head - (i + 1) ≡ b.head - i - 1 = omega arith in
    ap₂ (λ (j : ℕ) (rest : List ℕ). event_line (get_or b.ring (j % ring_size) no_event) ++ rest) e1
      (dump_loop-recents b rounds (i + 1)
        ∙ ap (λ (h : ℕ). lines (recents no_event ring_size b.ring h rounds)) e2)

count_min : (head : ℕ) → (if ltb head ring_size then head else ring_size) ≡ min ring_size head
count_min head = ground arith

-- After any recorded events and calls of `init`, fewer than 2 ^ 32, the dump has one line for each
-- of the newest 64 events since the last `init`, newest first, after a line with their number.
pub dump-after :
    (calls : List Call)
    → length calls < 4_294_967_296
    → dump (after calls)
      ≡ codes "=== BLACK BOX ("
        ++ num (min ring_size (length (events calls)))
        ++ codes " events, newest first) ==="
        ++ 10 ∷ []
        ++ lines (take ring_size (events calls))
unfolding dump
dump-after calls small =
    let b = after calls in
    let v = after-Holds calls small in
    let counted = count_min b.head ∙ ap (min ring_size) v.counted in
    ap₂
      (λ (n : ℕ) (rest : List ℕ).
        codes "=== BLACK BOX (" ++ num n ++ codes " events, newest first) ===" ++ 10 ∷ [] ++ rest)
      counted
      (dump_loop-recents b (if ltb b.head ring_size then b.head else ring_size) 0
        ∙ ap₂ (λ (h n : ℕ). lines (recents no_event ring_size b.ring h n)) (omega arith)
            (count_min b.head)
        ∙ ap lines v.newest)
