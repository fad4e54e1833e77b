-- ===== src/Drivers/OneWire/Bytes.antt =====
-- A byte over the one-wire bus.
use esp32_rs_on_idf.Common.{
  ℕ, zero, suc, ◌+◌, ◌*◌, ◌/◌, ◌%◌, ◌^◌, ◌<◌, ◌≡◌, refl, sym, ap, ◌∙◌, Bool, true, false,
  if◌then◌else◌, ltb, ◌==◌, Bool-cases, inl, inr, List, [], ◌∷◌, ◌++◌, get_or, arith,
}
use mathlib.Core.List.{append_assoc, append-nil}
use esp32_rs_on_idf.Drivers.OneWire.{
  Pulse, OneWireBus, is_set, write_bits, write_bit0, write_bit1, write_byte, read_bit, read_bits,
  read_byte,
}

-- A device takes a low time below 15 us for a 1.
abbrev pub hears : Pulse → Bool
hears p = ltb p.low_us 15

abbrev pub fresh : OneWireBus
fresh = record { pulses = []; looks = 0 }

abbrev slot : Bool → Pulse
slot true = record { low_us = 6; high_us = 64 }
slot false = record { low_us = 60; high_us = 10 }

hears-slot : (b : Bool) → hears (slot b) ≡ b
hears-slot true = refl
hears-slot false = refl

write_bit_eq :
    (b : Bool) (pulses : List Pulse)
    → (if b
        then write_bit1 (record { pulses = pulses; looks = 0 })
        else write_bit0 (record { pulses = pulses; looks = 0 }))
      ≡ record { pulses = pulses ++ slot b ∷ []; looks = 0 }
unfolding write_bit1 write_bit0
write_bit_eq true pulses = refl
write_bit_eq false pulses = refl

abbrev slots : ℕ → ℕ → ℕ → List Pulse
slots byte zero i = []
slots byte (suc rounds) i = slot (is_set byte i) ∷ slots byte rounds (i + 1)

write_bits_slots :
    (byte rounds i : ℕ) (pulses : List Pulse)
    → write_bits byte rounds i (record { pulses = pulses; looks = 0 })
      ≡ record { pulses = pulses ++ slots byte rounds i; looks = 0 }
unfolding write_bits
write_bits_slots byte zero i pulses =
    let same = sym (append-nil pulses) in ap (λ p. record { pulses = p; looks = 0 }) same
write_bits_slots byte (suc rounds) i pulses =
    ap (write_bits byte rounds (i + 1)) (write_bit_eq (is_set byte i) pulses)
    ∙ write_bits_slots byte rounds (i + 1) (pulses ++ slot (is_set byte i) ∷ [])
    ∙ ap (λ p. record { pulses = p; looks = 0 })
        (append_assoc pulses (slot (is_set byte i) ∷ []) (slots byte rounds (i + 1)))

abbrev sum_from : (ℕ → Bool) → ℕ → ℕ → ℕ → ℕ
sum_from line zero i k = 0
sum_from line (suc rounds) i k =
    (if line k then 2 ^ i else 0) + sum_from line rounds (i + 1) (k + 1)

add_if : (b : Bool) (acc m : ℕ) → (if b then acc + m else acc) ≡ acc + (if b then m else 0)
add_if true acc m = refl
add_if false acc m = omega arith

read_bits_sum :
    (line : ℕ → Bool) (rounds i acc : ℕ) (bus : OneWireBus)
    → (read_bits line rounds i acc bus).1 ≡ acc + sum_from line rounds i bus.looks
unfolding read_bits read_bit
read_bits_sum line zero i acc bus = omega arith
read_bits_sum line (suc rounds) i acc bus =
    let bus' = (read_bit line bus).0 in
    let b = line bus.looks in
    let ih = read_bits_sum line rounds (i + 1) (if b then acc + 2 ^ i else acc) bus' in
    let here = add_if b acc (2 ^ i) in omega (arith, ih, here)

times_one : (m : ℕ) → 1 * m ≡ m
times_one m = omega arith

times_zero : (m : ℕ) → 0 * m ≡ 0
times_zero m = omega arith

heard_bit : (byte m : ℕ) → (if hears (slot (byte / m % 2 == 1)) then m else 0) ≡ byte / m % 2 * m
heard_bit byte m = elim (Bool-cases (byte / m % 2 == 1)) [
  | inl h ↦
      let one : byte / m % 2 ≡ 1 = ground (arith, h) in
      rw h (sym (ap (λ q. q * m) one ∙ times_one m))
  | inr h ↦
      let none_set : byte / m % 2 ≡ 0 = ground (arith, h) in
      rw h (sym (ap (λ q. q * m) none_set ∙ times_zero m))
]

byte_of_bits :
    (byte : ℕ)
    → byte < 256
    → byte % 2 * 1
        + byte / 2 % 2 * 2
        + byte / 4 % 2 * 4
        + byte / 8 % 2 * 8
        + byte / 16 % 2 * 16
        + byte / 32 % 2 * 32
        + byte / 64 % 2 * 64
        + byte / 128 % 2 * 128
      ≡ byte
byte_of_bits byte h = omega arith

-- Every byte that is written to the bus comes back, if the device hears a low time below 15 us as a 1,
-- and answers the looks of `readByte` with the bits that it heard.
pub read_byte-write_byte :
    (byte : ℕ)
    → byte < 256
    → let sent = (write_byte byte fresh).pulses in
      (read_byte (λ k. hears (get_or sent k (record { low_us = 60; high_us = 10 }))) fresh).1 ≡ byte
unfolding read_byte write_byte
read_byte-write_byte byte h =
    let line =
      λ (p : List Pulse) (k : ℕ). hears (get_or p k (record { low_us = 60; high_us = 10 })) in
    let sent : (write_byte byte fresh).pulses ≡ slots byte 8 0 =
      ap (λ b. b.pulses) (write_bits_slots byte 8 0 []) in
    ap (λ p. (read_byte (line p) fresh).1) sent
    ∙ read_bits_sum (line (slots byte 8 0)) 8 0 0 fresh
    ∙ omega (
      arith,
      heard_bit byte 1,
      heard_bit byte 2,
      heard_bit byte 4,
      heard_bit byte 8,
      heard_bit byte 16,
      heard_bit byte 32,
      heard_bit byte 64,
      heard_bit byte 128,
      byte_of_bits byte h,
    )
