-- ===== src/Interface/Broadcast/Sizes.antt =====
-- The sizes of the two texts that report the state of the device.
use Prim.Native.String.{String}
use esp32_rs_on_idf.Common.{
  ℕ, ◌+◌, ◌≤◌, ◌≡◌, Bool, true, false, inl, inr, Bool-cases, List, [], ◌++◌, length, length-append,
  length-take_le, then_is, arith,
}
use esp32_rs_on_idf.Common.Int.{pos, ltb_ℤ}
use esp32_rs_on_idf.Common.Float.{FloatOps}
use esp32_rs_on_idf.Common.Text.{codes, u64_text, length-put_decimal_le}
use esp32_rs_on_idf.Domain.Types.{
  ValvePosition, input, output, BuretteState, idle, homing, filling, emptying, dosing, rinsing,
  stopping, error,
}
use esp32_rs_on_idf.Application.Sensors.{temp_sentinel_cx100}
use esp32_rs_on_idf.Interface.Broadcast.{
  BroadcastEvent, valve_str, brt_sts_str, is_homing, bool_str, if_fits, temp_str, vl_str,
  status_members, extended_members, serialize_broadcast_compact, serialize_broadcast_extended,
}

-- A text of at most `n` bytes.
record AtMost (n : ℕ) (text : List ℕ) : Type 0 where
  size : length text ≤ n

infixl 60 ◌++≤◌
◌++≤◌ : {m n : ℕ} {xs ys : List ℕ} → AtMost m xs → AtMost n ys → AtMost (m + n) (xs ++ ys)
◌++≤◌ {xs = xs} {ys = ys} h k = record { size = omega (arith, h.size, k.size, length-append xs ys) }

codes-AtMost : (s : String) → AtMost (length (codes s)) (codes s)
codes-AtMost s = record { size = omega arith }

u64_text-AtMost : (n : ℕ) → AtMost 20 (u64_text n)
u64_text-AtMost n = record { size = omega (arith, length-put_decimal_le 20 n []) }

valve_str-AtMost : (v : ValvePosition) → AtMost 3 (valve_str v)
valve_str-AtMost input = record { size = omega arith }
valve_str-AtMost output = record { size = omega arith }

brt_sts_str-AtMost : (s : BuretteState) → AtMost 7 (brt_sts_str s)
brt_sts_str-AtMost error = record { size = omega arith }
brt_sts_str-AtMost idle = record { size = omega arith }
brt_sts_str-AtMost homing = record { size = omega arith }
brt_sts_str-AtMost filling = record { size = omega arith }
brt_sts_str-AtMost emptying = record { size = omega arith }
brt_sts_str-AtMost dosing = record { size = omega arith }
brt_sts_str-AtMost rinsing = record { size = omega arith }
brt_sts_str-AtMost stopping = record { size = omega arith }

bool_str-AtMost : (b : Bool) → AtMost 5 (bool_str b)
bool_str-AtMost true = record { size = omega arith }
bool_str-AtMost false = record { size = omega arith }

module _ {F D : Type 0} ⦃d : FloatOps D⦄ (to_double : F → D) (print : ℕ → D → List ℕ)
    (short : (n : ℕ) (x : D) → length (print n x) ≤ 64) where
  temp_str-AtMost : (evt : BroadcastEvent F) → AtMost 31 (temp_str to_double print evt)
  unfolding temp_str
  temp_str-AtMost evt = elim (Bool-cases (ltb_ℤ temp_sentinel_cx100 evt.temp_cx100)) [
    | inl h ↦ rw h (record { size = length-take_le 31 _ })
    | inr h ↦ rw h (record { size = omega arith })
  ]

  vl_str-AtMost : (evt : BroadcastEvent F) → AtMost 31 (vl_str to_double print evt)
  unfolding vl_str
  vl_str-AtMost evt = elim (Bool-cases (is_homing evt.brt)) [
    | inl h ↦ rw h (record { size = omega arith })
    | inr h ↦ rw h (record { size = length-take_le 31 _ })
  ]

  length-status_members_le :
      (evt : BroadcastEvent F) → length (status_members to_double print evt) ≤ 400
  unfolding status_members
  length-status_members_le evt =
      let size =
        codes-AtMost "{\"ts\":"
        ++≤ u64_text-AtMost evt.tick
        ++≤ codes-AtMost ",\"temp\":"
        ++≤ temp_str-AtMost evt
        ++≤ codes-AtMost ",\"mv\":"
        ++≤ record { size = short 1 (d.of_ℤ (pos evt.mv)) }
        ++≤ codes-AtMost ",\"vlv\":\""
        ++≤ valve_str-AtMost evt.vlv
        ++≤ codes-AtMost "\",\"brt\":{\"sts\":\""
        ++≤ brt_sts_str-AtMost evt.brt
        ++≤ codes-AtMost "\",\"vl\":"
        ++≤ vl_str-AtMost evt
        ++≤ codes-AtMost ",\"spd\":"
        ++≤ record { size = short 2 (to_double evt.speed_ml_min) }
        ++≤ codes-AtMost "}" in
      omega (arith, size.size)

  length-extended_members_le : (evt : BroadcastEvent F) → length (extended_members evt) ≤ 400
  unfolding extended_members
  length-extended_members_le evt =
      let size =
        codes-AtMost ",\"limitSwitch\":{\"full\":"
        ++≤ bool_str-AtMost evt.limit_full
        ++≤ codes-AtMost ",\"empty\":"
        ++≤ bool_str-AtMost evt.limit_empty
        ++≤ codes-AtMost "},\"usbSerialConnected\":"
        ++≤ bool_str-AtMost evt.usb_serial_connected
        ++≤ codes-AtMost ",\"bleConnected\":"
        ++≤ bool_str-AtMost evt.ble_connected
        ++≤ codes-AtMost ",\"stepperDrv\":{\"isConnected\":"
        ++≤ bool_str-AtMost evt.stepper_drv_connected
        ++≤ codes-AtMost ",\"otpw\":"
        ++≤ bool_str-AtMost evt.stepper_drv_otpw
        ++≤ codes-AtMost ",\"ot\":"
        ++≤ bool_str-AtMost evt.stepper_drv_ot
        ++≤ codes-AtMost ",\"motor\":{\"stallGuard\":{\"value\":"
        ++≤ u64_text-AtMost evt.stall_guard_value
        ++≤ codes-AtMost ",\"isStalled\":"
        ++≤ bool_str-AtMost evt.is_stalled
        ++≤ codes-AtMost ",\"threshold\":"
        ++≤ u64_text-AtMost evt.stall_guard_threshold
        ++≤ codes-AtMost "}}},\"buretteSteps\":{\"taken\":"
        ++≤ u64_text-AtMost evt.steps_taken
        ++≤ codes-AtMost "}}" in
      omega (arith, size.size)

  if_fits_lem : (xs ys : List ℕ) → length xs ≤ 400 → length ys ≤ 400 → if_fits (xs ++ ys) ≡ xs ++ ys
  if_fits_lem xs ys h k = then_is _ (xs ++ ys) [] (ground (arith, h, k, length-append xs ys))

  -- If no number takes more than 64 bytes, no event is too long for its buffer: both texts are sent
  -- whole, and are the same up to the last brace of the compact one.
  pub serialize_broadcast_fits :
      (evt : BroadcastEvent F)
      → (members : List ℕ) × (serialize_broadcast_compact to_double print evt
          ≡ members ++ codes "}")
        × (serialize_broadcast_extended to_double print evt ≡ members ++ extended_members evt)
  unfolding serialize_broadcast_compact serialize_broadcast_extended
  serialize_broadcast_fits evt =
      let size = length-status_members_le evt in
      (
        status_members to_double print evt,
        if_fits_lem _ _ size (omega arith),
        if_fits_lem _ _ size (length-extended_members_le evt),
      )
