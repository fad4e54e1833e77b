-- ===== src/Interface/Broadcast.antt =====
-- components/interface/src/broadcast.cpp: the two texts that report the state of the device. `print`
-- stands for the `%.<n>f` of a `double`. An event has the fields of
-- components/interface/include/interface/broadcast.hpp.
pub mod Sizes
use Prim.Native.String.{String}
use esp32_rs_on_idf.Common.{
  ℕ, ◌+◌, ◌≤◌, ◌<◌, ◌≡◌, ◌≢◌, refl, ap, Bool, true, false, if◌then◌else◌, ltb, inl, inr, Bool-cases,
  List, [], ◌++◌, length, take, length-append, length-take_le, then_is, else_is, arith,
}
use esp32_rs_on_idf.Common.Int.{ℤ, pos, ltb_ℤ}
use esp32_rs_on_idf.Common.Float.{FloatOps, lit, ◌/f◌}
use esp32_rs_on_idf.Common.Text.{codes, u64_text, length-put_decimal_le}
use esp32_rs_on_idf.Domain.Types.{
  ValvePosition, input, output, BuretteState, idle, homing, filling, emptying, dosing, rinsing,
  stopping, error,
}
use esp32_rs_on_idf.Application.Response.{max_rsp_size}
use esp32_rs_on_idf.Application.Sensors.{temp_sentinel_cx100}

pub record BroadcastEvent (F : Type 0) : Type 0 where
  pub tick : ℕ
  pub temp_cx100 : ℤ
  pub mv : ℕ
  pub vlv : ValvePosition
  pub brt : BuretteState
  pub volume_ml : F
  pub speed_ml_min : F
  pub limit_full : Bool
  pub limit_empty : Bool
  pub usb_serial_connected : Bool
  pub ble_connected : Bool
  pub stepper_drv_connected : Bool
  pub stepper_drv_otpw : Bool
  pub stepper_drv_ot : Bool
  pub stall_guard_value : ℕ
  pub is_stalled : Bool
  pub stall_guard_threshold : ℕ
  pub steps_taken : ℕ

abbrev pub valve_str : ValvePosition → List ℕ
valve_str input = codes "in"
valve_str output = codes "out"

abbrev pub brt_sts_str : BuretteState → List ℕ
brt_sts_str error = codes "error"
brt_sts_str homing = codes "working"
brt_sts_str filling = codes "working"
brt_sts_str emptying = codes "working"
brt_sts_str dosing = codes "working"
brt_sts_str rinsing = codes "working"
brt_sts_str stopping = codes "working"
brt_sts_str _ = codes "idle"

abbrev pub is_homing : BuretteState → Bool
is_homing homing = true
is_homing _ = false

abbrev pub bool_str : Bool → List ℕ
bool_str b = if b then codes "true" else codes "false"

-- A text that fits the buffer with its NUL, or the empty one.
abbrev pub if_fits : List ℕ → List ℕ
if_fits text = if ltb (length text) max_rsp_size then text else []

unfoldable pub extended_members : {F : Type 0} → BroadcastEvent F → List ℕ
extended_members evt =
    codes ",\"limitSwitch\":{\"full\":"
    ++ bool_str evt.limit_full
    ++ codes ",\"empty\":"
    ++ bool_str evt.limit_empty
    ++ codes "},\"usbSerialConnected\":"
    ++ bool_str evt.usb_serial_connected
    ++ codes ",\"bleConnected\":"
    ++ bool_str evt.ble_connected
    ++ codes ",\"stepperDrv\":{\"isConnected\":"
    ++ bool_str evt.stepper_drv_connected
    ++ codes ",\"otpw\":"
    ++ bool_str evt.stepper_drv_otpw
    ++ codes ",\"ot\":"
    ++ bool_str evt.stepper_drv_ot
    ++ codes ",\"motor\":{\"stallGuard\":{\"value\":"
    ++ u64_text evt.stall_guard_value
    ++ codes ",\"isStalled\":"
    ++ bool_str evt.is_stalled
    ++ codes ",\"threshold\":"
    ++ u64_text evt.stall_guard_threshold
    ++ codes "}}},\"buretteSteps\":{\"taken\":"
    ++ u64_text evt.steps_taken
    ++ codes "}}"

module _ {F D : Type 0} ⦃d : FloatOps D⦄ (to_double : F → D) (print : ℕ → D → List ℕ) where
  -- The arrays of the two numbers have 32 bytes.
  unfoldable pub temp_str : BroadcastEvent F → List ℕ
  temp_str evt =
      if ltb_ℤ temp_sentinel_cx100 evt.temp_cx100
      then take 31 (print 1 (d.of_ℤ evt.temp_cx100 /f lit 100 0))
      else codes "null"

  unfoldable pub vl_str : BroadcastEvent F → List ℕ
  vl_str evt =
      if is_homing evt.brt then codes "null" else take 31 (print 2 (to_double evt.volume_ml))

  -- What the two formats begin with.
  unfoldable pub status_members : BroadcastEvent F → List ℕ
  status_members evt =
      codes "{\"ts\":"
      ++ u64_text evt.tick
      ++ codes ",\"temp\":"
      ++ temp_str evt
      ++ codes ",\"mv\":"
      ++ print 1 (d.of_ℤ (pos evt.mv))
      ++ codes ",\"vlv\":\""
      ++ valve_str evt.vlv
      ++ codes "\",\"brt\":{\"sts\":\""
      ++ brt_sts_str evt.brt
      ++ codes "\",\"vl\":"
      ++ vl_str evt
      ++ codes ",\"spd\":"
      ++ print 2 (to_double evt.speed_ml_min)
      ++ codes "}"

  unfoldable pub serialize_broadcast_compact : BroadcastEvent F → List ℕ
  serialize_broadcast_compact evt = if_fits (status_members evt ++ codes "}")

  unfoldable pub serialize_broadcast_extended : BroadcastEvent F → List ℕ
  serialize_broadcast_extended evt = if_fits (status_members evt ++ extended_members evt)
