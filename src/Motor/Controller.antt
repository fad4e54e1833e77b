-- ===== src/Motor/Controller.antt =====
-- components/infrastructure/src/motor/motor_controller_impl.cpp: the commands of the controller, and
-- domain/motor_command.hpp. A queue that the controller's handle or the global one names is a list,
-- oldest first; `none` is a null handle. Text values hold no NUL.
pub mod Accepted
pub mod Texts
use esp32_rs_on_idf.Common.{
  ℕ, ◌+◌, ◌-◌, ◌%◌, Bool, true, false, ◌&&◌, ◌||◌, if◌then◌else◌, ltb, leb, ◌==◌, Option, none,
  some, ◌>>=◌, List, [], ◌∷◌, ◌++◌, length,
}
use esp32_rs_on_idf.Common.Int.{ℤ, pos, negsuc, ltb_ℤ}
use esp32_rs_on_idf.Common.Float.{FloatOps, lit}
use esp32_rs_on_idf.Common.Text.{codes, same_text, starts_with}
use esp32_rs_on_idf.Domain.Types.{Direction, liq_in, liq_out}
use esp32_rs_on_idf.Motor.Machine.{SmResult}
use esp32_rs_on_idf.Motor.Motion.{step_freq_min_hz, step_freq_max_hz}
use esp32_rs_on_idf.Motor.JsonSearch.{find_json_string, find_json_int}
use esp32_rs_on_idf.Motor.Task.{MotorCommand}

pub data MotorCommandType : Type 0 where
  move_steps move_continuous stop emergency_stop home : MotorCommandType
  set_direction set_speed set_accel set_stall_threshold : MotorCommandType
  start_rinse start_cal_dose start_cal_speed start_cal_speed_seq : MotorCommandType
  read_tmc_register : MotorCommandType

-- The `MotorCommand` that the queue carries, without the parameters that the controller leaves zero.
pub record Message : Type 0 where
  pub type : MotorCommandType
  pub steps : ℤ
  pub direction : Direction
  pub speed_hz : ℕ
  pub accel_hz_per_s : ℕ
  pub stall_threshold : ℕ
  pub reg : ℕ

-- What the motor task's `switch` reads of a message.
unfoldable pub command : {F : Type 0} ⦃o : FloatOps F⦄ → Message → MotorCommand F
command m = elim m.type [
  | move_steps ↦ MotorCommand.move_steps m.steps
  | move_continuous ↦ MotorCommand.move_continuous m.direction m.speed_hz
  | stop ↦ MotorCommand.stop
  | emergency_stop ↦ MotorCommand.emergency_stop
  | home ↦ MotorCommand.home
  | set_direction ↦ MotorCommand.set_direction m.direction
  | set_speed ↦ MotorCommand.set_speed m.speed_hz
  | set_accel ↦ MotorCommand.set_accel m.accel_hz_per_s
  | set_stall_threshold ↦ MotorCommand.set_stall_threshold m.stall_threshold
  | start_rinse ↦ MotorCommand.start_rinse 0 (lit 0 0)
  | start_cal_dose ↦ MotorCommand.start_cal_dose (lit 0 0)
  | start_cal_speed ↦ MotorCommand.start_cal_speed (lit 0 0) 0
  | start_cal_speed_seq ↦ MotorCommand.start_cal_speed_seq (0 ∷ 0 ∷ 0 ∷ []) (lit 0 0)
  | read_tmc_register ↦ MotorCommand.read_tmc_register m.reg
]

-- The globals `gSpeed`, `gAccel` and `gDirection`.
pub record MotorGlobals : Type 0 where
  pub speed : ℕ
  pub accel : ℕ
  pub direction : Direction

-- `static_cast` of an `int32_t`.
abbrev pub to_u32 : ℤ → ℕ
to_u32 (pos n) = n
to_u32 (negsuc n) = 4_294_967_295 - n

abbrev pub to_u8 : ℤ → ℕ
to_u8 i = to_u32 i % 256

-- The message before the branch on the name.
abbrev pub blank_message : MotorGlobals → MotorCommandType → Message
blank_message g type = record {
  type = type;
  steps = pos 0;
  direction = liq_in;
  speed_hz = g.speed;
  accel_hz_per_s = g.accel;
  stall_threshold = 0;
  reg = 0;
}

unfoldable pub direction_of : List ℕ → Option Direction
direction_of dir =
    if leb 5 (length dir) && starts_with (codes "liqIn") dir
    then some liq_in
    else if leb 6 (length dir) && starts_with (codes "liqOut") dir
    then some liq_out
    else none

unfoldable pub set_direction_message : MotorGlobals → List ℕ → Option Message
set_direction_message g json = find_json_string json (codes "direction") >>= λ dir.
    direction_of dir >>= λ d. some (record (blank_message g set_direction) { direction = d })

unfoldable pub set_speed_message : MotorGlobals → List ℕ → Option Message
set_speed_message g json = find_json_int json (codes "speedHz") >>= λ speed.
    if ltb_ℤ speed (pos step_freq_min_hz) || ltb_ℤ (pos step_freq_max_hz) speed
    then none
    else some (record (blank_message g set_speed) { speed_hz = to_u32 speed })

unfoldable pub set_accel_message : MotorGlobals → List ℕ → Option Message
set_accel_message g json = find_json_int json (codes "accelHzPerS") >>= λ accel.
    some (record (blank_message g set_accel) { accel_hz_per_s = to_u32 accel })

abbrev pub or_else : Option ℤ → ℕ → ℕ
or_else none old = old
or_else (some i) old = to_u32 i

-- The optional direction override.
unfoldable pub direction_override : MotorGlobals → List ℕ → Option Direction
direction_override g json = elim (find_json_string json (codes "direction")) [
  | none ↦ some g.direction
  | some dir ↦ direction_of dir
]

unfoldable pub move_steps_message : MotorGlobals → List ℕ → Option Message
move_steps_message g json = find_json_int json (codes "steps") >>= λ steps.
    direction_override g json >>= λ d. some (record (blank_message g move_steps) {
      steps = steps;
      direction = d;
      speed_hz = or_else (find_json_int json (codes "speedHz")) g.speed;
      accel_hz_per_s = or_else (find_json_int json (codes "accelHzPerS")) g.accel;
    })

unfoldable pub set_stall_threshold_message : MotorGlobals → List ℕ → Option Message
set_stall_threshold_message g json = find_json_int json (codes "threshold") >>= λ threshold.
    some (record (blank_message g set_stall_threshold) { stall_threshold = to_u8 threshold })

-- The branch on the name.
unfoldable pub message_of : MotorGlobals → List ℕ → List ℕ → Option Message
message_of g json name =
    if same_text name (codes "stop")
    then some (blank_message g stop)
    else if same_text name (codes "emergencyStop")
    then some (blank_message g emergency_stop)
    else if same_text name (codes "home")
    then some (blank_message g home)
    else if same_text name (codes "setDirection")
    then set_direction_message g json
    else if same_text name (codes "setSpeed")
    then set_speed_message g json
    else if same_text name (codes "setAccel")
    then set_accel_message g json
    else if same_text name (codes "moveSteps")
    then move_steps_message g json
    else if same_text name (codes "setStallThreshold")
    then set_stall_threshold_message g json
    else none

abbrev pub cmd_buf_size : ℕ
cmd_buf_size = 32

abbrev pub motor_cmd_queue_len : ℕ
motor_cmd_queue_len = 4

-- The body up to the queue.
unfoldable pub command_message : MotorGlobals → List ℕ → Option Message
command_message g json = find_json_string json (codes "cmd") >>= λ name.
    if length name == 0
    then none
    else if ltb (cmd_buf_size - 1) (length name)
    then none
    else message_of g json name

-- `xQueueSend` without a wait: the queue, and whether the message went in.
unfoldable pub queue_send : Message → Option (List Message) → Option (List Message) × Bool
queue_send m none = (none, false)
queue_send m (some waiting) =
    if ltb (length waiting) motor_cmd_queue_len
    then (some (waiting ++ m ∷ []), true)
    else (some waiting, false)

unfoldable pub send_command :
    MotorGlobals → List ℕ → Option (List Message) → Option (List Message) × Bool
send_command g json queue = elim (command_message g json) [
  | none ↦ (queue, false)
  | some m ↦ queue_send m queue
]

-- `value` is not written; the other fields of `cmd{}` are zero.
unfoldable pub read_tmc_register_command : ℕ → Option (List Message) → Option (List Message) × Bool
read_tmc_register_command reg =
    queue_send
      (record (blank_message (record { speed = 0; accel = 0; direction = liq_in })
        read_tmc_register) { reg = reg })

-- The queue of results; `arrival` is what comes within the wait, if the queue is empty.
unfoldable pub peek_result : {F : Type 0} → Option (List (SmResult F)) → Option (SmResult F)
peek_result none = none
peek_result (some []) = none
peek_result (some (r ∷ rest)) = some r

unfoldable pub wait_result :
    {F : Type 0} (arrival : Option (SmResult F))
    → Option (List (SmResult F))
    → Option (List (SmResult F)) × Option (SmResult F)
wait_result arrival none = (none, none)
wait_result arrival (some []) = (some [], arrival)
wait_result arrival (some (r ∷ rest)) = (some rest, some r)
