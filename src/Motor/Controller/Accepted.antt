-- ===== src/Motor/Controller/Accepted.antt =====
-- The messages that the controller makes of a text, and what the queue and the motor task do with them.
use esp32_rs_on_idf.Common.{
  ℕ, ◌≤◌, ◌<◌, ◌≡◌, sym, ap, ◌∙◌, ◌-◌, ◌==◌, then_eq, else_eq, refl, ◌⊎◌, inl, inr, Bool, true,
  false, ◌||◌, if◌then◌else◌, ltb, leb, ltb→lt, Bool-cases, Option-cases, Option, none, some,
  >>=-eq-some, List, [], ◌∷◌, ◌++◌, length, arith,
}
use mathlib.Core.Path.{subst}
use esp32_rs_on_idf.Common.Int.{ℤ, pos, negsuc, ltb_ℤ}
use esp32_rs_on_idf.Common.Float.{FloatOps}
use esp32_rs_on_idf.Common.Text.{codes, same_text}
use esp32_rs_on_idf.Motor.Machine.{Env, Machine}
use esp32_rs_on_idf.Motor.Motion.{step_freq_min_hz, step_freq_max_hz}
use esp32_rs_on_idf.Motor.JsonSearch.{find_json_string, find_json_int}
use esp32_rs_on_idf.Motor.Task.{handle_set_speed, step}
use esp32_rs_on_idf.Motor.Controller.{
  MotorCommandType, move_steps, stop, emergency_stop, home, set_direction, set_speed, set_accel,
  set_stall_threshold, Message, command, MotorGlobals, to_u32, direction_of, set_direction_message,
  set_speed_message, set_accel_message, direction_override, move_steps_message,
  set_stall_threshold_message, message_of, cmd_buf_size, motor_cmd_queue_len, command_message,
  queue_send, send_command,
}

either {ℓ} :
    {A : Type ℓ} (b : Bool) {x y : A} {z : A} → (if b then x else y) ≡ z → (x ≡ z) ⊎ (y ≡ z)
either true h = inl h
either false h = inr h

none-some : {m : Message} → none ≡ some m → ⊥
none-some e = cc

no_truth : true ≡ false → ⊥
no_truth e = cc

-- The types that the controller sends commands of.
abbrev pub is_sent : MotorCommandType → Bool
is_sent stop = true
is_sent emergency_stop = true
is_sent home = true
is_sent set_direction = true
is_sent set_speed = true
is_sent set_accel = true
is_sent move_steps = true
is_sent set_stall_threshold = true
is_sent _ = false

abbrev pub sets_speed : MotorCommandType → Bool
sets_speed set_speed = true
sets_speed _ = false

-- A message that the motor task can act on as it stands.
pub record Valid (m : Message) : Type 0 where
  pub sent : is_sent m.type ≡ true
  pub speed :
      (sets_speed m.type ≡ false)
      ⊎ ((step_freq_min_hz ≤ m.speed_hz) × (m.speed_hz ≤ step_freq_max_hz))
  pub threshold : m.stall_threshold < 256

same_Valid : (m n : Message) → Valid m → some m ≡ some n → Valid n
same_Valid m n v e = let same : m ≡ n = cc in subst Valid same v

-- A message without a speed of its own.
plain_Valid :
    (m n : Message)
    → is_sent m.type ≡ true
    → sets_speed m.type ≡ false
    → m.stall_threshold < 256
    → some m ≡ some n
    → Valid n
plain_Valid m n s other small =
    same_Valid m n (record { sent = s; speed = inl other; threshold = small })

speed_in_range :
    (speed : ℤ)
    → (ltb_ℤ speed (pos step_freq_min_hz) || ltb_ℤ (pos step_freq_max_hz) speed) ≡ false
    → (step_freq_min_hz ≤ to_u32 speed) × (to_u32 speed ≤ step_freq_max_hz)
speed_in_range (pos n) h = ground (arith, h)
speed_in_range (negsuc n) h = ground (arith, h)

set_speed_message-Valid :
    (g : MotorGlobals) (json : List ℕ) (m : Message) → set_speed_message g json ≡ some m → Valid m
unfolding set_speed_message
set_speed_message-Valid g json m h =
    let (speed, found, e) = >>=-eq-some (find_json_int json (codes "speedHz")) _ h in
    let out = ltb_ℤ speed (pos step_freq_min_hz) || ltb_ℤ (pos step_freq_max_hz) speed in
    elim (Bool-cases out) [
      | inl refused ↦ absurd (none-some (then_eq out _ refused e))
      | inr fits ↦
          let (low, high) = speed_in_range speed fits in
          same_Valid _ m (record { sent = refl; speed = inr (low, high); threshold = omega arith })
            (else_eq out _ fits e)
    ]

set_direction_message-Valid :
    (g : MotorGlobals) (json : List ℕ) (m : Message)
    → set_direction_message g json ≡ some m
    → Valid m
unfolding set_direction_message
set_direction_message-Valid g json m h =
    let (dir, found, e) = >>=-eq-some (find_json_string json (codes "direction")) _ h in
    let (d, known, e') = >>=-eq-some (direction_of dir) _ e in
    plain_Valid _ m refl refl (omega arith) e'

set_accel_message-Valid :
    (g : MotorGlobals) (json : List ℕ) (m : Message) → set_accel_message g json ≡ some m → Valid m
unfolding set_accel_message
set_accel_message-Valid g json m h =
    let (accel, found, e) = >>=-eq-some (find_json_int json (codes "accelHzPerS")) _ h in
    plain_Valid _ m refl refl (omega arith) e

move_steps_message-Valid :
    (g : MotorGlobals) (json : List ℕ) (m : Message) → move_steps_message g json ≡ some m → Valid m
unfolding move_steps_message
move_steps_message-Valid g json m h =
    let (steps, found, e) = >>=-eq-some (find_json_int json (codes "steps")) _ h in
    let (d, known, e') = >>=-eq-some (direction_override g json) _ e in
    plain_Valid _ m refl refl (omega arith) e'

set_stall_threshold_message-Valid :
    (g : MotorGlobals) (json : List ℕ) (m : Message)
    → set_stall_threshold_message g json ≡ some m
    → Valid m
unfolding set_stall_threshold_message
set_stall_threshold_message-Valid g json m h =
    let (threshold, found, e) = >>=-eq-some (find_json_int json (codes "threshold")) _ h in
    plain_Valid _ m refl refl (omega arith) e

message_of-Valid :
    (g : MotorGlobals) (json name : List ℕ) (m : Message)
    → message_of g json name ≡ some m
    → Valid m
unfolding message_of
message_of-Valid g json name m h1 = elim (either (same_text name (codes "stop")) h1) [
  | inl e ↦ plain_Valid _ m refl refl (omega arith) e
  | inr h2 ↦ elim (either (same_text name (codes "emergencyStop")) h2) [
    | inl e ↦ plain_Valid _ m refl refl (omega arith) e
    | inr h3 ↦ elim (either (same_text name (codes "home")) h3) [
      | inl e ↦ plain_Valid _ m refl refl (omega arith) e
      | inr h4 ↦ elim (either (same_text name (codes "setDirection")) h4) [
        | inl e ↦ set_direction_message-Valid g json m e
        | inr h5 ↦ elim (either (same_text name (codes "setSpeed")) h5) [
          | inl e ↦ set_speed_message-Valid g json m e
          | inr h6 ↦ elim (either (same_text name (codes "setAccel")) h6) [
            | inl e ↦ set_accel_message-Valid g json m e
            | inr h7 ↦ elim (either (same_text name (codes "moveSteps")) h7) [
              | inl e ↦ move_steps_message-Valid g json m e
              | inr h8 ↦ elim (either (same_text name (codes "setStallThreshold")) h8) [
                | inl e ↦ set_stall_threshold_message-Valid g json m e
                | inr h9 ↦ absurd (none-some h9)
              ]
            ]
          ]
        ]
      ]
    ]
  ]
]

pub command_message-Valid :
    (g : MotorGlobals) (json : List ℕ) (m : Message) → command_message g json ≡ some m → Valid m
unfolding command_message
command_message-Valid g json m h =
    let (name, found, e) = >>=-eq-some (find_json_string json (codes "cmd")) _ h in
    elim (either (length name == 0) e) [
      | inl nothing ↦ absurd (none-some nothing)
      | inr e' ↦ elim (either (ltb (cmd_buf_size - 1) (length name)) e') [
        | inl nothing ↦ absurd (none-some nothing)
        | inr e'' ↦ message_of-Valid g json name m e''
      ]
    ]

-- What a call of `send_command` may have done to the queue.
pub data Outcome (queue : Option (List Message)) : Option (List Message) × Bool → Type 0 where
  refused : Outcome queue (queue, false)
  queued :
      (waiting : List Message) (m : Message)
      → queue ≡ some waiting
      → length waiting < motor_cmd_queue_len
      → Valid m
      → Outcome queue (some (waiting ++ m ∷ []), true)

queue_send-Outcome :
    (m : Message) (queue : Option (List Message)) → Valid m → Outcome queue (queue_send m queue)
unfolding queue_send
queue_send-Outcome m none v = refused
queue_send-Outcome m (some waiting) v =
    elim (Bool-cases (ltb (length waiting) motor_cmd_queue_len)) [
      | inl room ↦ rw room (queued waiting m refl (ltb→lt _ _ room) v)
      | inr full ↦ rw full refused
    ]

-- For every text, `sendCommand` either returns false and leaves the queue as it was, or it returns
-- true, the queue exists and had room, and one message has joined it at its end: of one of the
-- eight types the controller knows, with a threshold of one byte, and with a speed from 30 to 3000
-- steps a second if it sets the speed.
pub send_command-Outcome :
    (g : MotorGlobals) (json : List ℕ) (queue : Option (List Message))
    → Outcome queue (send_command g json queue)
unfolding send_command
send_command-Outcome g json queue = elim (Option-cases (command_message g json)) [
  | inl e ↦ rw (e, send_command) refused
  | inr (m, e) ↦
      rw (e, send_command) (queue_send-Outcome m queue (command_message-Valid g json m e))
]

module _ {F : Type 0} ⦃o : FloatOps F⦄ where
  -- The motor task takes over the speed of every `setSpeed` message that the controller makes: its
  -- own check of the range refuses none of them, and it changes nothing else.
  pub step-command_message_set_speed :
      (e : Env) (fuel : ℕ) (machine : Machine F) (g : MotorGlobals) (json : List ℕ) (m : Message)
      → command_message g json ≡ some m
      → m.type ≡ set_speed
      → step e fuel (command m) machine ≡ some (record machine { speed = m.speed_hz })
  unfolding step command handle_set_speed
  step-command_message_set_speed e fuel machine g json m h t =
      elim (command_message-Valid g json m h).speed [
        | inl other ↦ absurd (no_truth (sym (ap sets_speed t) ∙ other))
        | inr (from, up_to) ↦
            let low : leb step_freq_min_hz m.speed_hz ≡ true = ground (arith, from) in
            let high : leb m.speed_hz step_freq_max_hz ≡ true = ground (arith, up_to) in
            rw (t, command) (rw low (rw high refl))
      ]
