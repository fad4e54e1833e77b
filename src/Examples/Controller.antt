-- ===== src/Examples/Controller.antt =====
-- The theorems about the motor controller and its search, at concrete texts.
use esp32_rs_on_idf.Common.{ℕ, ◌≡◌, refl, some, List, []}
use esp32_rs_on_idf.Common.Text.{codes}
use esp32_rs_on_idf.Domain.Types.{liq_in}
use esp32_rs_on_idf.Motor.Controller.{
  MotorGlobals, Message, set_speed, blank_message, command_message, send_command,
}
use esp32_rs_on_idf.Motor.Controller.Accepted.{Outcome, send_command-Outcome}
use esp32_rs_on_idf.Motor.Controller.Texts.{set_speed_text, command_message-set_speed_text}

abbrev globals : MotorGlobals
globals = record { speed = 500; accel = 900; direction = liq_in }

abbrev move_text : List ℕ
move_text = codes "{\"cmd\": \"moveSteps\", \"steps\": -12}"

send_command-Outcome_example : Outcome (some []) (send_command globals move_text (some []))
send_command-Outcome_example = send_command-Outcome globals move_text (some [])

abbrev digits : List ℕ
digits = codes "1200"

abbrev faster : Message
faster = record (blank_message globals set_speed) { speed_hz = 1200 }

command_message-set_speed_text_example :
    command_message globals (set_speed_text digits) ≡ some faster
command_message-set_speed_text_example =
    command_message-set_speed_text globals digits (refl, (refl, (refl, (refl, tt)))) (λ e. cc)

parse_faster : command_message globals (set_speed_text digits) ≡ some faster
parse_faster =
    command_message-set_speed_text globals digits (refl, (refl, (refl, (refl, tt)))) (λ e. cc)
