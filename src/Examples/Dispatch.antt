-- ===== src/Examples/Dispatch.antt =====
-- The theorems about the main loop, with a burette that fills or doses.
use Prim.Native.String.{String}
use esp32_rs_on_idf.Common.{ℕ, ◌≡◌, refl, true, none, some, List, [], ◌∷◌, arith}
use esp32_rs_on_idf.Common.Int.{ℤ, pos}
use esp32_rs_on_idf.Common.Float.{fixed_point}
use esp32_rs_on_idf.Common.Text.{codes}
use esp32_rs_on_idf.Domain.Types.{input, dosing}
use esp32_rs_on_idf.Motor.Machine.{SmResult, plain}
use esp32_rs_on_idf.Motor.Task.{MotorCommand}
use esp32_rs_on_idf.Application.CommandTypes.{CommandType, Command}
use esp32_rs_on_idf.Application.BuretteOps.{ack_then, handle_move_steps}
use esp32_rs_on_idf.Application.BuretteOps.Claims.{handle}
use esp32_rs_on_idf.Drivers.Valve.{fresh_valve}
use esp32_rs_on_idf.Application.AdcCal
use esp32_rs_on_idf.Application.Command.{parse_command, lookup_cmd_type, lookup_in, read_params}
use esp32_rs_on_idf.Application.Dispatch.{route, run, dispatch}
use esp32_rs_on_idf.Application.World.{Env, burette_reply}
use esp32_rs_on_idf.Main.{
  Loop, Sent, process_command, process_lines, send_sm_result, extract_cmd_id,
}
use esp32_rs_on_idf.Main.Results.{send_sm_result-process_lines}
use esp32_rs_on_idf.Main.Busy.{Calm, process_lines_busy}
use esp32_rs_on_idf.Examples.Application.{ready, running}
use esp32_rs_on_idf.Examples.Command.{one_member}
use esp32_rs_on_idf.Examples.Interface.{OneShot, one_shot}
use esp32_rs_on_idf.Examples.Storage.{Flash, flash_api, bits, fine, blank_memory}

abbrev outside : Env Flash String OneShot ℤ ℤ
outside = record {
  timers = one_shot;
  nvs = flash_api;
  bits = bits;
  to_double = λ x. x;
  sqrt = λ x. x;
  sample = none;
  controller = none;
  accepts = true;
  accepts_next = true;
}

abbrev filling : Loop Flash OneShot ℤ
filling = record {
  world = record {
    globals = running;
    valve_position = input;
    valve = fresh_valve;
    timer = none;
    events = [];
    flash = blank_memory.flash;
    coeff_a_x1000 = 1000;
    coeff_b = pos 0;
    stall_guard_threshold = 0;
    pending_cal = fine;
    adc_cal = AdcCal.initial ⦃o = fixed_point⦄;
    samples_read = 0;
  };
  last_cmd_id = 12;
}

abbrev lines : List (List ℕ)
lines = codes "burette.stop" ∷ codes "no command" ∷ codes "burette.cal.get" ∷ []

process_lines_busy_example :
    (n : Loop Flash OneShot ℤ) × (sent : List (Sent ℤ ℤ)) × (process_lines ⦃o = fixed_point⦄
        ⦃d = fixed_point⦄ outside one_member lines filling
      ≡ some (n, sent))
    × Calm lines filling n sent
unfolding parse_command lookup_cmd_type lookup_in read_params route
process_lines_busy_example =
    process_lines_busy ⦃o = fixed_point⦄ ⦃d = fixed_point⦄ outside one_member lines filling refl
      refl

abbrev move : Command ℤ
move = record {
  type = CommandType.move_steps;
  volume = none;
  steps = some (pos 300);
  direction = none;
  speed = none;
  accel = none;
  speed_ml_min = none;
  target_volume = none;
  valve_pos = none;
  sg_threshold = none;
  mode = none;
  freq_hz = none;
  mass_g = none;
  temperature = none;
  pressure = none;
  ref_mv = none;
  id = 41;
  measurements = [];
  freqs_array = [];
}

abbrev waiting : Loop Flash OneShot ℤ
waiting = record filling { world = record filling.world { globals = ready } }

abbrev moving : Loop Flash OneShot ℤ
moving = record {
  world = record filling.world {
    globals = record ready {
      burette_state = dosing;
      queue = MotorCommand.move_steps (pos 300) ∷ [];
    };
  };
  last_cmd_id = 41;
}

abbrev moved : SmResult ℤ
moved = record {
  type = plain;
  steps_taken = pos 300;
  measured_speed_ml_min = pos 0;
  results = [];
  result_count = 0;
}

abbrev digits : ℤ → List ℕ
digits x = codes "0.39"

send_sm_result-process_lines_example :
    (k : Loop Flash OneShot ℤ) × (sent : List (Sent ℤ ℤ)) × (process_lines ⦃o = fixed_point⦄
        ⦃d = fixed_point⦄ outside one_member lines moving
      ≡ some (k, sent))
    × (extract_cmd_id
          (send_sm_result ⦃o = fixed_point⦄ ⦃d = fixed_point⦄ outside one_member digits
            (some moved)
            k).1
        ≡ 41)
unfolding parse_command lookup_cmd_type lookup_in read_params route process_command dispatch run
    handle handle_move_steps
send_sm_result-process_lines_example =
    send_sm_result-process_lines ⦃o = fixed_point⦄ ⦃d = fixed_point⦄ outside one_member digits
      (λ x. omega arith) move waiting moving 41 (burette_reply ack_then) refl refl (omega arith)
      refl lines refl moved
