-- ===== src/Examples/Command.antt =====
-- The theorems about commands, responses and the scheduler at concrete inputs.
use esp32_rs_on_idf.Common.{
  ℕ, ◌≡◌, refl, Option, none, some, List, drop, true, if◌then◌else◌, arith,
}
use esp32_rs_on_idf.Common.Int.{ℤ}
use esp32_rs_on_idf.Common.Float.{fixed_point}
use esp32_rs_on_idf.Common.Text.{codes, same_text}
use esp32_rs_on_idf.Application.Command.{JsonApi, parse_command}
use esp32_rs_on_idf.Application.Command.Parsed.{Parsed, parse_command-Parsed}
use esp32_rs_on_idf.Application.Response.{
  CommandResponse, single, make_error_response, serialize_to_buffer,
}
use esp32_rs_on_idf.Application.Response.Errors.{read_message, read_message-make_error_response}
use esp32_rs_on_idf.Main.{extract_cmd_id}
use esp32_rs_on_idf.Main.Ids.{extract_cmd_id-serialize_to_buffer}

-- A JSON value that is one string or an object with one member.
pub data Json : Type 0 where
  string : List ℕ → Json
  member : List ℕ → List ℕ → Json

abbrev pub find_member : Json → List ℕ → Option Json
find_member (string s) key = none
find_member (member k s) key = if same_text k key then some (string s) else none

abbrev pub text_of : Json → Option (List ℕ)
text_of (string s) = some s
text_of (member k s) = none

-- Every text is read as an object that names it as the command.
abbrev pub one_member : JsonApi Json ℤ
one_member = record {
  parse = λ text. some (member (codes "cmd") text);
  find = find_member;
  as_string = text_of;
  as_number = λ j. none;
  as_int32 = λ j. none;
  as_u32 = λ j. none;
  as_u64 = λ j. none;
  as_array = λ j. none;
  is_object = λ j. true;
}

parse_command-Parsed_example :
    Parsed ⦃o = fixed_point⦄ one_member
      (codes "burette.fill")
      (parse_command ⦃o = fixed_point⦄ one_member (codes "burette.fill"))
parse_command-Parsed_example =
    parse_command-Parsed ⦃o = fixed_point⦄ one_member (codes "burette.fill")

abbrev quoted : List ℕ
quoted = codes "no \"cal\" \\"

read_message-make_error_response_example :
    read_message (drop 29 (make_error_response quoted).body) ≡ some quoted
read_message-make_error_response_example = read_message-make_error_response quoted (omega arith)

abbrev status : CommandResponse
status = record { kind = single; id = 907; body = codes "{\"status\":\"ok\"}"; body_size = 15 }

extract_cmd_id-serialize_to_buffer_example : extract_cmd_id (serialize_to_buffer status) ≡ 907
extract_cmd_id-serialize_to_buffer_example =
    extract_cmd_id-serialize_to_buffer status (codes "\"status\":\"ok\"}") refl refl refl
      (omega arith) (omega arith) (omega arith)
