-- ===== src/Main.antt =====
-- main/main.cpp: the lines of the serial input and of BLE in the main loop, and the results of the
-- motor task. A line is parsed and dispatched, or refused under the id that stands in its text.
-- `dispatch` fails for no command that the parser makes, so that branch is left out.
pub mod Busy
pub mod Ids
pub mod Results
use esp32_rs_on_idf.Common.{
  ℕ, ◌+◌, ◌-◌, ◌*◌, ◌%◌, ◌^◌, Bool, true, false, ◌||◌, if◌then◌else◌, ◌==◌, Option, none, some,
  ◌>>=◌, List, [], ◌∷◌, ◌++◌, drop, length, ltb, ◌&&◌,
}
use esp32_rs_on_idf.Common.Float.{FloatOps}
use esp32_rs_on_idf.Common.Text.{codes, is_digit, starts_with}
use esp32_rs_on_idf.Motor.Machine.{SmResult}
use esp32_rs_on_idf.Domain.Types.{Result, ok, unexpected}
use esp32_rs_on_idf.Application.CommandTypes.{Command}
use esp32_rs_on_idf.Application.Command.{JsonApi, parse_command}
use esp32_rs_on_idf.Application.Response.{max_rsp_size}
use esp32_rs_on_idf.Application.Results.{format_sm_result}
use esp32_rs_on_idf.Application.World.{World, Env, Reply, memory_of, with_memory}
use esp32_rs_on_idf.Application.Dispatch.{dispatch}
use esp32_rs_on_idf.Application.Dispatch.Busy.{is_ack}

-- `std::strstr`, for a text to look for that is not empty. A NUL ends the text.
unfoldable pub strstr : List ℕ → List ℕ → Option (List ℕ)
strstr text [] = none
strstr text (c ∷ data_) =
    let rest = strstr text data_ in
    if c == 0 then none else if starts_with text (c ∷ data_) then some (c ∷ data_) else rest

abbrev is_blank : ℕ → Bool
is_blank c = (c == 32) || (c == 9)

unfoldable pub skip_blanks : List ℕ → List ℕ
skip_blanks [] = []
skip_blanks (c ∷ cs) = if is_blank c then skip_blanks cs else c ∷ cs

-- The loop over the digits, in a `uint64_t`.
unfoldable pub read_digits : ℕ → List ℕ → ℕ
read_digits val [] = val
read_digits val (c ∷ cs) =
    let rest = read_digits ((val * 10 + (c - 48)) % 2 ^ 64) cs in if is_digit c then rest else val

-- The NUL behind the text is no digit, so no digit gives 0.
unfoldable pub extract_cmd_id : List ℕ → ℕ
extract_cmd_id text = elim (strstr (codes "\"id\":") text) [
  | none ↦ 0
  | some p ↦ read_digits 0 (skip_blanks (drop 5 p))
]

-- What goes to `sendResponse`, with the id of the response.
pub data Sent (F D : Type 0) : Type 0 where
  answer : ℕ → Reply F D → Sent F D
  invalid_params : ℕ → Sent F D

-- The world of the handlers, and `gLastCmdId`.
pub record Loop (S T F : Type 0) : Type 0 where
  pub world : World S T F
  pub last_cmd_id : ℕ

module _ {S H T F D J : Type 0} ⦃o : FloatOps F⦄ ⦃d : FloatOps D⦄ (e : Env S H T F D)
    (json : JsonApi J F) where
  unfoldable pub process_command : Command F → Loop S T F → Option (Loop S T F × Sent F D)
  process_command cmd l = dispatch e cmd l.world >>= λ (w, (id, r)).
      some (
        record { world = w; last_cmd_id = if is_ack r then cmd.id else l.last_cmd_id },
        answer id r,
      )

  unfoldable pub process_line : List ℕ → Loop S T F → Option (Loop S T F × Sent F D)
  process_line line l = elim (parse_command json line) [
    | ok cmd ↦ process_command cmd l
    | unexpected err ↦ some (l, invalid_params (extract_cmd_id line))
  ]

  -- The lines of some rounds of the main loop, with what is sent.
  unfoldable pub process_lines : List (List ℕ) → Loop S T F → Option (Loop S T F × List (Sent F D))
  process_lines [] l = some (l, [])
  process_lines (line ∷ lines) l = process_line line l >>= λ (l1, sent).
      process_lines lines l1 >>= λ (l2, rest). some (l2, sent ∷ rest)

  -- `waitResult` of the controller, if there is one, has given a result or none. What is written to
  -- the serial line is also put into the queue of BLE, which is left out.
  unfoldable pub send_sm_result :
      (print2 : F → List ℕ) → Option (SmResult F) → Loop S T F → Loop S T F × List ℕ
  send_sm_result print2 none l = (l, [])
  send_sm_result print2 (some r) l =
      let (m, text) = format_sm_result e.nvs e.bits print2 l.last_cmd_id r (memory_of l.world) in
      (
        record l { world = with_memory m l.world },
        if ltb 0 (length text) && ltb (length text) max_rsp_size then text ++ 10 ∷ [] else [],
      )
