-- ===== src/Main/Busy.antt =====
-- The lines that arrive while the burette is not idle.
use esp32_rs_on_idf.Common.{
  ℕ, suc, ◌≡◌, refl, ◌∙◌, ap, Bool, arith, true, false, Option, some, List, [], ◌∷◌, if◌then◌else◌,
  length,
}
use esp32_rs_on_idf.Common.Float.{FloatOps}
use esp32_rs_on_idf.Domain.Types.{Result, ok, unexpected, is_idle}
use esp32_rs_on_idf.Application.CommandTypes.{Command}
use esp32_rs_on_idf.Application.Command.{JsonApi, parse_command, ProtocolError}
use esp32_rs_on_idf.Application.World.{Env}
use esp32_rs_on_idf.Application.Dispatch.{route}
use esp32_rs_on_idf.Application.Dispatch.Busy.{
  Untouched, calls_emergency_stop, all_same, Untouched-trans, dispatch_busy,
}
use esp32_rs_on_idf.Main.{
  Sent, answer, invalid_params, Loop, process_command, process_line, process_lines, extract_cmd_id,
}

-- Whether a line is the command of the emergency stop.
abbrev stops : {F : Type 0} ⦃o : FloatOps F⦄ → Result (Command F) ProtocolError → Bool
stops (ok cmd) = calls_emergency_stop (route cmd)
stops (unexpected err) = false

abbrev pub no_stop : {J F : Type 0} ⦃o : FloatOps F⦄ → JsonApi J F → List (List ℕ) → Bool
no_stop json [] = true
no_stop json (line ∷ lines) = if stops (parse_command json line) then false else no_stop json lines

-- What the lines leave as it was, with one answer for each of them.
pub record Calm {S T F D : Type 0} (lines : List (List ℕ)) (l n : Loop S T F)
    (sent : List (Sent F D)) : Type 0 where
  pub untouched : Untouched l.world n.world
  pub same_id : n.last_cmd_id ≡ l.last_cmd_id
  pub all_answered : length sent ≡ length lines

-- One line, with what is sent.
record Handled {S T F D : Type 0} (l : Loop S T F) (x : Option (Loop S T F × Sent F D))
    : Type 0 where
  after : Loop S T F
  sent : Sent F D
  handled : x ≡ some (after, sent)
  untouched : Untouched l.world after.world
  same_id : after.last_cmd_id ≡ l.last_cmd_id

module _ {S H T F D J : Type 0} ⦃o : FloatOps F⦄ ⦃d : FloatOps D⦄ (e : Env S H T F D)
    (json : JsonApi J F) where
  process_command-Handled :
      (cmd : Command F) (l : Loop S T F)
      → is_idle l.world.globals.burette_state ≡ false
      → calls_emergency_stop (route cmd) ≡ false
      → Handled l (process_command e json cmd l)
  unfolding process_command
  process_command-Handled cmd l busy calm =
      let (a, done) = dispatch_busy e cmd l.world busy calm in
      record {
        after = record { world = a.after; last_cmd_id = l.last_cmd_id };
        sent = answer cmd.id a.reply;
        handled = rw (done, a.no_ack) refl;
        untouched = a.untouched;
        same_id = refl;
      }

  process_result-Handled :
      (r : Result (Command F) ProtocolError) (line : List ℕ) (l : Loop S T F)
      → is_idle l.world.globals.burette_state ≡ false
      → stops r ≡ false
      → Handled l (elim r [
        | ok cmd ↦ process_command e json cmd l
        | unexpected err ↦ some (l, invalid_params (extract_cmd_id line))
      ])
  process_result-Handled (ok cmd) line l busy calm = process_command-Handled cmd l busy calm
  process_result-Handled (unexpected err) line l busy calm = record {
    after = l;
    sent = invalid_params (extract_cmd_id line);
    handled = refl;
    untouched = all_same l.world;
    same_id = refl;
  }

  process_line-Handled :
      (line : List ℕ) (l : Loop S T F)
      → is_idle l.world.globals.burette_state ≡ false
      → stops (parse_command json line) ≡ false
      → Handled l (process_line e json line l)
  unfolding process_line
  process_line-Handled line l busy calm =
      process_result-Handled (parse_command json line) line l busy calm

  -- While the burette is not idle, any lines of which none is the command of the emergency stop,
  -- texts that are no command among them, are each answered, restart nothing, and leave the burette,
  -- the valve with its timer, the motion commands in the motor's queue and the id of the last
  -- accepted command as they were.
  pub process_lines_busy :
      (lines : List (List ℕ)) (l : Loop S T F)
      → is_idle l.world.globals.burette_state ≡ false
      → no_stop json lines ≡ true
      → (n : Loop S T F) × (sent : List (Sent F D)) × (process_lines e json lines l
          ≡ some (n, sent))
        × Calm lines l n sent
  unfolding process_lines
  process_lines_busy [] l busy calm =
      (l, [], refl, record { untouched = all_same l.world; same_id = refl; all_answered = refl })
  process_lines_busy (line ∷ lines) l busy calm =
      let here : stops (parse_command json line) ≡ false = ground arith in
      let later : no_stop json lines ≡ true = ground arith in
      let a = process_line-Handled line l busy here in
      let still : is_idle a.after.world.globals.burette_state ≡ false =
        ap is_idle a.untouched.same_burette.same_state ∙ busy in
      let (n, sent, done, rest) = process_lines_busy lines a.after still later in
      (
        n,
        a.sent ∷ sent,
        rw (a.handled, done) refl,
        record {
          untouched = Untouched-trans a.untouched rest.untouched;
          same_id = rest.same_id ∙ a.same_id;
          all_answered = ap suc rest.all_answered;
        },
      )
