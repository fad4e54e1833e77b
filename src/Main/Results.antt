-- ===== src/Main/Results.antt =====
-- The results of the motor task, and the id that they are sent under.
use esp32_rs_on_idf.Common.{
  ℕ, ◌+◌, ◌^◌, ◌≤◌, ◌<◌, ◌≡◌, ap, ◌∙◌, inl, inr, true, false, if◌then◌else◌, ltb, ◌&&◌, Bool-cases,
  >>=-eq-some, then_is, some, List, [], ◌∷◌, ◌++◌, length, length-append, arith,
}
use esp32_rs_on_idf.Common.Int.{ℤ, pos, ltb_ℤ}
use esp32_rs_on_idf.Common.Float.{FloatOps}
use esp32_rs_on_idf.Common.Text.{codes, put_decimal, length-put_decimal_le}
use esp32_rs_on_idf.Domain.Types.{is_idle}
use esp32_rs_on_idf.Motor.Machine.{
  SmResult, plain, rinse_complete, cal_dose_complete, cal_speed_complete, cal_speed_seq_complete,
  error,
}
use esp32_rs_on_idf.Storage.Nvs.{NvsApi, FloatBits}
use esp32_rs_on_idf.Storage.Settings.{Memory}
use esp32_rs_on_idf.Application.CommandTypes.{Command}
use esp32_rs_on_idf.Application.Command.{JsonApi}
use esp32_rs_on_idf.Application.Response.{max_rsp_size}
use esp32_rs_on_idf.Application.Results.{ok_text, volume_result, format_sm_result}
use esp32_rs_on_idf.Application.World.{Env, Reply, memory_of}
use esp32_rs_on_idf.Application.Dispatch.{dispatch}
use esp32_rs_on_idf.Application.Dispatch.Busy.{is_ack}
use esp32_rs_on_idf.Main.{
  Sent, answer, Loop, process_command, process_lines, send_sm_result, extract_cmd_id,
}
use esp32_rs_on_idf.Main.Busy.{no_stop, process_lines_busy}
use esp32_rs_on_idf.Main.Ids.{put_decimal-append, extract_cmd_id-put_decimal}

-- A text of at most `size` bytes with an id as its first member.
record HasId (id size : ℕ) (text : List ℕ) : Type 0 where
  rest : List ℕ
  starts : text ≡ codes "{\"id\":" ++ put_decimal 20 id (44 ∷ rest)
  fits : length text ≤ size

id-HasId :
    (id : ℕ) (tail : List ℕ)
    → HasId id (27 + length tail) (codes "{\"id\":" ++ put_decimal 20 id [] ++ 44 ∷ tail)
id-HasId id tail =
    let joined = put_decimal-append 20 id [] (44 ∷ tail) in
    let size = length-put_decimal_le 20 id (44 ∷ tail) in
    record {
      rest = tail;
      starts = ap (λ t. codes "{\"id\":" ++ t) joined;
      fits = omega (arith, size, ap length joined);
    }

append-HasId :
    {id size : ℕ} {text : List ℕ} (more : List ℕ) (bound : ℕ)
    → length more ≤ bound
    → HasId id size text
    → HasId id (size + bound) (text ++ more)
append-HasId {id} more bound small h = record {
  rest = h.rest ++ more;
  starts =
      ap (λ t. t ++ more) h.starts
      ∙ ap (λ t. codes "{\"id\":" ++ t) (put_decimal-append 20 id (44 ∷ h.rest) more);
  fits = omega (arith, h.fits, small, length-append _ more);
}

module _ {S H F : Type 0} ⦃o : FloatOps F⦄ (api : NvsApi S H) (bits : FloatBits F)
    (print2 : F → List ℕ) (short : (x : F) → length (print2 x) ≤ 64) where
  ok_text-HasId :
      (id : ℕ) (members : List ℕ) → length members ≤ 100 → HasId id 200 (ok_text id members)
  ok_text-HasId id members small =
      let h =
        append-HasId (codes "}}") 22 (omega arith)
          (append-HasId members 100 small (id-HasId id (codes "\"status\":\"ok\",\"data\":{"))) in
      record { rest = h.rest; starts = h.starts; fits = omega (arith, h.fits) }

  volume_result-HasId :
      (id : ℕ) (steps : ℤ) (m : Memory S F)
      → HasId id 200 (volume_result api bits print2 id steps m).1
  unfolding volume_result
  volume_result-HasId id steps m =
      ok_text-HasId id _
        (omega (arith, short _, length-append (codes "\"volume_dispensed_ml\":") (print2 _)))

  format_sm_result-HasId :
      (id : ℕ) (r : SmResult F) (m : Memory S F)
      → HasId id 200 (format_sm_result api bits print2 id r m).1
  unfolding format_sm_result
  format_sm_result-HasId id r m =
      elim r.type
        as (λ t. HasId id 200 (format_sm_result api bits print2 id (record r { type = t }) m).1) [
          | plain ↦ elim (Bool-cases (ltb_ℤ (pos 0) r.steps_taken)) [
            | inl some_steps ↦ rw some_steps (volume_result-HasId id r.steps_taken m)
            | inr no_steps ↦ rw no_steps (ok_text-HasId id _ (omega arith))
          ]
          | rinse_complete ↦ ok_text-HasId id _ (omega arith)
          | cal_dose_complete ↦ volume_result-HasId id r.steps_taken m
          | cal_speed_complete ↦ ok_text-HasId id _ (omega (arith, short r.measured_speed_ml_min))
          | cal_speed_seq_complete ↦ ok_text-HasId id _ (omega arith)
          | error ↦
              let h = id-HasId id (codes "\"status\":\"error\",\"message\":\"start_failed\"}") in
              record { rest = h.rest; starts = h.starts; fits = omega (arith, h.fits) }
        ]

extract_cmd_id-HasId :
    {id size : ℕ} {text : List ℕ} → HasId id size text → id < 2 ^ 64 → extract_cmd_id text ≡ id
extract_cmd_id-HasId {id} h wide =
    ap extract_cmd_id h.starts ∙ extract_cmd_id-put_decimal id h.rest wide

module _ {S H T F D J : Type 0} ⦃o : FloatOps F⦄ ⦃d : FloatOps D⦄ (e : Env S H T F D)
    (json : JsonApi J F) (print2 : F → List ℕ) (short : (x : F) → length (print2 x) ≤ 64) where
  extract_cmd_id-send_sm_result :
      (r : SmResult F) (l : Loop S T F)
      → l.last_cmd_id < 2 ^ 64
      → extract_cmd_id (send_sm_result e json print2 (some r) l).1 ≡ l.last_cmd_id
  unfolding send_sm_result
  extract_cmd_id-send_sm_result r l wide =
      let h =
        format_sm_result-HasId e.nvs e.bits print2 short l.last_cmd_id r (memory_of l.world) in
      let text = (format_sm_result e.nvs e.bits print2 l.last_cmd_id r (memory_of l.world)).1 in
      let id = extract_cmd_id-HasId (append-HasId (10 ∷ []) 1 (omega arith) h) wide in
      let some_bytes : ltb 0 (length text) ≡ true = ground (arith, ap length h.starts) in
      let room : (ltb 0 (length text) && ltb (length text) max_rsp_size) ≡ true =
        ground (arith, some_bytes, h.fits) in
      ap extract_cmd_id (then_is _ (text ++ 10 ∷ []) [] room) ∙ id

  process_command-last_cmd_id :
      (cmd : Command F) (l n : Loop S T F) (i : ℕ) (r : Reply F D)
      → process_command e json cmd l ≡ some (n, answer i r)
      → is_ack r ≡ true
      → n.last_cmd_id ≡ cmd.id
  unfolding process_command
  process_command-last_cmd_id cmd l n i r done ack =
      let ((w, (id, reply)), made, same) = >>=-eq-some (dispatch e cmd l.world) _ done in
      let same_reply : reply ≡ r = cc same in
      let last : n.last_cmd_id ≡ (if is_ack reply then cmd.id else l.last_cmd_id) = cc same in
      last ∙ then_is (is_ack reply) cmd.id l.last_cmd_id (ap is_ack same_reply ∙ ack)

  -- The result of an accepted command is sent under its id, whatever lines but the emergency stop's
  -- arrive before it, as long as the burette is not idle: the reader of ids of the main loop finds
  -- the command's id in what is written to the serial line.
  pub send_sm_result-process_lines :
      (cmd : Command F) (l n : Loop S T F) (i : ℕ) (r : Reply F D)
      → process_command e json cmd l ≡ some (n, answer i r)
      → is_ack r ≡ true
      → cmd.id < 2 ^ 64
      → is_idle n.world.globals.burette_state ≡ false
      → (lines : List (List ℕ)) → no_stop json lines ≡ true
      → (res : SmResult F)
      → (k : Loop S T F) × (sent : List (Sent F D)) × (process_lines e json lines n
          ≡ some (k, sent))
        × (extract_cmd_id (send_sm_result e json print2 (some res) k).1 ≡ cmd.id)
  send_sm_result-process_lines cmd l n i r done ack wide busy lines calm res =
      let (k, sent, run, c) = process_lines_busy e json lines n busy calm in
      let same = c.same_id ∙ process_command-last_cmd_id cmd l n i r done ack in
      (k, sent, run, extract_cmd_id-send_sm_result res k (omega (arith, same, wide)) ∙ same)
