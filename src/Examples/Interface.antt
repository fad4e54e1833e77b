-- ===== src/Examples/Interface.antt =====
-- The theorems about the valve, the controller, the serial input, DNS and the black box at concrete
-- inputs.
use esp32_rs_on_idf.Common.{
  ℕ, ◌≡◌, refl, Bool, true, false, none, some, List, [], ◌∷◌, ◌++◌, take, replicate, arith,
}
use esp32_rs_on_idf.Common.Text.{codes}
use esp32_rs_on_idf.Domain.Types.{input, output, idle, filling}
use esp32_rs_on_idf.Domain.Dns.{build_dns_response, reply_header, reply_answer, extract_domain_name}
use esp32_rs_on_idf.Domain.Dns.Names.{encode}
use esp32_rs_on_idf.Domain.Dns.Answer.{build_dns_response-encode}
use esp32_rs_on_idf.Diag.BlackBox.{Event, tick_end, fmt_uint, fmt_loop, dump, event_line}
use esp32_rs_on_idf.Diag.BlackBox.Dump
use esp32_rs_on_idf.Diag.BlackBox.Dump.{recorded, cleared, decimal-fmt_uint, dump-after}
use esp32_rs_on_idf.Drivers.Valve.{
  Settle, TimerApi, arm_valve_settle_timer, cancel_valve_settle_timer,
}
use esp32_rs_on_idf.Drivers.Valve.Timer.{TimerLaws, Sound, claimed, cancel-arm_restarts}
use esp32_rs_on_idf.Application.ValveOps.{World, Response, handle_set_position}
use esp32_rs_on_idf.Application.ValveOps.Settling.{
  Step, requested, passed, run, fresh_world, Handled, handle_set_position-Handled, run-Sound,
}
use esp32_rs_on_idf.Interface.Serial.{initial, split_buffer}
use esp32_rs_on_idf.Interface.Serial.Lines.{pending, delivered, split_buffer-conserves}
use esp32_rs_on_idf.Motor.Machine.{EspErr, esp_ok, esp_err_invalid_state}

-- A timer that does what the documents say.
pub record OneShot : Type 0 where
  pub running : Bool
  pub callback_arg : ℕ

abbrev timer_of : Bool → ℕ → OneShot
timer_of on n = record { running = on; callback_arg = n }

abbrev start_at : Bool → ℕ → OneShot × EspErr
start_at true n = (timer_of true n, esp_err_invalid_state)
start_at false n = (timer_of true n, esp_ok)

abbrev stop_at : Bool → ℕ → OneShot × EspErr
stop_at true n = (timer_of false n, esp_ok)
stop_at false n = (timer_of false n, esp_err_invalid_state)

abbrev pub one_shot : TimerApi OneShot
one_shot = record {
  create = timer_of false;
  start_once = λ us h. start_at h.running h.callback_arg;
  stop = λ h. stop_at h.running h.callback_arg;
  is_active = λ h. h.running;
  arg = λ h. h.callback_arg;
  expire = λ h. timer_of false h.callback_arg;
}

-- How a timer that runs, or does not, starts and stops.
started :
    (on : Bool) (n : ℕ)
    → ((start_at on n).0.running ≡ true)
      × ((start_at on n).0.callback_arg ≡ n)
      × ((stop_at on n).0.running ≡ false)
      × ((stop_at on n).0.callback_arg ≡ n)
started true n = (refl, refl, refl, refl)
started false n = (refl, refl, refl, refl)

start_idle_at : (on : Bool) (n : ℕ) → on ≡ false → (start_at on n).1 ≡ esp_ok
start_idle_at true n e = cc
start_idle_at false n e = refl

start_active_at : (on : Bool) (n : ℕ) → on ≡ true → (start_at on n).1 ≡ esp_err_invalid_state
start_active_at true n e = refl
start_active_at false n e = cc

stop_active_at : (on : Bool) (n : ℕ) → on ≡ true → (stop_at on n).1 ≡ esp_ok
stop_active_at true n e = refl
stop_active_at false n e = cc

stop_idle_at : (on : Bool) (n : ℕ) → on ≡ false → (stop_at on n).1 ≡ esp_err_invalid_state
stop_idle_at true n e = cc
stop_idle_at false n e = refl

one_shot_laws : TimerLaws one_shot
one_shot_laws = record {
  create_arg = λ n. refl;
  create_idle = λ n. refl;
  start_idle = λ us h. start_idle_at h.running h.callback_arg;
  start_active = λ us h. start_active_at h.running h.callback_arg;
  started = λ us h e. (started h.running h.callback_arg).0;
  start_arg = λ us h. (started h.running h.callback_arg).1;
  stop_active = λ h. stop_active_at h.running h.callback_arg;
  stop_idle = λ h. stop_idle_at h.running h.callback_arg;
  stopped = λ h. (started h.running h.callback_arg).2;
  stop_arg = λ h. (started h.running h.callback_arg).3;
  expired = λ h. refl;
  expire_arg = λ h. refl;
}

handle_set_position-Handled_example :
    (r : World OneShot × Response) × (handle_set_position one_shot (some output) fresh_world
      ≡ some r)
    × Handled one_shot one_shot_laws (some output) fresh_world r
    × Sound one_shot one_shot_laws r.0.valve_settle
handle_set_position-Handled_example =
    handle_set_position-Handled one_shot one_shot_laws (some output) fresh_world (refl, refl)

abbrev day : List Step
day =
    requested idle (some output)
    ∷ requested idle (some input)
    ∷ passed
    ∷ requested filling (some input)
    ∷ requested idle (some input)
    ∷ passed
    ∷ []

run-Sound_example :
    (w : World OneShot) × (run one_shot day fresh_world ≡ some w)
    × Sound one_shot one_shot_laws w.valve_settle
run-Sound_example = run-Sound one_shot one_shot_laws day fresh_world (refl, refl)

cancel-arm_restarts_example :
    (s1 : Settle OneShot) × (s2 : Settle OneShot) × (h : OneShot) × (arm_valve_settle_timer one_shot
        output
        (claimed one_shot one_shot_laws none false [])
      ≡ some s1)
    × (s1.timer ≡ some h)
    × (cancel_valve_settle_timer one_shot s1 ≡ some s2)
    × (s2.timer ≡ some h)
    × (one_shot.is_active h ≡ true)
    × (arm_valve_settle_timer one_shot input (record s2 { is_settling = true }) ≡ none)
cancel-arm_restarts_example = cancel-arm_restarts one_shot one_shot_laws output input []

abbrev two_lines : List ℕ
two_lines = codes "ping" ++ 10 ∷ codes "sto"

split_buffer-conserves_example :
    let (line, s) = split_buffer two_lines initial in
    (line ≡ some (codes "ping")) × (delivered line ++ pending s ≡ two_lines)
split_buffer-conserves_example =
    split_buffer-conserves initial two_lines
      (refl, (refl, (refl, (refl, (refl, (refl, (refl, (refl, tt)))))))) (λ e. refl) (omega arith)

-- A query for the address of ab.c.
abbrev query_head : List ℕ
query_head = 7 ∷ 9 ∷ 1 ∷ 0 ∷ 0 ∷ 1 ∷ 0 ∷ 0 ∷ 0 ∷ 0 ∷ 0 ∷ 0 ∷ []

abbrev name : List (List ℕ)
name = codes "ab" ∷ codes "c" ∷ []

abbrev query : List ℕ
query = query_head ++ encode name (0 ∷ 1 ∷ 0 ∷ 1 ∷ [])

abbrev buffer : List ℕ
buffer = replicate 64 0

build_dns_response-encode_example :
    let (response, count) = build_dns_response query buffer 0x0104_A8C0 in
    (take count response ≡ reply_header query ++ encode name (reply_answer 0x0104_A8C0))
    × (extract_domain_name (take count response) 32 ≡ extract_domain_name query 32)
build_dns_response-encode_example =
    build_dns_response-encode query_head name (0 ∷ 1 ∷ 0 ∷ 1 ∷ []) buffer 0x0104_A8C0 32 refl
      (omega arith, (omega arith, tt)) (omega arith) (omega arith) (omega arith)

abbrev tick_event : Event
tick_event = record {
  timestamp_us = 0;
  event_type = tick_end;
  thread_id = 2;
  payload_id = 3;
  payload_value = 40;
}

dump-after_example :
    dump (Dump.after (recorded 90 tick_event ∷ recorded 10 tick_event ∷ cleared ∷ []))
    ≡ codes "=== BLACK BOX ("
      ++ codes "2"
      ++ codes " events, newest first) ==="
      ++ 10 ∷ []
      ++ (codes "[90] t2 type=5 id=3 val=40"
          ++ 10 ∷ []
          ++ (codes "[10] t2 type=5 id=3 val=40" ++ 10 ∷ [] ++ []))
unfolding fmt_uint event_line fmt_loop
dump-after_example =
    dump-after (recorded 90 tick_event ∷ recorded 10 tick_event ∷ cleared ∷ []) (omega arith)
