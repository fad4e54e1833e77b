-- ===== src/Application/Dispatch/Busy.antt =====
-- What a command does while the burette is not idle.
use esp32_rs_on_idf.Common.{
  ℕ, ◌≡◌, refl, ap, ◌∙◌, Bool, true, false, Option, none, some, List, [], ◌∷◌, arith,
}
use esp32_rs_on_idf.Common.Float.{FloatOps}
use esp32_rs_on_idf.Domain.Types.{ValvePosition, is_idle}
use esp32_rs_on_idf.Domain.Calibration.{CalibrationData}
use esp32_rs_on_idf.Drivers.Valve.{TimerApi}
use esp32_rs_on_idf.Storage.Nvs.{NvsApi}
use esp32_rs_on_idf.Motor.Task.{MotorCommand}
use esp32_rs_on_idf.Application.BuretteOps.{Globals, Response, error_response, ack_then}
use esp32_rs_on_idf.Application.BuretteOps.Claims.{is_refusal, handle_busy}
use esp32_rs_on_idf.Application.Sensors.{handle_stall_guard_get, handle_stall_guard_set_threshold}
use esp32_rs_on_idf.Application.ValveOps
use esp32_rs_on_idf.Application.ValveOps.{handle_set_position}
use esp32_rs_on_idf.Application.CommandTypes.{Command}
use esp32_rs_on_idf.Application.World.{World, Env, Reply, burette_reply, valve_reply, valve_world}
use esp32_rs_on_idf.Application.Dispatch.{
  Call, emergency_stop, status, cal_result, stall_guard_get, valve_state, formatted_logs, read_log,
  firmware_version, ping, burette, cal, adc, temperature, stall_guard_threshold, valve_position,
  route, run_cal, run_adc, run, dispatch,
}

-- The queued commands that move the motor or change how it moves.
abbrev pub motion : {F : Type 0} → List (MotorCommand F) → List (MotorCommand F)
motion [] = []
motion (MotorCommand.read_tmc_register reg ∷ queue) = motion queue
motion (MotorCommand.set_stall_threshold t ∷ queue) = motion queue
motion (cmd ∷ queue) = cmd ∷ motion queue

-- The burette and the motion commands that wait for the motor are as they were.
pub record SameBurette {F : Type 0} (g n : Globals F) : Type 0 where
  pub same_state : n.burette_state ≡ g.burette_state
  pub same_flag : n.stop_full ≡ g.stop_full
  pub same_direction : n.direction ≡ g.direction
  pub same_speed : n.speed ≡ g.speed
  pub same_accel : n.accel ≡ g.accel
  pub same_settling : n.valve_is_settling ≡ g.valve_is_settling
  pub same_motion : motion n.queue ≡ motion g.queue

-- So are the valve and its timer.
pub record Untouched {S T F : Type 0} (w n : World S T F) : Type 0 where
  pub same_burette : SameBurette w.globals n.globals
  pub same_valve : n.valve ≡ w.valve
  pub same_timer : n.timer ≡ w.timer

-- `ResponseKind::AckThen`: a result of the motor task follows.
abbrev pub is_ack : {F D : Type 0} → Reply F D → Bool
is_ack (burette_reply ack_then) = true
is_ack _ = false

refusal-is_ack :
    (F D : Type 0) (r : Response)
    → is_refusal r ≡ true
    → is_ack {F = F} {D = D} (burette_reply r) ≡ false
refusal-is_ack F D (error_response why) h = refl
refusal-is_ack F D r h = cc

-- A run that is answered, and leaves the burette alone.
pub record Answers {S T F D : Type 0} (w : World S T F) (x : Option (World S T F × Reply F D))
    : Type 0 where
  pub after : World S T F
  pub reply : Reply F D
  pub answered : x ≡ some (after, reply)
  pub untouched : Untouched w after
  pub no_ack : is_ack reply ≡ false

abbrev pub calls_emergency_stop : {F : Type 0} → Call F → Bool
calls_emergency_stop emergency_stop = true
calls_emergency_stop _ = false

module _ {F : Type 0} where
  same_globals : (g n : Globals F) → n ≡ g → SameBurette g n
  same_globals g n e = record {
    same_state = ap (λ x. x.burette_state) e;
    same_flag = ap (λ x. x.stop_full) e;
    same_direction = ap (λ x. x.direction) e;
    same_speed = ap (λ x. x.speed) e;
    same_accel = ap (λ x. x.accel) e;
    same_settling = ap (λ x. x.valve_is_settling) e;
    same_motion = ap (λ x. motion x.queue) e;
  }

  same_but_cache :
      (g : Globals F) (cache : Option (CalibrationData F))
      → SameBurette g (record g { cal_cache = cache })
  same_but_cache g cache = record {
    same_state = refl;
    same_flag = refl;
    same_direction = refl;
    same_speed = refl;
    same_accel = refl;
    same_settling = refl;
    same_motion = refl;
  }

  handle_stall_guard_get-SameBurette :
      (controller accepts accepts_next : Bool) (g : Globals F)
      → SameBurette g (handle_stall_guard_get controller accepts accepts_next g).0
  unfolding handle_stall_guard_get
  handle_stall_guard_get-SameBurette controller accepts accepts_next g = ground arith

  handle_stall_guard_set_threshold-SameBurette :
      {S H : Type 0} (api : NvsApi S H) (accepts : Bool) (t : Option ℕ) (g : Globals F) (old : ℕ)
      (s : S)
      → SameBurette g (handle_stall_guard_set_threshold api accepts t g old s).0.0
  unfolding handle_stall_guard_set_threshold
  handle_stall_guard_set_threshold-SameBurette api accepts none g old s = same_globals g g refl
  handle_stall_guard_set_threshold-SameBurette api accepts (some t) g old s = ground arith

  pub all_same : {S T : Type 0} (w : World S T F) → Untouched w w
  all_same w = record {
    same_burette = same_globals w.globals w.globals refl;
    same_valve = refl;
    same_timer = refl;
  }

  pub Untouched-trans :
      {S T : Type 0} {w n k : World S T F} → Untouched w n → Untouched n k → Untouched w k
  Untouched-trans a b = record {
    same_burette = record {
      same_state = b.same_burette.same_state ∙ a.same_burette.same_state;
      same_flag = b.same_burette.same_flag ∙ a.same_burette.same_flag;
      same_direction = b.same_burette.same_direction ∙ a.same_burette.same_direction;
      same_speed = b.same_burette.same_speed ∙ a.same_burette.same_speed;
      same_accel = b.same_burette.same_accel ∙ a.same_burette.same_accel;
      same_settling = b.same_burette.same_settling ∙ a.same_burette.same_settling;
      same_motion = b.same_burette.same_motion ∙ a.same_burette.same_motion;
    };
    same_valve = b.same_valve ∙ a.same_valve;
    same_timer = b.same_timer ∙ a.same_timer;
  }

  world-Answers :
      {S T D : Type 0} (w : World S T F) (r : Reply F D)
      → is_ack r ≡ false
      → Answers w (some (w, r))
  world-Answers w r h = record {
    after = w;
    reply = r;
    answered = refl;
    untouched = all_same w;
    no_ack = h;
  }

  globals-Answers :
      {S T D : Type 0} (w n : World S T F) (r : Reply F D)
      → n.valve ≡ w.valve
      → n.timer ≡ w.timer
      → SameBurette w.globals n.globals
      → is_ack r ≡ false
      → Answers w (some (n, r))
  globals-Answers w n r v t same h = record {
    after = n;
    reply = r;
    answered = refl;
    untouched = record { same_burette = same; same_valve = v; same_timer = t };
    no_ack = h;
  }

  handle_set_position-busy :
      {S T : Type 0} (api : TimerApi T) (p : Option ValvePosition) (w : World S T F)
      → is_idle w.globals.burette_state ≡ false
      → (r : ValveOps.Response) × (handle_set_position api p (valve_world w)
          ≡ some (valve_world w, r))
  unfolding handle_set_position
  handle_set_position-busy api none w busy = (_, refl)
  handle_set_position-busy api (some p) w busy =
      (ValveOps.error_response ValveOps.burette_busy, ground arith)

module _ {S H T F D : Type 0} ⦃o : FloatOps F⦄ ⦃d : FloatOps D⦄ (e : Env S H T F D) where
  pub run_busy :
      (c : Call F) (w : World S T F)
      → is_idle w.globals.burette_state ≡ false
      → calls_emergency_stop c ≡ false
      → Answers w (run e c w)
  unfolding run run_cal run_adc
  run_busy (burette request) w busy calm =
      globals-Answers w _ _ refl refl
        (same_globals w.globals _ (handle_busy e.accepts request w.globals busy).0)
        (refusal-is_ack F D _ (handle_busy e.accepts request w.globals busy).1)
  run_busy emergency_stop w busy calm = cc
  run_busy (cal request) w busy calm =
      globals-Answers w _ _ refl refl (same_but_cache w.globals _) refl
  run_busy cal_result w busy calm = world-Answers w _ refl
  run_busy (adc request) w busy calm =
      globals-Answers w _ _ refl refl (same_but_cache w.globals _) refl
  run_busy (temperature t) w busy calm = world-Answers w _ refl
  run_busy stall_guard_get w busy calm =
      globals-Answers w _ _ refl refl
        (handle_stall_guard_get-SameBurette _ e.accepts e.accepts_next w.globals) refl
  run_busy (stall_guard_threshold t) w busy calm =
      globals-Answers w _ _ refl refl
        (handle_stall_guard_set_threshold-SameBurette e.nvs e.accepts t w.globals _ w.flash) refl
  run_busy (valve_position p) w busy calm =
      let (r, same) = handle_set_position-busy e.timers p w busy in
      record {
        after = w;
        reply = valve_reply r;
        answered = rw same refl;
        untouched = all_same w;
        no_ack = refl;
      }
  run_busy valve_state w busy calm = world-Answers w _ refl
  run_busy status w busy calm = world-Answers w _ refl
  run_busy formatted_logs w busy calm = world-Answers w _ refl
  run_busy read_log w busy calm = world-Answers w _ refl
  run_busy firmware_version w busy calm = world-Answers w _ refl
  run_busy ping w busy calm = world-Answers w _ refl

  -- While the burette is not idle every command but the emergency stop is answered under its id,
  -- without a restart of the device, and leaves the burette, the valve with its timer and the motion
  -- commands in the motor's queue as they were.
  pub dispatch_busy :
      (cmd : Command F) (w : World S T F)
      → is_idle w.globals.burette_state ≡ false
      → calls_emergency_stop (route cmd) ≡ false
      → (a : Answers w (run e (route cmd) w)) × (dispatch e cmd w
          ≡ some (a.after, (cmd.id, a.reply)))
  unfolding dispatch
  dispatch_busy cmd w busy calm =
      let a = run_busy (route cmd) w busy calm in (a, rw a.answered refl)
