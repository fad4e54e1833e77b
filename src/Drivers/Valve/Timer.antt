-- ===== src/Drivers/Valve/Timer.antt =====
-- The documented behaviour of `esp_timer`, and what follows for the settle timer.
use esp32_rs_on_idf.Common.{
  ℕ, ◌*◌, ◌≡◌, refl, sym, ◌∙◌, Bool, true, false, Option, none, some, List, [], All, Bool-cases,
  inl, inr,
}
use mathlib.Core.Path.{subst}
use esp32_rs_on_idf.Domain.Types.{ValvePosition}
use esp32_rs_on_idf.Motor.Motion.{valve_settle_ms}
use esp32_rs_on_idf.Motor.Machine.{esp_ok, esp_err_invalid_state}
use esp32_rs_on_idf.Drivers.Valve.{
  TimerApi, Settle, position_number, position_of_arg, settled_event, stop_timer, start_timer,
  valve_settle_callback, arm_valve_settle_timer, cancel_valve_settle_timer, expire_timer,
}

-- A timer is created idle and keeps the argument of its creation. It starts if it is idle, and is
-- refused if it runs. A stop leaves it idle; so does its expiry.
pub record TimerLaws {H : Type 0} (api : TimerApi H) : Type 0 where
  pub create_arg : (n : ℕ) → api.arg (api.create n) ≡ n
  pub create_idle : (n : ℕ) → api.is_active (api.create n) ≡ false
  pub start_idle : (us : ℕ) (h : H) → api.is_active h ≡ false → (api.start_once us h).1 ≡ esp_ok
  pub start_active :
      (us : ℕ) (h : H) → api.is_active h ≡ true → (api.start_once us h).1 ≡ esp_err_invalid_state
  pub started :
      (us : ℕ) (h : H)
      → (api.start_once us h).1 ≡ esp_ok
      → api.is_active (api.start_once us h).0 ≡ true
  pub start_arg : (us : ℕ) (h : H) → api.arg (api.start_once us h).0 ≡ api.arg h
  pub stop_active : (h : H) → api.is_active h ≡ true → (api.stop h).1 ≡ esp_ok
  pub stop_idle : (h : H) → api.is_active h ≡ false → (api.stop h).1 ≡ esp_err_invalid_state
  pub stopped : (h : H) → api.is_active (api.stop h).0 ≡ false
  pub stop_arg : (h : H) → api.arg (api.stop h).0 ≡ api.arg h
  pub expired : (h : H) → api.is_active (api.expire h) ≡ false
  pub expire_arg : (h : H) → api.arg (api.expire h) ≡ api.arg h

module _ {H : Type 0} (api : TimerApi H) (laws : TimerLaws api) where
  -- The events for a callback argument.
  abbrev pub Reports : List (List ℕ) → ℕ → Type 0
  Reports events n = All (λ e. e ≡ settled_event (position_of_arg n)) events

  -- The timer runs while the valve settles, and every event reports the position it was created for.
  abbrev pub Runs : Option H → Bool → List (List ℕ) → Type 0
  Runs none settling events = (settling ≡ false) × (events ≡ [])
  Runs (some h) settling events = (api.is_active h ≡ settling) × Reports events (api.arg h)

  abbrev pub Sound : Settle H → Type 0
  Sound s = Runs s.timer s.is_settling s.events

  pub start_timer-idle :
      (h : H)
      → api.is_active h ≡ false
      → start_timer api h ≡ some (api.start_once (valve_settle_ms * 1000) h).0
  start_timer-idle h idle = rw (laws.start_idle (valve_settle_ms * 1000) h idle) refl

  pub start_timer-active : (h : H) → api.is_active h ≡ true → start_timer api h ≡ none
  start_timer-active h active = rw (laws.start_active (valve_settle_ms * 1000) h active) refl

  -- The claim that the handler makes before it arms the timer.
  abbrev pub claimed : Option H → Bool → List (List ℕ) → Settle H
  claimed t armed events = record {
    timer = t;
    timer_armed = armed;
    is_settling = true;
    events = events;
  }

  restart :
      (h : H)
      → api.is_active h ≡ false
      → (h' : H) × (start_timer api h ≡ some h')
        × (api.arg h' ≡ api.arg h)
        × (api.is_active h' ≡ true)
  restart h idle =
      let us = valve_settle_ms * 1000 in
      (
        (api.start_once us h).0,
        start_timer-idle h idle,
        laws.start_arg us h,
        laws.started us h (laws.start_idle us h idle),
      )

  pub arm-Sound :
      (pos : ValvePosition) (t : Option H) (armed : Bool) (events : List (List ℕ))
      → Runs t false events
      → (s : Settle H) × (arm_valve_settle_timer api pos (claimed t armed events) ≡ some s)
        × Sound s
        × (s.is_settling ≡ true)
  unfolding arm_valve_settle_timer
  arm-Sound pos none armed events (quiet, empty) =
      let h = api.create (position_number pos) in
      let (h', e, arg, active) = restart h (laws.create_idle (position_number pos)) in
      (
        claimed (some h') armed events,
        rw e refl,
        (active, subst (λ es. Reports es (api.arg h')) (sym empty) tt),
        refl,
      )
  arm-Sound pos (some h) false events (idle, all) =
      let (h', e, arg, active) = restart h idle in
      (
        claimed (some h') true events,
        rw e refl,
        (active, subst (Reports events) (sym arg) all),
        refl,
      )
  arm-Sound pos (some h) true events (idle, all) =
      let stopped = (api.stop h).0 in
      let halted : stop_timer api h ≡ some stopped = rw (laws.stop_idle h idle) refl in
      let (h', e, arg, active) = restart stopped (laws.stopped h) in
      (
        claimed (some h') true events,
        rw halted (rw e refl),
        (active, subst (Reports events) (sym (arg ∙ laws.stop_arg h)) all),
        refl,
      )

  expire_timer_at :
      (t : Option H) (armed settling : Bool) (events : List (List ℕ))
      → Runs t settling events
      → Sound (
          expire_timer api
            (record { timer = t; timer_armed = armed; is_settling = settling; events = events }))
  unfolding expire_timer valve_settle_callback
  expire_timer_at none armed settling events sound = sound
  expire_timer_at (some h) armed settling events (active, all) =
      elim (Bool-cases (api.is_active h)) [
        | inl on ↦
            rw on (laws.expired h, (refl, subst (Reports events) (sym (laws.expire_arg h)) all))
        | inr off ↦ rw off (active, all)
      ]

  pub expire_timer-Sound : (s : Settle H) → Sound s → Sound (expire_timer api s)
  expire_timer-Sound s sound = expire_timer_at s.timer s.timer_armed s.is_settling s.events sound

  -- The first arming, for a valve that was just told to move, succeeds and leaves the timer running,
  -- and so does a cancel before the expiry: it leaves the same timer, running, since the first arming
  -- has not set the flag that `cancelValveSettleTimer` looks at. The next arming is then refused:
  -- the device restarts.
  pub cancel-arm_restarts :
      (first next : ValvePosition) (events : List (List ℕ))
      → (s1 : Settle H) × (s2 : Settle H) × (h : H) × (arm_valve_settle_timer api first
            (claimed none false events)
          ≡ some s1)
        × (s1.timer ≡ some h)
        × (cancel_valve_settle_timer api s1 ≡ some s2)
        × (s2.timer ≡ some h)
        × (api.is_active h ≡ true)
        × (arm_valve_settle_timer api next (record s2 { is_settling = true }) ≡ none)
  unfolding arm_valve_settle_timer cancel_valve_settle_timer
  cancel-arm_restarts first next events =
      let (h, e, arg, active) =
        restart (api.create (position_number first)) (laws.create_idle (position_number first)) in
      (
        claimed (some h) false events,
        claimed (some h) false events,
        h,
        rw e refl,
        refl,
        refl,
        refl,
        active,
        rw (start_timer-active h active) refl,
      )
