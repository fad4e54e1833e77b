-- ===== src/Application/ValveOps/Settling.antt =====
-- The valve over a sequence of requests and expiries of its timer.
use esp32_rs_on_idf.Common.{
  ◌≡◌, refl, ap, ◌∙◌, inl, inr, ◌⊎◌, true, false, not, Bool-cases, then_is, else_is, Option, none,
  some, ◌>>=◌, List, [], ◌∷◌,
}
use mathlib.Core.Path.{subst}
use esp32_rs_on_idf.Domain.Types.{ValvePosition, input, BuretteState, idle, is_idle}
use esp32_rs_on_idf.Drivers.Valve.{TimerApi, Settle, fresh_valve, set_position, expire_timer}
use esp32_rs_on_idf.Drivers.Valve.Timer.{TimerLaws, Runs, Sound, arm-Sound, expire_timer-Sound}
use esp32_rs_on_idf.Application.ValveOps.{
  invalid_params, burette_busy, Response, error_response, position_is, World, handle_set_position,
}

-- A request finds the burette in some state; the timer's time passes, if it runs.
pub data Step : Type 0 where
  requested : BuretteState → Option ValvePosition → Step
  passed : Step

module _ {H : Type 0} (api : TimerApi H) where
  unfoldable pub take_step : Step → World H → Option (World H)
  take_step (requested state pos) w =
      handle_set_position api pos (record w { burette_state = state }) >>= λ r. some r.0
  take_step passed w = some (record w { valve_settle = expire_timer api w.valve_settle })

  unfoldable pub run : List Step → World H → Option (World H)
  run [] w = some w
  run (s ∷ steps) w = take_step s w >>= run steps

-- The world when the program starts.
abbrev pub fresh_world : {H : Type 0} → World H
fresh_world = record {
  burette_state = idle;
  valve_position = input;
  valve = fresh_valve;
  valve_settle = record { timer = none; timer_armed = false; is_settling = false; events = [] };
}

module _ {H : Type 0} (api : TimerApi H) (laws : TimerLaws api) where
  -- What a request does: it is refused and changes nothing, or the valve moves and starts to settle.
  pub data Handled (pos : Option ValvePosition) (w : World H) : World H × Response → Type 0 where
    malformed : pos ≡ none → Handled pos w (w, error_response invalid_params)
    busy :
        (is_idle w.burette_state ≡ false) ⊎ (w.valve_settle.is_settling ≡ true)
        → Handled pos w (w, error_response burette_busy)
    moved :
        (p : ValvePosition) (s : Settle H)
        → pos ≡ some p
        → is_idle w.burette_state ≡ true
        → w.valve_settle.is_settling ≡ false
        → s.is_settling ≡ true
        → Handled pos w (
          record w { valve = set_position p w.valve; valve_position = p; valve_settle = s },
          position_is p,
        )

  -- A request, in a world in which the timer runs exactly while the valve settles: the device does
  -- not restart, that stays true, and the request is refused without a change or moves the valve, the
  -- latter only if it names a position, the burette is idle and the valve does not settle.
  pub handle_set_position-Handled :
      (pos : Option ValvePosition) (w : World H)
      → Sound api laws w.valve_settle
      → (r : World H × Response) × (handle_set_position api pos w ≡ some r)
        × Handled pos w r
        × Sound api laws r.0.valve_settle
  unfolding handle_set_position
  handle_set_position-Handled none w sound =
      ((w, error_response invalid_params), refl, malformed refl, sound)
  handle_set_position-Handled (some pos) w sound = elim (Bool-cases (is_idle w.burette_state)) [
    | inr not_idle ↦
        ((w, error_response burette_busy), rw not_idle refl, busy (inl not_idle), sound)
    | inl at_rest ↦ elim (Bool-cases w.valve_settle.is_settling) [
      | inl settling ↦ (
        (w, error_response burette_busy),
        else_is _ (some (w, error_response burette_busy)) _ (ap not at_rest)
            ∙ then_is w.valve_settle.is_settling _ _ settling,
        busy (inr settling),
        sound,
      )
      | inr calm ↦
          let t = w.valve_settle.timer in
          let events = w.valve_settle.events in
          let quiet = subst (λ b. Runs api laws t b events) calm sound in
          let (s, e, sound', on) =
            arm-Sound api laws pos t w.valve_settle.timer_armed events quiet in
          (
            (
              record w { valve = set_position pos w.valve; valve_position = pos; valve_settle = s },
              position_is pos,
            ),
            else_is _ (some (w, error_response burette_busy)) _ (ap not at_rest)
                ∙ else_is w.valve_settle.is_settling (some (w, error_response burette_busy)) _ calm
                ∙ ap
                    (λ r. r >>= λ valve_settle. some (
                      record w {
                        valve = set_position pos w.valve;
                        valve_position = pos;
                        valve_settle = valve_settle;
                      },
                      position_is pos,
                    ))
                    e,
            moved pos s refl at_rest calm on,
            sound',
          )
    ]
  ]

  -- From a world in which the timer runs exactly while the valve settles, such as the one at the
  -- start, no sequence of valve requests and expiries restarts the device, and afterwards this is still so;
  -- and all events that the timer sent report one position, that of the argument it was created with.
  pub run-Sound :
      (steps : List Step) (w : World H)
      → Sound api laws w.valve_settle
      → (w' : World H) × (run api steps w ≡ some w') × Sound api laws w'.valve_settle
  unfolding run take_step
  run-Sound [] w sound = (w, refl, sound)
  run-Sound (requested state pos ∷ steps) w sound =
      let (r, e, handled, sound') =
        handle_set_position-Handled pos (record w { burette_state = state }) sound in
      let (w', e', sound'') = run-Sound steps r.0 sound' in (w', rw e e', sound'')
  run-Sound (passed ∷ steps) w sound =
      run-Sound steps (record w { valve_settle = expire_timer api w.valve_settle })
        (expire_timer-Sound api laws w.valve_settle sound)
