-- ===== src/Domain/Burette/Graph.antt =====
-- The diagram of the controller, as a relation, and what `transition` makes of it.
use esp32_rs_on_idf.Common.{◌≡◌, refl, ◌↔◌, ◌≢◌, arith}
use esp32_rs_on_idf.Domain.Types.{
  BuretteState, idle, filling, emptying, dosing, rinsing, stopping, error, BuretteCommand, fill,
  dose, empty, rinse, stop, emergency_stop, reset, StateError, ok, unexpected,
}
use esp32_rs_on_idf.Domain.Burette.{BuretteController, transition}

-- Which command is allowed in which state, and where it leads.
pub data Allowed : BuretteState → BuretteCommand → BuretteState → Type 0 where
  start_fill : Allowed idle fill filling
  start_dose : Allowed idle dose dosing
  start_empty : Allowed idle empty emptying
  start_rinse : Allowed idle rinse rinsing
  halt : {s : BuretteState} → s ≢ idle → Allowed s stop stopping
  halt_now : {s : BuretteState} → s ≢ idle → Allowed s emergency_stop stopping
  recover : Allowed error reset idle

ruleset starts = (start_fill, start_dose, start_empty, start_rinse, recover, halt, halt_now)

-- A command succeeds exactly along an edge of the diagram, and ends where the edge ends.
pub transition-Allowed :
    (c : BuretteController) (cmd : BuretteCommand) (t : BuretteState)
    → (transition c cmd ≡ (record { state = t }, ok tt)) ↔ Allowed c.state cmd t
unfolding transition
transition-Allowed c cmd t = (to c.state cmd t, from)
  where
    to :
        (s : BuretteState) (cmd : BuretteCommand) (t : BuretteState)
        → transition (record { state = s }) cmd ≡ (record { state = t }, ok tt)
        → Allowed s cmd t
    to s cmd t h = grind (arith, starts)

    from :
        {s : BuretteState} {cmd : BuretteCommand} {t : BuretteState}
        → Allowed s cmd t
        → transition (record { state = s }) cmd ≡ (record { state = t }, ok tt)
    from start_fill = refl
    from start_dose = refl
    from start_empty = refl
    from start_rinse = refl
    from (halt h) = ground arith
    from (halt_now h) = ground arith
    from recover = refl

-- A refused command leaves the controller as it was.
pub transition_refused :
    (c : BuretteController) (cmd : BuretteCommand) (e : StateError)
    → (transition c cmd).1 ≡ unexpected e
    → (transition c cmd).0 ≡ c
unfolding transition
transition_refused c cmd e h = ground arith
