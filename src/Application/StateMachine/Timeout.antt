-- ===== src/Application/StateMachine/Timeout.antt =====
-- When a pending operation ends.
use esp32_rs_on_idf.Common.{
  ℕ, ◌+◌, ◌*◌, ◌≤◌, ◌<◌, ◌≡◌, ◌↔◌, ◌⊎◌, true, arith, u32, if◌then◌else◌, sub32-add,
}
use esp32_rs_on_idf.Application.StateMachine.{
  ApplicationStateMachine, tick, start_operation, is_ready, pending_watchdog_ms, finished,
}

-- An operation of `d` ticks that starts at any tick, also shortly before the counter wraps, is ended
-- by a call of `tick` `e` ticks later exactly if `e` has reached `d` or the watchdog, as long as `e`
-- ticks and their milliseconds fit 32 bits; the machine is then ready, and otherwise unchanged.
pub tick-start_operation :
    (m : ApplicationStateMachine) (period start d e : ℕ)
    → start < 4_294_967_296
    → e * period < 4_294_967_296
    → e < 4_294_967_296
    → let (m', done) = tick period (start_operation m start d) (u32 (start + e)) in
      ((done ≡ true) ↔ ((d ≤ e) ⊎ (pending_watchdog_ms ≤ e * period)))
      × (is_ready m' ≡ done)
      × (m' ≡ (if done then finished (start_operation m start d) else start_operation m start d))
unfolding tick start_operation
tick-start_operation m period start d e hs hp he = ground (arith, sub32-add start e hs he)
