-- ===== src/Application/Scheduler/Intervals.antt =====
-- How many broadcasts a main loop that ticks and asks makes.
use esp32_rs_on_idf.Common.{
  ℕ, zero, suc, ◌+◌, ◌/◌, ◌<◌, ◌≡◌, ◌∙◌, inl, inr, if◌then◌else◌, leb, Bool-cases, u32, sub32,
  arith,
}
use esp32_rs_on_idf.Application.Scheduler.{
  TickScheduler, broadcast_interval, next_tick, should_broadcast,
}

-- Some rounds of the main loop, with the number of those that broadcast.
unfoldable pub broadcasts : ℕ → ℕ → TickScheduler → ℕ
broadcasts zero g_tick s = 0
broadcasts (suc rounds) g_tick s =
    let now = next_tick g_tick in
    let (s', due) = should_broadcast now s in (if due then 1 else 0) + broadcasts rounds now s'

broadcasts_since :
    (rounds g_tick last d : ℕ)
    → g_tick < 4_294_967_296
    → last < 4_294_967_296
    → sub32 g_tick last ≡ d
    → d < broadcast_interval
    → broadcasts rounds g_tick (record { last_broadcast_tick = last })
      ≡ (rounds + d) / broadcast_interval
unfolding broadcasts should_broadcast next_tick
broadcasts_since zero g_tick last d small old since few = omega arith
broadcasts_since (suc rounds) g_tick last d small old since few =
    let now = u32 (g_tick + 1) in
    let later : sub32 now last ≡ d + 1 = omega (arith, since) in
    elim (Bool-cases (leb broadcast_interval (sub32 now last))) [
      | inl due ↦
          let full : d ≡ 29 = ground (arith, due, later, few) in
          let again : sub32 now now ≡ 0 = omega arith in
          rw due (
            omega (
              arith,
              full,
              broadcasts_since rounds now now 0 (omega arith) (omega arith) again (omega arith),
            ))
      | inr early ↦
          let more : d + 1 < 30 = ground (arith, early, later) in
          rw early
            (omega (arith, broadcasts_since rounds now last (d + 1) (omega arith) old later more))
    ]

-- A main loop that ticks once a round and asks for a broadcast makes exactly one in every 30 rounds,
-- from every value of the tick counter at the last broadcast, also where the counter wraps.
pub broadcasts_per_round :
    (rounds g_tick : ℕ)
    → g_tick < 4_294_967_296
    → broadcasts rounds g_tick (record { last_broadcast_tick = g_tick })
      ≡ rounds / broadcast_interval
broadcasts_per_round rounds g_tick small =
    let same : sub32 g_tick g_tick ≡ 0 = omega arith in
    let sum : (rounds + 0) / broadcast_interval ≡ rounds / broadcast_interval = omega arith in
    broadcasts_since rounds g_tick g_tick 0 small small same (omega arith) ∙ sum
