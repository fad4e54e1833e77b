-- ===== src/Application/Scheduler.antt =====
-- components/application/src/scheduler.cpp: the broadcasts of the main loop.
pub mod Intervals
use esp32_rs_on_idf.Common.{ℕ, ◌+◌, Bool, true, false, if◌then◌else◌, leb, u32, sub32}

pub record TickScheduler : Type 0 where
  pub last_broadcast_tick : ℕ

abbrev pub broadcast_interval : ℕ
broadcast_interval = 30

-- The global `gTick`.
unfoldable pub next_tick : ℕ → ℕ
next_tick g_tick = u32 (g_tick + 1)

unfoldable pub should_broadcast : ℕ → TickScheduler → TickScheduler × Bool
should_broadcast g_tick s =
    if leb broadcast_interval (sub32 g_tick s.last_broadcast_tick)
    then (record { last_broadcast_tick = g_tick }, true)
    else (s, false)
