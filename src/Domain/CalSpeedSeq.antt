-- ===== src/Domain/CalSpeedSeq.antt =====
-- `CalSpeedSeqSm` of components/domain/include/domain/cal_speed_sm.hpp: three measurements in a row.
-- A write to `results` out of bounds, undefined in the source, changes nothing here.
pub mod Counts
use esp32_rs_on_idf.Common.{
  ℕ, ◌+◌, Bool, true, false, not, if◌then◌else◌, ltb, leb, sub32, List, [], ◌∷◌, set,
}
use esp32_rs_on_idf.Common.Float.{FloatOps, lit}
use esp32_rs_on_idf.Domain.CalSpeed.{
  CalSpeedAction, fill_to_limit, empty_to_limit, complete, error, settle_valve, speed_over,
}

pub data Phase : Type 0 where
  idle fill_first valve_settle_after_fill empty valve_settle_after_empty next_point done : Phase

pub record CalSpeedSeqSm (F : Type 0) : Type 0 where
  pub phase : Phase
  pub freqs : List ℕ
  pub results : List F
  pub seq_idx : ℕ
  pub elapsed_ms : ℕ
  pub valve_settle_start_ms : ℕ
  pub first_ever : Bool
  pub started : Bool

abbrev pub valve_switch_ms : ℕ
valve_switch_ms = 1000

abbrev pub cal_seq_points : ℕ
cal_seq_points = 3

module _ {F : Type 0} ⦃o : FloatOps F⦄ where
  -- `start` overwrites every field; `freqs` has three entries.
  unfoldable pub start : List ℕ → CalSpeedSeqSm F
  start freqs_in = record {
    phase = fill_first;
    freqs = freqs_in;
    results = lit 0 0 ∷ lit 0 0 ∷ lit 0 0 ∷ [];
    seq_idx = 0;
    elapsed_ms = 0;
    valve_settle_start_ms = 0;
    first_ever = true;
    started = true;
  }

  abbrev measured : CalSpeedSeqSm F → ℕ → F
  measured s now_ms =
      let diff = sub32 now_ms s.elapsed_ms in
      if ltb 0 diff then speed_over (lit 50 0) diff else lit 0 0

  -- The `switch` of `onTick`.
  dispatch : Phase → CalSpeedSeqSm F → ℕ → CalSpeedSeqSm F × CalSpeedAction
  dispatch idle s now_ms = (s, complete)
  dispatch fill_first s now_ms =
      (record s { phase = valve_settle_after_fill; valve_settle_start_ms = now_ms }, settle_valve)
  dispatch valve_settle_after_fill s now_ms =
      if leb valve_switch_ms (sub32 now_ms s.valve_settle_start_ms)
      then (record s { phase = empty; elapsed_ms = now_ms }, empty_to_limit)
      else (s, settle_valve)
  dispatch empty s now_ms =
      let s' = record s {
        results = set s.results s.seq_idx (measured s now_ms);
        seq_idx = s.seq_idx + 1;
      } in
      if leb cal_seq_points s'.seq_idx
      then (record s' { phase = done; started = false }, complete)
      else (
        record s' { phase = valve_settle_after_empty; valve_settle_start_ms = now_ms },
        settle_valve,
      )
  dispatch valve_settle_after_empty s now_ms =
      if leb valve_switch_ms (sub32 now_ms s.valve_settle_start_ms)
      then (record s { phase = fill_first }, fill_to_limit)
      else (s, settle_valve)
  dispatch next_point s now_ms = (s, complete)
  dispatch done s now_ms = (s, complete)

  unfoldable pub on_tick : CalSpeedSeqSm F → ℕ → CalSpeedSeqSm F × CalSpeedAction
  unfolding dispatch
  on_tick s now_ms = if not s.started then (s, error) else dispatch s.phase s now_ms

  -- The ticks at the given times, with what each asked for.
  unfoldable pub run : CalSpeedSeqSm F → List ℕ → CalSpeedSeqSm F × List CalSpeedAction
  run s [] = (s, [])
  run s (now_ms ∷ later) =
      let (s', a) = on_tick s now_ms in let (t, actions) = run s' later in (t, a ∷ actions)

abbrev pub is_complete : {F : Type 0} → CalSpeedSeqSm F → Bool
is_complete s = elim s.phase [ done ↦ true | _ ↦ false ]
