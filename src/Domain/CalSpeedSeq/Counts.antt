-- ===== src/Domain/CalSpeedSeq/Counts.antt =====
-- How often a sequence fills, empties and measures.
use esp32_rs_on_idf.Common.{
  ℕ, suc, ◌+◌, ◌-◌, ◌*◌, sub32, ◌≤◌, ◌<◌, ◌≡◌, refl, Bool, true, false, List, [], ◌∷◌, length,
  length-set, arith,
}
use esp32_rs_on_idf.Common.Float.{FloatOps}
use esp32_rs_on_idf.Domain.CalSpeed.{CalSpeedAction, fill_to_limit, empty_to_limit}
use esp32_rs_on_idf.Domain.CalSpeedSeq.{
  Phase, fill_first, valve_settle_after_fill, empty, valve_settle_after_empty, done, CalSpeedSeqSm,
  measured, is_complete, start, on_tick, run, cal_seq_points, valve_switch_ms,
}

abbrev pub fills : List CalSpeedAction → ℕ
fills [] = 0
fills (fill_to_limit ∷ rest) = suc (fills rest)
fills (_ ∷ rest) = fills rest

abbrev pub empties : List CalSpeedAction → ℕ
empties [] = 0
empties (empty_to_limit ∷ rest) = suc (empties rest)
empties (_ ∷ rest) = empties rest

fills_cons :
    (a : CalSpeedAction) (rest : List CalSpeedAction)
    → fills (a ∷ rest) ≡ fills (a ∷ []) + fills rest
fills_cons fill_to_limit rest = omega arith
fills_cons _ rest = omega arith

empties_cons :
    (a : CalSpeedAction) (rest : List CalSpeedAction)
    → empties (a ∷ rest) ≡ empties (a ∷ []) + empties rest
empties_cons empty_to_limit rest = omega arith
empties_cons _ rest = omega arith

-- How many fills and empties have been asked for when the machine stands in a phase, and
-- whether a sequence stands there at all.
abbrev pub fills_by : Phase → ℕ → ℕ
fills_by done n = 2
fills_by valve_settle_after_empty n = n - 1
fills_by _ n = n

abbrev pub empties_by : Phase → ℕ → ℕ
empties_by empty n = suc n
empties_by _ n = n

abbrev IsRunning : Phase → ℕ → Bool → Type 0
IsRunning fill_first n b = (n < 3) × (b ≡ true)
IsRunning valve_settle_after_fill n b = (n < 3) × (b ≡ true)
IsRunning empty n b = (n < 3) × (b ≡ true)
IsRunning valve_settle_after_empty n b = (0 < n) × (n < 3) × (b ≡ true)
IsRunning done n b = (n ≡ 3) × (b ≡ false)
IsRunning _ n b = ⊥

pub record Inv {F : Type 0} (s : CalSpeedSeqSm F) : Type 0 where
  pub running : IsRunning s.phase s.seq_idx s.started
  pub room : length s.results ≡ 3

module _ {F : Type 0} ⦃o : FloatOps F⦄ where
  start-Inv : (freqs : List ℕ) → Inv (start {F = F} freqs)
  unfolding start
  start-Inv freqs = record { running = (omega arith, refl); room = refl }

  on_tick-Inv : (s : CalSpeedSeqSm F) (now : ℕ) → Inv s → Inv (on_tick s now).0
  unfolding on_tick
  on_tick-Inv s now v = ground (arith, length-set {0} s.results s.seq_idx (measured s now))

  on_tick-counts :
      (s : CalSpeedSeqSm F) (now : ℕ)
      → Inv s
      → let (t, a) = on_tick s now in
        (fills_by t.phase t.seq_idx ≡ fills_by s.phase s.seq_idx + fills (a ∷ []))
        × (empties_by t.phase t.seq_idx ≡ empties_by s.phase s.seq_idx + empties (a ∷ []))
  unfolding on_tick
  on_tick-counts s now v = ground arith

  run-counts :
      (s : CalSpeedSeqSm F) (times : List ℕ)
      → Inv s
      → let (t, actions) = run s times in
        Inv t
        × (fills_by t.phase t.seq_idx ≡ fills_by s.phase s.seq_idx + fills actions)
        × (empties_by t.phase t.seq_idx ≡ empties_by s.phase s.seq_idx + empties actions)
  unfolding run
  run-counts s [] v = (v, omega arith, omega arith)
  run-counts s (now ∷ later) v =
      let (kept, filled, emptied) = run-counts (on_tick s now).0 later (on_tick-Inv s now v) in
      let (f, e) = on_tick-counts s now v in
      (kept, grind (arith, fills_cons, f, filled), grind (arith, empties_cons, e, emptied))

  complete_counts :
      (t : CalSpeedSeqSm F)
      → Inv t
      → is_complete t ≡ true
      → (t.seq_idx ≡ 3) × (fills_by t.phase t.seq_idx ≡ 2) × (empties_by t.phase t.seq_idx ≡ 3)
  complete_counts t v c = ground arith

  -- However the ticks fall, there are three results, the index stays inside them until the sequence
  -- is done, and the empties asked for so far are those of the phase and the index.
  pub run-start-Inv :
      (freqs times : List ℕ)
      → let (t, actions) = run (start {F = F} freqs) times in
        Inv t × (empties actions ≡ empties_by t.phase t.seq_idx)
  unfolding start
  run-start-Inv freqs times =
      let (v, filled, emptied) = run-counts (start freqs) times (start-Inv freqs) in
      (v, omega (arith, emptied))

-- A sequence that is complete has written its three results, and has asked for three empties and
-- for two fills only: the first filling is never asked for.
pub run-start_counts :
    (F : Type 0) ⦃o : FloatOps F⦄ (freqs times : List ℕ)
    → is_complete (run (start {F = F} freqs) times).0 ≡ true
    → let (t, actions) = run (start {F = F} freqs) times in
      (t.seq_idx ≡ cal_seq_points) × (empties actions ≡ 3) × (fills actions ≡ 2)
unfolding start
run-start_counts F freqs times c =
    let (v, filled, emptied) = run-counts (start {F = F} freqs) times (start-Inv freqs) in
    omega (arith, filled, emptied, complete_counts (run (start {F = F} freqs) times).0 v c)

-- Ticks that stand at least a valve switch apart, the first after `prev`.
abbrev pub Spaced : ℕ → List ℕ → Type 0
Spaced prev [] = Unit {0}
Spaced prev (now ∷ later) = (valve_switch_ms ≤ sub32 now prev) × Spaced now later

-- How many spaced ticks a sequence still needs.
abbrev left : Phase → ℕ → ℕ
left fill_first n = 11 - 4 * n
left valve_settle_after_fill n = 10 - 4 * n
left empty n = 9 - 4 * n
left valve_settle_after_empty n = 12 - 4 * n
left _ n = 0

-- Where the valve settles, it does so since the last tick.
abbrev SettlesSince : {F : Type 0} → ℕ → CalSpeedSeqSm F → Phase → Type 0
SettlesSince prev s valve_settle_after_fill = s.valve_settle_start_ms ≡ prev
SettlesSince prev s valve_settle_after_empty = s.valve_settle_start_ms ≡ prev
SettlesSince prev s _ = Unit {0}

module _ {F : Type 0} ⦃o : FloatOps F⦄ where
  on_tick-left :
      (s : CalSpeedSeqSm F) (prev now : ℕ)
      → Inv s
      → SettlesSince prev s s.phase
      → valve_switch_ms ≤ sub32 now prev
      → let t = (on_tick s now).0 in
        (left t.phase t.seq_idx ≡ left s.phase s.seq_idx - 1) × SettlesSince now t t.phase
  unfolding on_tick
  on_tick-left s prev now v since gap = ground arith

  run_completes :
      (s : CalSpeedSeqSm F) (prev : ℕ) (times : List ℕ)
      → Inv s
      → SettlesSince prev s s.phase
      → Spaced prev times
      → left s.phase s.seq_idx ≤ length times
      → is_complete (run s times).0 ≡ true
  unfolding run
  run_completes s prev [] v since gaps h = ground arith
  run_completes s prev (now ∷ later) v since gaps h =
      let (less, since') = on_tick-left s prev now v since gaps.0 in
      run_completes (on_tick s now).0 now later (on_tick-Inv s now v) since' gaps.1
        (omega (arith, less))

-- Eleven ticks, or more, that stand at least a valve switch apart complete the sequence.
pub run-start_completes :
    (F : Type 0) ⦃o : FloatOps F⦄ (freqs times : List ℕ) (prev : ℕ)
    → Spaced prev times
    → 11 ≤ length times
    → is_complete (run (start {F = F} freqs) times).0 ≡ true
unfolding start
run-start_completes F freqs times prev gaps h =
    run_completes (start {F = F} freqs) prev times (start-Inv freqs) tt gaps h
