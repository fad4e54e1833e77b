-- ===== src/Motor/Stepper/Position.antt =====
-- How far a move gets.
use esp32_rs_on_idf.Common.{
  ℕ, zero, suc, ◌+◌, ◌*◌, ◌≤◌, ◌<◌, ◌≡◌, refl, u32, Option, none, some, >>=-eq-some, List, [], ◌∷◌,
  map, take, drop, length, arith,
}
use esp32_rs_on_idf.Domain.Types.{StepperError, Result, ok, unexpected}
use esp32_rs_on_idf.Motor.Machine.{Symbol, Flag, Env, Machine, advance, poll}
use esp32_rs_on_idf.Motor.Stepper.{
  symbol, Outcome, emergency_stop, send_symbols, wait_done, count_chunk, finish_chunk, move_chunk,
  move_chunks, move_steps_intervals,
}

pub length-split {ℓ} :
    {A : Type ℓ} (n : ℕ) (xs : List A) → length (take n xs) + length (drop n xs) ≡ length xs
length-split zero xs = omega arith
length-split (suc n) [] = omega arith
length-split (suc n) (x ∷ xs) = omega (arith, length-split n xs)

-- Where something is left, the part taken is whole.
length-take_full {ℓ} :
    {A : Type ℓ} (n : ℕ) (xs : List A) → 0 < length (drop n xs) → length (take n xs) ≡ n
length-take_full zero xs h = refl
length-take_full (suc n) [] h = absurd (omega arith)
length-take_full (suc n) (x ∷ xs) h = omega (arith, length-take_full n xs h)

module _ {F : Type 0} where
  poll-position : (e : Env) (f : Option Flag) (m : Machine F) → (poll e f m).0.position ≡ m.position
  poll-position e none m = refl
  poll-position e (some f) m = refl

  send_symbols-position :
      (e : Env) (f : Option Flag) (retries : ℕ) (symbols : List Symbol) (m : Machine F)
      → (send_symbols e f retries symbols m).0.position ≡ m.position
  unfolding send_symbols emergency_stop
  send_symbols-position e f zero symbols m = ground (arith, poll-position e f m)
  send_symbols-position e f (suc retries) symbols m =
      let m1 = (poll e f m).0 in
      ground (arith, poll-position e f m, send_symbols-position e f retries symbols (advance e m1))

  wait_done-position :
      (e : Env) (f : Option Flag) (fuel : ℕ) (m : Machine F) (n : Outcome F)
      → wait_done e f fuel m ≡ some n
      → n.0.position ≡ m.position
  unfolding wait_done emergency_stop
  wait_done-position e f zero m n h = cc
  wait_done-position e f (suc fuel) m n h = ground (
    arith,
    poll-position e f (advance e m),
    wait_done-position e f fuel (poll e f (advance e m)).0 n,
  )

  -- A chunk counts in full or not at all.
  abbrev Counted : ℕ → Machine F → Outcome F → Type 0
  Counted k m (n, ok _) = n.position ≡ u32 (m.position + k)
  Counted k m (n, unexpected _) = n.position ≡ m.position

  finish_chunk-Counted :
      (e : Env) (f : Option Flag) (fuel : ℕ) (chunk : List ℕ) (m : Machine F)
      (r : Result (Unit {0}) StepperError) (n : Outcome F)
      → finish_chunk e f fuel chunk m r ≡ some n
      → Counted (length chunk) m n
  unfolding finish_chunk count_chunk
  finish_chunk-Counted e f fuel chunk m (unexpected err) n h = ground arith
  finish_chunk-Counted e f fuel chunk m (ok _) n h =
      let (o, e1, e2) = >>=-eq-some (wait_done e f fuel m) _ h in
      ground (arith, wait_done-position e f fuel m o e1, e2)

  move_chunk-Counted :
      (e : Env) (f : Option Flag) (fuel : ℕ) (chunk : List ℕ) (m : Machine F) (n : Outcome F)
      → move_chunk e f fuel chunk m ≡ some n
      → Counted (length chunk) m n
  unfolding move_chunk emergency_stop
  move_chunk-Counted e f fuel chunk m n h =
      let m1 = (poll e f m).0 in
      let (m2, r) = send_symbols e f 10 (map symbol chunk) m1 in
      ground (
        arith,
        poll-position e f m,
        send_symbols-position e f 10 (map symbol chunk) m1,
        finish_chunk-Counted e f fuel chunk m2 r n,
      )

  -- How much of a move the position has counted: all of it if the move succeeds, and whole chunks
  -- otherwise, fewer steps than were asked.
  abbrev pub Covers : ℕ → Machine F → Outcome F → Type 0
  Covers k m (n, ok _) = n.position ≡ u32 (m.position + k)
  Covers k m (n, unexpected _) = (j : ℕ) × (j * 128 < k) × (n.position ≡ u32 (m.position + j * 128))

  Covers-step :
      (c r : ℕ) (m o : Machine F) (n : Outcome F)
      → o.position ≡ u32 (m.position + c)
      → (0 < r → c ≡ 128)
      → Covers r o n
      → Covers (c + r) m n
  Covers-step c r m o (n, ok _) p full v = omega arith
  Covers-step c r m o (n, unexpected _) p full (j, less, q) =
      let e : c ≡ 128 = full (omega arith) in (j + 1, omega arith, omega arith)

  Counted-wide :
      (c : ℕ) (m : Machine F) (o : Outcome F)
      → o.1 ≡ ok tt
      → Counted c m o
      → o.0.position < 4_294_967_296
  Counted-wide c m (o, ok _) is_ok v = omega arith
  Counted-wide c m (o, unexpected _) is_ok v = cc

  next_chunks :
      (c r : ℕ) (m : Machine F) (o n : Outcome F) (rest : Option (Outcome F))
      → 0 < c
      → m.position < 4_294_967_296
      → Counted c m o
      → (0 < r → c ≡ 128)
      → (o.1 ≡ ok tt → rest ≡ some n → Covers r o.0 n)
      → ◌≡◌ {A = Option (Outcome F)}
          (elim o.1 [ unexpected err ↦ some (o.0, unexpected err) | ok _ ↦ rest ])
          (some n)
      → Covers (c + r) m n
  next_chunks c r m (o, ok tt) n rest pos wide v full later h =
      Covers-step c r m o n v full (later refl h)
  next_chunks c r m (o, unexpected err) (n, ok _) rest pos wide v full later h = cc
  next_chunks c r m (o, unexpected err) (n, unexpected _) rest pos wide v full later h =
      (0, omega arith, ground arith)

  move_chunks-Covers :
      (e : Env) (f : Option Flag) (fuel rounds : ℕ) (xs : List ℕ) (m : Machine F) (n : Outcome F)
      → length xs ≤ rounds
      → m.position < 4_294_967_296
      → move_chunks e f fuel rounds xs m ≡ some n
      → Covers (length xs) m n
  unfolding move_chunks
  move_chunks-Covers e f fuel zero [] m n fits wide h = ground arith
  move_chunks-Covers e f fuel zero (x ∷ xs) m n fits wide h = absurd (omega arith)
  move_chunks-Covers e f fuel (suc rounds) [] m n fits wide h = ground arith
  move_chunks-Covers e f fuel (suc rounds) (x ∷ xs) m n fits wide h =
      let chunk = take 128 (x ∷ xs) in
      let rest = drop 128 (x ∷ xs) in
      let (o, e1, e2) = >>=-eq-some (move_chunk e f fuel chunk m) _ h in
      let v = move_chunk-Counted e f fuel chunk m o e1 in
      rw (← length-split 128 (x ∷ xs)) (
        next_chunks (length chunk) (length rest) m o n _ (omega arith) wide v
          (length-take_full 128 (x ∷ xs))
          (λ is_ok g.
            move_chunks-Covers e f fuel rounds rest o.0 n (omega (arith, length-split 127 xs))
              (Counted-wide (length chunk) m o is_ok v) g)
          e2)

  -- A move that succeeds advances the position by its steps, modulo 2 ^ 32; one that fails advances
  -- it by the chunks of 128 that were completed, fewer steps than were asked.
  pub move_steps_intervals-Covers :
      (e : Env) (f : Option Flag) (fuel : ℕ) (xs : List ℕ) (m : Machine F) (n : Outcome F)
      → m.position < 4_294_967_296
      → move_steps_intervals e f fuel xs m ≡ some n
      → Covers (length xs) m n
  unfolding move_steps_intervals
  move_steps_intervals-Covers e f fuel xs m n wide h =
      move_chunks-Covers e f fuel (length xs) xs m n (omega arith) wide h
