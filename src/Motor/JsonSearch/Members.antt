-- ===== src/Motor/JsonSearch/Members.antt =====
-- The search in a text of which the next quote is known.
use esp32_rs_on_idf.Common.{
  ℕ, ◌+◌, ◌≤◌, ◌≡◌, refl, ap, ◌∙◌, true, false, ltb, if◌then◌else◌, some, List, [], ◌∷◌, ◌++◌,
  length, drop, else_is, then_is, All, arith,
}
use esp32_rs_on_idf.Common.Text.{starts_with, is_digit}
use esp32_rs_on_idf.Motor.JsonSearch.{
  Round, found, again, quote, after_quote, skip_space, at_colon, key_round, round, follow,
  find_value, leading_digits,
}
use esp32_rs_on_idf.Motor.JsonSearch.Loop.{Reads, find_value-loop}

module _ {ℓ} {A : Type ℓ} (key : List ℕ) (read : List ℕ → Round A) (reads : Reads read) where
  round_here :
      (text p : List ℕ)
      → after_quote text ≡ some p
      → length key + 2 ≤ length p
      → round key read text ≡ (
          if starts_with (key ++ quote ∷ []) p
          then at_colon read (skip_space (drop (length key + 1) p))
          else again p)
  unfolding round key_round
  round_here text p e long =
      let room : ltb (length p) (length key + 2) ≡ false = ground arith in
      rw (e, round) (rw room refl)

  -- No key stands behind the next quote: the search goes on from there.
  pub find_skip :
      (text p : List ℕ)
      → after_quote text ≡ some p
      → length key + 2 ≤ length p
      → starts_with (key ++ quote ∷ []) p ≡ false
      → find_value read text key ≡ find_value read p key
  find_skip text p e long other =
      find_value-loop key read text reads
      ∙ ap (λ r. follow r (λ rest. find_value read rest key))
          (round_here text p e long ∙ else_is _ _ _ other)

  -- The key stands behind the next quote, with a value that can be read.
  pub find_hit :
      (text p : List ℕ) (a : A)
      → after_quote text ≡ some p
      → length key + 2 ≤ length p
      → starts_with (key ++ quote ∷ []) p ≡ true
      → at_colon read (skip_space (drop (length key + 1) p)) ≡ found a
      → find_value read text key ≡ some a
  find_hit text p a e long here value =
      find_value-loop key read text reads
      ∙ ap (λ r. follow r (λ rest. find_value read rest key))
          (round_here text p e long ∙ then_is _ _ _ here ∙ value)

-- Digits.
pub leading_digits-append :
    (ds rest : List ℕ) (c : ℕ)
    → All (λ d. is_digit d ≡ true) ds
    → is_digit c ≡ false
    → leading_digits (ds ++ c ∷ rest) ≡ ds
leading_digits-append [] rest c all end = rw end refl
leading_digits-append (d ∷ ds) rest c (here, all) end =
    rw here (ap (◌∷◌ d) (leading_digits-append ds rest c all end))
