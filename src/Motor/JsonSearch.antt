-- ===== src/Motor/JsonSearch.antt =====
-- components/infrastructure/src/motor/motor_controller_impl.cpp: the search for a key in a JSON text.
-- A pointer `p` is the text from `p` to `end`, and the four functions, which differ in what they
-- read after the colon, share one search. The byte at `end` is no digit, so that `strtol` stops there.
pub mod Loop
pub mod Members
use esp32_rs_on_idf.Common.{
  ℕ, zero, suc, ◌+◌, Bool, true, false, ◌||◌, ◌&&◌, if◌then◌else◌, ltb, ◌==◌, Option, none, some,
  List, [], ◌∷◌, ◌++◌, length, drop,
}
use Prim.Native.Nat.{min}
use esp32_rs_on_idf.Common.Int.{ℤ, pos, sub_ℕ}
use esp32_rs_on_idf.Common.Text.{codes, is_digit, decimal, starts_with}

-- How a round of the search ends: with the value, with `return`, or with the rest to search.
pub data Round {ℓ} (A : Type ℓ) : Type ℓ where
  found : A → Round A
  give_up : Round A
  again : List ℕ → Round A

abbrev pub quote : ℕ
quote = 34

abbrev pub colon : ℕ
colon = 58

-- `memchr` for a quote, and the step over it.
abbrev pub after_quote : List ℕ → Option (List ℕ)
after_quote [] = none
after_quote (c ∷ p) = if c == quote then some p else after_quote p

abbrev pub skip_space : List ℕ → List ℕ
skip_space [] = []
skip_space (c ∷ p) = if (c == 32) || (c == 9) || (c == 10) then skip_space p else c ∷ p

module _ {ℓ} {A : Type ℓ} where
  -- Behind the key.
  unfoldable pub at_colon : (List ℕ → Round A) → List ℕ → Round A
  at_colon read [] = again []
  at_colon read (c ∷ p) = if c == colon then read (skip_space p) else again (c ∷ p)

  -- The last loop of a round, to the next quote, is part of the next `memchr`.
  unfoldable pub key_round : List ℕ → (List ℕ → Round A) → List ℕ → Round A
  key_round key read p =
      if ltb (length p) (length key + 2)
      then give_up
      else if starts_with (key ++ quote ∷ []) p
      then at_colon read (skip_space (drop (length key + 1) p))
      else again p

  unfoldable pub round : List ℕ → (List ℕ → Round A) → List ℕ → Round A
  round key read text = elim (after_quote text) [ none ↦ give_up | some p ↦ key_round key read p ]

  -- What follows a round.
  abbrev pub follow : Round A → (List ℕ → Option A) → Option A
  follow (found a) next = some a
  follow give_up next = none
  follow (again rest) next = next rest

  -- The `while`.
  unfoldable pub search : ℕ → List ℕ → (List ℕ → Round A) → List ℕ → Option A
  search zero key read text = none
  search (suc fuel) key read text = follow (round key read text) (search fuel key read)

-- The text before the next quote, if there is one.
abbrev pub before_quote : List ℕ → Option (List ℕ)
before_quote [] = none
before_quote (c ∷ p) =
    if c == quote
    then some []
    else elim (before_quote p) [ none ↦ none | some text ↦ some (c ∷ text) ]

unfoldable pub read_string : List ℕ → Round (List ℕ)
read_string [] = again []
read_string (c ∷ p) =
    if c == quote
    then elim (before_quote p) [ none ↦ give_up | some text ↦ found text ]
    else again (c ∷ p)

abbrev pub leading_digits : List ℕ → List ℕ
leading_digits [] = []
leading_digits (c ∷ p) = if is_digit c then c ∷ leading_digits p else []

-- `strtol` of digits, and of digits after a minus sign; a `long` has 32 bits and saturates.
abbrev pub strtol : List ℕ → ℤ
strtol p = pos (min (decimal 0 (leading_digits p)) 2_147_483_647)

abbrev pub strtol_negative : List ℕ → ℤ
strtol_negative p = sub_ℕ 0 (min (decimal 0 (leading_digits p)) 2_147_483_648)

unfoldable pub read_unsigned : (List ℕ → ℤ) → List ℕ → Round ℤ
read_unsigned to_long [] = again []
read_unsigned to_long (c ∷ p) = if is_digit c then found (to_long (c ∷ p)) else again (c ∷ p)

unfoldable pub read_int : List ℕ → Round ℤ
read_int [] = again []
read_int (c ∷ p) = if c == 45 then read_unsigned strtol_negative p else read_unsigned strtol (c ∷ p)

-- `strtod` of the C library is a parameter: the value, if it reads one.
unfoldable pub read_float {ℓ} : {F : Type ℓ} → (List ℕ → Option F) → List ℕ → Round F
read_float strtod [] = again []
read_float strtod (c ∷ p) = elim (strtod (c ∷ p)) [ none ↦ again (c ∷ p) | some val ↦ found val ]

unfoldable pub read_bool : List ℕ → Round Bool
read_bool p =
    if starts_with (codes "true") p
    then found true
    else if starts_with (codes "false") p
    then found false
    else again p

-- Each round drops a byte or more, which is why the fuel is enough.
unfoldable pub find_value {ℓ} : {A : Type ℓ} → (List ℕ → Round A) → List ℕ → List ℕ → Option A
find_value read text key = search (length text + 1) key read text

unfoldable pub find_json_string : List ℕ → List ℕ → Option (List ℕ)
find_json_string text key =
    if ltb (length text) (length key + 3) then none else find_value read_string text key

unfoldable pub find_json_int : List ℕ → List ℕ → Option ℤ
find_json_int = find_value read_int

unfoldable pub find_json_float {ℓ} : {F : Type ℓ} → (List ℕ → Option F) → List ℕ → List ℕ → Option F
find_json_float strtod = find_value (read_float strtod)

unfoldable pub find_json_bool : List ℕ → List ℕ → Option Bool
find_json_bool = find_value read_bool
