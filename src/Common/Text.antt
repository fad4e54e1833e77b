-- ===== src/Common/Text.antt =====
-- Texts as lists of bytes, and decimal numbers in them.
use esp32_rs_on_idf.Common.{
  ℕ, zero, suc, ◌+◌, ◌-◌, ◌*◌, ◌/◌, ◌%◌, ltb, if◌then◌else◌, List, [], ◌∷◌, leb, ◌==◌, Bool, true,
  false, ◌&&◌, ◌≤◌, length, arith,
}
use Prim.Native.Char.{code}
use Prim.Native.String.{String}

-- The bytes of an ASCII literal.
abbrev pub codes : String → List ℕ
codes String.[] = []
codes (String.◌∷◌ c s) = code c ∷ codes s

abbrev pub is_digit : ℕ → Bool
is_digit c = leb 48 c && leb c 57

-- The number that decimal digits go on with, after digits of value `acc`.
abbrev pub decimal : ℕ → List ℕ → ℕ
decimal acc [] = acc
decimal acc (c ∷ cs) = decimal (acc * 10 + (c - 48)) cs

-- `strcmp`, on texts without a NUL.
abbrev pub same_text : List ℕ → List ℕ → Bool
same_text [] [] = true
same_text [] (b ∷ bs) = false
same_text (a ∷ as') [] = false
same_text (a ∷ as') (b ∷ bs) = (a == b) && same_text as' bs

abbrev pub starts_with : List ℕ → List ℕ → Bool
starts_with [] text = true
starts_with (a ∷ start) [] = false
starts_with (a ∷ start) (b ∷ text) = (a == b) && starts_with start text

-- The decimal digits of a number, of at most `room` digits, before a text.
abbrev pub put_decimal : ℕ → ℕ → List ℕ → List ℕ
put_decimal zero n text = text
put_decimal (suc room) n text =
    let before = put_decimal room (n / 10) ((48 + n % 10) ∷ text) in
    if ltb n 10 then (48 + n) ∷ text else before

-- `%llu` of a 64-bit number.
abbrev pub u64_text : ℕ → List ℕ
u64_text n = put_decimal 20 n []

pub length-put_decimal_le :
    (room n : ℕ) (text : List ℕ) → length (put_decimal room n text) ≤ room + length text
length-put_decimal_le zero n text = omega arith
length-put_decimal_le (suc room) n text =
    let ih = length-put_decimal_le room (n / 10) ((48 + n % 10) ∷ text) in ground arith
