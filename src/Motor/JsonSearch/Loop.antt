-- ===== src/Motor/JsonSearch/Loop.antt =====
-- The search is the loop of the source: no result comes from a lack of fuel.
use esp32_rs_on_idf.Common.{
  ℕ, zero, suc, ◌+◌, ◌≤◌, ◌<◌, ◌≡◌, refl, sym, ap, ◌∙◌, inl, inr, true, ◌||◌, ltb, ◌==◌, Bool-cases,
  Option-cases, Option, none, some, List, [], ◌∷◌, ◌++◌, length, drop, else_is, ltb→lt, arith,
}
use mathlib.Core.Path.{fun_ext}
use esp32_rs_on_idf.Common.Int.{ℤ}
use esp32_rs_on_idf.Common.Text.{starts_with, codes, is_digit}
use esp32_rs_on_idf.Motor.JsonSearch.{
  Round, found, give_up, again, quote, colon, after_quote, skip_space, at_colon, key_round, round,
  search, follow, find_value, find_json_string, find_json_int, find_json_float, find_json_bool,
  strtol, strtol_negative, before_quote, read_string, read_unsigned, read_int, read_float,
  read_bool,
}

-- What is left to search is in the text.
abbrev pub Leaves {ℓ} : {A : Type ℓ} → Round A → ℕ → Type 0
Leaves (found a) n = Unit {0}
Leaves give_up n = Unit {0}
Leaves (again rest) n = length rest < n

abbrev pub Reads {ℓ} : {A : Type ℓ} → (List ℕ → Round A) → Type 0
Reads read = (p : List ℕ) → Leaves (read p) (length p + 1)

length-skip_space : (p : List ℕ) → length (skip_space p) ≤ length p
length-skip_space [] = omega arith
length-skip_space (c ∷ p) = elim (Bool-cases ((c == 32) || (c == 9) || (c == 10))) [
  | inl h ↦ rw h (omega (arith, length-skip_space p))
  | inr h ↦ rw h (omega arith)
]

length-drop_le : (n : ℕ) (p : List ℕ) → length (drop n p) ≤ length p
length-drop_le zero p = omega arith
length-drop_le (suc n) [] = omega arith
length-drop_le (suc n) (c ∷ p) = omega (arith, length-drop_le n p)

length-after_quote : (text p : List ℕ) → after_quote text ≡ some p → length p < length text
length-after_quote [] p e = cc
length-after_quote (c ∷ text) p e = elim (Bool-cases (c == quote)) [
  | inl h ↦ ground (arith, h, e)
  | inr h ↦
      let rest = else_is (c == quote) (some text) (after_quote text) h in
      omega (arith, length-after_quote text p (sym rest ∙ e))
]

module _ {ℓ} {A : Type ℓ} where
  Leaves-le : (r : Round A) (m n : ℕ) → m ≤ n → Leaves r m → Leaves r n
  Leaves-le (found a) m n h l = tt
  Leaves-le give_up m n h l = tt
  Leaves-le (again rest) m n h l = omega arith

  at_colon-Leaves :
      (read : List ℕ → Round A) (p : List ℕ) → Reads read → Leaves (at_colon read p) (length p + 1)
  unfolding at_colon
  at_colon-Leaves read [] reads = omega arith
  at_colon-Leaves read (c ∷ p) reads = elim (Bool-cases (c == colon)) [
    | inl h ↦ rw h (
        Leaves-le (read (skip_space p)) (length (skip_space p) + 1) (suc (length p) + 1)
          (omega (arith, length-skip_space p)) (reads (skip_space p)))
    | inr h ↦ rw h (omega arith)
  ]

  key_round-Leaves :
      (key : List ℕ) (read : List ℕ → Round A) (p : List ℕ)
      → Reads read
      → Leaves (key_round key read p) (length p + 1)
  unfolding key_round
  key_round-Leaves key read p reads = elim (Bool-cases (ltb (length p) (length key + 2))) [
    | inl short ↦ rw short tt
    | inr long ↦ elim (Bool-cases (starts_with (key ++ quote ∷ []) p)) [
      | inl h ↦
          let q = drop (length key + 1) p in
          rw long (
            rw h (
              Leaves-le (at_colon read (skip_space q)) (length (skip_space q) + 1) (length p + 1)
                (omega (arith, length-skip_space q, length-drop_le (length key + 1) p))
                (at_colon-Leaves read (skip_space q) reads)))
      | inr h ↦ rw long (rw h (omega arith))
    ]
  ]

  -- A round that goes on drops a byte.
  round-Leaves :
      (key : List ℕ) (read : List ℕ → Round A) (text : List ℕ)
      → Reads read
      → Leaves (round key read text) (length text)
  unfolding round
  round-Leaves key read text reads = elim (Option-cases (after_quote text)) [
    | inl none_left ↦ rw (none_left, round) tt
    | inr (p, e) ↦
        rw (e, round)
          (Leaves-le (key_round key read p) (length p + 1) (length text)
            (omega (arith, length-after_quote text p e)) (key_round-Leaves key read p reads))
  ]

  follow_ext :
      (r : Round A) (n : ℕ) (f g : List ℕ → Option A)
      → Leaves r n
      → ((rest : List ℕ) → length rest < n → f rest ≡ g rest)
      → follow r f ≡ follow r g
  follow_ext (found a) n f g l h = refl
  follow_ext give_up n f g l h = refl
  follow_ext (again rest) n f g l h = h rest l

  search_enough :
      (fuel fuel' : ℕ) (key : List ℕ) (read : List ℕ → Round A) (text : List ℕ)
      → Reads read
      → length text < fuel
      → length text < fuel'
      → search fuel key read text ≡ search fuel' key read text
  unfolding search
  search_enough zero fuel' key read text reads h h' = absurd (omega arith)
  search_enough (suc fuel) zero key read text reads h h' = absurd (omega arith)
  search_enough (suc fuel) (suc fuel') key read text reads h h' =
      follow_ext (round key read text) (length text) (search fuel key read) (search fuel' key read)
        (round-Leaves key read text reads)
        (λ rest less. search_enough fuel fuel' key read rest reads (omega arith) (omega arith))

  -- The `while`, without fuel.
  pub find_value-loop :
      (key : List ℕ) (read : List ℕ → Round A) (text : List ℕ)
      → Reads read
      → find_value read text key ≡ follow (round key read text) (λ rest. find_value read rest key)
  unfolding find_value search
  find_value-loop key read text reads =
      let e : length text + 1 ≡ suc (length text) = omega arith in
      ap (λ n. search n key read text) e
      ∙ follow_ext (round key read text) (length text) (search (length text) key read)
          (λ rest. find_value read rest key) (round-Leaves key read text reads)
          (λ rest less.
            search_enough (length text) (length rest + 1) key read rest reads (omega arith)
              (omega arith))

string_found :
    (p : List ℕ) (n : ℕ)
    → Leaves (elim (before_quote p) [ none ↦ give_up | some text ↦ found text ]) n
string_found p n = elim (Option-cases (before_quote p)) [
  | inl h ↦ rw h tt
  | inr (text, h) ↦ rw h tt
]

pub read_string-Reads : Reads read_string
unfolding read_string
read_string-Reads [] = omega arith
read_string-Reads (c ∷ p) = elim (Bool-cases (c == quote)) [
  | inl h ↦ rw h (string_found p (suc (length p) + 1))
  | inr h ↦ rw h (omega arith)
]

read_unsigned-Reads : (to_long : List ℕ → ℤ) → Reads (read_unsigned to_long)
unfolding read_unsigned
read_unsigned-Reads to_long [] = omega arith
read_unsigned-Reads to_long (c ∷ p) = elim (Bool-cases (is_digit c)) [
  | inl h ↦ rw h tt
  | inr h ↦ rw h (omega arith)
]

pub read_int-Reads : Reads read_int
unfolding read_int
read_int-Reads [] = omega arith
read_int-Reads (c ∷ p) = elim (Bool-cases (c == 45)) [
  | inl h ↦ rw h (
      Leaves-le (read_unsigned strtol_negative p) (length p + 1) (suc (length p) + 1) (omega arith)
        (read_unsigned-Reads strtol_negative p))
  | inr h ↦ rw h (read_unsigned-Reads strtol (c ∷ p))
]

read_float-Reads {ℓ} : {F : Type ℓ} (strtod : List ℕ → Option F) → Reads (read_float strtod)
unfolding read_float
read_float-Reads strtod [] = omega arith
read_float-Reads strtod (c ∷ p) = elim (Option-cases (strtod (c ∷ p))) [
  | inl h ↦ rw (h, read_float) (omega arith)
  | inr (val, h) ↦ rw (h, read_float) tt
]

read_bool-Reads : Reads read_bool
unfolding read_bool
read_bool-Reads p = elim (Bool-cases (starts_with (codes "true") p)) [
  | inl h ↦ rw h tt
  | inr h ↦ elim (Bool-cases (starts_with (codes "false") p)) [
    | inl h' ↦ rw h (rw h' tt)
    | inr h' ↦ rw h (rw h' (omega arith))
  ]
]

round_short {ℓ} :
    {A : Type ℓ} (key : List ℕ) (read : List ℕ → Round A) (text : List ℕ)
    → length text < length key + 3
    → round key read text ≡ give_up
unfolding round key_round
round_short key read text short = elim (Option-cases (after_quote text)) [
  | inl e ↦ rw (e, round) refl
  | inr (p, e) ↦
      let no_room : ltb (length p) (length key + 2) ≡ true =
        ground (arith, length-after_quote text p e) in
      rw (e, round) (rw no_room refl)
]

-- The first guard of `findJsonString` says what the loop finds anyway.
pub find_json_string_eq :
    (text key : List ℕ) → find_json_string text key ≡ find_value read_string text key
unfolding find_json_string
find_json_string_eq text key = elim (Bool-cases (ltb (length text) (length key + 3))) [
  | inl h ↦
      let nothing =
        find_value-loop key read_string text read_string-Reads
        ∙ ap (λ r. follow r (λ rest. find_value read_string rest key))
            (round_short key read_string text (ltb→lt _ _ h)) in
      rw h (sym nothing)
  | inr h ↦ else_is (ltb (length text) (length key + 3)) none (find_value read_string text key) h
]

-- The fuel of the four searches decides nothing: each is the `while` of the source, one round
-- followed by the search of the rest.
pub find_json-loop {ℓ} :
    {F : Type ℓ} (strtod : List ℕ → Option F) (text key : List ℕ)
    → (find_json_string text key
        ≡ follow (round key read_string text) (λ rest. find_json_string rest key))
      × (find_json_int text key ≡ follow (round key read_int text) (λ rest. find_json_int rest key))
      × (find_json_float strtod text key
          ≡ follow (round key (read_float strtod) text) (λ rest. find_json_float strtod rest key))
      × (find_json_bool text key
          ≡ follow (round key read_bool text) (λ rest. find_json_bool rest key))
unfolding find_json_int find_json_float find_json_bool
find_json-loop strtod text key = (
  find_json_string_eq text key
      ∙ find_value-loop key read_string text read_string-Reads
      ∙ ap (follow (round key read_string text))
          (fun_ext (λ rest. sym (find_json_string_eq rest key))),
  find_value-loop key read_int text read_int-Reads,
  find_value-loop key (read_float strtod) text (read_float-Reads strtod),
  find_value-loop key read_bool text read_bool-Reads,
)
