-- ===== src/Interface/Serial/Lines.antt =====
-- What the splitting of the input into lines keeps of it.
use esp32_rs_on_idf.Common.{
  ℕ, zero, suc, ◌+◌, ◌≤◌, ◌<◌, ◌≡◌, refl, sym, ap, ◌∙◌, inl, inr, Bool, true, false, ltb, leb, ◌==◌,
  Bool-cases, Option-cases, Option, none, some, List, [], ◌∷◌, ◌++◌, length, drop, All,
  length-append, else_is, then_is, then_eq, else_eq, ==_iff, arith,
}
use mathlib.Core.List.{append_assoc, append-nil}
use mathlib.Core.Path.{subst}
use esp32_rs_on_idf.Interface.Serial.{
  SerialReader, max_cmd_size, compact, append_byte, append_data, in_front, before_newline, scan,
  split_buffer,
}

-- The bytes that wait for a newline, or for the next call.
abbrev pub pending : SerialReader → List ℕ
pending s = drop s.read_pos s.line_buf

abbrev pub delivered : Option (List ℕ) → List ℕ
delivered none = []
delivered (some line) = line ++ 10 ∷ []

abbrev pub NoReturn : List ℕ → Type 0
NoReturn bytes = All (λ c. (c == 13) ≡ false) bytes

abbrev pub starts_with_newline : List ℕ → Bool
starts_with_newline [] = false
starts_with_newline (c ∷ bytes) = c == 10

-- A reader whose buffer has just been compacted.
abbrev pub holding : List ℕ → SerialReader
holding buf = record { line_buf = buf; read_pos = 0 }

drop_all : (n : ℕ) (xs : List ℕ) → length xs ≤ n → drop n xs ≡ []
drop_all zero [] h = refl
drop_all zero (x ∷ xs) h = absurd (omega arith)
drop_all (suc n) [] h = refl
drop_all (suc n) (x ∷ xs) h = drop_all n xs (omega arith)

compact_at :
    (buf : List ℕ) (at : ℕ)
    → compact (record { line_buf = buf; read_pos = at }) ≡ holding (drop at buf)
unfolding compact
compact_at buf zero = refl
compact_at buf (suc n) =
    let moved : ltb 0 (suc n) ≡ true = ground arith in
    then_is _ _ _ moved ∙ elim (Bool-cases (ltb (suc n) (length buf))) [
      | inl h ↦ ap holding (then_is _ (drop (suc n) buf) [] h)
      | inr h ↦
          ap holding
            (else_is _ (drop (suc n) buf) [] h ∙ sym (drop_all (suc n) buf (ground (arith, h))))
    ]

append_byte_kept :
    (c : ℕ) (buf : List ℕ)
    → (c == 13) ≡ false
    → ((c == 10) ≡ true → 0 < length buf)
    → ((c == 10) ≡ false → length buf < max_cmd_size)
    → append_byte c (holding buf) ≡ some (holding (buf ++ c ∷ []))
unfolding append_byte
append_byte_kept c buf visible line room = elim (Bool-cases (c == 10)) [
  | inl h ↦
      let some_bytes : (length buf == 0) ≡ false = ground (arith, line h) in
      else_is _ _ _ visible ∙ then_is _ _ _ h ∙ ap some (else_is _ (holding buf) _ some_bytes)
  | inr h ↦
      let free : leb max_cmd_size (length buf) ≡ false = ground (arith, room h) in
      else_is _ _ _ visible ∙ else_is _ _ _ h ∙ else_is _ none _ free
]

append_data_step :
    (c : ℕ) (bytes : List ℕ) (s s' : SerialReader)
    → append_byte c s ≡ some s'
    → append_data (c ∷ bytes) s ≡ append_data bytes s'
unfolding append_data
append_data_step c bytes s s' e = rw (e, append_data) refl

some_before : (n : ℕ) (b : Bool) → (n ≡ 0 → b ≡ false) → b ≡ true → 0 < n
some_before zero b h e = absurd (apart (sym e ∙ h refl))
  where
    apart : true ≡ false → ⊥
    apart wrong = cc
some_before (suc n) b h e = omega arith

append_data-append :
    (bytes rest buf : List ℕ)
    → NoReturn bytes
    → (length buf ≡ 0 → starts_with_newline bytes ≡ false)
    → length buf + length bytes ≤ max_cmd_size
    → append_data (bytes ++ rest) (holding buf) ≡ append_data rest (holding (buf ++ bytes))
append_data-append [] rest buf visible line room =
    ap (λ b. append_data rest (holding b)) (sym (append-nil buf))
append_data-append (c ∷ bytes) rest buf (here, visible) line room =
    append_data_step c (bytes ++ rest) (holding buf) (holding (buf ++ c ∷ [])) (
      append_byte_kept c buf here (λ e. some_before (length buf) (c == 10) line e)
        (λ e. omega arith))
    ∙ append_data-append bytes rest (buf ++ c ∷ []) visible
        (λ e. absurd (omega (arith, length-append buf (c ∷ []))))
        (omega (arith, length-append buf (c ∷ [])))
    ∙ ap (λ b. append_data rest (holding b)) (append_assoc buf (c ∷ []) bytes)

option_eq : {a b : List ℕ} → some a ≡ some b → a ≡ b
option_eq e = cc

in_front_cases :
    (c : ℕ) (o : Option (List ℕ)) (line : List ℕ)
    → in_front c o ≡ some line
    → (l : List ℕ) × (o ≡ some l) × (line ≡ c ∷ l)
in_front_cases c none line e = cc
in_front_cases c (some l) line e = (l, refl, cc)

line-append :
    (xs line : List ℕ)
    → before_newline xs ≡ some line
    → (line ++ 10 ∷ []) ++ drop (suc (length line)) xs ≡ xs
line-append [] line e = cc
line-append (c ∷ xs) line e = elim (Bool-cases (c == 10)) [
  | inl h ↦
      let empty : [] ≡ line = option_eq (then_eq (c == 10) (in_front c (before_newline xs)) h e) in
      subst (λ l. (l ++ 10 ∷ []) ++ drop (suc (length l)) (c ∷ xs) ≡ c ∷ xs) empty
        (ap (λ b. b ∷ xs) (sym ((==_iff c 10).0 h)))
  | inr h ↦
      let (l, found, same) =
        in_front_cases c (before_newline xs) line (else_eq (c == 10) (some []) h e) in
      subst (λ t. (t ++ 10 ∷ []) ++ drop (suc (length t)) (c ∷ xs) ≡ c ∷ xs) (sym same)
        (ap (◌∷◌ c) (line-append xs l found))
]

-- The first line leaves the buffer, and what is left waits for the next call.
scan_lem :
    (buf : List ℕ)
    → let (line, s) = scan (holding buf) in
      (line ≡ before_newline buf) × (delivered line ++ pending s ≡ buf)
unfolding scan
scan_lem buf = elim (Option-cases (before_newline buf)) [
  | inl e ↦ rw (e, scan) (refl, refl)
  | inr (line, e) ↦
      let behind : 0 + length line + 1 ≡ suc (length line) = omega arith in
      rw (e, scan) (refl, ap (λ n. (line ++ 10 ∷ []) ++ drop n buf) behind ∙ line-append buf line e)
]

-- As long as the bytes that wait and those that come fit in the buffer, no carriage return is among
-- the latter, and they do not start with a newline where nothing waits, a call loses no byte: it
-- returns the first line of them all, if there is one, and what it returns with its newline, followed
-- by what then waits, is what waited followed by what came.
pub split_buffer-conserves :
    (s : SerialReader) (bytes : List ℕ)
    → NoReturn bytes
    → (length (pending s) ≡ 0 → starts_with_newline bytes ≡ false)
    → length (pending s) + length bytes ≤ max_cmd_size
    → let (line, s') = split_buffer bytes s in
      (line ≡ before_newline (pending s ++ bytes))
      × (delivered line ++ pending s' ≡ pending s ++ bytes)
unfolding split_buffer compact append_data
split_buffer-conserves s bytes visible line room =
    let kept : append_data bytes (compact s) ≡ holding (pending s ++ bytes) =
      ap (append_data bytes) (compact_at s.line_buf s.read_pos)
      ∙ ap (λ b. append_data b (holding (pending s))) (sym (append-nil bytes))
      ∙ append_data-append bytes [] (pending s) visible line room in
    subst
      (λ t.
        ((scan t).0 ≡ before_newline (pending s ++ bytes))
        × (delivered (scan t).0 ++ pending (scan t).1 ≡ pending s ++ bytes))
      (sym kept) (scan_lem (pending s ++ bytes))
