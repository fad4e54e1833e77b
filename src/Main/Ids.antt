-- ===== src/Main/Ids.antt =====
-- The id that stands in a text.
use esp32_rs_on_idf.Common.{
  ℕ, zero, suc, ◌+◌, ◌-◌, ◌*◌, ◌/◌, ◌%◌, ◌^◌, ◌<◌, ◌≡◌, ◌≢◌, refl, ap, ◌∙◌, inl, inr, Bool, true,
  false, ltb, Bool-cases, then_is, List, [], ◌∷◌, ◌++◌, length, arith,
}
use esp32_rs_on_idf.Common.Text.{codes, is_digit, put_decimal}
use esp32_rs_on_idf.Application.Response.{
  CommandResponse, max_rsp_size, id_text, is_no_response, serialize_to_buffer,
}
use esp32_rs_on_idf.Application.Response.Ids.{serialize_to_buffer-id_text}
use esp32_rs_on_idf.Main.{strstr, skip_blanks, read_digits, extract_cmd_id}

abbrev head_is_digit : List ℕ → Bool
head_is_digit [] = false
head_is_digit (c ∷ cs) = is_digit c

read_digits-comma : (n : ℕ) (tail : List ℕ) → read_digits n (44 ∷ tail) ≡ n
unfolding read_digits
read_digits-comma n tail = refl

head_is_digit-put_decimal :
    (room n : ℕ) (text : List ℕ)
    → head_is_digit text ≡ true
    → head_is_digit (put_decimal room n text) ≡ true
head_is_digit-put_decimal zero n text h = h
head_is_digit-put_decimal (suc room) n text h = elim (Bool-cases (ltb n 10)) [
  | inl small ↦ rw small (ground arith)
  | inr large ↦
      rw large (head_is_digit-put_decimal room (n / 10) ((48 + n % 10) ∷ text) (ground arith))
]

head_is_digit-u64_text : (n : ℕ) (text : List ℕ) → head_is_digit (put_decimal 20 n text) ≡ true
head_is_digit-u64_text n text = elim (Bool-cases (ltb n 10)) [
  | inl small ↦ rw small (ground arith)
  | inr large ↦
      rw large (head_is_digit-put_decimal 19 (n / 10) ((48 + n % 10) ∷ text) (ground arith))
]

skip_blanks-digit : (text : List ℕ) → head_is_digit text ≡ true → skip_blanks text ≡ text
unfolding skip_blanks
skip_blanks-digit [] h = refl
skip_blanks-digit (c ∷ cs) h = ground arith

read_digits-step :
    (v k : ℕ) (text : List ℕ)
    → k < 10
    → v * 10 + k < 2 ^ 64
    → read_digits v ((48 + k) ∷ text) ≡ read_digits (v * 10 + k) text
unfolding read_digits
read_digits-step v k text small wide =
    let digit : is_digit (48 + k) ≡ true = ground arith in
    let next : (v * 10 + (48 + k - 48)) % 2 ^ 64 ≡ v * 10 + k = omega arith in
    then_is (is_digit (48 + k)) _ v digit ∙ ap (λ w. read_digits w text) next

read_digits-put_decimal :
    (room n : ℕ) (text : List ℕ)
    → n < 10 ^ room
    → n < 2 ^ 64
    → read_digits 0 (put_decimal room n text) ≡ read_digits n text
read_digits-put_decimal zero n text small wide =
    let none_left : 0 ≡ n = omega arith in ap (λ v. read_digits v text) none_left
read_digits-put_decimal (suc room) n text small wide = elim (Bool-cases (ltb n 10)) [
  | inl h ↦
      let first : 0 * 10 + n ≡ n = omega arith in
      rw h (
        read_digits-step 0 n text (ground arith) (omega arith) ∙ ap (λ v. read_digits v text) first)
  | inr h ↦
      let grows : 10 ^ suc room ≡ 10 ^ room * 10 = omega arith in
      let joined : n / 10 * 10 + n % 10 ≡ n = omega arith in
      rw h (
        read_digits-put_decimal room (n / 10) ((48 + n % 10) ∷ text) (omega (arith, grows))
          (omega arith)
        ∙ read_digits-step (n / 10) (n % 10) text (omega arith) (omega arith)
        ∙ ap (λ v. read_digits v text) joined)
]

pub put_decimal-append :
    (room n : ℕ) (text tail : List ℕ)
    → put_decimal room n text ++ tail ≡ put_decimal room n (text ++ tail)
put_decimal-append zero n text tail = refl
put_decimal-append (suc room) n text tail = elim (Bool-cases (ltb n 10)) [
  | inl h ↦ rw h refl
  | inr h ↦ rw h (put_decimal-append room (n / 10) ((48 + n % 10) ∷ text) tail)
]

-- Behind the name of the member.
extract_cmd_id-member :
    (text : List ℕ)
    → head_is_digit text ≡ true
    → extract_cmd_id (codes "{\"id\":" ++ text) ≡ read_digits 0 text
unfolding extract_cmd_id strstr
extract_cmd_id-member text h = ap (read_digits 0) (skip_blanks-digit text h)

pub extract_cmd_id-put_decimal :
    (n : ℕ) (tail : List ℕ)
    → n < 2 ^ 64
    → extract_cmd_id (codes "{\"id\":" ++ put_decimal 20 n (44 ∷ tail)) ≡ n
extract_cmd_id-put_decimal n tail wide =
    extract_cmd_id-member (put_decimal 20 n (44 ∷ tail)) (head_is_digit-u64_text n (44 ∷ tail))
    ∙ read_digits-put_decimal 20 n (44 ∷ tail) (omega (arith, wide)) wide
    ∙ read_digits-comma n tail

-- The id that stands in a serialized response with an object and an id is the id of the response.
pub extract_cmd_id-serialize_to_buffer :
    (rsp : CommandResponse) (members : List ℕ)
    → is_no_response rsp.kind ≡ false
    → rsp.body ≡ codes "{" ++ members
    → rsp.body_size ≡ length rsp.body
    → rsp.id ≢ 0
    → rsp.id < 18_446_744_073_709_551_616
    → length (id_text rsp.id ++ members) < max_rsp_size
    → extract_cmd_id (serialize_to_buffer rsp) ≡ rsp.id
extract_cmd_id-serialize_to_buffer rsp members kind object whole some_id wide room =
    ap extract_cmd_id (serialize_to_buffer-id_text rsp members kind object whole some_id wide room)
    ∙ ap (λ t. extract_cmd_id (codes "{\"id\":" ++ t))
        (ap (λ t. t ++ members) (put_decimal-append 20 rsp.id [] (codes ","))
          ∙ put_decimal-append 20 rsp.id (codes ",") members)
    ∙ extract_cmd_id-put_decimal rsp.id members wide
