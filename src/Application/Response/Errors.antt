-- ===== src/Application/Response/Errors.antt =====
-- The text of an error response.
use esp32_rs_on_idf.Common.{
  ℕ, ◌+◌, ◌-◌, ◌≤◌, ◌<◌, ◌≡◌, refl, sym, ap, Bool, Option, some, none, ◌>>=◌, ◌||◌, ◌∙◌, inl, inr,
  true, false, if◌then◌else◌, ltb, ◌==◌, Bool-cases, List, [], ◌∷◌, ◌++◌, length, drop,
  length-append, then_is, arith,
}
use mathlib.Core.List.{append_assoc, append-nil}
use esp32_rs_on_idf.Common.Text.{codes}
use esp32_rs_on_idf.Application.Response.{
  max_rsp_size, needs_escape, escaped, escape_loop, make_error_response,
}

length-escaped : (c : ℕ) → (1 ≤ length (escaped c)) × (length (escaped c) ≤ 2)
length-escaped c = elim (Bool-cases (needs_escape c)) [
  | inl h ↦ rw h (omega arith, omega arith)
  | inr h ↦ rw h (omega arith, omega arith)
]

escape_loop_fits :
    (message body : List ℕ)
    → length body < max_rsp_size
    → length (escape_loop message body) < max_rsp_size
unfolding escape_loop
escape_loop_fits [] body h = h
escape_loop_fits (c ∷ message) body h = elim (Bool-cases (ltb (length body) (max_rsp_size - 2))) [
  | inl room ↦ rw room (
      escape_loop_fits message (body ++ escaped c)
        (ground (arith, room, length-append body (escaped c), (length-escaped c).1)))
  | inr full ↦ rw full h
]

-- Whatever the message, an error response is written inside the 2,048 bytes of its body.
pub make_error_response_fits :
    (message : List ℕ)
    → ((make_error_response message).body_size ≡ length (make_error_response message).body)
      × ((make_error_response message).body_size ≤ max_rsp_size)
unfolding make_error_response
make_error_response_fits message =
    let body = escape_loop message (codes "{\"status\":\"error\",\"message\":\"") in
    let fits =
      escape_loop_fits message (codes "{\"status\":\"error\",\"message\":\"") (omega arith) in
    (
      refl,
      elim (Bool-cases (ltb (length body) (max_rsp_size - 1))) [
        | inl h ↦ rw h (ground (arith, h, length-append body (codes "\"}")))
        | inr h ↦ rw h (omega (arith, fits))
      ],
    )

abbrev pub escape_all : List ℕ → List ℕ
escape_all [] = []
escape_all (c ∷ message) = escaped c ++ escape_all message

-- What a backslash and a byte stand for in a JSON string. An escape by four digits, which the code
-- does not write, is not read.
abbrev escape_code : ℕ → Option ℕ
escape_code c =
    if (c == 34) || ((c == 92) || (c == 47))
    then some c
    else if c == 98
    then some 8
    else if c == 102
    then some 12
    else if c == 110
    then some 10
    else if c == 114
    then some 13
    else if c == 116
    then some 9
    else none

abbrev before : ℕ → Option (List ℕ) → Option (List ℕ)
before c rest = rest >>= λ text. some (c ∷ text)

-- A JSON string from behind its opening quote. It has no byte below 32, which RFC 8259 forbids.
unfoldable pub read_message : List ℕ → Option (List ℕ)
read_message [] = none
read_message (c ∷ []) = if c == 34 then some [] else none
read_message (c ∷ d ∷ text) =
    let plain = read_message (d ∷ text) in
    let after_escape = read_message text in
    if c == 34
    then some []
    else if c == 92
    then (escape_code d >>= λ x. before x after_escape)
    else if ltb c 32
    then none
    else before c plain

-- A message without control characters.
abbrev pub is_printable : List ℕ → Bool
is_printable [] = true
is_printable (c ∷ message) = if ltb c 32 then false else is_printable message

escape_loop_all :
    (message body : List ℕ)
    → length body + length (escape_all message) ≤ max_rsp_size - 2
    → escape_loop message body ≡ body ++ escape_all message
unfolding escape_loop
escape_loop_all [] body h = sym (append-nil body)
escape_loop_all (c ∷ message) body h =
    let room : ltb (length body) (max_rsp_size - 2) ≡ true =
      ground (arith, h, length-append (escaped c) (escape_all message), (length-escaped c).0) in
    then_is _ _ body room
    ∙ escape_loop_all message (body ++ escaped c) (
        omega
          (arith, length-append (escaped c) (escape_all message), length-append body (escaped c)))
    ∙ append_assoc body (escaped c) (escape_all message)

before_if :
    (c : ℕ) (b : Bool) (message : List ℕ)
    → before c (if b then some message else none) ≡ (if b then some (c ∷ message) else none)
before_if c true message = refl
before_if c false message = refl

read_message-escaped :
    (c : ℕ) (text : List ℕ)
    → 0 < length text
    → read_message (escaped c ++ text) ≡ (if ltb c 32 then none else before c (read_message text))
unfolding read_message
read_message-escaped c [] some_text = absurd (omega arith)
read_message-escaped c (d ∷ text) some_text = elim (Bool-cases (needs_escape c)) [
  | inl h ↦
      let special : ((c == 34) || ((c == 92) || (c == 47))) ≡ true = ground (arith, h) in
      let large : ltb c 32 ≡ false = ground (arith, h) in rw h (rw special (rw large refl))
  | inr h ↦
      let no_backslash : (c == 92) ≡ false = ground (arith, h) in
      let no_quote : (c == 34) ≡ false = ground (arith, h) in
      rw h (rw no_backslash (rw no_quote refl))
]

-- The reader accepts the escaped text exactly if the message is printable.
read_message-escape_all :
    (message text : List ℕ)
    → read_message (escape_all message ++ 34 ∷ text)
      ≡ (if is_printable message then some message else none)
unfolding read_message
read_message-escape_all [] [] = refl
read_message-escape_all [] (d ∷ text) = refl
read_message-escape_all (c ∷ message) text =
    ap read_message (append_assoc (escaped c) (escape_all message) (34 ∷ text))
    ∙ read_message-escaped c (escape_all message ++ 34 ∷ text)
        (omega (arith, length-append (escape_all message) (34 ∷ text)))
    ∙ ap (λ r. if ltb c 32 then none else before c r) (read_message-escape_all message text)
    ∙ elim (Bool-cases (ltb c 32)) [
      | inl low ↦ rw low refl
      | inr high ↦ rw high (before_if c (is_printable message) message)
    ]

-- For a message whose text with its escapes has at most 2,017 bytes, a reader of JSON strings, from
-- behind the opening quote, gets the message back from the response, whatever quotes and backslashes
-- it has, exactly if it has no byte below 32. Such a byte is not escaped, and the reader then
-- refuses the text.
pub read_message-make_error_response :
    (message : List ℕ)
    → length (escape_all message) ≤ 2017
    → read_message (drop 29 (make_error_response message).body)
      ≡ (if is_printable message then some message else none)
unfolding make_error_response
read_message-make_error_response message h =
    let start = codes "{\"status\":\"error\",\"message\":\"" in
    let all = escape_loop_all message start (omega arith) in
    let room : ltb (length (escape_loop message start)) (max_rsp_size - 1) ≡ true =
      ground (arith, h, ap length all, length-append start (escape_all message)) in
    ap (λ t. read_message (drop 29 t)) (then_is _ _ _ room ∙ ap (λ t. t ++ codes "\"}") all)
    ∙ read_message-escape_all message (125 ∷ [])
