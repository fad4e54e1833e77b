-- ===== src/Application/Response/Ids.antt =====
-- The buffer that a response is serialized to, and the id in it.
use esp32_rs_on_idf.Common.{
  ℕ, zero, suc, ◌+◌, ◌-◌, ◌*◌, ◌/◌, ◌%◌, ◌^◌, ◌≤◌, ◌<◌, ◌≡◌, ◌≢◌, refl, ap, ◌∙◌, inl, inr, Bool,
  true, false, ◌&&◌, not, if◌then◌else◌, ltb, leb, ◌==◌, Bool-cases, List, [], ◌∷◌, ◌++◌, length,
  get_or, take, drop, replicate, length-append, length-take_le, take-append, then_is, else_is,
  arith,
}
use esp32_rs_on_idf.Common.Text.{codes, decimal, put_decimal, u64_text}
use esp32_rs_on_idf.Application.Response.{
  ResponseKind, single, error, ack_then, no_response, CommandResponse, max_rsp_size, copy_body,
  id_text, minimal_body, is_no_response, serialize_to_buffer,
}

decimal-put_decimal :
    (room n : ℕ) (text : List ℕ)
    → n < 10 ^ room
    → decimal 0 (put_decimal room n text) ≡ decimal n text
decimal-put_decimal zero n text small =
    let none_left : 0 ≡ n = omega arith in ap (λ v. decimal v text) none_left
decimal-put_decimal (suc room) n text small = elim (Bool-cases (ltb n 10)) [
  | inl h ↦
      let last : 0 * 10 + (48 + n - 48) ≡ n = omega arith in rw h (ap (λ v. decimal v text) last)
  | inr h ↦
      let grows : 10 ^ suc room ≡ 10 ^ room * 10 = omega arith in
      let joined : n / 10 * 10 + (48 + n % 10 - 48) ≡ n = omega arith in
      rw h (
        decimal-put_decimal room (n / 10) ((48 + n % 10) ∷ text) (omega (arith, grows))
        ∙ ap (λ v. decimal v text) joined)
]

copy_body_eq : (rsp : CommandResponse) → rsp.body_size ≡ length rsp.body → copy_body rsp ≡ rsp.body
copy_body_eq rsp same =
    ap (λ n. take n (rsp.body ++ replicate (n - length rsp.body) 0)) same
    ∙ take-append rsp.body (replicate (length rsp.body - length rsp.body) 0)

minimal_body_fits : (kind : ResponseKind) → length (minimal_body kind) ≤ max_rsp_size
minimal_body_fits single = omega arith
minimal_body_fits error = omega arith
minimal_body_fits ack_then = omega arith
minimal_body_fits no_response = omega arith

either_fits :
    (b : Bool) (x y : List ℕ)
    → (b ≡ true → length x ≤ max_rsp_size)
    → (b ≡ false → length y ≤ max_rsp_size)
    → length (if b then x else y) ≤ max_rsp_size
either_fits true x y h k = h refl
either_fits false x y h k = k refl

and_last : (a b : Bool) → (a && b) ≡ true → b ≡ true
and_last true b e = e
and_last false b e = cc

-- Whatever the response, what is serialized fits the buffer of 2,048 bytes.
pub serialize_to_buffer_fits :
    (rsp : CommandResponse) → length (serialize_to_buffer rsp) ≤ max_rsp_size
unfolding serialize_to_buffer
serialize_to_buffer_fits rsp =
    let with_id = id_text rsp.id ++ drop 1 (copy_body rsp) in
    either_fits (is_no_response rsp.kind) _ _ (λ e. omega arith)
      (λ e.
        either_fits (ltb 0 rsp.body_size && leb rsp.body_size max_rsp_size) _ _
          (λ whole.
            let small : rsp.body_size ≤ max_rsp_size = ground (arith, whole) in
            either_fits
              (not (rsp.id == 0)
                && (get_or rsp.body 0 0 == 123)
                && ltb (length with_id) max_rsp_size)
              _ _ (λ room. ground (arith, room))
              (λ plain. omega (
                arith,
                length-take_le rsp.body_size
                    (rsp.body ++ replicate (rsp.body_size - length rsp.body) 0),
              )))
          (λ odd. minimal_body_fits rsp.kind))

module _ (rsp : CommandResponse) (members : List ℕ) (kind : is_no_response rsp.kind ≡ false)
    (object : rsp.body ≡ codes "{" ++ members) (whole : rsp.body_size ≡ length rsp.body)
    (some_id : rsp.id ≢ 0) (wide : rsp.id < 18_446_744_073_709_551_616)
    (room : length (id_text rsp.id ++ members) < max_rsp_size) where
  pub serialize_to_buffer-id_text : serialize_to_buffer rsp ≡ id_text rsp.id ++ members
  unfolding serialize_to_buffer
  serialize_to_buffer-id_text =
      let body = copy_body_eq rsp whole ∙ object in
      let behind : drop 1 (copy_body rsp) ≡ members = ap (drop 1) body in
      let size : rsp.body_size ≡ suc (length members) = whole ∙ ap length object in
      let fits : (ltb 0 rsp.body_size && leb rsp.body_size max_rsp_size) ≡ true =
        ground (arith, size, room, length-append (id_text rsp.id) members) in
      let brace : get_or rsp.body 0 0 ≡ 123 = ap (λ t. get_or t 0 0) object in
      let in_room : ltb (length (id_text rsp.id ++ drop 1 (copy_body rsp))) max_rsp_size ≡ true =
        ground (arith, room, ap (λ t. length (id_text rsp.id ++ t)) behind) in
      let tested : (not (rsp.id == 0)
            && (get_or rsp.body 0 0 == 123)
            && ltb (length (id_text rsp.id ++ drop 1 (copy_body rsp))) max_rsp_size)
          ≡ true =
        ground (arith, some_id, brace, in_room) in
      else_is _ [] _ kind
      ∙ then_is _ _ (minimal_body rsp.kind) fits
      ∙ then_is _ _ (copy_body rsp) tested
      ∙ ap (λ t. id_text rsp.id ++ t) behind

  -- A response with a body that is an object and an id that is not 0 and has 64 bits is serialized,
  -- if there is room, as the object with a member "id" in front, whose digits write the id.
  pub serialize_to_buffer_id :
      (digits : List ℕ) × (serialize_to_buffer rsp
        ≡ codes "{\"id\":" ++ digits ++ codes "," ++ members)
      × (decimal 0 digits ≡ rsp.id)
  serialize_to_buffer_id = (
    u64_text rsp.id,
    serialize_to_buffer-id_text,
    decimal-put_decimal 20 rsp.id [] (omega (arith, wide)),
  )
