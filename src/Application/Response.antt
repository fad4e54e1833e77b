-- ===== src/Application/Response.antt =====
-- components/application/src/command.cpp: the responses and their serialization. A body is the bytes
-- that are written to its array; the rest of the array is zeros. What is written to a buffer is a
-- list, whose length is the size that is returned. The bytes of a message are not NUL.
pub mod Errors
pub mod Ids
use esp32_rs_on_idf.Common.{
  ℕ, zero, suc, ◌+◌, ◌-◌, Bool, true, false, ◌&&◌, ◌||◌, not, if◌then◌else◌, ltb, leb, ◌==◌, List,
  [], ◌∷◌, ◌++◌, length, get_or, take, drop, replicate,
}
use esp32_rs_on_idf.Common.Text.{codes, u64_text}

pub data ResponseKind : Type 0 where
  single error ack_then no_response : ResponseKind

pub record CommandResponse : Type 0 where
  pub kind : ResponseKind
  pub id : ℕ
  pub body : List ℕ
  pub body_size : ℕ

abbrev pub max_rsp_size : ℕ
max_rsp_size = 2048

-- `std::snprintf` into the body: it is cut for the NUL, and the whole length is returned.
abbrev pub print_body : ResponseKind → List ℕ → CommandResponse
print_body kind text = record {
  kind = kind;
  id = 0;
  body = take (max_rsp_size - 1) text;
  body_size = length text;
}

-- `%.*s` of a payload without a NUL.
unfoldable pub make_single_response : List ℕ → ℕ → CommandResponse
make_single_response payload size =
    print_body single (codes "{\"status\":\"ok\",\"data\":" ++ take size payload ++ codes "}")

unfoldable pub make_ack_then_response : CommandResponse
make_ack_then_response =
    print_body ack_then (codes "{\"status\":\"ok\",\"data\":{\"status\":\"accepted\"}}")

abbrev pub needs_escape : ℕ → Bool
needs_escape c = (c == 34) || (c == 92)

abbrev pub escaped : ℕ → List ℕ
escaped c = if needs_escape c then 92 ∷ c ∷ [] else c ∷ []

-- The `for` of `makeErrorResponse`, with the body so far.
unfoldable pub escape_loop : List ℕ → List ℕ → List ℕ
escape_loop [] body = body
escape_loop (c ∷ message) body =
    let rest = escape_loop message (body ++ escaped c) in
    if ltb (length body) (max_rsp_size - 2) then rest else body

unfoldable pub make_error_response : List ℕ → CommandResponse
make_error_response message =
    let body = escape_loop message (codes "{\"status\":\"error\",\"message\":\"") in
    let closed = if ltb (length body) (max_rsp_size - 1) then body ++ codes "\"}" else body in
    record { kind = error; id = 0; body = closed; body_size = length closed }

-- `std::memcpy` of the first bytes of the body.
abbrev pub copy_body : CommandResponse → List ℕ
copy_body rsp = take rsp.body_size (rsp.body ++ replicate (rsp.body_size - length rsp.body) 0)

abbrev pub id_text : ℕ → List ℕ
id_text id = codes "{\"id\":" ++ u64_text id ++ codes ","

abbrev pub minimal_body : ResponseKind → List ℕ
minimal_body single = codes "{}"
minimal_body error = codes "{\"status\":\"error\",\"message\":\"unknown\"}"
minimal_body ack_then = codes "{\"status\":\"ok\",\"data\":{\"status\":\"accepted\"}}"
minimal_body no_response = []

abbrev pub is_no_response : ResponseKind → Bool
is_no_response no_response = true
is_no_response _ = false

-- The buffer has `max_rsp_size` bytes.
unfoldable pub serialize_to_buffer : CommandResponse → List ℕ
serialize_to_buffer rsp =
    let with_id = id_text rsp.id ++ drop 1 (copy_body rsp) in
    if is_no_response rsp.kind
    then []
    else if ltb 0 rsp.body_size && leb rsp.body_size max_rsp_size
    then (if not (rsp.id == 0) && (get_or rsp.body 0 0 == 123) && ltb (length with_id) max_rsp_size
        then with_id
        else copy_body rsp)
    else minimal_body rsp.kind
