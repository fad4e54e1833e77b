-- ===== src/Domain/Dns.antt =====
-- components/domain/include/domain/dns.hpp: the answers of the captive portal. A buffer is the list
-- of its bytes, and a pointer into the query is the rest of it; words of the packed structs stand in
-- the byte order of the processor, little-endian.
pub mod Reply
pub mod Names
pub mod Answer
use esp32_rs_on_idf.Common.{
  ℕ, zero, suc, ◌+◌, ◌*◌, ◌/◌, ◌%◌, Bool, true, false, if◌then◌else◌, ltb, leb, ◌==◌, List, [], ◌∷◌,
  ◌++◌, length, get_or, take, drop,
}
use esp32_rs_on_idf.Domain.Types.{Result, ok, unexpected}

pub data DnsError : Type 0 where
  query_too_short query_truncated buffer_too_small not_a_query : DnsError

-- `sizeof(DnsHeader)`: the six words of the header.
abbrev pub header_size : ℕ
header_size = 12

-- `sizeof(DnsAnswer)`.
abbrev pub answer_size : ℕ
answer_size = 16

-- The `while` of `buildDnsResponse`: how far it moves `qptr`, which may leave the query.
unfoldable pub question_len : ℕ → List ℕ → ℕ
question_len zero q = 0
question_len (suc fuel) [] = 0
question_len (suc fuel) (zero ∷ q) = 1
question_len (suc fuel) (suc n ∷ q) = 1 + suc n + question_len fuel (drop (suc n) q)

-- Every step drops a byte, so the length is fuel enough.
abbrev pub question_len_of : List ℕ → ℕ
question_len_of query = question_len (length query) (drop header_size query)

-- `id` and `qdcount` are copied as they stand.
unfoldable pub reply_header : List ℕ → List ℕ
reply_header query =
    get_or query 0 0
    ∷ get_or query 1 0
    ∷ 0x81
    ∷ 0x80
    ∷ get_or query 4 0
    ∷ get_or query 5 0
    ∷ 0
    ∷ 1
    ∷ 0
    ∷ 0
    ∷ 0
    ∷ 0
    ∷ []

-- `rdata` is a word in memory.
unfoldable pub reply_answer : ℕ → List ℕ
reply_answer ip =
    0xC0
    ∷ 0x0C
    ∷ 0
    ∷ 1
    ∷ 0
    ∷ 1
    ∷ 0
    ∷ 0
    ∷ 0
    ∷ 60
    ∷ 0
    ∷ 4
    ∷ ip % 256
    ∷ ip / 256 % 256
    ∷ ip / 65_536 % 256
    ∷ ip / 16_777_216 % 256
    ∷ []

-- The response buffer, and the length that is returned.
unfoldable pub build_dns_response : List ℕ → List ℕ → ℕ → List ℕ × ℕ
build_dns_response query response answer_ip =
    let question = question_len_of query in
    let total = header_size + question + answer_size in
    if ltb (length query) header_size
    then (response, 0)
    else if get_or query 4 0 * 256 + get_or query 5 0 == 0
    then (response, 0)
    else if ltb (length query) (header_size + question + 4)
    then (response, 0)
    else if ltb (length response) total
    then (response, 0)
    else (
      reply_header query
          ++ take question (drop header_size query)
          ++ reply_answer answer_ip
          ++ drop total response,
      total,
    )

unfoldable pub try_build_dns_response : List ℕ → List ℕ → ℕ → List ℕ × Result ℕ DnsError
try_build_dns_response query response answer_ip =
    let (response', written) = build_dns_response query response answer_ip in
    if ltb (length query) header_size
    then (response, unexpected query_too_short)
    else if written == 0
    then (response', unexpected buffer_too_small)
    else (response', ok written)

-- The `while` of `extractDomainName`, with what is written; an empty text is an error.
unfoldable pub extract_loop : ℕ → ℕ → Bool → List ℕ → List ℕ → List ℕ
extract_loop zero out_cap first written q = written
extract_loop (suc fuel) out_cap first written [] = written
extract_loop (suc fuel) out_cap first written (zero ∷ q) = written
extract_loop (suc fuel) out_cap first written (suc n ∷ q) =
    let dotted = if first then written else written ++ 46 ∷ [] in
    let rest = extract_loop fuel out_cap false (dotted ++ take (suc n) q) (drop (suc n) q) in
    if ltb (length q) (suc n)
    then []
    else if (if first then false else leb out_cap (length written + 1))
    then []
    else if leb out_cap (length dotted + suc n)
    then []
    else rest

-- The name that is written to `outBuf`; its length is what is returned.
unfoldable pub extract_domain_name : List ℕ → ℕ → List ℕ
extract_domain_name query out_cap =
    if ltb (length query) header_size
    then []
    else if out_cap == 0
    then []
    else extract_loop (length query) out_cap true [] (drop header_size query)
