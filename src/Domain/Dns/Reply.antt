-- ===== src/Domain/Dns/Reply.antt =====
-- The answer that is built stays inside its buffer.
use esp32_rs_on_idf.Common.{
  ℕ, zero, suc, ◌+◌, ◌-◌, ◌*◌, ◌≤◌, ◌≡◌, refl, ◌⊎◌, inl, inr, Bool, true, false, if◌then◌else◌, ltb,
  ◌==◌, List, [], ◌∷◌, ◌++◌, length, get_or, take, drop, length-append, length-take, arith,
}
use esp32_rs_on_idf.Domain.Dns.{
  header_size, answer_size, question_len_of, reply_header, reply_answer, build_dns_response,
}

pub length-drop : (n : ℕ) (q : List ℕ) → length (drop n q) ≡ length q - n
length-drop zero q = omega arith
length-drop (suc n) [] = omega arith
length-drop (suc n) (c ∷ q) = omega (arith, length-drop n q)

-- A response that is as long as its buffer and has the count with it.
pub record Inside (response : List ℕ) (result : List ℕ × ℕ) : Type 0 where
  pub kept : length result.0 ≡ length response
  pub fits : result.1 ≤ length response
  pub whole : ((result.1 ≡ 0) × (result.0 ≡ response)) ⊎ (header_size + answer_size ≤ result.1)

unchanged-Inside : (response : List ℕ) → Inside response (response, 0)
unchanged-Inside response = record { kept = refl; fits = omega arith; whole = inl (refl, refl) }

either_Inside :
    (response : List ℕ) (b : Bool) (x y : List ℕ × ℕ)
    → Inside response x
    → (b ≡ false → Inside response y)
    → Inside response (if b then x else y)
either_Inside response true x y i j = i
either_Inside response false x y i j = j refl

-- Whatever the query, `buildDnsResponse` writes inside the buffer, whose length it keeps, and returns
-- a length that fits: 0, with the buffer as it was, or no less than a header and an answer.
pub build_dns_response-Inside :
    (query response : List ℕ) (answer_ip : ℕ)
    → Inside response (build_dns_response query response answer_ip)
unfolding build_dns_response reply_header reply_answer
build_dns_response-Inside query response answer_ip =
    let q = question_len_of query in
    let total = header_size + q + answer_size in
    let none_written = unchanged-Inside response in
    either_Inside response (ltb (length query) header_size) (response, 0) _ none_written
      (λ (long : (ltb (length query) header_size) ≡ false).
        either_Inside response (get_or query 4 0 * 256 + get_or query 5 0 == 0) (response, 0) _
          none_written
          (λ (asked : (get_or query 4 0 * 256 + get_or query 5 0 == 0) ≡ false).
            either_Inside response (ltb (length query) (header_size + q + 4)) (response, 0) _
              none_written
              (λ (room : (ltb (length query) (header_size + q + 4)) ≡ false).
                either_Inside response (ltb (length response) total) (response, 0) _ none_written
                  (λ (fits : (ltb (length response) total) ≡ false).
                    let question : length (take q (drop header_size query)) ≡ q =
                      length-take q (drop header_size query)
                        (ground (arith, room, length-drop header_size query)) in
                    let inside : total ≤ length response = ground (arith, fits) in
                    let start = reply_header query ++ take q (drop header_size query) in
                    record {
                      kept = omega (
                        arith,
                        question,
                        inside,
                        length-drop total response,
                        length-append (reply_header query) (take q (drop header_size query)),
                        length-append start (reply_answer answer_ip),
                        length-append (start ++ reply_answer answer_ip) (drop total response),
                      );
                      fits = inside;
                      whole = inr (omega arith);
                    }))))
