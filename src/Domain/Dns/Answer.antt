-- ===== src/Domain/Dns/Answer.antt =====
-- The name that is asked for, in the answer.
use esp32_rs_on_idf.Common.{
  ℕ, zero, suc, ◌+◌, ◌*◌, ◌≤◌, ◌≡◌, ◌≢◌, refl, sym, ap, ◌∙◌, false, ltb, ◌==◌, List, [], ◌∷◌, ◌++◌,
  length, get_or, take, drop, length-append, take-append, drop-append, else_is, arith,
}
use mathlib.Core.Path.{ap₂}
use esp32_rs_on_idf.Domain.Dns.{
  header_size, answer_size, question_len, question_len_of, reply_header, reply_answer,
  build_dns_response, extract_domain_name,
}
use mathlib.Core.List.{append_assoc}
use esp32_rs_on_idf.Domain.Dns.Names.{encode, Labels, drop_head, extract_domain_name-encode}

encode-append :
    (labels : List (List ℕ)) (tail : List ℕ) → encode labels tail ≡ encode labels [] ++ tail
encode-append [] tail = refl
encode-append (l ∷ labels) tail =
    ap (λ t. length l ∷ (l ++ t)) (encode-append labels tail)
    ∙ ap (◌∷◌ (length l)) (sym (append_assoc l (encode labels []) tail))

question_len-encode :
    (fuel : ℕ) (labels : List (List ℕ)) (tail : List ℕ)
    → length (encode labels tail) ≤ fuel
    → Labels labels
    → question_len fuel (encode labels tail) ≡ length (encode labels [])
unfolding question_len
question_len-encode zero [] tail enough ls = absurd (omega arith)
question_len-encode (suc fuel) [] tail enough ls = refl
question_len-encode zero (l ∷ labels) tail enough ls = absurd (omega arith)
question_len-encode (suc fuel) ([] ∷ labels) tail enough (some_byte, ls) = absurd (omega arith)
question_len-encode (suc fuel) ((c ∷ cs) ∷ labels) tail enough (some_byte, ls) =
    let l = c ∷ cs in
    let behind = ap (question_len fuel) (drop-append l (encode labels tail)) in
    let ih =
      question_len-encode fuel labels tail (omega (arith, length-append l (encode labels tail)))
        ls in
    let both : question_len fuel (drop (length l) (l ++ encode labels tail))
        ≡ length (encode labels []) =
      behind ∙ ih in
    omega (arith, both, length-append l (encode labels []))

-- The branch of `buildDnsResponse` that answers.
build_dns_response_answers :
    (query response : List ℕ) (answer_ip : ℕ)
    → let q = question_len_of query in
      let total = header_size + q + answer_size in
      header_size ≤ length query
      → get_or query 4 0 * 256 + get_or query 5 0 ≢ 0
      → header_size + q + 4 ≤ length query
      → total ≤ length response
      → build_dns_response query response answer_ip ≡ (
        reply_header query
            ++ take q (drop header_size query)
            ++ reply_answer answer_ip
            ++ drop total response,
        total,
      )
unfolding build_dns_response
build_dns_response_answers query response answer_ip long counted whole room =
    let q = question_len_of query in
    let total = header_size + q + answer_size in
    let b1 : ltb (length query) header_size ≡ false = ground arith in
    let b2 : (get_or query 4 0 * 256 + get_or query 5 0 == 0) ≡ false = ground (arith, counted) in
    let b3 : ltb (length query) (header_size + q + 4) ≡ false = ground arith in
    let b4 : ltb (length response) total ≡ false = ground arith in
    else_is _ _ _ b1 ∙ else_is _ _ _ b2 ∙ else_is _ _ _ b3 ∙ else_is _ _ _ b4

-- To a query that is a header with a question count other than 0, a name, and four bytes or more,
-- `buildDnsResponse` answers, in a buffer with room, with a header, the labels of the same name and,
-- right behind them, the address; and `extractDomainName` reads the same name in the two messages.
pub build_dns_response-encode :
    (head : List ℕ) (labels : List (List ℕ)) (tail response : List ℕ) (answer_ip out_cap : ℕ)
    → length head ≡ header_size
    → Labels labels
    → 4 ≤ length tail
    → get_or (head ++ encode labels tail) 4 0 * 256 + get_or (head ++ encode labels tail) 5 0 ≢ 0
    → header_size + length (encode labels []) + answer_size ≤ length response
    → let query = head ++ encode labels tail in
      let (response', count) = build_dns_response query response answer_ip in
      (take count response' ≡ reply_header query ++ encode labels (reply_answer answer_ip))
      × (extract_domain_name (take count response') out_cap ≡ extract_domain_name query out_cap)
unfolding build_dns_response reply_header reply_answer
build_dns_response-encode head labels tail response answer_ip out_cap twelve ls four counted room =
    let query = head ++ encode labels tail in
    let q = question_len_of query in
    let total = header_size + q + answer_size in
    let h = reply_header query in
    let a = reply_answer answer_ip in
    let behind = drop_head head labels tail twelve in
    let long = length-append head (encode labels tail) in
    let onto = ap length (encode-append labels tail) ∙ length-append (encode labels []) tail in
    let asked : q ≡ length (encode labels []) =
      ap (question_len (length query)) behind
      ∙ question_len-encode (length query) labels tail (omega (arith, long)) ls in
    let copied : take q (drop header_size query) ≡ encode labels [] =
      ap₂ take asked (behind ∙ encode-append labels tail) ∙ take-append (encode labels []) tail in
    let m = h ++ take q (drop header_size query) ++ a in
    let whole : length m ≡ total =
      ap length (ap (λ t. h ++ t ++ a) copied)
      ∙ omega (
        arith,
        asked,
        length-append h (encode labels []),
        length-append (h ++ encode labels []) a,
      ) in
    let built : build_dns_response query response answer_ip ≡ (m ++ drop total response, total) =
      build_dns_response_answers query response answer_ip (omega (arith, twelve, long)) counted
        (omega (arith, twelve, long, onto, asked, four)) (omega (arith, asked, room)) in
    let sent =
      ap (λ n. take n (m ++ drop total response)) (sym whole)
      ∙ take-append m (drop total response)
      ∙ ap (λ t. h ++ t ++ a) copied
      ∙ append_assoc h (encode labels []) a
      ∙ ap (◌++◌ h) (sym (encode-append labels a)) in
    let answer : take (build_dns_response query response answer_ip).1
          (build_dns_response query response answer_ip).0
        ≡ h ++ encode labels a =
      ap (λ r. take r.1 r.0) built ∙ sent in
    (
      answer,
      ap (λ t. extract_domain_name t out_cap) answer
          ∙ extract_domain_name-encode h labels a out_cap refl ls
          ∙ sym (extract_domain_name-encode head labels tail out_cap twelve ls),
    )
