-- ===== src/Domain/Dns/Names.antt =====
-- The name that a message starts with.
use esp32_rs_on_idf.Common.{
  ℕ, zero, suc, ◌+◌, ◌≤◌, ◌<◌, ◌≡◌, refl, sym, ap, ◌∙◌, Bool, true, false, if◌then◌else◌, ltb, leb,
  ◌==◌, List, [], ◌∷◌, ◌++◌, length, take, drop, All, length-append, take-append, drop-append,
  else_is, then_is, arith,
}
use esp32_rs_on_idf.Domain.Dns.{header_size, extract_loop, extract_domain_name}
use mathlib.Core.List.{append_assoc, append-nil}

-- A name on the wire, its labels first, before the rest of a message.
abbrev pub encode : List (List ℕ) → List ℕ → List ℕ
encode [] tail = 0 ∷ tail
encode (l ∷ labels) tail = length l ∷ l ++ encode labels tail

-- The name as it is read: its labels with dots between them.
abbrev pub dotted_rest : List (List ℕ) → List ℕ
dotted_rest [] = []
dotted_rest (l ∷ labels) = 46 ∷ l ++ dotted_rest labels

abbrev pub dotted : List (List ℕ) → List ℕ
dotted [] = []
dotted (l ∷ labels) = l ++ dotted_rest labels

abbrev pub Labels : List (List ℕ) → Type 0
Labels labels = All (λ l. 0 < length l) labels

-- A text, if it leaves room for its NUL.
abbrev pub fitting : ℕ → List ℕ → List ℕ
fitting out_cap text = if ltb (length text) out_cap then text else []

guarded :
    (b : Bool) {x z : List ℕ}
    → (b ≡ true → z ≡ [])
    → (b ≡ false → x ≡ z)
    → (if b then [] else x) ≡ z
guarded true h e = sym (h refl)
guarded false h e = e refl

too_long : (out_cap : ℕ) (text : List ℕ) → out_cap ≤ length text → fitting out_cap text ≡ []
too_long out_cap text h =
    let no_room : ltb (length text) out_cap ≡ false = ground arith in else_is _ text [] no_room

dot_room :
    (first : Bool) (written : List ℕ) (len n out_cap : ℕ)
    → length (if first then written else written ++ 46 ∷ []) + len ≤ n
    → (if first then false else leb out_cap (length written + 1)) ≡ true
    → out_cap ≤ n
dot_room true written len n out_cap fits e = cc
dot_room false written len n out_cap fits e =
    ground (arith, e, fits, length-append written (46 ∷ []))

-- A label before the rest of the name.
extract_label :
    (fuel out_cap : ℕ) (first : Bool) (written l rest text : List ℕ)
    → 0 < length l
    → let before = if first then written else written ++ 46 ∷ [] in
      length before + length l ≤ length text
      → (length before + length l < out_cap
          → extract_loop fuel out_cap false (before ++ l) rest ≡ fitting out_cap text)
      → extract_loop (suc fuel) out_cap first written (length l ∷ l ++ rest) ≡ fitting out_cap text
unfolding extract_loop
extract_label fuel out_cap first written [] rest text some_byte fits ih = absurd (omega arith)
extract_label fuel out_cap first written (c ∷ cs) rest text some_byte fits ih =
    let l = c ∷ cs in
    let before = if first then written else written ++ 46 ∷ [] in
    let whole : ltb (length (l ++ rest)) (length l) ≡ false =
      ground (arith, length-append l rest) in
    let ih' = λ (over : leb out_cap (length before + length l) ≡ false).
      let found : extract_loop fuel out_cap false (before ++ take (length l) (l ++ rest))
            (drop (length l) (l ++ rest))
          ≡ fitting out_cap text =
        rw (take-append l rest) (rw (drop-append l rest) (ih (ground (arith, over)))) in
      found in
    else_is _ [] _ whole
    ∙ guarded (if first then false else leb out_cap (length written + 1))
        (λ e.
          too_long out_cap text (dot_room first written (length l) (length text) out_cap fits e))
        (λ fits_dot.
          guarded (leb out_cap (length before + length l))
            (λ e. too_long out_cap text (ground (arith, e, fits))) ih')

extract_rest :
    (fuel out_cap : ℕ) (written : List ℕ) (labels : List (List ℕ)) (tail : List ℕ)
    → length (encode labels tail) ≤ fuel
    → length written < out_cap
    → Labels labels
    → extract_loop fuel out_cap false written (encode labels tail)
      ≡ fitting out_cap (written ++ dotted_rest labels)
unfolding extract_loop
extract_rest zero out_cap written [] tail enough room ls = absurd (omega arith)
extract_rest (suc fuel) out_cap written [] tail enough room ls =
    let same = append-nil written in
    let open_end : ltb (length written) out_cap ≡ true = ground arith in
    sym (ap (fitting out_cap) same ∙ then_is _ written [] open_end)
extract_rest zero out_cap written (l ∷ labels) tail enough room ls = absurd (omega arith)
extract_rest (suc fuel) out_cap written (l ∷ labels) tail enough room (some_byte, ls) =
    let rest = dotted_rest labels in
    let before = written ++ 46 ∷ [] in
    let assoc : (before ++ l) ++ rest ≡ written ++ 46 ∷ (l ++ rest) =
      append_assoc before l rest ∙ append_assoc written (46 ∷ []) (l ++ rest) in
    extract_label fuel out_cap false written l (encode labels tail) (written ++ 46 ∷ (l ++ rest))
      some_byte
      (omega (
        arith,
        length-append written (46 ∷ (l ++ rest)),
        length-append written (46 ∷ []),
        length-append l rest,
      ))
      (λ room'.
        extract_rest fuel out_cap (before ++ l) labels tail
          (omega (arith, length-append l (encode labels tail)))
          (omega (arith, length-append before l)) ls
        ∙ ap (fitting out_cap) assoc)

extract_first :
    (fuel out_cap : ℕ) (labels : List (List ℕ)) (tail : List ℕ)
    → length (encode labels tail) ≤ fuel
    → 0 < out_cap
    → Labels labels
    → extract_loop fuel out_cap true [] (encode labels tail) ≡ fitting out_cap (dotted labels)
unfolding extract_loop
extract_first zero out_cap [] tail enough room ls = absurd (omega arith)
extract_first (suc fuel) out_cap [] tail enough room ls =
    let open_end : ltb 0 out_cap ≡ true = ground arith in sym (then_is _ [] [] open_end)
extract_first zero out_cap (l ∷ labels) tail enough room ls = absurd (omega arith)
extract_first (suc fuel) out_cap (l ∷ labels) tail enough room (some_byte, ls) =
    extract_label fuel out_cap true [] l (encode labels tail) (l ++ dotted_rest labels) some_byte
      (omega (arith, length-append l (dotted_rest labels)))
      (λ room'.
        extract_rest fuel out_cap l labels tail
          (omega (arith, length-append l (encode labels tail))) (omega arith) ls)

pub drop_head :
    (head : List ℕ) (labels : List (List ℕ)) (tail : List ℕ)
    → length head ≡ header_size
    → drop header_size (head ++ encode labels tail) ≡ encode labels tail
drop_head head labels tail twelve =
    ap (λ n. drop n (head ++ encode labels tail)) (sym twelve)
    ∙ drop-append head (encode labels tail)

-- From a query, or an answer, that starts with a header and the labels of a name, the name is read
-- with dots between its labels; as the empty text, if the buffer has no room for it and its NUL.
pub extract_domain_name-encode :
    (head : List ℕ) (labels : List (List ℕ)) (tail : List ℕ) (out_cap : ℕ)
    → length head ≡ header_size
    → Labels labels
    → extract_domain_name (head ++ encode labels tail) out_cap ≡ fitting out_cap (dotted labels)
unfolding extract_domain_name
extract_domain_name-encode head labels tail out_cap twelve ls =
    let message = head ++ encode labels tail in
    let long : ltb (length message) header_size ≡ false =
      ground (arith, twelve, length-append head (encode labels tail)) in
    let behind = drop_head head labels tail twelve in
    else_is _ [] _ long
    ∙ guarded (out_cap == 0) (λ e. too_long out_cap (dotted labels) (ground (arith, e)))
        (λ e.
          ap (extract_loop (length message) out_cap true []) behind
          ∙ extract_first (length message) out_cap labels tail
              (omega (arith, length-append head (encode labels tail))) (ground (arith, e)) ls)
