-- ===== src/Drivers/TmcUart/Checksum.antt =====
-- The checksum.
use Prim.Native.Nat.{bit_xor}
use esp32_rs_on_idf.Common.{
  Bool-cases, inl, inr, false, ℕ, zero, suc, ◌+◌, ◌/◌, ◌%◌, ◌<◌, ◌≡◌, refl, Bool, true, ◌&&◌, ◌==◌,
  ltb, ◌≢◌, sym, ap, ◌∙◌, ==_iff, List, [], ◌∷◌, ◌++◌, All, if◌then◌else◌, arith,
}
use esp32_rs_on_idf.Drivers.TmcUart.{crc_round, crc_rounds, crc_from, compute_crc}

-- A test that every number below the bound passes.
passes : (ℕ → Bool) → ℕ → Bool
passes test zero = true
passes test (suc k) = if test k then passes test k else false

passes-at : (test : ℕ → Bool) (bound k : ℕ) → passes test bound ≡ true → k < bound → test k ≡ true
unfolding passes
passes-at test zero k all small = absurd (omega arith)
passes-at test (suc bound) k all small = elim (Bool-cases (test bound)) [
  | inl good ↦ ground (arith, good, passes-at test bound k)
  | inr bad ↦ cc
]

-- `bit_xor` on bytes: it stays a byte, and undoes itself.
abbrev xor_check : ℕ → ℕ → Bool
xor_check x d =
    (bit_xor (bit_xor x d) d == x) && (bit_xor x (bit_xor x d) == d) && ltb (bit_xor x d) 256

xor_table : passes (λ x. passes (xor_check x) 256) 256 ≡ true
unfolding passes
xor_table = refl

record XorLaws (x d : ℕ) : Type 0 where
  pub right : bit_xor (bit_xor x d) d ≡ x
  pub left : bit_xor x (bit_xor x d) ≡ d
  pub byte : bit_xor x d < 256

xor-XorLaws : (x d : ℕ) → x < 256 → d < 256 → XorLaws x d
xor-XorLaws x d hx hd =
    let h =
      passes-at (xor_check x) 256 d (passes-at (λ x. passes (xor_check x) 256) 256 x xor_table hx)
        hd in
    ground (arith, h)

un_round : ℕ → ℕ
un_round c = if c % 2 == 1 then bit_xor c 7 / 2 + 128 else c / 2

round_table : passes (λ x. un_round (crc_round x) == x) 256 ≡ true
unfolding passes un_round crc_round
round_table = refl

un_round-crc_round : (x : ℕ) → x < 256 → un_round (crc_round x) ≡ x
un_round-crc_round x h = (==_iff _ x).0 (passes-at _ 256 x round_table h)

crc_round_lt : (x : ℕ) → crc_round x < 256
unfolding crc_round
crc_round_lt x = ground arith

crc_rounds_lt : (n x : ℕ) → x < 256 → crc_rounds n x < 256
unfolding crc_rounds
crc_rounds_lt zero x h = h
crc_rounds_lt (suc n) x h = crc_rounds_lt n (crc_round x) (crc_round_lt x)

crc_rounds-inj : (n x y : ℕ) → x < 256 → y < 256 → crc_rounds n x ≡ crc_rounds n y → x ≡ y
unfolding crc_rounds
crc_rounds-inj zero x y hx hy e = e
crc_rounds-inj (suc n) x y hx hy e =
    let e1 = crc_rounds-inj n (crc_round x) (crc_round y) (crc_round_lt x) (crc_round_lt y) e in
    sym (un_round-crc_round x hx) ∙ ap un_round e1 ∙ un_round-crc_round y hy

abbrev pub IsByte : ℕ → Type 0
IsByte n = n < 256

-- The checksum that a byte leads to, from two states or by two bytes.
crc_from-inj :
    (bytes : List ℕ) (c d : ℕ)
    → All IsByte bytes
    → c < 256
    → d < 256
    → crc_from c bytes ≡ crc_from d bytes
    → c ≡ d
unfolding crc_from
crc_from-inj [] c d all hc hd e = e
crc_from-inj (b ∷ bytes) c d (hb, all) hc hd e =
    let vc = xor-XorLaws c b hc hb in
    let vd = xor-XorLaws d b hd hb in
    let e1 =
      crc_from-inj bytes (crc_rounds 8 (bit_xor c b)) (crc_rounds 8 (bit_xor d b)) all
        (crc_rounds_lt 8 _ vc.byte) (crc_rounds_lt 8 _ vd.byte) e in
    let e2 = crc_rounds-inj 8 _ _ vc.byte vd.byte e1 in
    sym vc.right ∙ ap (λ z. bit_xor z b) e2 ∙ vd.right

changed_byte :
    (before after : List ℕ) (c x y : ℕ)
    → All IsByte before
    → All IsByte after
    → c < 256
    → x < 256
    → y < 256
    → crc_from c (before ++ x ∷ after) ≡ crc_from c (before ++ y ∷ after)
    → x ≡ y
unfolding crc_from
changed_byte [] after c x y hb ha hc hx hy e =
    let vx = xor-XorLaws c x hc hx in
    let vy = xor-XorLaws c y hc hy in
    let e1 = crc_from-inj after _ _ ha (crc_rounds_lt 8 _ vx.byte) (crc_rounds_lt 8 _ vy.byte) e in
    let e2 = crc_rounds-inj 8 _ _ vx.byte vy.byte e1 in sym vx.left ∙ ap (bit_xor c) e2 ∙ vy.left
changed_byte (b ∷ before) after c x y (hb, all) ha hc hx hy e =
    let v = xor-XorLaws c b hc hb in
    changed_byte before after (crc_rounds 8 (bit_xor c b)) x y all ha (crc_rounds_lt 8 _ v.byte) hx
      hy e

-- The checksum detects every change of one byte: messages of bytes that differ in one place only
-- have different checksums.
pub compute_crc_detects :
    (before after : List ℕ) (x y : ℕ)
    → All IsByte before
    → All IsByte after
    → x < 256
    → y < 256
    → x ≢ y
    → compute_crc (before ++ x ∷ after) ≢ compute_crc (before ++ y ∷ after)
unfolding compute_crc
compute_crc_detects before after x y hb ha hx hy ne e =
    ne (changed_byte before after 0 x y hb ha (omega arith) hx hy e)

crc_from_lt : (bytes : List ℕ) (c : ℕ) → All IsByte bytes → c < 256 → crc_from c bytes < 256
unfolding crc_from
crc_from_lt [] c all hc = hc
crc_from_lt (b ∷ bytes) c (hb, all) hc =
    crc_from_lt bytes (crc_rounds 8 (bit_xor c b)) all
      (crc_rounds_lt 8 _ (xor-XorLaws c b hc hb).byte)

pub compute_crc_lt : (bytes : List ℕ) → All IsByte bytes → compute_crc bytes < 256
unfolding compute_crc
compute_crc_lt bytes all = crc_from_lt bytes 0 all (omega arith)
