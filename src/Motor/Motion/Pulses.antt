-- ===== src/Motor/Motion/Pulses.antt =====
-- The symbols that are sent to the RMT, in their order.
use esp32_rs_on_idf.Common.{
  ℕ, zero, suc, ◌+◌, ◌≡◌, refl, sym, ap, ◌∙◌, List, [], ◌∷◌, ◌++◌, map, take, drop, replicate,
  arith,
}
use mathlib.Core.List.{append_assoc, append-nil}
use esp32_rs_on_idf.Motor.Machine.{Symbol, Machine}

-- The symbols of the transmissions, which are kept newest first.
abbrev pub symbols_of : List (List Symbol) → List Symbol
symbols_of [] = []
symbols_of (newest ∷ older) = symbols_of older ++ newest

symbols_of-append :
    (xs ys : List (List Symbol)) → symbols_of (xs ++ ys) ≡ symbols_of ys ++ symbols_of xs
symbols_of-append [] ys = sym (append-nil (symbols_of ys))
symbols_of-append (x ∷ xs) ys =
    ap (λ t. t ++ x) (symbols_of-append xs ys) ∙ append_assoc (symbols_of ys) (symbols_of xs) x

-- Between two machines exactly these symbols were sent.
pub record Sends {F : Type 0} (symbols : List Symbol) (m n : Machine F) : Type 0 where
  pub chunks : List (List Symbol)
  pub sent : n.sent ≡ chunks ++ m.sent
  pub all_sent : symbols_of chunks ≡ symbols

module _ {F : Type 0} where
  pub Sends-nothing : (m n : Machine F) → n.sent ≡ m.sent → Sends [] m n
  Sends-nothing m n e = record { chunks = []; sent = e; all_sent = refl }

  pub Sends-trans :
      (xs ys : List Symbol) (a b c : Machine F) → Sends xs a b → Sends ys b c → Sends (xs ++ ys) a c
  Sends-trans xs ys a b c p q = record {
    chunks = q.chunks ++ p.chunks;
    sent = q.sent ∙ ap (λ t. q.chunks ++ t) p.sent ∙ sym (append_assoc q.chunks p.chunks a.sent);
    all_sent =
        symbols_of-append q.chunks p.chunks
        ∙ ap (λ t. t ++ symbols_of q.chunks) p.all_sent
        ∙ ap (λ t. xs ++ t) q.all_sent;
  }

module _ {ℓ κ} {A : Type ℓ} {B : Type κ} (f : A → B) where
  pub map-split : (n : ℕ) (xs : List A) → map f (take n xs) ++ map f (drop n xs) ≡ map f xs
  map-split zero xs = refl
  map-split (suc n) [] = refl
  map-split (suc n) (x ∷ xs) = ap (◌∷◌ (f x)) (map-split n xs)

  pub map-replicate : (n : ℕ) (a : A) → map f (replicate n a) ≡ replicate n (f a)
  map-replicate zero a = refl
  map-replicate (suc n) a = ap (◌∷◌ (f a)) (map-replicate n a)

pub replicate-append {ℓ} :
    {A : Type ℓ} (m n k : ℕ) (a : A) → m + n ≡ k → replicate m a ++ replicate n a ≡ replicate k a
replicate-append zero n k a e = let same : n ≡ k = omega arith in ap (λ j. replicate j a) same
replicate-append (suc m) n zero a e = absurd (omega arith)
replicate-append (suc m) n (suc k) a e = ap (◌∷◌ a) (replicate-append m n k a (omega arith))
