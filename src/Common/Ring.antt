-- ===== src/Common/Ring.antt =====
-- A ring of fixed size that is written at the value of a running counter, and read backwards from it.
use esp32_rs_on_idf.Common.{
  ℕ, zero, suc, ◌+◌, ◌-◌, ◌*◌, ◌/◌, ◌%◌, ◌≤◌, ◌<◌, ◌≡◌, refl, sym, ap, ◌∙◌, ◌≢◌, inl, inr, List, [],
  ◌∷◌, length, get_or, set, take, length-set, get_or-set_self, get_or-set_ne, Bool-cases, leb,
  leb→le, arith,
}
use Prim.Native.Nat.{min}
use mathlib.Core.Path.{ap₂}
use native.Mathlib.Nat.{mod-lt, div-add-mod', mul-le-mul_right}

-- Two counts closer than the size are written at different places.
mod_apart : (cap i k : ℕ) → 0 < k → k < cap → (i + k) % cap ≢ i % cap
mod_apart cap i k pos less same =
    let a = (i + k) / cap in
    let b = i / cap in
    let ea : a * cap + (i + k) % cap ≡ i + k = div-add-mod' (i + k) cap in
    let eb : b * cap + i % cap ≡ i = div-add-mod' i cap in
    elim (Bool-cases (leb a b)) [
      | inl h ↦ omega (arith, mul-le-mul_right cap (leb→le a b h))
      | inr h ↦ let more : b + 1 ≤ a = ground (arith, h) in omega (arith, mul-le-mul_right cap more)
    ]

pub take-empty {ℓ} : {A : Type ℓ} (k : ℕ) → take {A = A} k [] ≡ []
take-empty zero = refl
take-empty (suc k) = refl

module _ {ℓ} {A : Type ℓ} (d : A) (cap : ℕ) where
  -- The last `n` places written before the counter reached `head`, newest first.
  abbrev pub recents : List A → ℕ → ℕ → List A
  recents slots head zero = []
  recents slots head (suc n) = get_or slots ((head - 1) % cap) d ∷ recents slots (head - 1) n

  -- A write further on leaves them alone.
  recents-set :
      (slots : List A) (x : A) (i head n : ℕ)
      → n ≤ head
      → head ≤ i
      → i < head - n + cap
      → recents (set slots (i % cap) x) head n ≡ recents slots head n
  recents-set slots x i head zero h1 h2 h3 = refl
  recents-set slots x i head (suc n) h1 h2 h3 =
      let apart : i % cap ≢ (head - 1) % cap = λ e.
        mod_apart cap (head - 1) (i - (head - 1)) (omega arith) (omega arith)
          (ap (λ (t : ℕ). t % cap) (omega arith) ∙ e) in
      ap₂ ◌∷◌ (get_or-set_ne slots (i % cap) ((head - 1) % cap) x d apart)
        (recents-set slots x i (head - 1) n (omega arith) (omega arith) (omega arith))

  take-recents :
      (slots : List A) (head k n : ℕ) → k ≤ n → take k (recents slots head n) ≡ recents slots head k
  take-recents slots head zero n h = refl
  take-recents slots head (suc k) zero h = absurd (omega arith)
  take-recents slots head (suc k) (suc n) h =
      ap (◌∷◌ (get_or slots ((head - 1) % cap) d)) (take-recents slots (head - 1) k n (omega arith))

  take-take : (k n : ℕ) (xs : List A) → k ≤ n → take k (take n xs) ≡ take k xs
  take-take zero n xs h = refl
  take-take (suc k) zero xs h = absurd (omega arith)
  take-take (suc k) (suc n) [] h = refl
  take-take (suc k) (suc n) (x ∷ xs) h = ap (◌∷◌ x) (take-take k n xs (omega arith))

  take-min-length : (k : ℕ) (xs : List A) → take (min k (length xs)) xs ≡ take k xs
  take-min-length zero xs =
      let e : min 0 (length xs) ≡ 0 = omega arith in ap (λ (t : ℕ). take t xs) e
  take-min-length (suc k) [] =
      let e : min (suc k) 0 ≡ 0 = omega arith in ap (λ (t : ℕ). take t []) e
  take-min-length (suc k) (x ∷ xs) =
      let e : min (suc k) (suc (length xs)) ≡ suc (min k (length xs)) = omega arith in
      ap (λ t. take t (x ∷ xs)) e ∙ ap (◌∷◌ x) (take-min-length k xs)

  take-cons : (k : ℕ) (x : A) (xs : List A) → 0 < k → take k (x ∷ xs) ≡ x ∷ take (k - 1) xs
  take-cons zero x xs h = absurd (omega arith)
  take-cons (suc k) x xs h = ap (λ t. x ∷ take t xs) (omega arith)

  -- The ring holds the newest entries of a history, which is kept newest first.
  pub record Holds (slots : List A) (head : ℕ) (history : List A) : Type ℓ where
    pub room : length slots ≡ cap
    pub counted : head ≡ length history
    pub newest : recents slots head (min cap head) ≡ take cap history

  pub write-Holds :
      (slots : List A) (head : ℕ) (history : List A) (x : A)
      → 0 < cap
      → Holds slots head history
      → Holds (set slots (head % cap) x) (head + 1) (x ∷ history)
  write-Holds slots head history x pos v =
      let written = set slots (head % cap) x in
      let m = min (cap - 1) head in
      let e1 : min cap (head + 1) ≡ suc m = omega arith in
      let e2 : head + 1 - 1 ≡ head = omega arith in
      let inside : head % cap < length slots = omega (arith, mod-lt head pos, v.room) in
      let older =
        sym (take-recents slots head m (min cap head) (omega arith))
        ∙ ap (take m) v.newest
        ∙ take-take m cap history (omega arith)
        ∙ ap (λ (t : ℕ). take (min (cap - 1) t) history) v.counted
        ∙ take-min-length (cap - 1) history in
      record {
        room = length-set slots (head % cap) x ∙ v.room;
        counted = omega (arith, v.counted);
        newest =
            ap (recents written (head + 1)) e1
            ∙ ap (λ t. get_or written (t % cap) d ∷ recents written t m) e2
            ∙ ap₂ ◌∷◌ (get_or-set_self slots (head % cap) x d inside)
                (recents-set slots x head head m (omega arith) (omega arith) (omega arith) ∙ older)
            ∙ sym (take-cons cap x history pos);
      }

  -- A ring that nothing has been written to.
  pub fresh-Holds : (slots : List A) → length slots ≡ cap → Holds slots 0 []
  fresh-Holds slots h =
      let e : min cap 0 ≡ 0 = omega arith in
      record { room = h; counted = refl; newest = ap (recents slots 0) e ∙ sym (take-empty cap) }
