-- ===== src/Application/AdcCal/Median.antt =====
-- What is stored as a point: the median of a batch without outliers.
use esp32_rs_on_idf.Common.{
  ℕ, zero, suc, ◌+◌, ◌-◌, ◌≤◌, ◌<◌, ◌≡◌, refl, ap, ◌∙◌, Bool, true, if◌then◌else◌, ltb, leb, leb→le,
  Bool-cases, if_split, inl, inr, some, List, [], ◌∷◌, length, get_or, All, All-get_or, arith,
}
use esp32_rs_on_idf.Application.AdcCal.{
  adc_cal_stab_samples, adc_cal_stab_tolerance, lower, upper, is_stable, insert, sort, median,
  read_batch,
}

some_inj {ℓ} : {A : Type ℓ} {a b : A} → some a ≡ some b → a ≡ b
some_inj h = cc

pub All-map {ℓ κ μ} :
    {A : Type ℓ} {P : A → Type κ} {Q : A → Type μ} (xs : List A)
    → ((a : A) → P a → Q a)
    → All P xs
    → All Q xs
All-map [] f h = tt
All-map (x ∷ xs) f h = (f x h.0, All-map xs f h.1)

All-both {ℓ κ μ} :
    {A : Type ℓ} (P : A → Type κ) (Q : A → Type μ) (xs : List A)
    → All P xs
    → All Q xs
    → All (λ a. P a × Q a) xs
All-both P Q [] h g = tt
All-both P Q (x ∷ xs) h g = ((h.0, g.0), All-both P Q xs h.1 g.1)

All-insert : (P : ℕ → Type 0) (x : ℕ) (ys : List ℕ) → P x → All P ys → All P (insert x ys)
unfolding insert
All-insert P x [] p h = (p, tt)
All-insert P x (y ∷ ys) p h =
    if_split (All P) (leb x y) _ _ (λ e. (p, h)) (λ e. (h.0, All-insert P x ys p h.1))

abbrev IsSorted : List ℕ → Type 0
IsSorted [] = Unit
IsSorted (x ∷ xs) = All (λ y. x ≤ y) xs × IsSorted xs

insert-IsSorted : (x : ℕ) (ys : List ℕ) → IsSorted ys → IsSorted (insert x ys)
unfolding insert
insert-IsSorted x [] h = (tt, tt)
insert-IsSorted x (y ∷ ys) h = elim (Bool-cases (leb x y)) [
  | inl e ↦ let below = leb→le x y e in rw e ((below, All-map ys (λ a g. omega arith) h.0), h)
  | inr e ↦
      let above : y ≤ x = ground arith in
      rw e (All-insert (λ a. y ≤ a) x ys above h.0, insert-IsSorted x ys h.1)
]

sort-IsSorted : (xs : List ℕ) → IsSorted (sort xs)
unfolding sort
sort-IsSorted [] = tt
sort-IsSorted (x ∷ xs) = insert-IsSorted x (sort xs) (sort-IsSorted xs)

-- How many entries pass a test.
abbrev pub count : (ℕ → Bool) → List ℕ → ℕ
count p [] = 0
count p (x ∷ xs) = (if p x then 1 else 0) + count p xs

count-insert : (p : ℕ → Bool) (x : ℕ) (ys : List ℕ) → count p (insert x ys) ≡ count p (x ∷ ys)
unfolding insert
count-insert p x [] = refl
count-insert p x (y ∷ ys) = ground (arith, count-insert p x ys)

count-sort : (p : ℕ → Bool) (xs : List ℕ) → count p (sort xs) ≡ count p xs
unfolding sort
count-sort p [] = refl
count-sort p (x ∷ xs) = ground (arith, count-sort p xs, count-insert p x (sort xs))

count-All : (p : ℕ → Bool) (xs : List ℕ) → All (λ x. p x ≡ true) xs → count p xs ≡ length xs
count-All p [] h = refl
count-All p (x ∷ xs) h = ground (arith, count-All p xs h.1, h.0)

length-insert : (x : ℕ) (ys : List ℕ) → length (insert x ys) ≡ suc (length ys)
unfolding insert
length-insert x [] = refl
length-insert x (y ∷ ys) = ground (arith, length-insert x ys)

length-sort : (xs : List ℕ) → length (sort xs) ≡ length xs
unfolding sort
length-sort [] = refl
length-sort (x ∷ xs) = length-insert x (sort xs) ∙ ap suc (length-sort xs)

-- In a sorted list an entry has the ones before it below, and the ones behind it above.
count_below :
    (ys : List ℕ) (i : ℕ) → IsSorted ys → i < length ys → i < count (λ y. leb y (get_or ys i 0)) ys
count_below [] i h lt = absurd (omega arith)
count_below (y ∷ ys) zero h lt = ground arith
count_below (y ∷ ys) (suc i) h lt =
    let rest = count_below ys i h.1 (omega arith) in
    let first : y ≤ get_or ys i 0 = All-get_or ys (λ a. y ≤ a) i 0 h.0 (omega arith) in ground arith

count_above :
    (ys : List ℕ) (i : ℕ)
    → IsSorted ys
    → i < length ys
    → length ys ≤ i + count (λ y. leb (get_or ys i 0) y) ys
count_above [] i h lt = absurd (omega arith)
count_above (y ∷ ys) zero h lt =
    let all = count-All (λ a. leb y a) ys (All-map ys (λ a le. ground arith) h.0) in ground arith
count_above (y ∷ ys) (suc i) h lt = let rest = count_above ys i h.1 (omega arith) in ground arith

-- Of the 32 samples of a batch at least 17 are at most the median, and 16 at least.
pub median_is_middle :
    (samples : List ℕ)
    → length samples ≡ adc_cal_stab_samples
    → (17 ≤ count (λ y. leb y (median samples)) samples)
      × (16 ≤ count (λ y. leb (median samples) y) samples)
median_is_middle samples e =
    let m = median samples in
    let size : length (sort samples) ≡ 32 = length-sort samples ∙ e in
    let below = count_below (sort samples) 16 (sort-IsSorted samples) (omega arith) in
    let above = count_above (sort samples) 16 (sort-IsSorted samples) (omega arith) in
    let same_below = count-sort (λ y. leb y m) samples in
    let same_above = count-sort (λ y. leb m y) samples in (omega arith, omega arith)

All-sort : (P : ℕ → Type 0) (xs : List ℕ) → All P xs → All P (sort xs)
unfolding sort
All-sort P [] h = tt
All-sort P (x ∷ xs) h = All-insert P x (sort xs) h.0 (All-sort P xs h.1)

lower-le : (low : ℕ) (xs : List ℕ) → (lower low xs ≤ low) × All (λ a. lower low xs ≤ a) xs
lower-le low [] = (omega arith, tt)
lower-le low (x ∷ xs) =
    let (start, rest) = lower-le (if ltb x low then x else low) xs in
    (ground arith, (ground arith, rest))

upper-le : (high : ℕ) (xs : List ℕ) → (high ≤ upper high xs) × All (λ a. a ≤ upper high xs) xs
upper-le high [] = (omega arith, tt)
upper-le high (x ∷ xs) =
    let (start, rest) = upper-le (if ltb high x then x else high) xs in
    (ground arith, (ground arith, rest))

-- Two numbers that differ by at most the tolerance.
abbrev pub IsClose : ℕ → ℕ → Type 0
IsClose a b = (a ≤ b + adc_cal_stab_tolerance) × (b ≤ a + adc_cal_stab_tolerance)

-- The samples of a stable batch are close to its median.
pub median-IsClose :
    (samples : List ℕ)
    → length samples ≡ adc_cal_stab_samples
    → is_stable samples ≡ true
    → All (λ a. IsClose a (median samples)) samples
median-IsClose [] e h = absurd (omega arith)
median-IsClose (s ∷ samples) e h =
    let (low, lows) = lower-le s samples in
    let (high, highs) = upper-le s samples in
    let lo = lower s samples in
    let hi = upper s samples in
    let tight : hi - lo ≤ 5 = leb→le (hi - lo) 5 h in
    let size : length (sort (s ∷ samples)) ≡ 32 = length-sort (s ∷ samples) ∙ e in
    let m_low : lo ≤ median (s ∷ samples) =
      All-get_or (sort (s ∷ samples)) (λ a. lo ≤ a) 16 0
        (All-sort (λ a. lo ≤ a) (s ∷ samples) (low, lows)) (omega arith) in
    let m_high : median (s ∷ samples) ≤ hi =
      All-get_or (sort (s ∷ samples)) (λ a. a ≤ hi) 16 0
        (All-sort (λ a. a ≤ hi) (s ∷ samples) (high, highs)) (omega arith) in
    let both = All-both (λ a. lo ≤ a) (λ a. a ≤ hi) samples lows highs in
    (
      (omega arith, omega arith),
      All-map samples (λ a g. (omega (arith, g.0, g.1), omega (arith, g.0, g.1))) both,
    )

module _ {W : Type 0} (read_sample : W → W × ℕ) where
  pub length-read_batch : (n : ℕ) (w : W) → length (read_batch read_sample n w).1 ≡ n
  unfolding read_batch
  length-read_batch zero w = refl
  length-read_batch (suc n) w = ap suc (length-read_batch n (read_sample w).0)
