-- ===== src/Application/AdcCal/Attempts.antt =====
-- The attempts of a measurement of the ADC, over the batches that the outside gives.
use esp32_rs_on_idf.Common.{
  ℕ, zero, suc, ◌<◌, ◌≡◌, refl, true, false, if_split, none, some, Option, List, length, arith,
}
use esp32_rs_on_idf.Application.AdcCal.{adc_cal_stab_samples, is_stable, read_batch, stabilize}
use esp32_rs_on_idf.Application.AdcCal.Median.{length-read_batch}

module _ {W : Type 0} (read_sample : W → W × ℕ) where
  -- The outside after some whole batches of samples.
  abbrev pub after_batches : ℕ → W → W
  after_batches zero w = w
  after_batches (suc k) w = after_batches k (read_batch read_sample adc_cal_stab_samples w).0

  -- The batch that is read after `k` others.
  abbrev pub batch_at : ℕ → W → W × List ℕ
  batch_at k w = read_batch read_sample adc_cal_stab_samples (after_batches k w)

  -- The first stable batch among the next ones, with what it leaves.
  pub record FirstStable (attempts : ℕ) (w w1 : W) (samples : List ℕ) : Type 0 where
    pub at : ℕ
    pub in_time : at < attempts
    pub read : batch_at at w ≡ (w1, samples)
    pub stable : is_stable samples ≡ true
    pub earlier : (j : ℕ) → j < at → is_stable (batch_at j w).1 ≡ false
    pub size : length samples ≡ adc_cal_stab_samples

  -- No batch is stable, and all were read.
  pub record NoneStable (attempts : ℕ) (w w1 : W) : Type 0 where
    pub all_read : w1 ≡ after_batches attempts w
    pub unstable : (j : ℕ) → j < attempts → is_stable (batch_at j w).1 ≡ false

  abbrev pub Stabilized : ℕ → W → W × Option (List ℕ) → Type 0
  Stabilized attempts w (w1, none) = NoneStable attempts w w1
  Stabilized attempts w (w1, some samples) = FirstStable attempts w w1 samples

  unstable_from :
      (n : ℕ) (w : W)
      → is_stable (batch_at 0 w).1 ≡ false
      → ((j : ℕ)
          → j < n
          → is_stable (batch_at j (read_batch read_sample adc_cal_stab_samples w).0).1 ≡ false)
      → (j : ℕ) → j < suc n
      → is_stable (batch_at j w).1 ≡ false
  unstable_from n w first rest zero h = first
  unstable_from n w first rest (suc j) h = rest j (omega arith)

  -- A batch that is not stable, before the others.
  later-Stabilized :
      (attempts : ℕ) (w : W) (r : W × Option (List ℕ))
      → is_stable (read_batch read_sample adc_cal_stab_samples w).1 ≡ false
      → Stabilized attempts (read_batch read_sample adc_cal_stab_samples w).0 r
      → Stabilized (suc attempts) w r
  later-Stabilized attempts w (w1, none) first h = record {
    all_read = h.all_read;
    unstable = unstable_from attempts w first h.unstable;
  }
  later-Stabilized attempts w (w1, some samples) first h = record {
    at = suc h.at;
    in_time = omega (arith, h.in_time);
    read = h.read;
    stable = h.stable;
    earlier = unstable_from h.at w first h.earlier;
    size = h.size;
  }

  -- The attempts stop at the first stable batch, and only then.
  pub stabilize-Stabilized :
      (attempts : ℕ) (w : W) → Stabilized attempts w (stabilize read_sample attempts w)
  unfolding stabilize
  stabilize-Stabilized zero w = record { all_read = refl; unstable = λ j h. absurd (omega arith) }
  stabilize-Stabilized (suc n) w =
      let (w1, batch) = read_batch read_sample adc_cal_stab_samples w in
      if_split (Stabilized (suc n) w) (is_stable batch) (w1, some batch)
        (stabilize read_sample n w1)
        (λ e. record {
          at = 0;
          in_time = omega arith;
          read = refl;
          stable = e;
          earlier = λ j h. absurd (omega arith);
          size = length-read_batch read_sample adc_cal_stab_samples w;
        })
        (λ e. later-Stabilized n w (stabilize read_sample n w1) e (stabilize-Stabilized n w1))
