-- ===== src/Domain/ZFactor/Inside.antt =====
-- The lookups of the z factor stay inside its tables.
use esp32_rs_on_idf.Common.{
  ℕ, suc, ◌+◌, ◌<◌, ◌≤◌, ◌≡◌, refl, if◌then◌else◌, List, [], ◌∷◌, length, get_or, take, All,
  All-get_or, arith,
}
use esp32_rs_on_idf.Common.Float.{FloatOps, lef}
use esp32_rs_on_idf.Domain.ZFactor.{
  z_table_rows, z_table_cols, z_temps, z_pressures, z_table, last_at_most, place,
}

module _ (F : Type 0) ⦃o : FloatOps F⦄ where
  rows_full : All (λ r. length r ≡ 6) (z_table {F = F})
  rows_full = (
    refl,
    (
      refl,
      (
        refl,
        (
          refl,
          (
            refl,
            (
              refl,
              (
                refl,
                (
                  refl,
                  (
                    refl,
                    (
                      refl,
                      (
                        refl,
                        (
                          refl,
                          (
                            refl,
                            (
                              refl,
                              (
                                refl,
                                (
                                  refl,
                                  (
                                    refl,
                                    (
                                      refl,
                                      (
                                        refl,
                                        (
                                          refl,
                                          (
                                            refl,
                                            (
                                              refl,
                                              (
                                                refl,
                                                (
                                                  refl,
                                                  (
                                                    refl,
                                                    (
                                                      refl,
                                                      (refl, (refl, (refl, (refl, (refl, tt))))),
                                                    ),
                                                  ),
                                                ),
                                              ),
                                            ),
                                          ),
                                        ),
                                      ),
                                    ),
                                  ),
                                ),
                              ),
                            ),
                          ),
                        ),
                      ),
                    ),
                  ),
                ),
              ),
            ),
          ),
        ),
      ),
    ),
  )

  length-row : (i : ℕ) → i < 31 → length (get_or (z_table {F = F}) i []) ≡ 6
  length-row i h = All-get_or z_table (λ r. length r ≡ 6) i [] rows_full h

module _ {F : Type 0} ⦃o : FloatOps F⦄ where
  last_at_most-lt :
      (zs : List F) (i best bound : ℕ) (x : F)
      → i + length zs ≤ bound
      → best < bound
      → last_at_most zs i best x < bound
  unfolding last_at_most
  last_at_most-lt [] i best bound x h lt = lt
  last_at_most-lt (z ∷ zs) i best bound x h lt =
      last_at_most-lt zs (suc i) (if lef z x then i else best) bound x (omega arith) (ground arith)

  -- Every place that the interpolation reads, and the next one, is inside its table, for all floats.
  pub place_inside :
      (t p : F)
      → let ti = place z_temps z_table_rows t in
        let pi = place z_pressures z_table_cols p in
        (ti + 1 < length (z_temps {F = F}))
        × (pi + 1 < length (z_pressures {F = F}))
        × (ti + 1 < length (z_table {F = F}))
        × (pi + 1 < length (get_or (z_table {F = F}) ti []))
        × (pi + 1 < length (get_or (z_table {F = F}) (ti + 1) []))
  place_inside t p =
      let ti : place z_temps z_table_rows t < 30 =
        last_at_most-lt (take 30 z_temps) 0 0 30 t (omega arith) (omega arith) in
      let pi : place z_pressures z_table_cols p < 5 =
        last_at_most-lt (take 5 z_pressures) 0 0 5 p (omega arith) (omega arith) in
      let row = length-row F (place z_temps z_table_rows t) (omega arith) in
      let next = length-row F (place z_temps z_table_rows t + 1) (omega arith) in
      (omega arith, omega arith, omega arith, rw row (omega arith), rw next (omega arith))
