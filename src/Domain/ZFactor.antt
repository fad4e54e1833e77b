-- ===== src/Domain/ZFactor.antt =====
-- components/domain/include/domain/z_factor.hpp: the factor that turns a mass of water into a
-- volume, between the points of a table, and the steps per millilitre that follow from it.
pub mod Inside
use esp32_rs_on_idf.Common.{ℕ, suc, ◌+◌, ◌-◌, if◌then◌else◌, List, [], ◌∷◌, length, get_or, take}
use esp32_rs_on_idf.Common.Float.{FloatOps, lit, ltf, lef, ◌+f◌, ◌-f◌, ◌*f◌, ◌/f◌}

abbrev pub z_table_rows : ℕ
z_table_rows = 31

abbrev pub z_table_cols : ℕ
z_table_cols = 6

-- The loop that keeps the last place whose entry is at most `x`.
unfoldable pub last_at_most : {F : Type 0} ⦃o : FloatOps F⦄ → List F → ℕ → ℕ → F → ℕ
last_at_most [] i best x = best
last_at_most (z ∷ zs) i best x = last_at_most zs (suc i) (if lef z x then i else best) x

module _ {F : Type 0} ⦃o : FloatOps F⦄ where
  abbrev pub z_temps : List F
  z_temps =
      lit 15 0
      ∷ lit 155 1
      ∷ lit 16 0
      ∷ lit 165 1
      ∷ lit 17 0
      ∷ lit 175 1
      ∷ lit 18 0
      ∷ lit 185 1
      ∷ lit 19 0
      ∷ lit 195 1
      ∷ lit 20 0
      ∷ lit 205 1
      ∷ lit 21 0
      ∷ lit 215 1
      ∷ lit 22 0
      ∷ lit 225 1
      ∷ lit 23 0
      ∷ lit 235 1
      ∷ lit 24 0
      ∷ lit 245 1
      ∷ lit 25 0
      ∷ lit 255 1
      ∷ lit 26 0
      ∷ lit 265 1
      ∷ lit 27 0
      ∷ lit 275 1
      ∷ lit 28 0
      ∷ lit 285 1
      ∷ lit 29 0
      ∷ lit 295 1
      ∷ lit 30 0
      ∷ []

  abbrev pub z_pressures : List F
  z_pressures = lit 80 0 ∷ lit 853 1 ∷ lit 907 1 ∷ lit 96 0 ∷ lit 1013 1 ∷ lit 1067 1 ∷ []

  -- A row of the table.
  abbrev row : F → F → F → F → F → F → List F
  row a b c d e f = a ∷ b ∷ c ∷ d ∷ e ∷ f ∷ []

  abbrev pub z_table : List (List F)
  z_table =
      row (lit 10018 4) (lit 10018 4) (lit 10019 4) (lit 10019 4) (lit 1002 3) (lit 1002 3)
      ∷ row (lit 10018 4) (lit 10018 4) (lit 10019 4) (lit 1002 3) (lit 1002 3) (lit 10021 4)
      ∷ row (lit 10019 4) (lit 1002 3) (lit 1002 3) (lit 10021 4) (lit 10022 4) (lit 10022 4)
      ∷ row (lit 1002 3) (lit 1002 3) (lit 10021 4) (lit 10022 4) (lit 10022 4) (lit 10023 4)
      ∷ row (lit 10021 4) (lit 10021 4) (lit 10022 4) (lit 10022 4) (lit 10023 4) (lit 10023 4)
      ∷ row (lit 10022 4) (lit 10022 4) (lit 10023 4) (lit 10024 4) (lit 10024 4) (lit 10024 4)
      ∷ row (lit 10022 4) (lit 10023 4) (lit 10024 4) (lit 10024 4) (lit 10025 4) (lit 10025 4)
      ∷ row (lit 10023 4) (lit 10024 4) (lit 10025 4) (lit 10025 4) (lit 10026 4) (lit 10026 4)
      ∷ row (lit 10024 4) (lit 10025 4) (lit 10025 4) (lit 10026 4) (lit 10027 4) (lit 10027 4)
      ∷ row (lit 10025 4) (lit 10026 4) (lit 10026 4) (lit 10027 4) (lit 10028 4) (lit 10028 4)
      ∷ row (lit 10026 4) (lit 10027 4) (lit 10027 4) (lit 10028 4) (lit 10029 4) (lit 10029 4)
      ∷ row (lit 10027 4) (lit 10028 4) (lit 10028 4) (lit 10029 4) (lit 1003 3) (lit 1003 3)
      ∷ row (lit 10028 4) (lit 10029 4) (lit 10031 4) (lit 10031 4) (lit 10032 4) (lit 10032 4)
      ∷ row (lit 1003 3) (lit 1003 3) (lit 10032 4) (lit 10032 4) (lit 10033 4) (lit 10033 4)
      ∷ row (lit 10031 4) (lit 10031 4) (lit 10033 4) (lit 10033 4) (lit 10034 4) (lit 10035 4)
      ∷ row (lit 10032 4) (lit 10032 4) (lit 10034 4) (lit 10035 4) (lit 10035 4) (lit 10036 4)
      ∷ row (lit 10033 4) (lit 10033 4) (lit 10035 4) (lit 10036 4) (lit 10036 4) (lit 10037 4)
      ∷ row (lit 10034 4) (lit 10035 4) (lit 10036 4) (lit 10037 4) (lit 10038 4) (lit 10038 4)
      ∷ row (lit 10035 4) (lit 10036 4) (lit 10037 4) (lit 10038 4) (lit 10039 4) (lit 10039 4)
      ∷ row (lit 10037 4) (lit 10037 4) (lit 10038 4) (lit 10039 4) (lit 1004 3) (lit 10041 4)
      ∷ row (lit 10038 4) (lit 10038 4) (lit 10039 4) (lit 1004 3) (lit 10041 4) (lit 10042 4)
      ∷ row (lit 10039 4) (lit 1004 3) (lit 10041 4) (lit 10041 4) (lit 10042 4) (lit 10043 4)
      ∷ row (lit 1004 3) (lit 10041 4) (lit 10042 4) (lit 10042 4) (lit 10043 4) (lit 10045 4)
      ∷ row (lit 10042 4) (lit 10042 4) (lit 10043 4) (lit 10044 4) (lit 10045 4) (lit 10046 4)
      ∷ row (lit 10043 4) (lit 10044 4) (lit 10044 4) (lit 10045 4) (lit 10048 4) (lit 10049 4)
      ∷ row (lit 10046 4) (lit 10046 4) (lit 10047 4) (lit 10048 4) (lit 10048 4) (lit 10049 4)
      ∷ row (lit 10046 4) (lit 10046 4) (lit 10047 4) (lit 10048 4) (lit 10049 4) (lit 10049 4)
      ∷ row (lit 10047 4) (lit 10048 4) (lit 10048 4) (lit 10049 4) (lit 1005 3) (lit 1005 3)
      ∷ row (lit 10049 4) (lit 10049 4) (lit 1005 3) (lit 10051 4) (lit 10051 4) (lit 10052 4)
      ∷ row (lit 1005 3) (lit 10051 4) (lit 10051 4) (lit 10052 4) (lit 10053 4) (lit 10053 4)
      ∷ row (lit 10052 4) (lit 10052 4) (lit 10053 4) (lit 10054 4) (lit 10054 4) (lit 10055 4)
      ∷ []

  abbrev at : List F → ℕ → F
  at zs i = get_or zs i (lit 0 0)

  abbrev cell : ℕ → ℕ → F
  cell i j = at (get_or z_table i []) j

  abbrev lerp : F → F → F → F
  lerp a b t = a +f (b -f a) *f t

  abbrev clamp_in : List F → ℕ → F → F
  clamp_in zs last x =
      let y = if ltf x (at zs 0) then at zs 0 else x in if ltf (at zs last) y then at zs last else y

  -- The place in the table, of a value that is within it.
  abbrev pub place : List F → ℕ → F → ℕ
  place zs size x = last_at_most (take (size - 1) zs) 0 0 x

  unfoldable pub get_z_factor : F → F → F
  get_z_factor temperature pressure =
      let t = clamp_in z_temps (z_table_rows - 1) temperature in
      let p = clamp_in z_pressures (z_table_cols - 1) pressure in
      let ti = place z_temps z_table_rows t in
      let pi = place z_pressures z_table_cols p in
      let t_frac = (t -f at z_temps ti) /f (at z_temps (ti + 1) -f at z_temps ti) in
      let p_frac = (p -f at z_pressures pi) /f (at z_pressures (pi + 1) -f at z_pressures pi) in
      let z_t1 = lerp (cell ti pi) (cell ti (pi + 1)) p_frac in
      let z_t2 = lerp (cell (ti + 1) pi) (cell (ti + 1) (pi + 1)) p_frac in lerp z_t1 z_t2 t_frac

  unfoldable pub calculate_new_steps_per_ml : F → F → F → F
  calculate_new_steps_per_ml current_spm target_vol_ml actual_vol_ml =
      if ltf actual_vol_ml (lit 1 4)
      then current_spm
      else current_spm *f target_vol_ml /f actual_vol_ml
