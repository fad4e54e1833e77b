-- ===== src/Application/BuretteCal/Saved.antt =====
-- What is saved of a calibration, and what a later reading finds.
use esp32_rs_on_idf.Common.{
  ◌<◌, ◌≡◌, refl, ap, ◌∙◌, Bool, true, false, Option, none, some, List, [], ◌∷◌, arith,
}
use esp32_rs_on_idf.Common.Float.{FloatOps}
use esp32_rs_on_idf.Domain.Types.{ok}
use esp32_rs_on_idf.Domain.Calibration.{CalibrationData}
use esp32_rs_on_idf.Storage.Nvs.{NvsApi, FloatBits}
use esp32_rs_on_idf.Storage.Laws.{NvsLaws}
use esp32_rs_on_idf.Storage.Settings.{Memory, calibration_read, calibration_write}
use esp32_rs_on_idf.Storage.Writes.{is_ok}
use esp32_rs_on_idf.Storage.Survival.{Change, change_all, calibration_read-calibration_write}
use esp32_rs_on_idf.Application.BuretteCal.{
  CalStore, CalState, CalResponse, saved, overridden, defaults, calc_volume, calc_speed,
  handle_get_calibration, handle_calc_volume, handle_calc_speed, handle_save_calibration,
  handle_reset_calibration,
}

-- A request to the handlers that share the pending calibration.
pub data CalRequest (F : Type 0) : Type 0 where
  get reset : CalRequest F
  calc_volume_of : (mass_g temperature pressure : Option F) → CalRequest F
  calc_speed_of : List (F × F) → CalRequest F
  save : (steps_per_ml nom_volume : Option F) → CalRequest F

abbrev pub is_saved : {F : Type 0} → CalResponse F → Bool
is_saved (saved spm nom) = true
is_saved _ = false

module _ {W F : Type 0} ⦃o : FloatOps F⦄ (store : CalStore W F) where
  unfoldable pub handle : CalRequest F → CalState W F → CalState W F × CalResponse F
  handle get st =
      let (w1, response) = handle_get_calibration store st.outside in
      (record st { outside = w1 }, response)
  handle reset st = handle_reset_calibration store st
  handle (calc_volume_of mass temp pressure) st = handle_calc_volume store mass temp pressure st
  handle (calc_speed_of measurements) st = handle_calc_speed store measurements st
  handle (save spm nom) st = handle_save_calibration store spm nom st

  unfoldable pub handle_all : List (CalRequest F) → CalState W F → CalState W F
  handle_all [] st = st
  handle_all (r ∷ requests) st = handle_all requests (handle r st).0

-- The frequencies of the pending calibration, which no handler changes.
pub record Range {F : Type 0} (cal : CalibrationData F) : Type 0 where
  pub low : cal.min_freq_hz ≡ 30
  pub high : cal.max_freq_hz ≡ 3000

module _ {W F : Type 0} ⦃o : FloatOps F⦄ (store : CalStore W F) where
  handle-Range :
      (r : CalRequest F) (st : CalState W F)
      → Range st.pending
      → Range (handle store r st).0.pending
  unfolding handle handle_get_calibration handle_reset_calibration handle_calc_volume
      handle_calc_speed handle_save_calibration calc_volume calc_speed
  handle-Range get st v = ground arith
  handle-Range reset st v = ground arith
  handle-Range (calc_volume_of none temp pressure) st v = ground arith
  handle-Range (calc_volume_of (some mass) temp pressure) st v = ground arith
  handle-Range (calc_speed_of measurements) st v = ground arith
  handle-Range (save spm nom) st v = ground arith

  handle_all-Range :
      (requests : List (CalRequest F)) (st : CalState W F)
      → Range st.pending
      → Range (handle_all store requests st).pending
  unfolding handle_all
  handle_all-Range [] st v = v
  handle_all-Range (r ∷ requests) st v =
      handle_all-Range requests (handle store r st).0 (handle-Range r st v)

-- The callbacks that the dispatch passes to the handlers.
abbrev pub nvs_store :
    {S H F : Type 0} → NvsApi S H → ⦃o : FloatOps F⦄ → FloatBits F → CalStore (Memory S F) F
nvs_store api bits = record {
  read_cal = calibration_read api bits;
  write_cal = calibration_write api bits;
}

-- `gPendingCal` after its initialization.
abbrev pub initial : {W F : Type 0} ⦃o : FloatOps F⦄ → W → CalState W F
initial w = record { pending = defaults; outside = w }

module _ {W F : Type 0} ⦃o : FloatOps F⦄ (store : CalStore W F) where
  save-eq :
      (spm nom : Option F) (st : CalState W F)
      → is_saved (handle_save_calibration store spm nom st).1 ≡ true
      → let cal = overridden spm nom st.pending in
        (is_ok (store.write_cal cal st.outside).1 ≡ true)
        × ((handle_save_calibration store spm nom st).0
            ≡ record { pending = cal; outside = (store.write_cal cal st.outside).0 })
  unfolding handle_save_calibration
  save-eq spm nom st e = ground (arith, e)

  pending-handle_reset_calibration :
      (st : CalState W F) → (handle_reset_calibration store st).0.pending ≡ st.pending
  unfolding handle_reset_calibration
  pending-handle_reset_calibration st = ground arith

  -- What a volume is computed to is what becomes pending.
  calc_volume-announced :
      (mass temp pressure : Option F) (st : CalState W F) (z v spm e : F)
      → (handle_calc_volume store mass temp pressure st).1 ≡ CalResponse.volume z v spm e
      → (handle_calc_volume store mass temp pressure st).0.pending
        ≡ record st.pending { steps_per_ml = spm; nominal_volume_ml = v }
  unfolding handle_calc_volume calc_volume
  calc_volume-announced none temp pressure st z v spm e h = cc
  calc_volume-announced (some mass) temp pressure st z v spm e h = ground (arith, h)

module _ {S H F : Type 0} {api : NvsApi S H} (laws : NvsLaws api) ⦃o : FloatOps F⦄
    (bits : FloatBits F) where
  saved-read :
      (changes : List Change) (spm nom : Option F) (st : CalState (Memory S F) F)
      → Range st.pending
      → is_saved (handle_save_calibration (nvs_store api bits) spm nom st).1 ≡ true
      → let n = (handle_save_calibration (nvs_store api bits) spm nom st).0 in
        let cal = overridden spm nom st.pending in
        (n.pending ≡ cal)
        × ((calibration_read api bits (change_all api bits changes n.outside)).1 ≡ ok cal)
  saved-read changes spm nom st v e =
      let (good, same) = save-eq (nvs_store api bits) spm nom st e in
      let cal = overridden spm nom st.pending in
      let small_min : cal.min_freq_hz < 65_536 = omega (arith, v.low) in
      let small_max : cal.max_freq_hz < 65_536 = omega (arith, v.high) in
      rw same (
        refl,
        (calibration_read-calibration_write laws bits cal changes st.outside small_min small_max
            good).0,
      )

  module _ (requests : List (CalRequest F)) (m : Memory S F) where
    abbrev reached : CalState (Memory S F) F
    reached = handle_all (nvs_store api bits) requests (initial m)

    reached-Range : Range reached.pending
    reached-Range =
        handle_all-Range (nvs_store api bits) requests (initial m)
          (record { low = refl; high = refl })

    -- What calcVolume answers with after any requests is what is read back after a plain save that
    -- succeeds: the new steps per millilitre and the actual volume, beside the pending speed.
    pub handle_calc_volume-saved :
        (changes : List Change) (mass temp pressure : Option F) (z v spm rel : F)
        → let st = handle_all (nvs_store api bits) requests (initial m) in
          (handle_calc_volume (nvs_store api bits) mass temp pressure st).1
            ≡ CalResponse.volume z v spm rel
          → is_saved
              (handle_save_calibration
                (nvs_store api bits)
                none
                none
                (handle_calc_volume
                  (nvs_store api bits)
                  mass
                  temp
                  pressure
                  (handle_all (nvs_store api bits) requests (initial m))).0).1
            ≡ true
          → let st = handle_all (nvs_store api bits) requests (initial m) in
            let n =
              (handle_save_calibration
                (nvs_store api bits)
                none
                none
                (handle_calc_volume (nvs_store api bits) mass temp pressure st).0).0 in
            (calibration_read api bits (change_all api bits changes n.outside)).1
            ≡ ok (record st.pending { steps_per_ml = spm; nominal_volume_ml = v })
    handle_calc_volume-saved changes mass temp pressure z v spm rel h e =
        let store = nvs_store api bits in
        let st1 = (handle_calc_volume store mass temp pressure reached).0 in
        let keeps : Range st1.pending =
          unfold handle in
          handle-Range store (calc_volume_of mass temp pressure) reached reached-Range in
        (saved-read changes none none st1 keeps e).1
        ∙ ap ok (calc_volume-announced store mass temp pressure reached z v spm rel h)

    -- A reset that succeeds does not reset the pending calibration: a plain save after it stores
    -- what was pending before, not the defaults.
    pub handle_reset_calibration-pending :
        (changes : List Change)
        → is_saved
            (handle_save_calibration
              (nvs_store api bits)
              none
              none
              (handle_reset_calibration
                (nvs_store api bits)
                (handle_all (nvs_store api bits) requests (initial m))).0).1
          ≡ true
        → let st = handle_all (nvs_store api bits) requests (initial m) in
          let n =
            (handle_save_calibration
              (nvs_store api bits)
              none
              none
              (handle_reset_calibration (nvs_store api bits) st).0).0 in
          (calibration_read api bits (change_all api bits changes n.outside)).1 ≡ ok st.pending
    handle_reset_calibration-pending changes e =
        let store = nvs_store api bits in
        let st1 = (handle_reset_calibration store reached).0 in
        let keeps : Range st1.pending =
          unfold handle in handle-Range store reset reached reached-Range in
        (saved-read changes none none st1 keeps e).1
        ∙ ap ok (pending-handle_reset_calibration store reached)
