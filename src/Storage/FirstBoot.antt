-- ===== src/Storage/FirstBoot.antt =====
-- The first boot: what `nvsInit` leaves in a flash memory without a calibration.
use Prim.Native.String.{String}
use esp32_rs_on_idf.Common.{ℕ, ◌≡◌, true, some}
use esp32_rs_on_idf.Common.Int.{ℤ}
use esp32_rs_on_idf.Storage.Nvs.{NvsApi}
use esp32_rs_on_idf.Storage.Writes.{Writes}

-- A flash memory in which every namespace opens and every write succeeds.
pub record Reliable {S H : Type 0} (api : NvsApi S H) : Type 0 where
  pub opens : (ns : String) (s : S) → (h : H) × ((api.nvs_open ns true s).1 ≡ some h)
  pub sets_u32 : (h : H) (key : String) (v : ℕ) (s : S) → (api.nvs_set_u32 h key v s).1 ≡ true
  pub sets_i32 : (h : H) (key : String) (v : ℤ) (s : S) → (api.nvs_set_i32 h key v s).1 ≡ true
  pub commits : (h : H) (s : S) → (api.nvs_commit h s).1 ≡ true
