-- ===== src/Storage/Nvs.antt =====
-- components/infrastructure/src/storage/nvs.cpp and include/infrastructure/storage/nvs.hpp: the
-- handle of a namespace. The functions `nvs_*` of ESP-IDF are a parameter, `NvsApi`, over a type of
-- flash memories and one of handles; a text is its bytes, without the NUL. `std::bit_cast`, which
-- keeps every bit, is one too.
use Prim.Native.String.{String}
use esp32_rs_on_idf.Common.{ℕ, ◌≡◌, Bool, if◌then◌else◌, Option, none, some, List}
use esp32_rs_on_idf.Common.Int.{ℤ}
use esp32_rs_on_idf.Domain.Types.{Result, ok, unexpected}

pub data ResourceError : Type 0 where
  nvs_open_failed out_of_memory : ResourceError

-- What an `nvs_get_*` reports: `ESP_OK` with a value, `ESP_ERR_NVS_NOT_FOUND`, another error.
pub data NvsRead {ℓ} (A : Type ℓ) : Type ℓ where
  found : A → NvsRead A
  not_found read_failed : NvsRead A

-- The Boolean of a write says whether it returned `ESP_OK`; a failed write may have changed the
-- flash memory as well.
pub record NvsApi (S H : Type 0) : Type 0 where
  pub nvs_open : String → (read_write : Bool) → S → S × Option H
  pub nvs_close : H → S → S
  pub nvs_get_u8 : H → String → S → NvsRead ℕ
  pub nvs_get_u32 : H → String → S → NvsRead ℕ
  pub nvs_get_i32 : H → String → S → NvsRead ℤ
  pub nvs_get_str : H → String → (buf_size : ℕ) → S → NvsRead (List ℕ)
  pub nvs_set_u8 : H → String → ℕ → S → S × Bool
  pub nvs_set_u32 : H → String → ℕ → S → S × Bool
  pub nvs_set_i32 : H → String → ℤ → S → S × Bool
  pub nvs_set_str : H → String → List ℕ → S → S × Bool
  pub nvs_erase_key : H → String → S → S × Bool
  pub nvs_erase_all : H → S → S × Bool
  pub nvs_commit : H → S → S × Bool

pub record FloatBits (F : Type 0) : Type 0 where
  pub to_bits : F → ℕ
  pub of_bits : ℕ → F
  pub bits_back : (x : F) → of_bits (to_bits x) ≡ x

-- What changes a state and may fail: what was written before a failure stays written.
abbrev pub Action : Type 0 → Type 0 → Type 0
Action S A = S → S × Result A ResourceError

infixl 5 ◌>>=◌ ◌>>◌
abbrev pub ◌>>=◌ : {S A B : Type 0} → Action S A → (A → Action S B) → Action S B
◌>>=◌ m f s = let (s', r) = m s in elim r [ ok a ↦ f a s' | unexpected e ↦ (s', unexpected e) ]

abbrev pub ◌>>◌ : {S A B : Type 0} → Action S A → Action S B → Action S B
m >> k = m >>= λ _. k

-- `if (err != ESP_OK) return std::unexpected(...)`.
abbrev pub check : {S : Type 0} → (S → S × Bool) → Action S Unit
check m s = let (s', good) = m s in (s', if good then ok tt else unexpected nvs_open_failed)

-- The end of every getter.
abbrev pub read_result : {A B : Type 0} → (A → B) → NvsRead A → Result (Option B) ResourceError
read_result f (found a) = ok (some (f a))
read_result f not_found = ok none
read_result f read_failed = unexpected nvs_open_failed

module _ {S H : Type 0} (api : NvsApi S H) where
  -- A handle from its constructor to its destructor; `otherwise` is for one that is not valid.
  unfoldable pub with_handle :
      {A : Type 0} → String → (read_write : Bool) → Action S A → (H → Action S A) → Action S A
  with_handle ns read_write otherwise body s =
      let (s1, opened) = api.nvs_open ns read_write s in
      elim opened [
        | none ↦ otherwise s1
        | some handle ↦ let (s2, r) = body handle s1 in (api.nvs_close handle s2, r)
      ]

  abbrev pub refuse : {A : Type 0} → Action S A
  refuse s = (s, unexpected nvs_open_failed)

  unfoldable pub get_u8 : H → String → S → Result (Option ℕ) ResourceError
  get_u8 handle key s = read_result (λ v. v) (api.nvs_get_u8 handle key s)

  unfoldable pub set_u8 : H → String → ℕ → Action S Unit
  set_u8 handle key value = do
    check (api.nvs_set_u8 handle key value)
    check (api.nvs_commit handle)

  unfoldable pub get_u32 : H → String → S → Result (Option ℕ) ResourceError
  get_u32 handle key s = read_result (λ v. v) (api.nvs_get_u32 handle key s)

  unfoldable pub set_u32 : H → String → ℕ → Action S Unit
  set_u32 handle key value = do
    check (api.nvs_set_u32 handle key value)
    check (api.nvs_commit handle)

  unfoldable pub get_i32 : H → String → S → Result (Option ℤ) ResourceError
  get_i32 handle key s = read_result (λ v. v) (api.nvs_get_i32 handle key s)

  unfoldable pub set_i32 : H → String → ℤ → Action S Unit
  set_i32 handle key value = do
    check (api.nvs_set_i32 handle key value)
    check (api.nvs_commit handle)

  unfoldable pub get_str : H → String → ℕ → S → Result (Option (List ℕ)) ResourceError
  get_str handle key buf_size s = read_result (λ v. v) (api.nvs_get_str handle key buf_size s)

  unfoldable pub set_str : H → String → List ℕ → Action S Unit
  set_str handle key value = do
    check (api.nvs_set_str handle key value)
    check (api.nvs_commit handle)

  unfoldable pub erase_key : H → String → Action S Unit
  erase_key handle key = do check (api.nvs_erase_key handle key); check (api.nvs_commit handle)

  unfoldable pub erase_all : H → Action S Unit
  erase_all handle = do check (api.nvs_erase_all handle); check (api.nvs_commit handle)

  module _ {F : Type 0} (bits : FloatBits F) where
    unfoldable pub get_f32 : H → String → S → Result (Option F) ResourceError
    get_f32 handle key s = read_result bits.of_bits (api.nvs_get_u32 handle key s)

    unfoldable pub set_f32 : H → String → F → Action S Unit
    set_f32 handle key value = do
      check (api.nvs_set_u32 handle key (bits.to_bits value))
      check (api.nvs_commit handle)
