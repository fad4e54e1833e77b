-- ===== src/Storage/Frame.antt =====
-- What a write leaves alone: the other namespaces, whether it succeeds or not.
use Prim.Native.String.{String}
use text.Mathlib.Text.{◌==◌ as str_eq}
use esp32_rs_on_idf.Common.{
  ℕ, ◌≡◌, refl, ◌∙◌, Bool, false, ◌&&◌, if◌then◌else◌, Option-cases, inl, inr, List, arith,
}
use esp32_rs_on_idf.Common.Int.{ℤ}
use esp32_rs_on_idf.Domain.Types.{ok}
use esp32_rs_on_idf.Storage.Nvs.{
  NvsApi, Action, ◌>>◌, check, with_handle, refuse, set_u8, set_u32, set_i32, set_str, erase_key,
}
use esp32_rs_on_idf.Storage.Laws.{NvsLaws}
use esp32_rs_on_idf.Storage.Settings.{◌then_try◌}
use esp32_rs_on_idf.Storage.Writes.{with_handle-none, with_handle-some}

module _ {S H : Type 0} {api : NvsApi S H} (laws : NvsLaws api) (n : String) where
  -- An action that changes no value of the namespace `n`.
  pub record Keeps {A : Type 0} (m : Action S A) : Type 0 where
    pub kept : (s : S) (k : String) → laws.contents (m s).0 n k ≡ laws.contents s n k

  pub Keeps-bind :
      {A B : Type 0} (m : Action S A) (k : Action S B) → Keeps m → Keeps k → Keeps (m >> k)
  Keeps-bind m k km kk = record {
    kept = λ s key. ground (arith, kk.kept (m s).0 key, km.kept s key);
  }

  pub Keeps-then_try : (m k : Action S Unit) → Keeps m → Keeps k → Keeps (m then_try k)
  Keeps-then_try m k km kk = record { kept = λ s key. kk.kept (m s).0 key ∙ km.kept s key }

  pub Keeps-if :
      (test : S → Bool) (m : Action S Unit)
      → Keeps m
      → Keeps (λ s. if test s then m s else (s, ok tt))
  Keeps-if test m km = record { kept = λ s k. ground (arith, km.kept s k) }

  Keeps-check :
      (m : S → S × Bool)
      → ((s : S) (k : String) → laws.contents (m s).0 n k ≡ laws.contents s n k)
      → Keeps (check m)
  Keeps-check m e = record { kept = e }

  Keeps-then_commit :
      (m : S → S × Bool) (h : H)
      → ((s : S) (k : String) → laws.contents (m s).0 n k ≡ laws.contents s n k)
      → Keeps (check m >> check (api.nvs_commit h))
  Keeps-then_commit m h e =
      Keeps-bind (check m) (check (api.nvs_commit h)) (Keeps-check m e)
        (Keeps-check (api.nvs_commit h) (λ s k. laws.commit_contents h s n k))

  module _ (h : H) (other : str_eq (laws.name h) n ≡ false) where
    elsewhere : (key k : String) → (str_eq (laws.name h) n && str_eq key k) ≡ false
    elsewhere key k = rw other refl

    pub set_u8-Keeps : (key : String) (v : ℕ) → Keeps (set_u8 api h key v)
    unfolding set_u8
    set_u8-Keeps key v =
        Keeps-then_commit (api.nvs_set_u8 h key v) h
          (λ s k. laws.set_u8_frame h key v s n k (elsewhere key k))

    pub set_u32-Keeps : (key : String) (v : ℕ) → Keeps (set_u32 api h key v)
    unfolding set_u32
    set_u32-Keeps key v =
        Keeps-then_commit (api.nvs_set_u32 h key v) h
          (λ s k. laws.set_u32_frame h key v s n k (elsewhere key k))

    pub set_i32-Keeps : (key : String) (v : ℤ) → Keeps (set_i32 api h key v)
    unfolding set_i32
    set_i32-Keeps key v =
        Keeps-then_commit (api.nvs_set_i32 h key v) h
          (λ s k. laws.set_i32_frame h key v s n k (elsewhere key k))

    pub set_str-Keeps : (key : String) (v : List ℕ) → Keeps (set_str api h key v)
    unfolding set_str
    set_str-Keeps key v =
        Keeps-then_commit (api.nvs_set_str h key v) h
          (λ s k. laws.set_str_frame h key v s n k (elsewhere key k))

    pub erase_key-Keeps : (key : String) → Keeps (erase_key api h key)
    unfolding erase_key
    erase_key-Keeps key =
        Keeps-then_commit (api.nvs_erase_key h key) h
          (λ s k. laws.erase_key_frame h key s n k (elsewhere key k))

  module _ {A : Type 0} (ns : String) (read_write : Bool) (body : H → Action S A) where
    -- A value that the body keeps is kept by all that is done with a handle.
    pub with_handle-kept :
        (s : S) (k : String)
        → ((h : H)
            → laws.name h ≡ ns
            → let s1 = (api.nvs_open ns read_write s).0 in
              laws.contents (body h s1).0 n k ≡ laws.contents s1 n k)
        → laws.contents (with_handle api ns read_write (refuse api) body s).0 n k
          ≡ laws.contents s n k
    with_handle-kept s k w = elim (Option-cases (api.nvs_open ns read_write s).1) [
      | inl shut ↦
          rw
            (
              with_handle-none api ns read_write (refuse api) body s shut,
              laws.open_contents ns read_write s n k,
            )
            refl
      | inr (h, opened) ↦
          let s1 = (api.nvs_open ns read_write s).0 in
          rw
            (
              with_handle-some api ns read_write (refuse api) body s h opened,
              laws.close_contents h (body h s1).0 n k,
              w h (laws.open_name ns read_write s h opened),
              laws.open_contents ns read_write s n k,
            )
            refl
    ]

    pub with_handle-Keeps :
        ((h : H) → laws.name h ≡ ns → Keeps (body h))
        → Keeps (with_handle api ns read_write (refuse api) body)
    with_handle-Keeps w = record {
      kept = λ s k. with_handle-kept s k (λ h e. (w h e).kept (api.nvs_open ns read_write s).0 k);
    }
