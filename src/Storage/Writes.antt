-- ===== src/Storage/Writes.antt =====
-- What the flash memory holds after a chain of writes that succeed.
use Prim.Native.String.{String}
use mathlib.Core.Path.{subst}
use esp32_rs_on_idf.Common.{
  ℕ, ◌≡◌, refl, sym, Bool, true, false, none, some, Option-cases, inl, inr, List, [], ◌∷◌, ◌++◌,
  arith,
}
use esp32_rs_on_idf.Common.Int.{ℤ}
use esp32_rs_on_idf.Domain.Types.{Result, ok, unexpected}
use esp32_rs_on_idf.Storage.Nvs.{
  NvsApi, FloatBits, Action, ◌>>◌, check, with_handle, refuse, set_u32, set_i32, set_f32,
}
use esp32_rs_on_idf.Storage.Laws.{
  NvsValue, u32_value, i32_value, Entry, entered, after, after-append, NvsLaws,
}

abbrev pub is_ok : {A E : Type 0} → Result A E → Bool
is_ok (ok a) = true
is_ok (unexpected e) = false

pub >>-is_ok :
    {S A B : Type 0} (m : Action S A) (k : Action S B) (s : S)
    → is_ok ((m >> k) s).1 ≡ true
    → (is_ok (m s).1 ≡ true) × (is_ok (k (m s).0).1 ≡ true) × (((m >> k) s).0 ≡ (k (m s).0).0)
>>-is_ok m k s h = ground arith

check-is_ok : {S : Type 0} (m : S → S × Bool) (s : S) → is_ok (check m s).1 ≡ true → (m s).1 ≡ true
check-is_ok m s h = ground arith

module _ {S H A : Type 0} (api : NvsApi S H) (ns : String) (read_write : Bool)
    (otherwise : Action S A) (body : H → Action S A) (s : S) where
  pub with_handle-none :
      (api.nvs_open ns read_write s).1 ≡ none
      → with_handle api ns read_write otherwise body s ≡ otherwise (api.nvs_open ns read_write s).0
  unfolding with_handle
  with_handle-none shut = ground (arith, shut)

  pub with_handle-some :
      (h : H)
      → (api.nvs_open ns read_write s).1 ≡ some h
      → let (s2, r) = body h (api.nvs_open ns read_write s).0 in
        with_handle api ns read_write otherwise body s ≡ (api.nvs_close h s2, r)
  unfolding with_handle
  with_handle-some h opened = ground (arith, opened)

pub with_handle-opens :
    {S H A : Type 0} (api : NvsApi S H) (ns : String) (read_write : Bool) (body : H → Action S A)
    (s : S)
    → is_ok (with_handle api ns read_write (refuse api) body s).1 ≡ true
    → (h : H) × ((api.nvs_open ns read_write s).1 ≡ some h)
      × (let (s2, r) = body h (api.nvs_open ns read_write s).0 in
          with_handle api ns read_write (refuse api) body s ≡ (api.nvs_close h s2, r))
with_handle-opens {A = A} api ns read_write body s e =
    elim (Option-cases (api.nvs_open ns read_write s).1) [
      | inl shut ↦
          let refused : is_ok (refuse api {A = A} (api.nvs_open ns read_write s).0).1 ≡ true =
            subst (λ x. is_ok x.1 ≡ true)
              (with_handle-none api ns read_write (refuse api) body s shut) e in
          cc refused
      | inr (h, opened) ↦
          (h, opened, with_handle-some api ns read_write (refuse api) body s h opened)
    ]

module _ {S H : Type 0} {api : NvsApi S H} (laws : NvsLaws api) where
  -- An action that, if it succeeds, has made the writes of a list.
  pub record Writes {A : Type 0} (m : Action S A) (entries : List Entry) : Type 0 where
    pub made :
        (s : S) (n k : String)
        → is_ok (m s).1 ≡ true
        → laws.contents (m s).0 n k ≡ after entries n k (laws.contents s n k)

  pub Writes-bind :
      {A B : Type 0} (m : Action S A) (k : Action S B) (xs ys : List Entry)
      → Writes m xs
      → Writes k ys
      → Writes (m >> k) (xs ++ ys)
  Writes-bind m k xs ys wm wk = record {
    made = λ s n key h.
        let (hm, hk, same) = >>-is_ok m k s h in
        rw (same, wk.made (m s).0 n key hk, wm.made s n key hm)
          (sym (after-append xs ys n key (laws.contents s n key)));
  }

  check-Writes :
      (m : S → S × Bool) (xs : List Entry)
      → ((s : S) (n k : String)
          → (m s).1 ≡ true
          → laws.contents (m s).0 n k ≡ after xs n k (laws.contents s n k))
      → Writes (check m) xs
  check-Writes m xs w = record { made = λ s n k e. w s n k (check-is_ok m s e) }

  abbrev pub entry : H → String → NvsValue → Entry
  entry h key value = record { ns = laws.name h; key = key; value = value }

  -- A write of one key, and its commit.
  then_commit :
      (m : S → S × Bool) (h : H) (e : Entry)
      → ((s : S) (n k : String)
          → (m s).1 ≡ true
          → laws.contents (m s).0 n k ≡ entered e n k (laws.contents s n k))
      → Writes (check m >> check (api.nvs_commit h)) (e ∷ [])
  then_commit m h e w =
      Writes-bind (check m) (check (api.nvs_commit h)) (e ∷ []) [] (check-Writes m (e ∷ []) w)
        (check-Writes (api.nvs_commit h) [] (λ s n k e. laws.commit_contents h s n k))

  pub set_u32-Writes :
      (h : H) (key : String) (v : ℕ) → Writes (set_u32 api h key v) (entry h key (u32_value v) ∷ [])
  unfolding set_u32
  set_u32-Writes h key v =
      then_commit (api.nvs_set_u32 h key v) h (entry h key (u32_value v))
        (λ s n k. laws.set_u32_contents h key v s n k)

  pub set_i32-Writes :
      (h : H) (key : String) (v : ℤ) → Writes (set_i32 api h key v) (entry h key (i32_value v) ∷ [])
  unfolding set_i32
  set_i32-Writes h key v =
      then_commit (api.nvs_set_i32 h key v) h (entry h key (i32_value v))
        (λ s n k. laws.set_i32_contents h key v s n k)

  pub set_f32-Writes :
      {F : Type 0} (bits : FloatBits F) (h : H) (key : String) (v : F)
      → Writes (set_f32 api bits h key v) (entry h key (u32_value (bits.to_bits v)) ∷ [])
  unfolding set_f32
  set_f32-Writes bits h key v =
      then_commit (api.nvs_set_u32 h key (bits.to_bits v)) h
        (entry h key (u32_value (bits.to_bits v)))
        (λ s n k. laws.set_u32_contents h key (bits.to_bits v) s n k)

  module _ {A : Type 0} (ns : String) (read_write : Bool) (body : H → Action S A) where
    -- What is written through a handle for a namespace is written under its name.
    pub with_handle-Writes :
        (entries : String → List Entry)
        → ((h : H) → Writes (body h) (entries (laws.name h)))
        → Writes (with_handle api ns read_write (refuse api) body) (entries ns)
    with_handle-Writes entries w = record {
      made = λ s n k e.
          let (h, opened, same) = with_handle-opens api ns read_write body s e in
          let s1 = (api.nvs_open ns read_write s).0 in
          rw
            (
              same,
              laws.close_contents h (body h s1).0 n k,
              (w h).made s1 n k (subst (λ x. is_ok x.1 ≡ true) same e),
              laws.open_name ns read_write s h opened,
              laws.open_contents ns read_write s n k,
            )
            refl;
    }
