-- ===== src/Storage/Laws.antt =====
-- What the code relies on in ESP-IDF's `nvs_*`: laws about the value under a name and a key.
use Prim.Native.String.{String}
use text.Mathlib.Text.{◌==◌ as str_eq}
use esp32_rs_on_idf.Common.{
  ℕ, ◌≡◌, refl, Bool, true, false, ◌&&◌, if◌then◌else◌, Option, none, some, List, [], ◌∷◌, ◌++◌,
}
use esp32_rs_on_idf.Common.Int.{ℤ}
use esp32_rs_on_idf.Domain.Types.{ok}
use esp32_rs_on_idf.Storage.Nvs.{NvsApi, found, not_found, get_u32, get_i32}

pub data NvsValue : Type 0 where
  u32_value : ℕ → NvsValue
  i32_value : ℤ → NvsValue

-- A write: the namespace, the key and the value.
pub record Entry : Type 0 where
  pub ns : String
  pub key : String
  pub value : NvsValue

-- The value under a name and a key after a write, and after a list of writes, the oldest first.
abbrev pub entered : Entry → String → String → Option NvsValue → Option NvsValue
entered e ns key old = if str_eq e.ns ns && str_eq e.key key then some e.value else old

abbrev pub after : List Entry → String → String → Option NvsValue → Option NvsValue
after [] ns key old = old
after (e ∷ entries) ns key old = after entries ns key (entered e ns key old)

pub after-append :
    (xs ys : List Entry) (ns key : String) (old : Option NvsValue)
    → after (xs ++ ys) ns key old ≡ after ys ns key (after xs ns key old)
after-append [] ys ns key old = refl
after-append (e ∷ xs) ys ns key old = after-append xs ys ns key (entered e ns key old)

-- ESP-IDF's documentation of the functions: a write that returned `ESP_OK` is read back by every
-- handle of its namespace; opening, closing and committing change no value; a namespace that holds
-- a value opens for reading; a read finds the value, or reports that there is none.
pub record NvsLaws {S H : Type 0} (api : NvsApi S H) : Type 0 where
  pub contents : S → String → String → Option NvsValue
  pub name : H → String
  pub open_contents :
      (ns : String) (read_write : Bool) (s : S) (n key : String)
      → contents (api.nvs_open ns read_write s).0 n key ≡ contents s n key
  pub open_name :
      (ns : String) (read_write : Bool) (s : S) (h : H)
      → (api.nvs_open ns read_write s).1 ≡ some h
      → name h ≡ ns
  pub open_stored :
      (ns key : String) (s : S) (v : NvsValue)
      → contents s ns key ≡ some v
      → (h : H) × ((api.nvs_open ns false s).1 ≡ some h)
  pub close_contents :
      (h : H) (s : S) (n key : String) → contents (api.nvs_close h s) n key ≡ contents s n key
  pub commit_contents :
      (h : H) (s : S) (n key : String) → contents (api.nvs_commit h s).0 n key ≡ contents s n key
  pub set_u32_contents :
      (h : H) (key : String) (v : ℕ) (s : S) (n k : String)
      → (api.nvs_set_u32 h key v s).1 ≡ true
      → contents (api.nvs_set_u32 h key v s).0 n k
        ≡ entered (record { ns = name h; key = key; value = u32_value v }) n k (contents s n k)
  pub set_i32_contents :
      (h : H) (key : String) (v : ℤ) (s : S) (n k : String)
      → (api.nvs_set_i32 h key v s).1 ≡ true
      → contents (api.nvs_set_i32 h key v s).0 n k
        ≡ entered (record { ns = name h; key = key; value = i32_value v }) n k (contents s n k)
  -- A write of one key changes no other, if it fails too.
  pub set_u8_frame :
      (h : H) (key : String) (v : ℕ) (s : S) (n k : String)
      → (str_eq (name h) n && str_eq key k) ≡ false
      → contents (api.nvs_set_u8 h key v s).0 n k ≡ contents s n k
  pub set_u32_frame :
      (h : H) (key : String) (v : ℕ) (s : S) (n k : String)
      → (str_eq (name h) n && str_eq key k) ≡ false
      → contents (api.nvs_set_u32 h key v s).0 n k ≡ contents s n k
  pub set_i32_frame :
      (h : H) (key : String) (v : ℤ) (s : S) (n k : String)
      → (str_eq (name h) n && str_eq key k) ≡ false
      → contents (api.nvs_set_i32 h key v s).0 n k ≡ contents s n k
  pub set_str_frame :
      (h : H) (key : String) (v : List ℕ) (s : S) (n k : String)
      → (str_eq (name h) n && str_eq key k) ≡ false
      → contents (api.nvs_set_str h key v s).0 n k ≡ contents s n k
  pub erase_key_frame :
      (h : H) (key : String) (s : S) (n k : String)
      → (str_eq (name h) n && str_eq key k) ≡ false
      → contents (api.nvs_erase_key h key s).0 n k ≡ contents s n k
  pub get_u32_contents :
      (h : H) (key : String) (s : S) (v : ℕ)
      → contents s (name h) key ≡ some (u32_value v)
      → api.nvs_get_u32 h key s ≡ found v
  pub get_i32_contents :
      (h : H) (key : String) (s : S) (v : ℤ)
      → contents s (name h) key ≡ some (i32_value v)
      → api.nvs_get_i32 h key s ≡ found v
  pub get_u32_absent :
      (h : H) (key : String) (s : S)
      → contents s (name h) key ≡ none
      → api.nvs_get_u32 h key s ≡ not_found

module _ {S H : Type 0} {api : NvsApi S H} (laws : NvsLaws api) where
  pub get_u32-some :
      (h : H) (key : String) (s : S) (v : ℕ)
      → laws.contents s (laws.name h) key ≡ some (u32_value v)
      → get_u32 api h key s ≡ ok (some v)
  unfolding get_u32
  get_u32-some h key s v e = rw (laws.get_u32_contents h key s v e) refl

  pub get_i32-some :
      (h : H) (key : String) (s : S) (v : ℤ)
      → laws.contents s (laws.name h) key ≡ some (i32_value v)
      → get_i32 api h key s ≡ ok (some v)
  unfolding get_i32
  get_i32-some h key s v e = rw (laws.get_i32_contents h key s v e) refl
