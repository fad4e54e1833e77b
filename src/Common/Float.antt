-- ===== src/Common/Float.antt =====
-- The program's `float`, which is not interpreted: a type with the operations that the source uses
-- and none of the laws of real numbers. `lit m d` is the literal m / 10 ^ d.
use esp32_rs_on_idf.Common.{ℕ, ◌*◌, ◌/◌, ◌^◌, Bool, not, if◌then◌else◌}
use esp32_rs_on_idf.Common.Int.{ℤ, pos, negsuc, nat_abs, ltb_ℤ, ◌+ℤ◌, ◌-ℤ◌, ◌*ℤ◌}

pub record FloatOps (F : Type 0) : Type 0 where
  pub lit : ℕ → ℕ → F
  pub of_ℤ : ℤ → F
  -- `static_cast` to an integer, towards zero.
  pub trunc : F → ℤ
  -- `std::lround`, half away from zero.
  pub lround : F → ℤ
  pub add : F → F → F
  pub sub : F → F → F
  pub mul : F → F → F
  pub div : F → F → F
  pub fmod : F → F → F
  pub fabs : F → F
  pub lt : F → F → Bool
  pub le : F → F → Bool

infixl 65 ◌+f◌ ◌-f◌
infixl 70 ◌*f◌ ◌/f◌
abbrev pub ◌+f◌ : {F : Type 0} ⦃o : FloatOps F⦄ → F → F → F
◌+f◌ ⦃o⦄ = o.add

abbrev pub ◌-f◌ : {F : Type 0} ⦃o : FloatOps F⦄ → F → F → F
◌-f◌ ⦃o⦄ = o.sub

abbrev pub ◌*f◌ : {F : Type 0} ⦃o : FloatOps F⦄ → F → F → F
◌*f◌ ⦃o⦄ = o.mul

abbrev pub ◌/f◌ : {F : Type 0} ⦃o : FloatOps F⦄ → F → F → F
◌/f◌ ⦃o⦄ = o.div

abbrev pub lit : {F : Type 0} ⦃o : FloatOps F⦄ → ℕ → ℕ → F
lit ⦃o⦄ = o.lit

abbrev pub ltf : {F : Type 0} ⦃o : FloatOps F⦄ → F → F → Bool
ltf ⦃o⦄ = o.lt

abbrev pub lef : {F : Type 0} ⦃o : FloatOps F⦄ → F → F → Bool
lef ⦃o⦄ = o.le

-- An instance to run the model with: millionths, rounded towards zero.
unfoldable pub scale_down : ℤ → ℕ → ℤ
scale_down (pos n) d = pos (n / d)
scale_down (negsuc n) d = pos 0 -ℤ pos (nat_abs (negsuc n) / d)

unfoldable pub fixed_div : ℤ → ℤ → ℤ
fixed_div a (pos n) = scale_down (a *ℤ pos 1_000_000) n
fixed_div a (negsuc n) = pos 0 -ℤ scale_down (a *ℤ pos 1_000_000) (nat_abs (negsuc n))

unfoldable pub fixed_point : FloatOps ℤ
fixed_point = record {
  lit = λ m d. pos (m * 1_000_000 / 10 ^ d);
  of_ℤ = λ a. a *ℤ pos 1_000_000;
  trunc = λ a. scale_down a 1_000_000;
  lround =
      λ a. scale_down (if ltb_ℤ a (pos 0) then a -ℤ pos 500_000 else a +ℤ pos 500_000) 1_000_000;
  add = λ a b. a +ℤ b;
  sub = λ a b. a -ℤ b;
  mul = λ a b. scale_down (a *ℤ b) 1_000_000;
  div = fixed_div;
  fmod = λ a b. a -ℤ b *ℤ scale_down (fixed_div a b) 1_000_000;
  fabs = λ a. pos (nat_abs a);
  lt = ltb_ℤ;
  le = λ a b. not (ltb_ℤ b a);
}
