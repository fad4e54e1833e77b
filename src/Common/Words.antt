-- ===== src/Common/Words.antt =====
-- Machine words: an unsigned value of w bits is a number below 2 ^ w, and its arithmetic wraps.
use Prim.Native.Nat.{ℕ, ◌+◌, ◌-◌, ◌%◌, ◌<◌}
use mathlib.Core.Path.{◌≡◌}
use native.Mathlib.Omega.{arith}

abbrev pub u8 : ℕ → ℕ
u8 n = n % 256

abbrev pub u16 : ℕ → ℕ
u16 n = n % 65_536

abbrev pub u32 : ℕ → ℕ
u32 n = n % 4_294_967_296

-- `uint32_t` a - b.
abbrev pub sub32 : ℕ → ℕ → ℕ
sub32 a b = (a + (4_294_967_296 - b)) % 4_294_967_296

-- A counter that wraps still measures every span below 2 ^ 32.
pub sub32-add : (a d : ℕ) → a < 4_294_967_296 → d < 4_294_967_296 → sub32 (u32 (a + d)) a ≡ d
sub32-add a d ha hd = omega arith
