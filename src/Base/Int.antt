-- ===== src/Base/Int.antt =====
-- Signed integers. An `i16` is the integer that it stands for; on the wire it is its two's complement
-- pattern.
use Prim.Native.Nat.{ℕ, ◌-◌, ◌^◌, ◌<◌}
use mathlib.Core.Path.{◌≡◌}
use native.Mathlib.Omega.{arith}
use ether_dream.Base.Tests.{ltb, if◌then◌else◌}

-- `negsuc n` is -(n + 1).
pub data ℤ : Type 0 where
  pos : ℕ → ℤ
  negsuc : ℕ → ℤ

abbrev pub IsI16 : ℤ → Type 0
IsI16 (pos n) = n < 2 ^ 15
IsI16 (negsuc n) = n < 2 ^ 15

-- `as u16`.
abbrev pub u16_of_i16 : ℤ → ℕ
u16_of_i16 (pos n) = n
u16_of_i16 (negsuc n) = 2 ^ 16 - 1 - n

-- `as i16`.
abbrev pub i16_of_u16 : ℕ → ℤ
i16_of_u16 w = if ltb w (2 ^ 15) then pos w else negsuc (2 ^ 16 - 1 - w)

-- The `i32` of 32 bits.
unfoldable pub i32_of_u32 : ℕ → ℤ
i32_of_u32 w = if ltb w (2 ^ 31) then pos w else negsuc (2 ^ 32 - 1 - w)

pub i16_of_u16-u16_of_i16 : (x : ℤ) → IsI16 x → i16_of_u16 (u16_of_i16 x) ≡ x
i16_of_u16-u16_of_i16 (pos n) h = ground arith
i16_of_u16-u16_of_i16 (negsuc n) h = ground arith

pub u16_of_i16-i16_of_u16 : (w : ℕ) → w < 2 ^ 16 → u16_of_i16 (i16_of_u16 w) ≡ w
u16_of_i16-i16_of_u16 w h = ground arith

pub u16_of_i16-lt : (x : ℤ) → IsI16 x → u16_of_i16 x < 2 ^ 16
u16_of_i16-lt (pos n) h = omega arith
u16_of_i16-lt (negsuc n) h = omega arith

pub i16_of_u16-IsI16 : (w : ℕ) → w < 2 ^ 16 → IsI16 (i16_of_u16 w)
i16_of_u16-IsI16 w h = ground arith
